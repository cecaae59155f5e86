-- ===== src/Registration/Loader.antt =====
-- core/registration_store.js: how `FileBackend` rebuilds its index from the file, `#load()`. A file is
-- its lines, each as `JSON.parse` reads it; the flushes and the repairs of the file are not modelled,
-- but which repair is due is.
pub mod Written
pub mod InOrder
pub mod Reload
pub mod Malformed
mod Tests
use dash_mno_verify.Prelude.{
  ℕ, zero, suc, List, [], ◌∷◌, ◌++◌, Bool, true, false, not, ◌&&◌, ◌||◌, ◌==◌, string_eq, nat_eq,
  pair_eq, ltb, all_of, length, last?, set, String, Option, some, none, Result, ok, err, throw_if,
  or_throw, ◌>>=◌, ◌>>◌, if◌then◌else◌, map_result,
}
use dash_mno_verify.Prelude.JsMap
use dash_mno_verify.Prelude.JsMap.{JsMap}
use dash_mno_verify.Field.{is_canonical_field}
use dash_mno_verify.Stores.Order.{sort_by}
use dash_mno_verify.Registration.{
  Registration, Request, Bucket, Key, Backend, bucket_of, key_of, is_seen, records_of, or_default,
  declaration_of, conflict_with, is_valid_engine_statement,
}

-- A field that may be left out, or is something else than a string.
pub data Declared : Type 0 where
  absent other : Declared
  text : String → Declared

-- An object of the file. A season or an index that is no natural number is none, and so is a string
-- that is none.
pub record Parsed : Type 0 where
  pub season : Option ℕ
  pub context_hash : Option String
  pub reg_nullifier : Option String
  pub commitment : Option String
  pub engine : Declared
  pub statement : Declared
  pub index : Option ℕ

pub data Line : Type 0 where
  -- nothing but white space; no JSON; JSON that is no object
  blank malformed not_object : Line
  header : String → Line
  object : Parsed → Line

pub data LoadError : Type 0 where
  not_json other_schedule no_header repeated conflicting gap : LoadError
  unusable : String → LoadError

abbrev pub is_absent : Declared → Bool
is_absent absent = true
is_absent _ = false

-- A value that is no string is of no valid pair.
abbrev pub declared_text : Declared → String
declared_text absent = ""
declared_text other = ""
declared_text (text s) = s

abbrev pub declared_option : Declared → Option String
declared_option (text s) = some s
declared_option _ = none

abbrev pub canonical_or : String → Option String → Result String String
canonical_or reason none = err reason
canonical_or reason (some v) = if is_canonical_field v then ok v else err reason

-- `registrationRecordProblem`: the record, or its problem.
unfoldable pub registration_of : Parsed → Result String Registration
registration_of rec = do
  season ← or_throw rec.season "season"
  context_hash ← canonical_or "contextHash" rec.context_hash
  reg_nullifier ← canonical_or "regNullifier" rec.reg_nullifier
  commitment ← canonical_or "commitment" rec.commitment
  index ← or_throw rec.index "index"
  throw_if
      (not (is_absent rec.engine && is_absent rec.statement)
        && not (is_valid_engine_statement (declared_text rec.engine) (declared_text rec.statement)))
      "engine/statement"
  ok (record {
    request = record {
      season = season;
      context_hash = context_hash;
      reg_nullifier = reg_nullifier;
      commitment = commitment;
      engine = declared_option rec.engine;
      statement = declared_option rec.statement;
    };
    index = index;
  })

-- `sameRegistrationRecord`: the index is no part of it.
unfoldable pub same_registration : Registration → Registration → Bool
same_registration a b =
    let x = a.request in
    let y = b.request in
    (key_of x == key_of y)
    && (x.commitment == y.commitment)
    && (or_default "" x.engine == or_default "" y.engine)
    && (or_default "" x.statement == or_default "" y.statement)

pub record Loading : Type 0 where
  pub backend : Backend
  pub seen_header : Bool
  pub collapsed : ℕ

abbrev pub remember : Registration → Backend → Backend
remember r b = record {
  seen = key_of r.request ∷ b.seen;
  by_bucket =
      JsMap.put (bucket_of r.request) (records_of (bucket_of r.request) b ++ r ∷ []) b.by_bucket;
}

-- The bucket with its first record of the key replaced, where that one is the same registration.
unfoldable pub replace_same : Registration → List Registration → Option (List Registration)
replace_same r [] = none
replace_same r (x ∷ xs) =
    let rest = replace_same r xs in
    if key_of x.request == key_of r.request
    then (if same_registration x r then some (r ∷ xs) else none)
    else (elim rest [ none ↦ none | some ys ↦ some (x ∷ ys) ])

-- A record of a key that was loaded replaces the first one, if they are the same registration.
unfoldable pub collapse : Registration → Loading → Result LoadError Loading
collapse r l = do
  recs ← or_throw (replace_same r (records_of (bucket_of r.request) l.backend)) repeated
  ok (record l {
    backend = record (l.backend) {
      by_bucket = JsMap.put (bucket_of r.request) recs l.backend.by_bucket;
    };
    collapsed = suc l.collapsed;
  })

unfoldable pub load_record : Registration → Loading → Result LoadError Loading
load_record r l =
    if is_seen (key_of r.request) l.backend.seen
    then collapse r l
    else (elim (conflict_with (declaration_of r.request)
        (records_of (bucket_of r.request) l.backend)) [
          | some declared ↦ err conflicting
          | none ↦ ok (record l { backend = remember r l.backend })
        ])

abbrev pub other_than : Option String → String → Bool
other_than none written = false
other_than (some schedule) written = not (written == schedule)

abbrev pub load_object : Result String Registration → Loading → Result LoadError Loading
load_object (err problem) l = err (unusable problem)
load_object (ok r) l = load_record r l

-- One line that is neither blank nor malformed.
unfoldable pub load_line : Option String → Line → Loading → Result LoadError Loading
load_line schedule (header written) l =
    if other_than schedule written then err other_schedule else ok (record l { seen_header = true })
load_line schedule (object rec) l = load_object (registration_of rec) l
load_line schedule not_object l = err (unusable "not an object")
load_line schedule _ l = ok l

abbrev pub is_blank : Line → Bool
is_blank blank = true
is_blank _ = false

-- The lines in turn, and whether a torn last line was dropped: a malformed line is one only with
-- nothing but blank lines after it, in a file that does not end with a newline.
unfoldable pub load_lines :
    Option String → Bool → List Line → Loading → Result LoadError (Loading × Bool)
load_lines schedule ends_newline [] l = ok (l, false)
load_lines schedule ends_newline (blank ∷ lines) l = load_lines schedule ends_newline lines l
load_lines schedule ends_newline (malformed ∷ lines) l =
    if not ends_newline && all_of is_blank lines then ok (l, true) else err not_json
load_lines schedule ends_newline (line ∷ lines) l = do
  l' ← load_line schedule line l
  load_lines schedule ends_newline lines l'

abbrev pub last_index : List Registration → ℕ
last_index recs = elim (last? recs) [ none ↦ 0 | some r ↦ r.index ]

-- A bucket in the order of its indexes, which may not leave a gap before the next one.
unfoldable pub ordered : Bucket × List Registration → Result LoadError (Bucket × List Registration)
ordered (bucket, recs) =
    let sorted = sort_by Registration.index recs in
    if ltb (length sorted) (last_index sorted) then err gap else ok (bucket, sorted)

pub record Loaded : Type 0 where
  pub backend : Backend
  pub torn : Bool
  pub stamps : Bool

abbrev pub none_seen : List Key → Bool
none_seen [] = true
none_seen (k ∷ ks) = false

abbrev pub is_set : Option String → Bool
is_set none = false
is_set (some s) = true

abbrev pub start : Loading
start = record {
  backend = record { seen = []; by_bucket = [] };
  seen_header = false;
  collapsed = 0;
}

-- The checks after the lines: a store with records and no header is opened only on the operator's word.
unfoldable pub finish : Option String → Bool → Loading × Bool → Result LoadError Loaded
finish schedule assume (l, torn) = do
  throw_if (not l.seen_header && is_set schedule && not (none_seen l.backend.seen) && not assume)
      no_header
  by_bucket ← map_result ordered l.backend.by_bucket
  ok (record {
    backend = record { seen = l.backend.seen; by_bucket = by_bucket };
    torn = torn;
    stamps = not l.seen_header && is_set schedule;
  })

unfoldable pub load : Option String → Bool → Bool → List Line → Result LoadError Loaded
load schedule assume ends_newline lines = do
  read ← load_lines schedule ends_newline lines start
  finish schedule assume read
