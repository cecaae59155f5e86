-- ===== src/Registration/Loader/Written.antt =====
-- The lines that the appends of core/registration_store.js write, and how each is loaded.
use dash_mno_verify.Prelude.{
  ℕ, ◌≡◌, refl, List, [], ◌∷◌, ◌++◌, Bool, true, false, not, ◌&&◌, length, String, Option, some,
  none, ok, arith, inl, inr, string_eq, nat_eq, pair_eq,
}
use dash_mno_verify.Field.{is_canonical_field}
use dash_mno_verify.Registration
use dash_mno_verify.Registration.{
  Registration, Request, Bucket, Backend, Appended, bucket_of, key_of, records_of, push, empty,
  append_checked, append_all, is_valid, or_default, list_of, is_valid_engine_statement,
  declaration_of, conflict_with,
}
use dash_mno_verify.Registration.Outcomes.{append_checked-outcomes, is_refused}
use dash_mno_verify.Registration.Loader.{
  Declared, absent, text, Parsed, Line, header, object, Loading, declared_text, declared_option,
  is_absent, registration_of, load_record, load_line, load_lines,
}

-- What `JSON.parse` reads of a written field, and of the line that an append writes.
abbrev pub declared : Option String → Declared
declared none = absent
declared (some s) = text s

unfoldable pub written : Request → ℕ → Parsed
written d index = record {
  season = some d.season;
  context_hash = some d.context_hash;
  reg_nullifier = some d.reg_nullifier;
  commitment = some d.commitment;
  engine = declared d.engine;
  statement = declared d.statement;
  index = some index;
}

abbrev pub lines_of : Appended → Request → List Line
lines_of (Appended.appended index) d = object (written d index) ∷ []
lines_of _ d = []

-- The lines that the appends add to the file.
unfoldable pub write_log : List Request → Backend → List Line
write_log [] b = []
write_log (d ∷ ds) b = let (answer, b') = append_checked d b in lines_of answer d ++ write_log ds b'

abbrev pub header_lines : Option String → List Line
header_lines none = []
header_lines (some schedule) = header schedule ∷ []

lines_of-refused :
    (answer : Appended) (d : Request) → is_refused answer ≡ true → lines_of answer d ≡ []
lines_of-refused Appended.invalid d h = refl
lines_of-refused Appended.duplicate d h = refl
lines_of-refused (Appended.conflict c) d h = refl
lines_of-refused (Appended.appended index) d h = cc

declared_text-declared : (o : Option String) → declared_text (declared o) ≡ or_default "" o
declared_text-declared none = refl
declared_text-declared (some s) = refl

declared_option-declared : (o : Option String) → declared_option (declared o) ≡ o
declared_option-declared none = refl
declared_option-declared (some s) = refl

and_false : (x : Bool) → (x && false) ≡ false
and_false true = refl
and_false false = refl

registration_of-written :
    (d : Request) (index : ℕ)
    → is_valid d ≡ true
    → registration_of (written d index) ≡ ok (record { request = d; index = index })
unfolding registration_of written
registration_of-written d index h =
    let pair : is_valid_engine_statement (or_default "" d.engine) (or_default "" d.statement)
        ≡ true =
      ground arith in
    let c : is_canonical_field d.context_hash ≡ true = ground arith in
    let n : is_canonical_field d.reg_nullifier ≡ true = ground arith in
    let m : is_canonical_field d.commitment ≡ true = ground arith in
    rw
      (
        c,
        n,
        m,
        declared_text-declared d.engine,
        declared_text-declared d.statement,
        pair,
        and_false (not (is_absent (declared d.engine) && is_absent (declared d.statement))),
        declared_option-declared d.engine,
        declared_option-declared d.statement,
      )
      refl

-- A line that an append wrote is loaded as the append's own push.
load_line-written :
    (schedule : Option String) (d : Request) (l : Loading)
    → is_valid d ≡ true
    → Registration.has (key_of d) l.backend ≡ false
    → conflict_with (declaration_of d) (records_of (bucket_of d) l.backend) ≡ none
    → load_line schedule (object (written d (length (records_of (bucket_of d) l.backend)))) l
      ≡ ok (record l { backend = push d l.backend })
unfolding load_line load_record push
load_line-written schedule d l good fresh agrees =
    rw (registration_of-written d (length (records_of (bucket_of d) l.backend)) good, fresh, agrees)
      refl

-- The lines of the appends, before any others.
pub load_lines-log :
    (schedule : Option String) (ends_newline : Bool) (ds : List Request) (rest : List Line)
    (l : Loading)
    → load_lines schedule ends_newline (write_log ds l.backend ++ rest) l
      ≡ load_lines schedule ends_newline rest (record l { backend = append_all ds l.backend })
unfolding load_lines write_log append_all
load_lines-log schedule ends_newline [] rest l = refl
load_lines-log schedule ends_newline (d ∷ ds) rest l = elim (append_checked-outcomes d l.backend) [
  | inl (answer, e, refused) ↦
      rw (e, lines_of-refused answer d refused) (load_lines-log schedule ends_newline ds rest l)
  | inr (e, good, fresh, agrees) ↦
      rw (e, load_line-written schedule d l good fresh agrees)
        (load_lines-log schedule ends_newline ds rest (record l { backend = push d l.backend }))
]
