-- ===== src/Registration.antt =====
-- core/registration_store.js: `RegistrationStore` over `MemoryRegistrationBackend`. A key
-- `${season}:${contextHash}:${regNullifier}` and a bucket `${season}:${contextHash}` are the tuples of
-- their parts, none of which holds a colon.
pub mod Buckets
pub mod Outcomes
pub mod Once
pub mod Loader
pub mod FileBackend
mod Tests
use dash_mno_verify.Prelude.{
  ℕ, List, [], ◌∷◌, ◌++◌, Bool, true, false, not, ◌&&◌, ◌==◌, string_eq, nat_eq, pair_eq, nat_beq,
  any_of, length, String, Option, some, none, if◌then◌else◌,
}
use dash_mno_verify.Prelude.JsMap
use dash_mno_verify.Prelude.JsMap.{JsMap}
use dash_mno_verify.Field.{is_canonical_field}

-- `ENGINE_STATEMENTS` and `isValidEngineStatement`, on strings.
unfoldable pub is_valid_engine_statement : String → String → Bool
is_valid_engine_statement engine statement =
    if engine == "groth16"
    then statement == "derive"
    else if engine == "plonk"
    then statement == "derive"
    else if engine == "zkvm"
    then any_of (λ s. s == statement) ("derive" ∷ "custody" ∷ [])
    else false

pub record Declaration : Type 0 where
  pub engine : String
  pub statement : String

-- What `append` is given; a field that an old caller left out is none.
pub record Request : Type 0 where
  pub season : ℕ
  pub context_hash : String
  pub reg_nullifier : String
  pub commitment : String
  pub engine : Option String
  pub statement : Option String

pub record Registration : Type 0 where
  pub request : Request
  pub index : ℕ

abbrev pub or_default : String → Option String → String
or_default default none = default
or_default default (some s) = s

unfoldable pub declaration_of : Request → Declaration
declaration_of d = record {
  engine = or_default "plonk" d.engine;
  statement = or_default "derive" d.statement;
}

unfoldable pub same_declaration : Declaration → Declaration → Bool
same_declaration a b = (a.engine == b.engine) && (a.statement == b.statement)

abbrev pub Bucket : Type 0
Bucket = ℕ × String

abbrev pub Key : Type 0
Key = Bucket × String

abbrev pub bucket_of : Request → Bucket
bucket_of d = (d.season, d.context_hash)

abbrev pub key_of : Request → Key
key_of d = (bucket_of d, d.reg_nullifier)

pub record Backend : Type 0 where
  pub seen : List Key
  pub by_bucket : JsMap Bucket (List Registration)

abbrev pub empty : Backend
empty = record { seen = []; by_bucket = [] }

-- The outcomes of `append`, the store's own refusal included.
pub data Appended : Type 0 where
  invalid duplicate : Appended
  conflict : Declaration → Appended
  appended : ℕ → Appended

unfoldable pub is_seen : Key → List Key → Bool
is_seen key seen = any_of (λ k. k == key) seen

abbrev pub has : Key → Backend → Bool
has key b = is_seen key b.seen

abbrev pub list_of : Option (List Registration) → List Registration
list_of none = []
list_of (some recs) = recs

-- `forSeasonContext`
unfoldable pub records_of : Bucket → Backend → List Registration
records_of bucket b = list_of (JsMap.get bucket b.by_bucket)

-- Whether the first record, if any, declares another engine or statement.
abbrev pub conflict_with : Declaration → List Registration → Option Declaration
conflict_with want [] = none
conflict_with want (first ∷ rest) =
    let declared = declaration_of first.request in
    if same_declaration declared want then none else some declared

abbrev pub first_declaration : List Registration → Option Declaration
first_declaration [] = none
first_declaration (first ∷ rest) = some (declaration_of first.request)

-- `declarationFor`
unfoldable pub declaration_for : Bucket → Backend → Option Declaration
declaration_for bucket b = first_declaration (records_of bucket b)

-- The new record at the end of its bucket, and its key seen.
unfoldable pub push : Request → Backend → Backend
push d b =
    let recs = records_of (bucket_of d) b in
    record {
      seen = key_of d ∷ b.seen;
      by_bucket =
          JsMap.put (bucket_of d) (recs ++ (record { request = d; index = length recs } ∷ []))
            b.by_bucket;
    }

-- The backend's `append`.
unfoldable pub append : Request → Backend → Appended × Backend
append d b =
    let recs = records_of (bucket_of d) b in
    if has (key_of d) b then (duplicate, b) else elim (conflict_with (declaration_of d) recs) [
      | some declared ↦ (conflict declared, b)
      | none ↦ (appended (length recs), push d b)
    ]

-- The store's `append`: the declaration and the three field elements are checked first.
abbrev pub is_valid : Request → Bool
is_valid d =
    is_valid_engine_statement (or_default "" d.engine) (or_default "" d.statement)
    && is_canonical_field d.context_hash
    && is_canonical_field d.reg_nullifier
    && is_canonical_field d.commitment

unfoldable pub append_checked : Request → Backend → Appended × Backend
append_checked d b = if is_valid d then append d b else (invalid, b)

-- The store after the requests, whatever each was answered.
unfoldable pub append_all : List Request → Backend → Backend
append_all [] b = b
append_all (d ∷ ds) b = append_all ds (append_checked d b).1
