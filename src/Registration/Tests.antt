-- ===== src/Registration/Tests.antt =====
-- The registration store of core/registration_store.js at concrete requests.
use dash_mno_verify.Prelude.{
  ℕ, ◌≡◌, refl, List, [], ◌∷◌, ◌++◌, ok, true, false, String, Option, some, get_elem?,
}
use dash_mno_verify.Prelude.JsMap
use dash_mno_verify.Registration.{
  Request, Registration, Bucket, bucket_of, declaration_of, declaration_for, records_of, empty,
  append_all, append_checked, is_valid_engine_statement, append, is_seen, push, same_declaration,
}
use dash_mno_verify.Field.{is_canonical_field}
use dash_mno_verify.Registration.Loader.{blank, malformed, load}
use dash_mno_verify.Registration.Loader.Written.{header_lines, write_log}
use dash_mno_verify.Registration.Loader.Reload.{load-write_log}
use dash_mno_verify.Registration.Once.{registers_once, one_declaration}

abbrev request : String → String → Option String → Request
request reg_nullifier commitment engine = record {
  season = 3;
  context_hash = "42";
  reg_nullifier = reg_nullifier;
  commitment = commitment;
  engine = engine;
  statement = some "derive";
}

-- A first registration, the same again, one of another engine, and a second registration.
abbrev requests : List Request
requests =
    request "7" "100" (some "groth16")
    ∷ request "7" "101" (some "groth16")
    ∷ request "8" "102" (some "zkvm")
    ∷ request "9" "103" (some "groth16")
    ∷ []

abbrev bucket : Bucket
bucket = (3, "42")

abbrev second : Registration
second = record { request = request "9" "103" (some "groth16"); index = 1 }

second_there : get_elem? (records_of bucket (append_all requests empty)) 1 ≡ some second
unfolding records_of JsMap.get append_all append_checked is_valid_engine_statement
    is_canonical_field append is_seen push JsMap.put same_declaration declaration_of
second_there = refl

abbrev place : ℕ
place = 1

registers_once_example : place ≡ place
registers_once_example =
    registers_once requests bucket place place second second second_there second_there refl

one_declaration_example :
    (second.index ≡ 1)
    × (bucket_of second.request ≡ bucket)
    × (declaration_for bucket (append_all requests empty) ≡ some (declaration_of second.request))
one_declaration_example = one_declaration requests bucket 1 second second_there

load-write_log_example :
    (load
        (some "e7s7")
        false
        true
        (header_lines (some "e7s7") ++ (write_log requests empty ++ blank ∷ []))
      ≡ ok (record { backend = append_all requests empty; torn = false; stamps = false }))
    × (load
          (some "e7s7")
          false
          false
          (header_lines (some "e7s7") ++ (write_log requests empty ++ []))
        ≡ ok (record { backend = append_all requests empty; torn = false; stamps = false }))
    × (load
          (some "e7s7")
          false
          false
          (header_lines (some "e7s7") ++ (write_log requests empty ++ malformed ∷ []))
        ≡ ok (record { backend = append_all requests empty; torn = true; stamps = false }))
load-write_log_example = load-write_log (some "e7s7") false requests
