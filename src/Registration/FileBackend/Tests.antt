-- ===== src/Registration/FileBackend/Tests.antt =====
-- `FileBackend` of core/registration_store.js with a flush that fails.
use dash_mno_verify.Prelude.{◌≡◌, refl, List, [], ◌∷◌, true, false, some, ok, get_elem?}
use dash_mno_verify.Prelude.JsMap
use dash_mno_verify.Field.{is_canonical_field}
use dash_mno_verify.Registration
use dash_mno_verify.Registration.{
  Request, Key, Appended, key_of, Registration, records_of, bucket_of,
}
use dash_mno_verify.Registration.Loader
use dash_mno_verify.Registration.Loader.{Loaded, load}
use dash_mno_verify.Registration.FileBackend.{
  Weather, not_flushed, Call, appends, has_key, after_calls, opened, append_one, same_registration,
}
use dash_mno_verify.Registration.FileBackend.Acknowledged.{append_one-durable}
use dash_mno_verify.Registration.FileBackend.Durable.{has_key-durable}

abbrev request : Request
request = record {
  season = 3;
  context_hash = "42";
  reg_nullifier = "7";
  commitment = "100";
  engine = some "groth16";
  statement = some "derive";
}

abbrev fair : Weather
fair = record { flushes = true; reads = true }

-- The flush of the write fails, and so does the one of its `catch`.
abbrev storm : List Call
storm = appends fair not_flushed false fair request ∷ []

there :
    (has_key
      (some "e7s7")
      (key_of request)
      fair
      (after_calls (some "e7s7") storm (opened (some "e7s7")))).0
    ≡ some true
unfolding has_key dash_mno_verify.Registration.FileBackend.ready after_calls
    dash_mno_verify.Registration.FileBackend.after_call append_one
    Registration.is_valid_engine_statement is_canonical_field Registration.append
    Registration.is_seen Registration.records_of JsMap.get
    dash_mno_verify.Registration.FileBackend.recover
    dash_mno_verify.Registration.FileBackend.reconcile load Loader.load_lines
    dash_mno_verify.Registration.FileBackend.write_line Loader.load_line
    dash_mno_verify.Field.decimal_value dash_mno_verify.Field.spelled_decimal JsMap.put
    dash_mno_verify.Registration.Loader.Written.written Loader.collapse Loader.finish
    Loader.load_record Loader.ordered Loader.registration_of Loader.replace_same
    Loader.same_registration Registration.declaration_of Registration.push
    Registration.same_declaration dash_mno_verify.Stores.Order.insert_by
    dash_mno_verify.Stores.Order.sort_by
there = refl

has_key-durable_example :
    let (given, s) =
      has_key
        (some "e7s7")
        (key_of request)
        fair
        (after_calls (some "e7s7") storm (opened (some "e7s7"))) in
    (loaded : Loaded) × (load (some "e7s7") false true s.disk ≡ ok loaded)
    × (Registration.has (key_of request) loaded.backend ≡ true)
has_key-durable_example = has_key-durable (some "e7s7") storm (key_of request) fair true there

abbrev second : Request
second = record request { reg_nullifier = "8"; commitment = "101" }

-- The flush of the write fails, and the one of its `catch` holds.
answered :
    (append_one
      (some "e7s7")
      fair
      not_flushed
      true
      fair
      second
      (after_calls (some "e7s7") storm (opened (some "e7s7")))).0
    ≡ some (Appended.appended 1)
unfolding has_key dash_mno_verify.Registration.FileBackend.ready after_calls
    dash_mno_verify.Registration.FileBackend.after_call append_one
    Registration.is_valid_engine_statement is_canonical_field Registration.append
    Registration.is_seen Registration.records_of JsMap.get
    dash_mno_verify.Registration.FileBackend.recover
    dash_mno_verify.Registration.FileBackend.reconcile load Loader.load_lines
    dash_mno_verify.Registration.FileBackend.write_line Loader.load_line
    dash_mno_verify.Field.decimal_value dash_mno_verify.Field.spelled_decimal JsMap.put
    dash_mno_verify.Registration.Loader.Written.written Loader.collapse Loader.finish
    Loader.load_record Loader.ordered Loader.registration_of Loader.replace_same
    Loader.same_registration Registration.declaration_of Registration.push
    Registration.same_declaration dash_mno_verify.Stores.Order.insert_by
    dash_mno_verify.Stores.Order.sort_by
answered = refl

append_one-durable_example :
    let (answer, s) =
      append_one
        (some "e7s7")
        fair
        not_flushed
        true
        fair
        second
        (after_calls (some "e7s7") storm (opened (some "e7s7"))) in
    (loaded : Loaded) × (load (some "e7s7") false true s.disk ≡ ok loaded)
    × (Registration.has (key_of second) loaded.backend ≡ true)
    × (r : Registration) × (get_elem? (records_of (bucket_of second) loaded.backend) 1 ≡ some r)
    × (same_registration r (record { request = second; index = 1 }) ≡ true)
append_one-durable_example =
    append_one-durable (some "e7s7") storm fair not_flushed true fair second 1 answered
