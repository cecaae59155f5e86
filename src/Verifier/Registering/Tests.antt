-- ===== src/Verifier/Registering/Tests.antt =====
-- The registration check of core/verifier.js at concrete requests, over the season of Season/Tests.antt
-- that holds one registration which its tree does not list.
use dash_mno_verify.Prelude.{
  ℕ, ◌≡◌, refl, List, [], ◌∷◌, ◌++◌, replicate, length, get_elem?, true, false, String, string_eq,
  some, ok, if◌then◌else◌,
}
use dash_mno_verify.Prelude.JsMap
use dash_mno_verify.Field.{is_canonical_field}
use dash_mno_verify.Merkle.Tests.{free_hash}
use dash_mno_verify.Merkle.MembersTree
use dash_mno_verify.Registration
use dash_mno_verify.Registration.{Registration, Backend, bucket_of, key_of, records_of}
use dash_mno_verify.Season.State
use dash_mno_verify.Season.State.{SeasonMembers, is_season, members}
use dash_mno_verify.Season.Trees.{commitments_of}
use dash_mno_verify.Season.Commit.{Commit, committed, runs, commit}
use dash_mno_verify.Season.History.{Event, run_events}
use dash_mno_verify.Season.Tests.{start, start-IsSynced, reads}
use dash_mno_verify.Verifier.Registering
use dash_mno_verify.Verifier.Registering.{
  RegistrationClaims, Terms, Answers, Outcome, Phase, says, already, answered, root_ok, check_terms,
  request_of, begin, run,
}
use dash_mno_verify.Verifier.Registering.Decoded.{
  spell, slice, decode_zkvm, journal_bytes, journal_claims,
}
use dash_mno_verify.Verifier.Registering.Journal.{IsNumber, IsFieldNumber, decode_zkvm-reads}
use dash_mno_verify.Verifier.Registering.Earned.{checked_twice, seen_after, is_ok, run-earned}
use dash_mno_verify.Verifier.Registering.Retry.{retry-recovers}
use dash_mno_verify.Merkle.MembersTree.{from_commitments}

abbrev terms : Terms
terms = record {
  engine = some "groth16";
  statement = some "derive";
  season = 3;
  context_hash = "42";
  has_recover = true;
}

abbrev claims : String → String → RegistrationClaims
claims reg_nullifier commitment = record {
  commitment = commitment;
  reg_nullifier = reg_nullifier;
  root = "55";
  season = "3";
  context_hash = "42";
}

abbrev good : Answers
good = record {
  recent = says true;
  rule = some (says true);
  proof_ok = true;
  now = 20;
  live = some 3;
  regressed = false;
  fate = runs;
}

-- The anchor is not recent, and the proof is wrong.
abbrev bad : Answers
bad = record good { recent = says false; proof_ok = false }

abbrev met : List (List Event × Answers)
met = ([], good) ∷ ([], good) ∷ ([], good) ∷ ([], bad) ∷ []

committed_one :
    (run free_hash terms (claims "8" "101") met (begin spell terms (claims "8" "101")) start).0
    ≡ Phase.done (answered (committed 1 "((100,101),(0,0))" 2))
unfolding run begin check_terms root_ok spell dash_mno_verify.Verifier.Registering.advance
    dash_mno_verify.Verifier.Registering.Decoded.spell_before commit run_events
    dash_mno_verify.Season.History.step State.roll State.new
    dash_mno_verify.Season.Trees.materialize JsMap.get dash_mno_verify.Season.Trees.build_context
    from_commitments records_of dash_mno_verify.Merkle.Levels.zeros_from MembersTree.fold_level
    dash_mno_verify.Season.Trees.reconcile_if_behind JsMap.put
    dash_mno_verify.Season.Commit.write_record dash_mno_verify.Season.Commit.refusal
    dash_mno_verify.Registration.is_seen dash_mno_verify.Field.decimal_value is_canonical_field
    dash_mno_verify.Field.spelled_decimal MembersTree.append MembersTree.capacity MembersTree.carry
    MembersTree.carry_all MembersTree.fill_frontier MembersTree.fold_bits MembersTree.full
    MembersTree.insert MembersTree.insert_level MembersTree.new MembersTree.root
    MembersTree.root_from_stack dash_mno_verify.Registration.append
    dash_mno_verify.Registration.append_checked dash_mno_verify.Registration.declaration_of
    dash_mno_verify.Registration.is_valid_engine_statement dash_mno_verify.Registration.push
    dash_mno_verify.Registration.same_declaration dash_mno_verify.Season.Commit.mirror
    dash_mno_verify.Season.Commit.write dash_mno_verify.Stores.Order.insert_by
    dash_mno_verify.Stores.Order.slice_last dash_mno_verify.Stores.Order.sort_by
    dash_mno_verify.Stores.RootStore.new dash_mno_verify.Stores.RootStore.set_all
    dash_mno_verify.Stores.RootStore.update
committed_one = refl

run-earned_example :
    let (phase, s', b') =
      run free_hash terms (claims "8" "101") met (begin spell terms (claims "8" "101")) start in
    (is_ok (check_terms spell terms (claims "8" "101")) ≡ true)
    × (checked_twice (seen_after met []) ≡ true)
    × (get_elem? (records_of (3, "42") b') 1
        ≡ some (record { request = request_of terms (claims "8" "101"); index = 1 }))
run-earned_example =
    run-earned free_hash reads terms (claims "8" "101") spell met start 1 2 "((100,101),(0,0))"
      start-IsSynced committed_one

allowed : check_terms spell terms (claims "7" "100") ≡ ok tt
unfolding check_terms Registration.is_valid_engine_statement spell Registering.Decoded.spell_before
allowed = refl

durable : Registration.has (key_of (request_of terms (claims "7" "100"))) start.1 ≡ true
unfolding run begin check_terms root_ok spell dash_mno_verify.Verifier.Registering.advance
    dash_mno_verify.Verifier.Registering.Decoded.spell_before commit run_events
    dash_mno_verify.Season.History.step State.roll State.new
    dash_mno_verify.Season.Trees.materialize JsMap.get dash_mno_verify.Season.Trees.build_context
    from_commitments records_of dash_mno_verify.Merkle.Levels.zeros_from MembersTree.fold_level
    dash_mno_verify.Season.Trees.reconcile_if_behind JsMap.put
    dash_mno_verify.Season.Commit.write_record dash_mno_verify.Season.Commit.refusal
    dash_mno_verify.Registration.is_seen dash_mno_verify.Field.decimal_value is_canonical_field
    dash_mno_verify.Field.spelled_decimal MembersTree.append MembersTree.capacity MembersTree.carry
    MembersTree.carry_all MembersTree.fill_frontier MembersTree.fold_bits MembersTree.full
    MembersTree.insert MembersTree.insert_level MembersTree.new MembersTree.root
    MembersTree.root_from_stack dash_mno_verify.Registration.append
    dash_mno_verify.Registration.append_checked dash_mno_verify.Registration.declaration_of
    dash_mno_verify.Registration.is_valid_engine_statement dash_mno_verify.Registration.push
    dash_mno_verify.Registration.same_declaration dash_mno_verify.Season.Commit.mirror
    dash_mno_verify.Season.Commit.write dash_mno_verify.Stores.Order.insert_by
    dash_mno_verify.Stores.Order.slice_last dash_mno_verify.Stores.Order.sort_by
    dash_mno_verify.Stores.RootStore.new dash_mno_verify.Stores.RootStore.set_all
    dash_mno_verify.Stores.RootStore.update
durable = refl

retry-recovers_example :
    let (s1, b1) = run_events free_hash [] (start.0, start.1) in
    let (phase, s', b') =
      run free_hash terms
        (claims "7" "100")
        (([], bad) ∷ ([], bad) ∷ [])
        (begin spell terms (claims "7" "100"))
        (start.0, start.1) in
    (phase ≡ Phase.done already)
    × (if is_season 3 s1.current
        then members "42" s' ≡ commitments_of (records_of (3, "42") b')
        else s' ≡ s1)
retry-recovers_example =
    retry-recovers free_hash reads terms (claims "7" "100") spell bad bad [] start.0 start.1
      start-IsSynced allowed refl durable

abbrev journal : List ℕ
journal =
    replicate 31 0
    ++ 5 ∷ []
    ++ replicate 31 0
    ++ 6 ∷ []
    ++ replicate 32 171
    ++ replicate 7 0
    ++ 3 ∷ []
    ++ replicate 31 0
    ++ 42 ∷ []

decoded_journal : decode_zkvm journal ≡ ok (journal_claims journal)
unfolding decode_zkvm journal_claims is_canonical_field spell
    dash_mno_verify.Verifier.Registering.Decoded.spell_before
    dash_mno_verify.Verifier.Registering.Decoded.big_endian
decoded_journal = refl

decode_zkvm-reads_example :
    (length journal ≡ journal_bytes)
    × IsFieldNumber (journal_claims journal).commitment (slice 0 32 journal)
    × IsFieldNumber (journal_claims journal).reg_nullifier (slice 32 32 journal)
    × IsFieldNumber (journal_claims journal).context_hash (slice 104 32 journal)
    × IsNumber (journal_claims journal).season (slice 96 8 journal)
decode_zkvm-reads_example = decode_zkvm-reads journal (journal_claims journal) refl decoded_journal
