-- ===== src/Season/Tests.antt =====
-- The season of core/season.js at concrete registrations, over the hash that writes its inputs down.
use dash_mno_verify.Prelude.{
  true_not_false, ℕ, suc, ◌≡◌, refl, List, [], ◌∷◌, ◌++◌, length, string_eq, is_some, get_elem?, ap,
  sym, ◌∙◌, inl, inr, Option-cases, true, false, String, some, Result, ok, err, ◌≢◌, if◌then◌else◌,
}
use dash_mno_verify.Prelude.JsMap
use dash_mno_verify.Field.{is_canonical_field}
use dash_mno_verify.Merkle.Hash.{TreeError, element}
use dash_mno_verify.Merkle.MembersTree
use dash_mno_verify.Merkle.MembersTree.{MembersTree, from_commitments}
use dash_mno_verify.Merkle.MembersTree.Consistent.{IsConsistent}
use dash_mno_verify.Merkle.Tests.{free_hash}
use dash_mno_verify.Registration.{Registration, Request, Backend, bucket_of, records_of, empty}
use dash_mno_verify.Season.State
use dash_mno_verify.Season.State.{Context, SeasonMembers, SeasonError, is_season, members}
use dash_mno_verify.Season.Trees.{commitments_of, recover_member}
use dash_mno_verify.Season.Commit.{Fate, runs, throws_after, Commit, committed, commit}
use dash_mno_verify.Season.Synced.{IsSynced}
use dash_mno_verify.Season.Ensure.{recover_member-lists}
use dash_mno_verify.Season.Kept.{run_events-keeps}
use dash_mno_verify.Season.History.{
  Event, rolls, ensures, recovers, commits, run_events, new-IsSynced, run_events-IsSynced,
  commit-publishes, commit-never_mismatches, run_events-cached,
}

abbrev request : String → String → Request
request reg_nullifier commitment = record {
  season = 3;
  context_hash = "42";
  reg_nullifier = reg_nullifier;
  commitment = commitment;
  engine = some "groth16";
  statement = some "derive";
}

pub reads : (v : String) → is_canonical_field v ≡ true → (x : String) × (element free_hash v ≡ ok x)
reads v h = (v, refl)

abbrev fresh : SeasonMembers String
fresh = State.new true 2 3 "E" 0

-- One registration whose write throws once it is in the store.
abbrev stranded : List Event
stranded = rolls 3 ∷ commits 10 (some 3) false throws_after (request "7" "100") ∷ []

abbrev pub start : SeasonMembers String × Backend
start = run_events free_hash stranded (fresh, empty)

pub start-IsSynced : IsSynced free_hash start.0 start.1
start-IsSynced =
    run_events-IsSynced free_hash reads stranded (fresh, empty)
      (new-IsSynced free_hash reads true 2 3 0 "E")

abbrev next : Result SeasonError Commit × SeasonMembers String × Backend
next = commit free_hash 20 (some 3) false runs (request "8" "101") start.0 start.1

next_done : let (r, s, b) = next in next ≡ (ok (committed 1 "((100,101),(0,0))" 2), s, b)
unfolding commit run_events dash_mno_verify.Season.History.step State.roll State.new
    dash_mno_verify.Season.Trees.materialize JsMap.get dash_mno_verify.Season.Trees.build_context
    from_commitments records_of dash_mno_verify.Merkle.Levels.zeros_from MembersTree.fold_level
    dash_mno_verify.Season.Trees.reconcile_if_behind JsMap.put
    dash_mno_verify.Season.Commit.write_record dash_mno_verify.Season.Commit.refusal
    dash_mno_verify.Registration.is_seen dash_mno_verify.Field.decimal_value is_canonical_field
    dash_mno_verify.Field.spelled_decimal MembersTree.append MembersTree.capacity MembersTree.carry
    MembersTree.carry_all MembersTree.fill_frontier MembersTree.fold_bits MembersTree.full
    MembersTree.insert MembersTree.insert_level MembersTree.new MembersTree.root
    MembersTree.root_from_stack dash_mno_verify.Registration.append
    dash_mno_verify.Registration.append_checked dash_mno_verify.Registration.declaration_of
    dash_mno_verify.Registration.is_valid_engine_statement dash_mno_verify.Registration.push
    dash_mno_verify.Registration.same_declaration dash_mno_verify.Season.Commit.mirror
    dash_mno_verify.Season.Commit.write dash_mno_verify.Stores.Order.insert_by
    dash_mno_verify.Stores.Order.slice_last dash_mno_verify.Stores.Order.sort_by
    dash_mno_verify.Stores.RootStore.new dash_mno_verify.Stores.RootStore.set_all
    dash_mno_verify.Stores.RootStore.update
next_done = refl

commit-publishes_example :
    let (r, s, b) = next in
    (records_of (3, "42") b
      ≡ records_of (3, "42") start.1 ++ record { request = request "8" "101"; index = 1 } ∷ [])
    × (1 ≡ length (records_of (3, "42") start.1))
    × (2 ≡ suc 1)
    × (members "42" s ≡ commitments_of (records_of (3, "42") b))
    × ((t : MembersTree String) × (from_commitments free_hash
            (commitments_of (records_of (3, "42") b))
            s.depth
          ≡ ok t)
        × ("((100,101),(0,0))" ≡ MembersTree.root free_hash t))
commit-publishes_example =
    let (r, s, b) = next in
    commit-publishes free_hash reads 20 (some 3) false runs (request "8" "101") 1 2
      "((100,101),(0,0))" s b start-IsSynced next_done

commit-never_mismatches_example :
    (next.0 ≢ ok Commit.index_tree_mismatch) × ((e : TreeError) → next.0 ≢ err (SeasonError.tree e))
commit-never_mismatches_example =
    commit-never_mismatches free_hash reads 20 (some 3) false runs (request "8" "101")
      start-IsSynced

recover_member-lists_example :
    let (r, s) = recover_member free_hash 20 3 "42" start.1 start.0 in
    if is_season 3 start.0.current
    then members "42" s ≡ commitments_of (records_of (3, "42") start.1)
    else s ≡ start.0
recover_member-lists_example = recover_member-lists free_hash 20 3 "42" start-IsSynced

-- Two registrations, the first one's write stranded.
abbrev two : List Event
two =
    rolls 3
    ∷ commits 10 (some 3) false throws_after (request "7" "100")
    ∷ commits 20 (some 3) false runs (request "8" "101")
    ∷ []

abbrev after_two : SeasonMembers String × Backend
after_two = run_events free_hash two (fresh, empty)

two_there : is_some (JsMap.get "42" after_two.0.ctx) ≡ true
unfolding commit run_events dash_mno_verify.Season.History.step State.roll State.new
    dash_mno_verify.Season.Trees.materialize JsMap.get dash_mno_verify.Season.Trees.build_context
    from_commitments records_of dash_mno_verify.Merkle.Levels.zeros_from MembersTree.fold_level
    dash_mno_verify.Season.Trees.reconcile_if_behind JsMap.put
    dash_mno_verify.Season.Commit.write_record dash_mno_verify.Season.Commit.refusal
    dash_mno_verify.Registration.is_seen dash_mno_verify.Field.decimal_value is_canonical_field
    dash_mno_verify.Field.spelled_decimal MembersTree.append MembersTree.capacity MembersTree.carry
    MembersTree.carry_all MembersTree.fill_frontier MembersTree.fold_bits MembersTree.full
    MembersTree.insert MembersTree.insert_level MembersTree.new MembersTree.root
    MembersTree.root_from_stack dash_mno_verify.Registration.append
    dash_mno_verify.Registration.append_checked dash_mno_verify.Registration.declaration_of
    dash_mno_verify.Registration.is_valid_engine_statement dash_mno_verify.Registration.push
    dash_mno_verify.Registration.same_declaration dash_mno_verify.Season.Commit.mirror
    dash_mno_verify.Season.Commit.write dash_mno_verify.Stores.Order.insert_by
    dash_mno_verify.Stores.Order.slice_last dash_mno_verify.Stores.Order.sort_by
    dash_mno_verify.Stores.RootStore.new dash_mno_verify.Stores.RootStore.set_all
    dash_mno_verify.Stores.RootStore.update
two_there = refl

two_cached : (k : Context String) × (JsMap.get "42" after_two.0.ctx ≡ some k)
two_cached = elim (Option-cases (JsMap.get "42" after_two.0.ctx)) [
  | inl gone ↦ absurd (true_not_false (sym two_there ∙ ap is_some gone))
  | inr found ↦ found
]

run_events-cached_example :
    (season : ℕ) × (rest : List String) × (after_two.0.current ≡ some season)
    × IsConsistent free_hash two_cached.0.tree
    × (commitments_of (records_of (season, "42") after_two.1)
        ≡ two_cached.0.tree.commitments ++ rest)
run_events-cached_example =
    run_events-cached free_hash reads two true 2 3 0 "E" "42" two_cached.0 two_cached.1

abbrev old : Registration
old = record { request = request "7" "100"; index = 0 }

old_there : get_elem? (records_of (3, "42") start.1) 0 ≡ some old
unfolding commit run_events dash_mno_verify.Season.History.step State.roll State.new
    dash_mno_verify.Season.Trees.materialize JsMap.get dash_mno_verify.Season.Trees.build_context
    from_commitments records_of dash_mno_verify.Merkle.Levels.zeros_from MembersTree.fold_level
    dash_mno_verify.Season.Trees.reconcile_if_behind JsMap.put
    dash_mno_verify.Season.Commit.write_record dash_mno_verify.Season.Commit.refusal
    dash_mno_verify.Registration.is_seen dash_mno_verify.Field.decimal_value is_canonical_field
    dash_mno_verify.Field.spelled_decimal MembersTree.append MembersTree.capacity MembersTree.carry
    MembersTree.carry_all MembersTree.fill_frontier MembersTree.fold_bits MembersTree.full
    MembersTree.insert MembersTree.insert_level MembersTree.new MembersTree.root
    MembersTree.root_from_stack dash_mno_verify.Registration.append
    dash_mno_verify.Registration.append_checked dash_mno_verify.Registration.declaration_of
    dash_mno_verify.Registration.is_valid_engine_statement dash_mno_verify.Registration.push
    dash_mno_verify.Registration.same_declaration dash_mno_verify.Season.Commit.mirror
    dash_mno_verify.Season.Commit.write dash_mno_verify.Stores.Order.insert_by
    dash_mno_verify.Stores.Order.slice_last dash_mno_verify.Stores.Order.sort_by
    dash_mno_verify.Stores.RootStore.new dash_mno_verify.Stores.RootStore.set_all
    dash_mno_verify.Stores.RootStore.update
old_there = refl

run_events-keeps_example :
    get_elem?
      (records_of
        (3, "42")
        (run_events free_hash (commits 20 (some 3) false runs (request "8" "101") ∷ []) start).1)
      0
    ≡ some old
run_events-keeps_example =
    run_events-keeps free_hash (commits 20 (some 3) false runs (request "8" "101") ∷ []) start
      (3, "42") 0 old old_there
