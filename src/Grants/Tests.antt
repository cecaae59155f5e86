-- ===== src/Grants/Tests.antt =====
-- adapters/common/grant_ledger.js at concrete inputs, with the Discord adapter's records.
use dash_mno_verify.Prelude.{
  List, [], ◌∷◌, true, false, String, string_eq, ◌==◌, none, some, ◌≡◌, refl, arith, ◌&&◌, not,
  ◌||◌,
}
use dash_mno_verify.Prelude.JsMap
use dash_mno_verify.Grants.Ledger.{
  observe_clock, put, delete_rev, Row, row_of, empty, observe_clock, put, delete_rev,
}
use dash_mno_verify.Grants.Machine.{
  step, resume, write_grant, give, take, die, begin_sweep, Event, World, done, partly, grants,
  answers, dies, run_events, first_world, live, begin_admit, begin_grant, step, begin_sweep, resume,
  write_grant, give, take, die,
}
use dash_mno_verify.Grants.Tracked.{named}
use dash_mno_verify.Grants.Covered.{access-is_named}
use dash_mno_verify.Grants.Expired.{since, live_after_expiry, begin_grant_after_expiry}
use dash_mno_verify.Grants.Swept.{sweep_member, sweep_done, sweep_failed}
use dash_mno_verify.Grants.Discord.{
  channel, cover_of, extra_targets, covering_targets, includes, without, distinct_after, all_named,
  Target, ChannelGrant, discord_adapter, includes, without, distinct_after, extra_targets,
}
use dash_mno_verify.Grants.Channels.{extra_targets-exact, discord-Laws}
use dash_mno_verify.Grants.Scope.{
  seed_rev_seq, refuse_foreign_scope, import_legacy, bind_scope, put_entries, all_valid,
  highest_rev, Store, Config, Legacy, legacy, open_store, store_of,
}
use dash_mno_verify.Grants.Revisions.{delete_rev-stale}
use dash_mno_verify.Grants.Held.{open_store-Held, Held}
use dash_mno_verify.Grants.Bound.{open_store-scope}

abbrev old_grant : ChannelGrant
old_grant = record { deadline = 100; channels = "attic" ∷ "hall" ∷ [] }

abbrev new_grant : ChannelGrant
new_grant = record { deadline = 200; channels = "hall" ∷ "porch" ∷ [] }

abbrev granted : List (Event ChannelGrant)
granted = grants "ann" old_grant 10 true ∷ answers "ann" done true ∷ []

-- The revoke of the attic is done, then the process ends while the new channels are being given.
abbrev renewed : List (Event ChannelGrant)
renewed =
    grants "ann" old_grant 10 true
    ∷ answers "ann" done true
    ∷ grants "ann" new_grant 50 true
    ∷ answers "ann" done true
    ∷ dies (λ user place. place == "porch")
    ∷ []

abbrev world : List (Event ChannelGrant) → World ChannelGrant Target
world es = run_events discord_adapter es first_world

abbrev old_row : Row ChannelGrant
old_row = record { record_ = old_grant; rev = 1 }

-- The row covers the orphaned channel while its revoke is awaited.
covering_row :
    named discord_adapter
      (row_of "ann"
        (world (
          grants "ann" old_grant 10 true
          ∷ answers "ann" done true
          ∷ grants "ann" new_grant 50 true
          ∷ [])).ledger)
      "attic"
    ≡ true
unfolding run_events step begin_grant begin_sweep resume write_grant give take die observe_clock put
    delete_rev JsMap.get JsMap.put JsMap.delete includes without distinct_after extra_targets
    covering_targets all_named
covering_row = refl

access-is_named_example : named discord_adapter (row_of "ann" (world renewed).ledger) "porch" ≡ true
unfolding run_events step begin_grant begin_sweep resume write_grant give take die observe_clock put
    delete_rev JsMap.get JsMap.put JsMap.delete includes without distinct_after extra_targets
    covering_targets all_named
access-is_named_example = access-is_named discord_adapter discord-Laws renewed "ann" "porch" refl

sweep_done_example :
    let w' = sweep_member discord_adapter "ann" 150 done (world granted) in
    (row_of "ann" w'.ledger ≡ none)
    × (JsMap.get "ann" w'.phases ≡ none)
    × ((target : String) → w'.access "ann" target ≡ false)
unfolding run_events step begin_grant begin_sweep resume write_grant give take die observe_clock put
    delete_rev JsMap.get JsMap.put JsMap.delete includes without distinct_after extra_targets
    covering_targets all_named
sweep_done_example =
    sweep_done discord_adapter discord-Laws granted "ann" 150 old_row refl refl (omega arith)

-- The attic is left before the revoke throws.
sweep_failed_example :
    let w' =
      sweep_member discord_adapter "ann" 100 (partly (λ place. place == "attic")) (world granted) in
    (row_of "ann" w'.ledger ≡ some old_row) × (JsMap.get "ann" w'.phases ≡ none)
unfolding run_events step begin_grant begin_sweep resume write_grant give take die observe_clock put
    delete_rev JsMap.get JsMap.put JsMap.delete includes without distinct_after extra_targets
    covering_targets all_named
sweep_failed_example =
    sweep_failed discord_adapter (world granted) "ann" 100 old_row refl refl (omega arith)
      (partly (λ place. place == "attic")) refl

-- The clock goes back from 120 to 50, across a restart.
live_after_expiry_example :
    let w = since discord_adapter "bob" 120 (dies (λ user place. false) ∷ []) (world granted) in
    ((live discord_adapter "ann" 50 w).0 ≡ false)
    × ((begin_admit discord_adapter "ann" 50 w).phases ≡ w.phases)
unfolding run_events step begin_grant begin_sweep resume write_grant give take die observe_clock put
    delete_rev JsMap.get JsMap.put JsMap.delete includes without distinct_after extra_targets
    covering_targets all_named live
live_after_expiry_example =
    live_after_expiry discord_adapter (world granted) "bob" 120 50 (dies (λ user place. false) ∷ [])
      "ann" old_row (omega arith) refl

begin_grant_after_expiry_example :
    let w = since discord_adapter "bob" 120 [] (world granted) in
    let w' = begin_grant discord_adapter "eve" old_grant 50 true w in
    (w'.ledger.rows ≡ w.ledger.rows) × (w'.phases ≡ w.phases) × (w'.access ≡ w.access)
begin_grant_after_expiry_example =
    begin_grant_after_expiry discord_adapter (world granted) "bob" 120 50 [] "eve" old_grant true
      (omega arith)

abbrev store : Store ChannelGrant
store = record { ledger = (world granted).ledger; scope = some "guild1"; imported = false }

abbrev elsewhere : Config
elsewhere = record {
  scope = some "guild2";
  adopt_scope = some "guild2";
  allow_foreign_scope = false;
  reset_clock = false;
  now = 60;
}

abbrev older_file : Legacy ChannelGrant
older_file = legacy (("bob", old_grant) ∷ []) (some 40) none

open_store-Held_example :
    Held elsewhere store (store_of (open_store discord_adapter elsewhere older_file store))
unfolding run_events step begin_grant begin_sweep resume write_grant give take die observe_clock put
    delete_rev JsMap.get JsMap.put JsMap.delete includes without distinct_after extra_targets
    covering_targets all_named
open_store-Held_example = open_store-Held discord_adapter elsewhere older_file store (omega arith)

abbrev fresh : Store ChannelGrant
fresh = record { ledger = empty; scope = none; imported = false }

abbrev adopted : Store ChannelGrant
adopted = store_of (open_store discord_adapter elsewhere older_file fresh)

open_store-scope_example : adopted.scope ≡ some "guild2"
unfolding run_events step begin_grant begin_sweep resume write_grant give take die observe_clock put
    delete_rev JsMap.get JsMap.put JsMap.delete includes without distinct_after extra_targets
    covering_targets all_named open_store refuse_foreign_scope import_legacy bind_scope put_entries
    all_valid highest_rev
open_store-scope_example =
    open_store-scope discord_adapter elsewhere older_file fresh adopted "guild2" refl refl refl

extra_targets-exact_example :
    (includes "attic" ("attic" ∷ []) ≡ (
      includes "attic" ("attic" ∷ "hall" ∷ []) && not (includes "attic" ("hall" ∷ "porch" ∷ []))))
    × (includes "attic" (cover_of new_grant (channel ("attic" ∷ []))).channels
        ≡ (includes "attic" ("hall" ∷ "porch" ∷ []) || includes "attic" ("attic" ∷ "hall" ∷ [])))
unfolding extra_targets without includes
extra_targets-exact_example =
    extra_targets-exact old_grant new_grant (channel ("attic" ∷ [])) "attic" refl

-- A database of the older version, with a row at revision 3 and no counter.
abbrev older_store : Store ChannelGrant
older_store = record {
  ledger = record empty { rows = ("ann", record { record_ = old_grant; rev = 3 }) ∷ [] };
  scope = none;
  imported = false;
}

abbrev restarted : World ChannelGrant Target
restarted = record first_world { ledger = (seed_rev_seq older_store).ledger }

delete_rev-stale_example :
    let l = (put "ann" new_grant (run_events discord_adapter granted restarted).ledger).1 in
    delete_rev "ann" 3 l ≡ (false, l)
unfolding JsMap.get highest_rev
delete_rev-stale_example =
    delete_rev-stale discord_adapter older_store restarted granted "ann" new_grant
      (record { record_ = old_grant; rev = 3 }) refl refl
