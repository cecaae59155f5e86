-- ===== src/Grants/Swept.antt =====
-- `sweep` of adapters/common/grant_ledger.js on a member whose grant is over, and its retry.
use dash_mno_verify.Prelude.{
  nat_eq, ℕ, List, [], ◌∷◌, true, false, String, string_eq, none, some, ◌≡◌, sym, ap, ◌∙◌, arith,
  subst, ◌≤◌, ltb, if◌then◌else◌, is_some, ==_self,
}
use dash_mno_verify.Prelude.JsMap
use dash_mno_verify.Grants.Ledger.{Adapter, Row, Ledger, row_of, observe_clock, delete_rev, has_rev}
use dash_mno_verify.Grants.Machine.{
  World, Event, Answer, done, unsent, partly, sweeps, answers, sweeping, is_done, step, run_events,
  with_ledger, wait, take, resume, resume_if, begin_sweep, sweep_row, first_world,
}
use dash_mno_verify.Grants.Tracked.{Laws, Within, named, Tracked-free, Tracked}
use dash_mno_verify.Grants.Begins.{rows-observe_clock}
use dash_mno_verify.Grants.Clock.{observe_clock-seen}
use dash_mno_verify.Grants.Covered.{run_events-All, first_world-All}

module _ {R O : Type 0} (a : Adapter R O) where
  -- The pass of a sweep over a member, with the platform's answer; the delete does not throw.
  abbrev pub sweep_member : String → ℕ → Answer → World R O → World R O
  sweep_member user now answer w = run_events a (sweeps user now ∷ answers user answer true ∷ []) w

  module _ (w : World R O) (user : String) (now : ℕ) (row : Row R)
      (free : JsMap.get user w.phases ≡ none) (e : row_of user w.ledger ≡ some row)
      (due : a.expires_at row.record_ ≤ now) where
    -- The world while the revoke is awaited.
    abbrev swept_world : World R O
    swept_world =
        wait user (sweeping row.record_ row.rev) (with_ledger (observe_clock now w.ledger).1 w)

    not_before : ltb (observe_clock now w.ledger).0 (a.expires_at row.record_) ≡ false
    not_before = ground (arith, due, observe_clock-seen now w.ledger)

    step-sweeps : step a (sweeps user now) w ≡ swept_world
    unfolding step begin_sweep
    step-sweeps =
        ap (λ p. if is_some p then w else sweep_row a user now (row_of user w.ledger) w) free
        ∙ ap (λ p. sweep_row a user now p w) e
        ∙ ap (λ t. if t then with_ledger (observe_clock now w.ledger).1 w else swept_world)
            not_before

    step-answers :
        (answer : Answer)
        → step a (answers user answer true) swept_world
          ≡ resume a user answer true (sweeping row.record_ row.rev) swept_world
    unfolding step
    step-answers answer =
        ap (λ p. resume_if a user answer true p swept_world) (JsMap.get-put_self user _ w.phases)

    sweep_member-resume :
        (answer : Answer)
        → sweep_member user now answer w
          ≡ resume a user answer true (sweeping row.record_ row.rev) swept_world
    unfolding run_events
    sweep_member-resume answer =
        ap (λ v. step a (answers user answer true) v) step-sweeps ∙ step-answers answer

    row_swept : row_of user swept_world.ledger ≡ some row
    row_swept = ap (JsMap.get user) (rows-observe_clock now w.ledger) ∙ e

    row_gone :
        (l : Ledger R) → row_of user l ≡ some row → row_of user (delete_rev user row.rev l).1 ≡ none
    unfolding delete_rev
    row_gone l e' =
        ground (arith, ap (has_rev row.rev) e', ==_self row.rev, JsMap.get-delete_self user l.rows)

    resume_done :
        Within (w.access user) (a.names row.record_)
        → let w' = resume a user done true (sweeping row.record_ row.rev) swept_world in
          (row_of user w'.ledger ≡ none)
          × (JsMap.get user w'.phases ≡ none)
          × ((t : String) → w'.access user t ≡ false)
    unfolding resume take
    resume_done h =
        (row_gone _ row_swept, JsMap.get-delete_self user _, λ t. ground (arith, ==_self user, h t))

    resume_failed :
        (answer : Answer)
        → is_done answer ≡ false
        → let w' = resume a user answer true (sweeping row.record_ row.rev) swept_world in
          (row_of user w'.ledger ≡ some row) × (JsMap.get user w'.phases ≡ none)
    unfolding resume take
    resume_failed done e' = ground arith
    resume_failed unsent e' = (row_swept, JsMap.get-delete_self user _)
    resume_failed (partly part) e' = (row_swept, JsMap.get-delete_self user _)

module _ {R O : Type 0} (a : Adapter R O) (laws : Laws a) (es : List (Event R)) (user : String)
    (now : ℕ) (row : Row R) (free : JsMap.get user (run_events a es first_world).phases ≡ none)
    (e : row_of user (run_events a es first_world).ledger ≡ some row)
    (due : a.expires_at row.record_ ≤ now) where
  -- For an adapter that compares records as `Laws` says, after any run of events that leaves a member with a
  -- row past its deadline and no operation waiting: a sweep whose revoke the platform does, and whose delete
  -- does not throw, drops the row, and the member has access to no target at all.
  pub sweep_done :
      let w' = sweep_member a user now done (run_events a es first_world) in
      (row_of user w'.ledger ≡ none)
      × (JsMap.get user w'.phases ≡ none)
      × ((target : String) → w'.access user target ≡ false)
  unfolding Tracked
  sweep_done =
      let w = run_events a es first_world in
      subst
        (λ w'.
          (row_of user w'.ledger ≡ none)
          × (JsMap.get user w'.phases ≡ none)
          × ((target : String) → w'.access user target ≡ false))
        (sym (sweep_member-resume a w user now row free e due done))
        (resume_done a w user now row free e due (
          subst (λ p. Within (w.access user) (named a p)) e
            (Tracked-free a user w free
              (run_events-All a laws es first_world (first_world-All a laws) user))))

-- A sweep at or past the deadline of a member's row, of a member with no operation waiting, keeps the row where
-- the revoke throws, whatever it did before, and leaves no operation waiting, so that a later sweep finds
-- the same row again.
pub sweep_failed :
    {R O : Type 0} (a : Adapter R O) (w : World R O) (user : String) (now : ℕ) (row : Row R)
    → JsMap.get user w.phases ≡ none
    → row_of user w.ledger ≡ some row
    → a.expires_at row.record_ ≤ now
    → (answer : Answer) → is_done answer ≡ false
    → let w' = sweep_member a user now answer w in
      (row_of user w'.ledger ≡ some row) × (JsMap.get user w'.phases ≡ none)
sweep_failed a w user now row free e due answer failed =
    subst (λ w'. (row_of user w'.ledger ≡ some row) × (JsMap.get user w'.phases ≡ none))
      (sym (sweep_member-resume a w user now row free e due answer))
      (resume_failed a w user now row free e due answer failed)
