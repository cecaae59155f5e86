-- ===== src/Grants/Machine.antt =====
-- The operations of adapters/common/grant_ledger.js, each a chain of steps between its awaits of the
-- platform. `#run` lets one operation at a time run on a member, so a member has one phase or none.
use dash_mno_verify.Prelude.{
  ℕ, List, [], ◌∷◌, Bool, true, false, not, ◌&&◌, ◌||◌, leb, ltb, String, string_eq, ◌==◌, Option,
  none, some, if◌then◌else◌,
}
use dash_mno_verify.Prelude.JsMap
use dash_mno_verify.Prelude.JsMap.{JsMap}
use dash_mno_verify.Grants.Ledger.{
  Adapter, Row, Ledger, empty, observe_clock, row_of, record_of, put, delete_rev,
}

-- The awaited call: the revoke of an orphan, the apply of a grant, with whether it is the first and the
-- revision of its row, the revoke that compensates a first apply, the revoke of a sweep, and `admit`.
pub data Phase (R O : Type 0) : Type 0 where
  migrating : R → R → O → Bool → Phase R O
  applying : R → Bool → ℕ → Phase R O
  compensating sweeping : R → ℕ → Phase R O
  admitting : R → Phase R O

-- The ledger, the operations that wait, and the targets that each member has access to on the platform.
pub record World (R O : Type 0) : Type 0 where
  pub ledger : Ledger R
  pub phases : JsMap String (Phase R O)
  pub access : String → String → Bool

-- How the platform answers a call: all of it is done; it throws before anything is sent; it throws with
-- some of the targets done.
pub data Answer : Type 0 where
  done unsent : Answer
  partly : (String → Bool) → Answer

-- What happens: an operation on a member begins, at a time; an awaited call is answered; the process
-- ends, with some of the targets of each call in flight done. The flag says whether a statement that
-- writes or deletes a row is done; one that throws may have used up a revision, which the model gives to the next.
pub data Event (R : Type 0) : Type 0 where
  grants : String → R → ℕ → Bool → Event R
  sweeps admits lives : String → ℕ → Event R
  answers : String → Answer → Bool → Event R
  dies : (String → String → Bool) → Event R

abbrev pub part_of : Answer → String → Bool
part_of done target = true
part_of unsent target = false
part_of (partly part) target = part target

abbrev pub is_done : Answer → Bool
is_done done = true
is_done _ = false

abbrev pub is_unsent : Answer → Bool
is_unsent unsent = true
is_unsent _ = false

module _ {R O : Type 0} where
  -- The platform after a member gets, or loses, the targets of a call that were done.
  unfoldable pub give : String → (String → Bool) → Answer → World R O → World R O
  give user names answer w = record w {
    access =
        λ u target. w.access u target || ((user == u) && (names target && part_of answer target));
  }

  unfoldable pub take : String → (String → Bool) → Answer → World R O → World R O
  take user names answer w = record w {
    access = λ u target.
        w.access u target && not ((user == u) && (names target && part_of answer target));
  }

  abbrev pub wait : String → Phase R O → World R O → World R O
  wait user phase w = record w { phases = JsMap.put user phase w.phases }

  abbrev pub settle : String → World R O → World R O
  settle user w = record w { phases = JsMap.delete user w.phases }

  abbrev pub with_ledger : Ledger R → World R O → World R O
  with_ledger l w = record w { ledger = l }

  -- The last part of `grant`: the record is written, and applied.
  unfoldable pub write_grant : String → R → Bool → Bool → World R O → World R O
  write_grant user r first writes w =
      if writes
      then (let (rev, l) = put user r w.ledger in
          wait user (applying r first rev) (with_ledger l w))
      else settle user w

  -- A covering record is written before the orphan is revoked, where the adapter has one.
  abbrev pub migrate : String → R → R → O → Bool → Option R → World R O → World R O
  migrate user prev r orphan writes none w = wait user (migrating prev r orphan false) w
  migrate user prev r orphan writes (some cover) w =
      if writes
      then (let (rev, l) = put user cover w.ledger in
          wait user (migrating prev r orphan true) (with_ledger l w))
      else settle user w

  -- The prior record back in its row.
  abbrev pub put_back : String → R → Bool → Bool → World R O → World R O
  put_back user prev covered writes w =
      if covered && writes then (let (rev, l) = put user prev w.ledger in with_ledger l w) else w

  -- The row of a revision goes, where its statement does not throw.
  abbrev pub forget_row : String → ℕ → Bool → World R O → World R O
  forget_row user rev writes w =
      if writes then (let (changed, l) = delete_rev user rev w.ledger in with_ledger l w) else w

  abbrev pub if_free : String → World R O → World R O → World R O
  if_free user w w' = if JsMap.has user w.phases then w else w'

module _ {R O : Type 0} (a : Adapter R O) where
  -- Over a prior record, by the part of it that the new record orphans.
  abbrev pub replace : String → R → R → Bool → Option O → World R O → World R O
  replace user r prev writes none w = write_grant user r false writes w
  replace user r prev writes (some orphan) w =
      migrate user prev r orphan writes (a.covering r orphan) w

  abbrev pub grant_over : String → R → Bool → Option R → World R O → World R O
  grant_over user r writes none w = write_grant user r true writes w
  grant_over user r writes (some prev) w = replace user r prev writes (a.orphaned prev r) w

  -- `grant`, up to its first await.
  unfoldable pub begin_grant : String → R → ℕ → Bool → World R O → World R O
  begin_grant user r now writes w =
      if a.validate r
      then (let (floor, l) = observe_clock now w.ledger in
          if leb (a.expires_at r) floor
          then with_ledger l w
          else grant_over user r writes (record_of (row_of user l)) (with_ledger l w))
      else w

  abbrev pub sweep_row : String → ℕ → Option (Row R) → World R O → World R O
  sweep_row user now none w = w
  sweep_row user now (some row) w =
      let (floor, l) = observe_clock now w.ledger in
      if ltb floor (a.expires_at row.record_)
      then with_ledger l w
      else wait user (sweeping row.record_ row.rev) (with_ledger l w)

  -- The body of the loop of `sweep`, up to its await.
  unfoldable pub begin_sweep : String → ℕ → World R O → World R O
  begin_sweep user now w = sweep_row user now (row_of user w.ledger) w

  abbrev pub is_live : ℕ → Option R → Bool
  is_live floor none = false
  is_live floor (some r) = ltb floor (a.expires_at r)

  -- `live`
  unfoldable pub live : String → ℕ → World R O → Bool × World R O
  live user now w =
      let (floor, l) = observe_clock now w.ledger in
      (is_live floor (record_of (row_of user l)), with_ledger l w)

  abbrev pub admit_row : String → ℕ → Option R → World R O → World R O
  admit_row user floor none w = w
  admit_row user floor (some r) w =
      if ltb floor (a.expires_at r) then wait user (admitting r) w else w

  -- `admitIfLive`, up to its await, for a record of the caller's target.
  unfoldable pub begin_admit : String → ℕ → World R O → World R O
  begin_admit user now w =
      let (floor, l) = observe_clock now w.ledger in
      admit_row user floor (record_of (row_of user l)) (with_ledger l w)

  -- After `apply` threw.
  abbrev pub failed_apply : String → R → Bool → ℕ → Answer → Bool → World R O → World R O
  failed_apply user r first rev answer writes w =
      if not first
      then settle user w
      else if is_unsent answer
      then settle user (forget_row user rev writes w)
      else if a.repairs
      then settle user w
      else wait user (compensating r rev) w

  -- What an operation does with the answer to its call.
  unfoldable pub resume : String → Answer → Bool → Phase R O → World R O → World R O
  resume user answer writes (migrating prev r orphan covered) w =
      let w' = take user (a.names_part orphan) answer w in
      if is_done answer
      then write_grant user r false writes w'
      else settle user (put_back user prev covered writes w')
  resume user answer writes (applying r first rev) w =
      let w' = give user (a.names r) answer w in
      if is_done answer then settle user w' else failed_apply user r first rev answer writes w'
  resume user answer writes (compensating r rev) w =
      let w' = take user (a.names r) answer w in
      if is_done answer then settle user (forget_row user rev writes w') else settle user w'
  resume user answer writes (sweeping r rev) w =
      let w' = take user (a.names r) answer w in
      if is_done answer then settle user (forget_row user rev writes w') else settle user w'
  resume user answer writes (admitting r) w = settle user (give user (a.names r) answer w)

  -- A call in flight when the process ends.
  abbrev pub in_flight : Phase R O → (String → Bool) → String → World R O → World R O
  in_flight (migrating prev r orphan covered) part user w =
      take user (a.names_part orphan) (partly part) w
  in_flight (applying r first rev) part user w = give user (a.names r) (partly part) w
  in_flight (compensating r rev) part user w = take user (a.names r) (partly part) w
  in_flight (sweeping r rev) part user w = take user (a.names r) (partly part) w
  in_flight (admitting r) part user w = give user (a.names r) (partly part) w

  abbrev pub fallen : Option (Phase R O) → (String → Bool) → String → World R O → World R O
  fallen none part user w = w
  fallen (some phase) part user w = in_flight phase part user w

  -- The process ends: what its calls did stays on the platform, and no operation waits.
  unfoldable pub die : (String → String → Bool) → World R O → World R O
  die parts w = record w {
    phases = [];
    access = λ user. (fallen (JsMap.get user w.phases) (parts user) user w).access user;
  }

  abbrev pub resume_if : String → Answer → Bool → Option (Phase R O) → World R O → World R O
  resume_if user answer writes none w = w
  resume_if user answer writes (some phase) w = resume user answer writes phase w

  -- An operation on a member begins only where none waits.
  unfoldable pub step : Event R → World R O → World R O
  step (grants user r now writes) w = if_free user w (begin_grant user r now writes w)
  step (sweeps user now) w = if_free user w (begin_sweep user now w)
  step (admits user now) w = if_free user w (begin_admit user now w)
  step (lives user now) w = (live user now w).1
  step (answers user answer writes) w = resume_if user answer writes (JsMap.get user w.phases) w
  step (dies parts) w = die parts w

  unfoldable pub run_events : List (Event R) → World R O → World R O
  run_events [] w = w
  run_events (e ∷ es) w = run_events es (step e w)

abbrev pub first_world : {R O : Type 0} → World R O
first_world = record { ledger = empty; phases = []; access = λ user target. false }
