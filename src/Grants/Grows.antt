-- ===== src/Grants/Grows.antt =====
-- Numbers of the ledger of adapters/common/grant_ledger.js along its events.
use dash_mno_verify.Prelude.{
  ℕ, List, [], ◌∷◌, Bool, true, false, String, string_eq, Option, none, some, arith, ◌≤◌, ltb,
  if◌then◌else◌, leb, not,
}
use dash_mno_verify.Prelude.JsMap
use dash_mno_verify.Grants.Ledger.{
  Adapter, Row, Ledger, row_of, record_of, observe_clock, put, delete_rev,
}
use dash_mno_verify.Grants.Machine.{
  Phase, World, Answer, Event, step, run_events, with_ledger, grants, sweeps, admits, lives,
  answers, dies, write_grant, migrate, put_back, forget_row, replace, grant_over, begin_grant,
  sweep_row, admit_row, failed_apply, resume, resume_if, begin_sweep, take, begin_admit, is_unsent,
  give, live, migrating, die, is_done, applying, compensating, sweeping, admitting,
}

-- The statements do not lower the number.
pub record Grows {R : Type 0} (M : Ledger R → ℕ) : Type 0 where
  pub observed : (now : ℕ) (l : Ledger R) → M l ≤ M (observe_clock now l).1
  pub stored : (user : String) (r : R) (l : Ledger R) → M l ≤ M (put user r l).1
  pub deleted : (user : String) (rev : ℕ) (l : Ledger R) → M l ≤ M (delete_rev user rev l).1

module _ {R : Type 0} (M : Ledger R → ℕ) (grows : Grows M) where
  module _ {O : Type 0} where
    if-grows :
        (n : ℕ) (test : Bool) (w w' : World R O)
        → n ≤ M w.ledger
        → n ≤ M w'.ledger
        → n ≤ M (if test then w else w').ledger
    if-grows n true w w' h k = h
    if-grows n false w w' h k = k

    write_grant-grows :
        (user : String) (r : R) (first writes : Bool) (w : World R O)
        → M w.ledger ≤ M (write_grant user r first writes w).ledger
    unfolding write_grant
    write_grant-grows user r first true w = grows.stored user r w.ledger
    write_grant-grows user r first false w = omega arith

    migrate-grows :
        (user : String) (prev r : R) (o : O) (writes : Bool) (cover : Option R) (w : World R O)
        → M w.ledger ≤ M (migrate user prev r o writes cover w).ledger
    migrate-grows user prev r o writes none w = omega arith
    migrate-grows user prev r o true (some cover) w = grows.stored user cover w.ledger
    migrate-grows user prev r o false (some cover) w = omega arith

    put_back-grows :
        (user : String) (prev : R) (covered writes : Bool) (w : World R O)
        → M w.ledger ≤ M (put_back user prev covered writes w).ledger
    put_back-grows user prev true true w = grows.stored user prev w.ledger
    put_back-grows user prev true false w = omega arith
    put_back-grows user prev false writes w = omega arith

    forget_row-grows :
        (user : String) (rev : ℕ) (writes : Bool) (w : World R O)
        → M w.ledger ≤ M (forget_row user rev writes w).ledger
    forget_row-grows user rev true w = grows.deleted user rev w.ledger
    forget_row-grows user rev false w = omega arith

  module _ {O : Type 0} (a : Adapter R O) where
    replace-grows :
        (user : String) (r prev : R) (writes : Bool) (o : Option O) (w : World R O)
        → M w.ledger ≤ M (replace a user r prev writes o w).ledger
    replace-grows user r prev writes none w = write_grant-grows user r false writes w
    replace-grows user r prev writes (some o) w =
        migrate-grows user prev r o writes (a.covering r o) w

    grant_over-grows :
        (user : String) (r : R) (writes : Bool) (row : Option R) (w : World R O)
        → M w.ledger ≤ M (grant_over a user r writes row w).ledger
    grant_over-grows user r writes none w = write_grant-grows user r true writes w
    grant_over-grows user r writes (some prev) w =
        replace-grows user r prev writes (a.orphaned prev r) w

    begin_grant-grows :
        (user : String) (r : R) (now : ℕ) (writes : Bool) (w : World R O)
        → M w.ledger ≤ M (begin_grant a user r now writes w).ledger
    unfolding begin_grant
    begin_grant-grows user r now writes w =
        let l = (observe_clock now w.ledger).1 in
        let e = grows.observed now w.ledger in
        if-grows _ (a.validate r) _ w
          (if-grows _ (leb (a.expires_at r) (observe_clock now w.ledger).0) _ _ (omega (arith, e)) (
            omega (
              arith,
              e,
              grant_over-grows user r writes (record_of (row_of user l)) (with_ledger l w),
            )))
          (omega arith)

    sweep_row-grows :
        (user : String) (now : ℕ) (row : Option (Row R)) (w : World R O)
        → M w.ledger ≤ M (sweep_row a user now row w).ledger
    sweep_row-grows user now none w = omega arith
    sweep_row-grows user now (some row) w =
        let e = grows.observed now w.ledger in
        if-grows _ (ltb (observe_clock now w.ledger).0 (a.expires_at row.record_)) _ _
          (omega (arith, e)) (omega (arith, e))

    admit_row-grows :
        (user : String) (floor : ℕ) (row : Option R) (w : World R O)
        → M w.ledger ≤ M (admit_row a user floor row w).ledger
    admit_row-grows user floor none w = omega arith
    admit_row-grows user floor (some r) w =
        if-grows _ (ltb floor (a.expires_at r)) _ _ (omega arith) (omega arith)

    failed_apply-grows :
        (user : String) (r : R) (first : Bool) (rev : ℕ) (answer : Answer) (writes : Bool)
        (w : World R O)
        → M w.ledger ≤ M (failed_apply a user r first rev answer writes w).ledger
    failed_apply-grows user r first rev answer writes w = if-grows _ (not first) _ _ (omega arith) (
        if-grows _ (is_unsent answer) _ _ (omega (arith, forget_row-grows user rev writes w))
          (if-grows _ a.repairs _ _ (omega arith) (omega arith)))

    resume-grows :
        (user : String) (answer : Answer) (writes : Bool) (phase : Phase R O) (w : World R O)
        → M w.ledger ≤ M (resume a user answer writes phase w).ledger
    unfolding resume take give
    resume-grows user answer writes (migrating prev r o covered) w =
        let w' = take user (a.names_part o) answer w in
        if-grows _ (is_done answer) _ _ (omega (arith, write_grant-grows user r false writes w'))
          (omega (arith, put_back-grows user prev covered writes w'))
    resume-grows user answer writes (applying r first rev) w =
        let w' = give user (a.names r) answer w in
        if-grows _ (is_done answer) _ _ (omega arith)
          (failed_apply-grows user r first rev answer writes w')
    resume-grows user answer writes (compensating r rev) w =
        let w' = take user (a.names r) answer w in
        if-grows _ (is_done answer) _ _ (omega (arith, forget_row-grows user rev writes w'))
          (omega arith)
    resume-grows user answer writes (sweeping r rev) w =
        let w' = take user (a.names r) answer w in
        if-grows _ (is_done answer) _ _ (omega (arith, forget_row-grows user rev writes w'))
          (omega arith)
    resume-grows user answer writes (admitting r) w = omega arith

    resume_if-grows :
        (user : String) (answer : Answer) (writes : Bool) (phase : Option (Phase R O))
        (w : World R O)
        → M w.ledger ≤ M (resume_if a user answer writes phase w).ledger
    resume_if-grows user answer writes none w = omega arith
    resume_if-grows user answer writes (some phase) w = resume-grows user answer writes phase w

    step-grows : (e : Event R) (w : World R O) → M w.ledger ≤ M (step a e w).ledger
    unfolding step begin_sweep begin_admit live die
    step-grows (grants user r now writes) w =
        if-grows _ (JsMap.has user w.phases) _ _ (omega arith)
          (begin_grant-grows user r now writes w)
    step-grows (sweeps user now) w =
        if-grows _ (JsMap.has user w.phases) _ _ (omega arith)
          (sweep_row-grows user now (row_of user w.ledger) w)
    step-grows (admits user now) w =
        let l = (observe_clock now w.ledger).1 in
        if-grows _ (JsMap.has user w.phases) _ _ (omega arith) (
          omega (
            arith,
            grows.observed now w.ledger,
            admit_row-grows user (observe_clock now w.ledger).0 (record_of (row_of user l))
                (with_ledger l w),
          ))
    step-grows (lives user now) w = omega (arith, grows.observed now w.ledger)
    step-grows (answers user answer writes) w =
        resume_if-grows user answer writes (JsMap.get user w.phases) w
    step-grows (dies parts) w = omega arith

    pub run_events-grows :
        (es : List (Event R)) (w : World R O) → M w.ledger ≤ M (run_events a es w).ledger
    unfolding run_events
    run_events-grows [] w = omega arith
    run_events-grows (e ∷ es) w = omega (arith, step-grows e w, run_events-grows es (step a e w))
