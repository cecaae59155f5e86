-- ===== src/Grants/Begins.antt =====
-- The first steps of the operations of adapters/common/grant_ledger.js, and a member's row and access.
use dash_mno_verify.Prelude.{
  ℕ, Bool, true, false, String, string_eq, Option, none, some, ◌≡◌, refl, sym, ap, ◌∙◌, arith,
  subst, ltb, leb, if◌then◌else◌,
}
use dash_mno_verify.Prelude.JsMap
use dash_mno_verify.Grants.Ledger.{
  Adapter, Row, Ledger, observe_clock, row_of, record_of, observed_at,
}
use dash_mno_verify.Grants.Machine.{
  Phase, World, wait, with_ledger, write_grant, migrate, grant_over, begin_grant, sweep_row,
  begin_sweep, admit_row, begin_admit, replace, sweeping, admitting,
}
use dash_mno_verify.Grants.Others.{
  Kept, trans-Kept, refl-Kept, wait-Kept, settle-Kept, put-Kept, Same,
}
use dash_mno_verify.Grants.Tracked.{
  Laws, Within, Tracked, Waiting, named, wait-Tracked, settle-Tracked, to_named, trans-Within,
  Tracks, Tracked-free, Good,
}

-- Observing the clock leaves the rows alone.
rows-observed_at :
    {R : Type 0} (now : ℕ) (l : Ledger R) (mark : Option ℕ)
    → (observed_at now l mark).1.rows ≡ l.rows
rows-observed_at now l none = refl
rows-observed_at now l (some mark) = ground arith

pub rows-observe_clock :
    {R : Type 0} (now : ℕ) (l : Ledger R) → (observe_clock now l).1.rows ≡ l.rows
unfolding observe_clock
rows-observe_clock now l = rows-observed_at now l l.clock_mark

module _ {R O : Type 0} (a : Adapter R O) (laws : Laws a) where
  module _ (user : String) where
    pub write_grant-Good :
        (r : R) (first writes : Bool) (w : World R O)
        → Within (w.access user) (a.names r)
        → (first ≡ true → (t : String) → w.access user t ≡ false)
        → Within (w.access user) (named a (row_of user w.ledger))
        → Good a user w (write_grant user r first writes w)
    unfolding write_grant Waiting
    write_grant-Good r first true w h e k = (
      trans-Kept user w _ _ (put-Kept user w r) (wait-Kept user _ _),
      wait-Tracked a user _ _ (h, to_named a user r w.ledger _ (λ t x. x), e),
    )
    write_grant-Good r first false w h e k = (settle-Kept user w, settle-Tracked a user w k)

    pub migrate-Good :
        (prev r : R) (o : O) (writes : Bool) (cover : Option R) (w : World R O)
        → a.orphaned prev r ≡ some o
        → a.covering r o ≡ cover
        → Within (w.access user) (a.names prev)
        → Within (a.names prev) (named a (row_of user w.ledger))
        → Good a user w (migrate user prev r o writes cover w)
    unfolding Waiting
    migrate-Good prev r o writes none w e c h k =
        (wait-Kept user w _, wait-Tracked a user w _ (h, k, e))
    migrate-Good prev r o true (some cover) w e c h k = (
      trans-Kept user w _ _ (put-Kept user w cover) (wait-Kept user _ _),
      wait-Tracked a user _ _
          (h, to_named a user cover w.ledger _ (laws.covered prev r cover o e c), e),
    )
    migrate-Good prev r o false (some cover) w e c h k =
        (settle-Kept user w, settle-Tracked a user w (trans-Within a _ _ _ h k))

    pub replace-Good :
        (prev r : R) (writes : Bool) (o : Option O) (w : World R O)
        → a.orphaned prev r ≡ o
        → Within (w.access user) (a.names prev)
        → Within (a.names prev) (named a (row_of user w.ledger))
        → Good a user w (replace a user r prev writes o w)
    replace-Good prev r writes none w e h k =
        write_grant-Good r false writes w (trans-Within a _ _ _ h (laws.none_orphaned prev r e))
          (λ x t. ground arith) (trans-Within a _ _ _ h k)
    replace-Good prev r writes (some o) w e h k =
        migrate-Good prev r o writes (a.covering r o) w e refl h k

    pub grant_over-Good :
        (r : R) (writes : Bool) (row : Option (Row R)) (w : World R O)
        → row_of user w.ledger ≡ row
        → Within (w.access user) (named a row)
        → Good a user w (grant_over a user r writes (record_of row) w)
    grant_over-Good r writes none w e h =
        write_grant-Good r true writes w (λ t x. ground (arith, h t x)) (λ x t. ground (arith, h t))
          (λ t x. ground (arith, h t x))
    grant_over-Good r writes (some row) w e h =
        replace-Good row.record_ r writes _ w refl h
          (subst (λ p. Within (a.names row.record_) (named a p)) (sym e) (λ t x. x))

    -- A step after the clock was observed.
    module _ (w : World R O) (l : Ledger R) (same : l.rows ≡ w.ledger.rows) where
      pub with_ledger-Kept : Kept user w (with_ledger l w)
      unfolding Kept Same
      with_ledger-Kept other ne = (refl, ap (JsMap.get other) same, λ t. refl)

      pub with_ledger-Good : Tracked a user w → Good a user w (with_ledger l w)
      unfolding Tracked
      with_ledger-Good h = (
        with_ledger-Kept,
        subst (λ m. Tracks a (JsMap.get user w.phases) (named a (JsMap.get user m)) (w.access user))
            (sym same) h,
      )

      pub then-Good : (w' : World R O) → Good a user (with_ledger l w) w' → Good a user w w'
      then-Good w' (k, h) = (trans-Kept user w _ _ with_ledger-Kept k, h)

    pub if-Good :
        (w w1 w2 : World R O) (test : Bool)
        → Good a user w w1
        → Good a user w w2
        → Good a user w (if test then w1 else w2)
    if-Good w w1 w2 true h k = h
    if-Good w w1 w2 false h k = k

    -- An operation that finds no other of the member's.
    module _ (w : World R O) (free : JsMap.get user w.phases ≡ none)
        (tracked : Tracked a user w) where
      pub stay-Good : Good a user w w
      stay-Good = (refl-Kept user w, tracked)

      pub observe-Good : (now : ℕ) → Good a user w (with_ledger (observe_clock now w.ledger).1 w)
      observe-Good now = with_ledger-Good w _ (rows-observe_clock now w.ledger) tracked

      pub observed-Within :
          (now : ℕ) → Within (w.access user) (named a (row_of user (observe_clock now w.ledger).1))
      observed-Within now =
          subst (λ m. Within (w.access user) (named a (JsMap.get user m)))
            (sym (rows-observe_clock now w.ledger)) (Tracked-free a user w free tracked)

      pub begin_grant-Good :
          (r : R) (now : ℕ) (writes : Bool) → Good a user w (begin_grant a user r now writes w)
      unfolding begin_grant
      begin_grant-Good r now writes =
          let l = (observe_clock now w.ledger).1 in
          if-Good w _ _ (a.validate r)
            (if-Good w _ _ (leb (a.expires_at r) (observe_clock now w.ledger).0) (observe-Good now)
              (then-Good w l (rows-observe_clock now w.ledger) _ (
                grant_over-Good r writes (row_of user l) (with_ledger l w) refl
                  (observed-Within now))))
            stay-Good

      pub wait-Good :
          (now : ℕ) (row : Row R) (phase : Phase R O)
          → row_of user (observe_clock now w.ledger).1 ≡ some row
          → Waiting a phase (a.names row.record_) (w.access user)
          → Good a user w (wait user phase (with_ledger (observe_clock now w.ledger).1 w))
      wait-Good now row phase e h =
          then-Good w (observe_clock now w.ledger).1 (rows-observe_clock now w.ledger) _ (
            wait-Kept user _ phase,
            wait-Tracked a user _ phase
                (subst (λ p. Waiting a phase (named a p) (w.access user)) (sym e) h),
          )

      pub row-Within :
          (now : ℕ) (row : Row R)
          → row_of user (observe_clock now w.ledger).1 ≡ some row
          → Within (w.access user) (a.names row.record_)
      row-Within now row e = subst (λ p. Within (w.access user) (named a p)) e (observed-Within now)

      pub sweep_row-Good :
          (now : ℕ) (row : Option (Row R))
          → row_of user w.ledger ≡ row
          → Good a user w (sweep_row a user now row w)
      unfolding Waiting
      sweep_row-Good now none e = stay-Good
      sweep_row-Good now (some row) e =
          let e' = ap (JsMap.get user) (rows-observe_clock now w.ledger) ∙ e in
          if-Good w _ _ (ltb (observe_clock now w.ledger).0 (a.expires_at row.record_))
            (observe-Good now)
            (wait-Good now row (sweeping row.record_ row.rev) e' (row-Within now row e', λ t x. x))

      pub begin_sweep-Good : (now : ℕ) → Good a user w (begin_sweep a user now w)
      unfolding begin_sweep
      begin_sweep-Good now = sweep_row-Good now (row_of user w.ledger) refl

      pub admit_row-Good :
          (now floor : ℕ) (row : Option (Row R))
          → row_of user (observe_clock now w.ledger).1 ≡ row
          → Good a user w (
              admit_row a user floor (record_of row) (with_ledger (observe_clock now w.ledger).1 w))
      unfolding Waiting
      admit_row-Good now floor none e = observe-Good now
      admit_row-Good now floor (some row) e =
          if-Good w _ _ (ltb floor (a.expires_at row.record_))
            (wait-Good now row (admitting row.record_) e (row-Within now row e, λ t x. x))
            (observe-Good now)

      pub begin_admit-Good : (now : ℕ) → Good a user w (begin_admit a user now w)
      unfolding begin_admit
      begin_admit-Good now = admit_row-Good now _ (row_of user (observe_clock now w.ledger).1) refl
