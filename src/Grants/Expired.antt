-- ===== src/Grants/Expired.antt =====
-- What adapters/common/grant_ledger.js does with a grant whose deadline has passed.
use dash_mno_verify.Prelude.{
  ℕ, List, Bool, true, false, String, string_eq, some, ◌≡◌, refl, ap, ◌∙◌, arith, ◌≤◌, ltb, leb,
  if◌then◌else◌, ◌⊎◌, inl, inr,
}
use dash_mno_verify.Prelude.JsMap
use dash_mno_verify.Grants.Ledger.{Adapter, Row, row_of, record_of, observe_clock}
use dash_mno_verify.Grants.Machine.{
  World, Event, live, run_events, with_ledger, begin_admit, begin_grant, admit_row, is_live, wait,
  admitting, grant_over,
}
use dash_mno_verify.Grants.Begins.{rows-observe_clock}
use dash_mno_verify.Grants.Clock.{seen, observe_clock-seen, run_events-seen}

module _ {R O : Type 0} (a : Adapter R O) where
  -- A world whose ledger has seen a time.
  module _ (w : World R O) (now later : ℕ) (seen_now : now ≤ seen w.ledger) where
    floor-le : now ≤ (observe_clock later w.ledger).0
    floor-le = omega (arith, seen_now, observe_clock-seen later w.ledger)

    ltb_floor :
        (r : R)
        → a.expires_at r ≤ now
        → ltb (observe_clock later w.ledger).0 (a.expires_at r) ≡ false
    ltb_floor r h = ground (arith, floor-le)

    leb_floor :
        (r : R)
        → a.expires_at r ≤ now
        → leb (a.expires_at r) (observe_clock later w.ledger).0 ≡ true
    leb_floor r h = ground (arith, floor-le)

    module _ (user : String) (row : Row R) (due : a.expires_at row.record_ ≤ now)
        (e : row_of user w.ledger ≡ some row) where
      row_later : row_of user (observe_clock later w.ledger).1 ≡ some row
      row_later = ap (JsMap.get user) (rows-observe_clock later w.ledger) ∙ e

      live_late : (live a user later w).0 ≡ false
      unfolding live
      live_late =
          ap (λ p. is_live a (observe_clock later w.ledger).0 (record_of p)) row_later
          ∙ ltb_floor row.record_ due

      begin_admit_late : (begin_admit a user later w).phases ≡ w.phases
      unfolding begin_admit
      begin_admit_late =
          ap
            (λ p.
              (admit_row a user (observe_clock later w.ledger).0 (record_of p)
                (with_ledger (observe_clock later w.ledger).1 w)).phases)
            row_later
          ∙ ap
              (λ t.
                (if t
                  then wait user (admitting row.record_)
                      (with_ledger (observe_clock later w.ledger).1 w)
                  else with_ledger (observe_clock later w.ledger).1 w).phases)
              (ltb_floor row.record_ due)

    -- All that a refused grant changes is the clock.
    begin_grant_late :
        (user : String) (r : R) (writes : Bool)
        → a.expires_at r ≤ now
        → (begin_grant a user r later writes w ≡ w)
          ⊎ (begin_grant a user r later writes w ≡ with_ledger (observe_clock later w.ledger).1 w)
    unfolding begin_grant
    begin_grant_late user r writes h = go (a.validate r)
      where
        go :
            (t : Bool)
            → let l = (observe_clock later w.ledger).1 in
              let w' =
                if t
                then (if leb (a.expires_at r) (observe_clock later w.ledger).0
                    then with_ledger l w
                    else grant_over a user r writes (record_of (row_of user l)) (with_ledger l w))
                else w in
              (w' ≡ w) ⊎ (w' ≡ with_ledger l w)
        go false = inl refl
        go true = inr (
            ap
              (λ b.
                if b
                then with_ledger (observe_clock later w.ledger).1 w
                else grant_over a user r writes
                    (record_of (row_of user (observe_clock later w.ledger).1))
                    (with_ledger (observe_clock later w.ledger).1 w))
              (leb_floor r h))

  -- A world after the ledger was asked about a member at a time, and a run of events.
  abbrev pub since : String → ℕ → List (Event R) → World R O → World R O
  since other now es w = run_events a es (live a other now w).1

  module _ (w : World R O) (other : String) (now later : ℕ) (es : List (Event R)) where
    seen-since : now ≤ seen (since other now es w).ledger
    unfolding live
    seen-since =
        omega (arith, observe_clock-seen now w.ledger, run_events-seen a es (live a other now w).1)

    -- Once the ledger has been asked, about any member, at a time at or past a record's deadline, then after
    -- any run of events a member with that record is not live, and no admission of the member begins,
    -- whatever the clock says then. The events are the ledger's operations, the platform's answers and the
    -- end of the process; a start with `resetClock`, which drops the floor on the operator's request and so
    -- can make the record live again, is not one of them.
    pub live_after_expiry :
        (user : String) (row : Row R)
        → a.expires_at row.record_ ≤ now
        → row_of user (since other now es w).ledger ≡ some row
        → ((live a user later (since other now es w)).0 ≡ false)
          × ((begin_admit a user later (since other now es w)).phases
              ≡ (since other now es w).phases)
    live_after_expiry user row due e = (
      live_late (since other now es w) now later seen-since user row due e,
      begin_admit_late (since other now es w) now later seen-since user row due e,
    )

    -- Once the ledger has been asked, about any member, at a time at or past a record's deadline, then after
    -- any run of events, a start with `resetClock` not being one of them, a grant of that record changes no
    -- row, begins no call to the platform and gives no access, whatever the clock says then.
    pub begin_grant_after_expiry :
        (user : String) (r : R) (writes : Bool)
        → a.expires_at r ≤ now
        → let w' = begin_grant a user r later writes (since other now es w) in
          (w'.ledger.rows ≡ (since other now es w).ledger.rows)
          × (w'.phases ≡ (since other now es w).phases)
          × (w'.access ≡ (since other now es w).access)
    begin_grant_after_expiry user r writes due =
        elim (begin_grant_late (since other now es w) now later seen-since user r writes due) [
          | inl e ↦ (ap (λ v. v.ledger.rows) e, ap (λ v. v.phases) e, ap (λ v. v.access) e)
          | inr e ↦ (
            ap (λ v. v.ledger.rows) e ∙ rows-observe_clock later (since other now es w).ledger,
            ap (λ v. v.phases) e,
            ap (λ v. v.access) e,
          )
        ]
