-- ===== src/Grants/Clock.antt =====
-- The clock of adapters/common/grant_ledger.js: `clockMark`, the floor under all its decisions.
use dash_mno_verify.Prelude.{ℕ, List, string_eq, Option, none, some, ◌≡◌, refl, ap, arith, ◌≤◌}
use dash_mno_verify.Grants.Ledger.{Adapter, Ledger, observe_clock, observed_at, put, delete_rev}
use dash_mno_verify.Grants.Grows.{Grows, run_events-grows}
use dash_mno_verify.Grants.Machine.{World, Event, run_events}

abbrev pub mark_floor : Option ℕ → ℕ
mark_floor none = 0
mark_floor (some mark) = mark

-- The highest time that the ledger has seen.
abbrev pub seen : {R : Type 0} → Ledger R → ℕ
seen l = mark_floor l.clock_mark

module _ {R : Type 0} (now : ℕ) (l : Ledger R) where
  -- `l'` has seen all that `l` has, and `now`.
  observed_at-seen :
      (mark : Option ℕ)
      → l.clock_mark ≡ mark
      → (seen l ≤ (observed_at now l mark).0)
        × (now ≤ (observed_at now l mark).0)
        × (seen (observed_at now l mark).1 ≡ (observed_at now l mark).0)
  observed_at-seen none e = ground (arith, ap mark_floor e)
  observed_at-seen (some mark) e = ground (arith, ap mark_floor e)

  pub observe_clock-seen :
      (seen l ≤ (observe_clock now l).0)
      × (now ≤ (observe_clock now l).0)
      × (seen (observe_clock now l).1 ≡ (observe_clock now l).0)
  unfolding observe_clock
  observe_clock-seen = observed_at-seen l.clock_mark refl

-- No statement lowers it, so no event does.
seen-Grows : {R : Type 0} → Grows {R = R} seen
unfolding put delete_rev
seen-Grows = record {
  observed = λ now l. omega (arith, observe_clock-seen now l);
  stored = λ user r l. omega arith;
  deleted = λ user rev l. ground arith;
}

pub run_events-seen :
    {R O : Type 0} (a : Adapter R O) (es : List (Event R)) (w : World R O)
    → seen w.ledger ≤ seen (run_events a es w).ledger
run_events-seen a es w = run_events-grows seen seen-Grows a es w
