-- ===== src/Stores/RootWindows/Freshness.antt =====
-- `isEligibleWithin` of core/stores.js: the age of a root that the window holds more than once.
use dash_mno_verify.Prelude.{
  ℕ, ◌-◌, ◌≡◌, List, [], ◌∷◌, Bool, false, ◌&&◌, ◌||◌, leb, nat_beq, any_of, ◌==◌, string_eq,
  String, Option, some, none, arith, any_of-and_false, Bool-cases, inl, nat_beq_iff, sym,
  any_of-ext, inr, ◌∙◌,
}
use dash_mno_verify.Stores.RootWindows.{
  Snap, RootWindows, is_eligible_within, is_recent, ts_of, ts_loop,
}

abbrev fresh_to : ℕ → ℕ → Option ℕ → Bool
fresh_to max_age now none = false
fresh_to max_age now (some ts) = leb (now - ts) max_age

-- The newest timestamp is young enough exactly when some timestamp is.
ts_loop-fresh :
    (root : String) (max_age now : ℕ) (newest : Option ℕ) (snaps : List Snap)
    → fresh_to max_age now (ts_loop root newest snaps) ≡ (
        fresh_to max_age now newest
        || any_of (λ (s : Snap). s.root == root && leb (now - s.ts) max_age) snaps)
unfolding ts_loop
ts_loop-fresh root max_age now newest [] = ground arith
ts_loop-fresh root max_age now none (s ∷ rest) = ground (
  arith,
  ts_loop-fresh root max_age now none rest,
  ts_loop-fresh root max_age now (some s.ts) rest,
)
ts_loop-fresh root max_age now (some t) (s ∷ rest) = ground (
  arith,
  ts_loop-fresh root max_age now (some t) rest,
  ts_loop-fresh root max_age now (some s.ts) rest,
)

unbounded :
    (root : String) (now : ℕ) (s : Snap)
    → (s.root == root && (nat_beq 0 0 || leb (now - s.ts) 0)) ≡ (s.root == root)
unbounded root now s = ground arith

bounded :
    (root : String) (max_age now : ℕ) (s : Snap)
    → nat_beq max_age 0 ≡ false
    → (s.root == root && (nat_beq max_age 0 || leb (now - s.ts) max_age))
      ≡ (s.root == root && leb (now - s.ts) max_age)
bounded root max_age now s h = ground arith

eligible_bounded :
    (root : String) (max_age now : ℕ) (w : RootWindows)
    → nat_beq max_age 0 ≡ false
    → is_eligible_within root max_age now w
      ≡ any_of (λ (s : Snap). s.root == root && leb (now - s.ts) max_age) w.snaps
unfolding is_eligible_within is_recent ts_of
eligible_bounded root max_age now w h = ground (
  arith,
  ts_loop-fresh root max_age now none w.snaps,
  any_of-and_false (λ (s : Snap). s.root == root) (λ s. leb (now - s.ts) max_age) w.snaps,
)

eligible_unbounded :
    (root : String) (now : ℕ) (w : RootWindows) → is_eligible_within root 0 now w ≡ is_recent root w
unfolding is_eligible_within
eligible_unbounded root now w = ground arith

-- A root is eligible exactly when some record of the window holds it and, where a bound is set, is
-- no older than the bound; a record from the future has age 0.
pub is_eligible_within_iff :
    (root : String) (max_age now : ℕ) (w : RootWindows)
    → is_eligible_within root max_age now w
      ≡ any_of
          (λ (s : Snap). s.root == root && (nat_beq max_age 0 || leb (now - s.ts) max_age))
          w.snaps
is_eligible_within_iff root max_age now w = elim (Bool-cases (nat_beq max_age 0)) [
  | inl free ↦
      let e : max_age ≡ 0 = (nat_beq_iff max_age 0).0 free in
      rw (e, eligible_unbounded)
        (unfold is_recent in sym (any_of-ext _ _ w.snaps (unbounded root now)))
  | inr set ↦
      eligible_bounded root max_age now w set
      ∙ sym (any_of-ext _ _ w.snaps (λ s. bounded root max_age now s set))
]
