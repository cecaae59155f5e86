-- ===== src/Stores/RootWindows/Bounds.antt =====
-- `#enforceLeafBound` of core/stores.js: when the loop stops.
use dash_mno_verify.Prelude.{
  ℕ, zero, suc, ◌≤◌, ◌<◌, ◌≡◌, ◌≢◌, refl, ◌⊎◌, inl, inr, List, [], ◌∷◌, map, Bool, true, not, leb,
  ltb, nat_beq, length, keep_if, last?, String, Option, some, none, arith, All, Bool-cases,
  Option-cases, get_elem?, ◌∙◌, ok,
}
use dash_mno_verify.Stores.RootWindows.Eviction.{
  evict_from-IsFair, holds, holds-distinct, length-evict,
}
use dash_mno_verify.Stores.Order.{distinct}
use dash_mno_verify.Stores.RootWindows.{
  Snap, RootWindows, heights_of, retained_leaves, is_pinned, evict_target, enforce_loop,
  enforce_leaf_bound, evict_from, evict_at, adopt, trim, all_snaps,
}

-- Where there are two heights, there is a target.
last?-ne :
    (x : ℕ) (ys : List ℕ) (n : ℕ)
    → All (λ y. not (nat_beq y x) ≡ true) ys
    → 0 < length ys
    → last? (x ∷ ys) ≡ some n
    → not (nat_beq x n) ≡ true
last?-ne x [] n h l e = absurd (omega arith)
last?-ne x (y ∷ []) n h l e = ground arith
last?-ne x (y ∷ z ∷ ys) n h l e = last?-ne x (z ∷ ys) n h.1 (omega arith) e

All-kept : (p : ℕ → Bool) (xs : List ℕ) → All (λ x. p x ≡ true) (keep_if p xs)
All-kept p [] = tt
All-kept p (x ∷ xs) = elim (Bool-cases (p x)) [
  | inl kept ↦ rw kept (kept, All-kept p xs)
  | inr cut ↦ rw cut (All-kept p xs)
]

evict_from-none :
    (pinned : ℕ → Bool) (heights : List ℕ) (newest : ℕ)
    → evict_from pinned heights newest ≡ none
    → get_elem? (keep_if (λ y. not (nat_beq y newest)) heights) 0 ≡ none
unfolding evict_from
evict_from-none pinned heights newest h = ground arith

two_heights :
    (pinned : ℕ → Bool) (x : ℕ) (ys : List ℕ) (newest : ℕ)
    → not (nat_beq x newest) ≡ true
    → evict_from pinned (x ∷ ys) newest ≢ none
two_heights pinned x ys newest h e =
    let gone = evict_from-none pinned (x ∷ ys) newest e in cc (rw h at gone)

pub last?-some : (x : ℕ) (ys : List ℕ) → (n : ℕ) × (last? (x ∷ ys) ≡ some n)
last?-some x [] = (x, refl)
last?-some x (y ∷ ys) = last?-some y ys

evict_at-some :
    (pinned : ℕ → Bool) (x : ℕ) (ys : List ℕ) (n : ℕ)
    → 0 < length ys
    → last? (x ∷ ys) ≡ some n
    → evict_from pinned (x ∷ ys) n ≡ evict_at pinned (x ∷ ys)
unfolding evict_at
evict_at-some pinned x ys n h l = ground (arith, l)

stuck_heights :
    (pinned : ℕ → Bool) (hs : List ℕ)
    → evict_at pinned (distinct hs) ≡ none
    → length (distinct hs) ≤ 1
unfolding distinct
stuck_heights pinned [] e = omega arith
stuck_heights pinned (x ∷ hs) e =
    let ys = keep_if (λ y. not (nat_beq y x)) (distinct hs) in
    let (n, l) = last?-some x ys in
    elim (Bool-cases (leb (length ys) 0)) [
      | inl alone ↦ ground arith
      | inr more ↦
          let first =
            last?-ne x ys n (All-kept (λ y. not (nat_beq y x)) (distinct hs)) (ground arith) l in
          absurd
            (two_heights pinned x ys n first (evict_at-some pinned x ys n (ground arith) l ∙ e))
    ]

evict_at-holds :
    (pinned : ℕ → Bool) (heights : List ℕ) (t : ℕ)
    → evict_at pinned heights ≡ some t
    → holds t heights ≡ true
unfolding evict_at
evict_at-holds pinned heights t h = elim (Option-cases (last? heights)) [
  | inl e ↦ ground (arith, e)
  | inr (n, e) ↦ (evict_from-IsFair pinned heights n t (ground (arith, e))).0
]

shorter :
    (pinned : Option (List String)) (snaps : List Snap) (t : ℕ)
    → evict_target pinned snaps ≡ some t
    → length (keep_if (λ s. not (nat_beq s.height t)) snaps) < length snaps
unfolding evict_target
shorter pinned snaps t e = length-evict t snaps (
    holds-distinct t (map (λ s. s.height) snaps)
      (evict_at-holds (is_pinned pinned snaps) (heights_of snaps) t e))

-- The loop stops with the leaves within the bound, or with at most one height left: its fuel, the
-- number of records, is enough.
enforce_loop-bound :
    (fuel max_leaves : ℕ) (pinned : Option (List String)) (snaps : List Snap)
    → length snaps ≤ fuel
    → (retained_leaves (enforce_loop fuel max_leaves pinned snaps) ≤ max_leaves)
      ⊎ (length (heights_of (enforce_loop fuel max_leaves pinned snaps)) ≤ 1)
unfolding enforce_loop
enforce_loop-bound zero max_leaves pinned [] h = inr (unfold distinct in omega arith)
enforce_loop-bound zero max_leaves pinned (s ∷ snaps) h = absurd (omega arith)
enforce_loop-bound (suc fuel) max_leaves pinned snaps h =
    elim (Bool-cases (ltb max_leaves (retained_leaves snaps))) [
      | inr fits ↦ rw (fits, enforce_loop) (inl (ground arith))
      | inl over ↦ elim (Option-cases (evict_target pinned snaps)) [
        | inl stuck ↦
            let evicts : evict_at (is_pinned pinned snaps) (heights_of snaps) ≡ none =
              unfold evict_target in stuck in
            rw (over, stuck, enforce_loop)
              (inr (stuck_heights (is_pinned pinned snaps) (map (λ s. s.height) snaps) evicts))
        | inr (t, e) ↦
            rw (over, e, enforce_loop)
              (enforce_loop-bound fuel max_leaves pinned
                (keep_if (λ s. not (nat_beq s.height t)) snaps)
                (omega (arith, shorter pinned snaps t e)))
      ]
    ]

-- A successful adoption under a leaf bound leaves the retained leaves within it, or a single height.
pub adopt-bound :
    (pinned : Option (List String)) (a : Snap) (w w' : RootWindows)
    → adopt pinned a w ≡ ok w'
    → 0 < w.max_leaves
    → (retained_leaves w'.snaps ≤ w.max_leaves) ⊎ (length (heights_of w'.snaps) ≤ 1)
unfolding adopt enforce_leaf_bound
adopt-bound pinned a w w' h set =
    let all = trim w.window (all_snaps a w.snaps) in
    let e : w'.snaps ≡ enforce_loop (length all) w.max_leaves pinned all = ground arith in
    rw e (enforce_loop-bound (length all) w.max_leaves pinned all (omega arith))
