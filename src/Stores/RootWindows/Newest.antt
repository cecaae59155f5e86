-- ===== src/Stores/RootWindows/Newest.antt =====
-- What the window of core/stores.js serves as current after an adoption.
use dash_mno_verify.Prelude.{
  ℕ, zero, suc, ◌≤◌, ◌≡◌, refl, ap, sym, ◌∙◌, inl, inr, List, [], ◌∷◌, map, Bool, true, not, ltb,
  nat_beq, keep_if, last?, String, Option, some, arith, All, Bool-cases, Option-cases, All-keep_if,
}
use dash_mno_verify.Stores.Order.{distinct, IsSorted, IsSorted-keep_if, last?-IsSorted}
use dash_mno_verify.Stores.RootWindows.{
  Snap, heights_of, evict_target, enforce_loop, retained_leaves,
}
use dash_mno_verify.Stores.RootWindows.Bounds.{last?-some}
use native.Mathlib.Decide.{ℕ_discrete}
use dash_mno_verify.Stores.RootWindows.Eviction.{evict_target-IsFair}

pub last?-cons {ℓ} :
    {A : Type ℓ} (y x : A) (xs : List A) → last? xs ≡ some x → last? (y ∷ xs) ≡ some x
last?-cons y x [] h = cc
last?-cons y x (z ∷ xs) h = h

pub last?-keep_if {ℓ} :
    {A : Type ℓ} (p : A → Bool) (xs : List A) (x : A)
    → last? xs ≡ some x
    → p x ≡ true
    → last? (keep_if p xs) ≡ some x
last?-keep_if p [] x h k = cc
last?-keep_if p (y ∷ []) x h k = elim (Bool-cases (p y)) [
  | inl kept ↦ rw kept h
  | inr cut ↦ cc (cut, k)
]
last?-keep_if p (y ∷ z ∷ xs) x h k =
    let rest = last?-keep_if p (z ∷ xs) x h k in
    elim (Bool-cases (p y)) [
      | inl kept ↦ rw kept (last?-cons y x (keep_if p (z ∷ xs)) rest)
      | inr cut ↦ rw cut rest
    ]

All-distinct : (P : ℕ → Type 0) (hs : List ℕ) → All P hs → All P (distinct hs)
unfolding distinct
All-distinct P [] h = tt
All-distinct P (x ∷ hs) h =
    (h.0, All-keep_if P (λ y. not (nat_beq y x)) (distinct hs) (All-distinct P hs h.1))

none_other :
    (x n : ℕ) (hs : List ℕ)
    → All (λ y. x ≤ y) hs
    → All (λ y. y ≤ n) hs
    → x ≡ n
    → keep_if (λ y. not (nat_beq y x)) hs ≡ []
none_other x n [] low high e = refl
none_other x n (y ∷ hs) low high e = ground (arith, none_other x n hs low.1 high.1 e)

same_heights :
    (x n : ℕ) (hs : List ℕ)
    → All (λ y. x ≤ y) hs
    → All (λ y. y ≤ n) hs
    → x ≡ n
    → keep_if (λ y. not (nat_beq y x)) (distinct hs) ≡ []
same_heights x n hs low high e =
    none_other x n (distinct hs) (All-distinct (λ y. x ≤ y) hs low)
      (All-distinct (λ y. y ≤ n) hs high) e

-- In ascending order the last of the distinct heights is the last height.
last?-distinct : (hs : List ℕ) → IsSorted (λ h. h) hs → last? (distinct hs) ≡ last? hs
unfolding distinct
last?-distinct [] s = refl
last?-distinct (x ∷ []) s = refl
last?-distinct (x ∷ y ∷ hs) s =
    let (n, l) = last?-some y hs in
    let rest = last?-distinct (y ∷ hs) s.1 ∙ l in
    elim (ℕ_discrete x n) [
      | yes e ↦
          rw (same_heights x n (y ∷ hs) s.0 (last?-IsSorted (λ h. h) (y ∷ hs) n s.1 l) e)
            (ap some e ∙ sym l)
      | no ne ↦
          last?-cons x n (keep_if (λ z. not (nat_beq z x)) (distinct (y ∷ hs)))
            (last?-keep_if (λ z. not (nat_beq z x)) (distinct (y ∷ hs)) n rest (ground arith))
          ∙ sym l
    ]

last?-map :
    (snaps : List Snap) (s : Snap)
    → last? snaps ≡ some s
    → last? (map (λ r. r.height) snaps) ≡ some s.height
last?-map [] s h = cc
last?-map (r ∷ []) s h = ground arith
last?-map (r ∷ q ∷ snaps) s h = last?-map (q ∷ snaps) s h

map-All :
    (n : ℕ) (snaps : List Snap)
    → All (λ (r : Snap). n ≤ r.height) snaps
    → All (λ h. n ≤ h) (map (λ r. r.height) snaps)
map-All n [] h = tt
map-All n (s ∷ snaps) h = (h.0, map-All n snaps h.1)

map-IsSorted :
    (snaps : List Snap)
    → IsSorted (λ r. r.height) snaps
    → IsSorted (λ h. h) (map (λ r. r.height) snaps)
map-IsSorted [] o = tt
map-IsSorted (s ∷ snaps) o = (map-All s.height snaps o.0, map-IsSorted snaps o.1)

pub last?-heights_of :
    (snaps : List Snap) (s : Snap)
    → IsSorted (λ r. r.height) snaps
    → last? snaps ≡ some s
    → last? (heights_of snaps) ≡ some s.height
last?-heights_of snaps s o h =
    last?-distinct (map (λ r. r.height) snaps) (map-IsSorted snaps o) ∙ last?-map snaps s h

-- Evicting keeps the newest record.
pub last?-enforce_loop :
    (fuel max_leaves : ℕ) (pinned : Option (List String)) (snaps : List Snap) (s : Snap)
    → IsSorted (λ r. r.height) snaps
    → last? snaps ≡ some s
    → last? (enforce_loop fuel max_leaves pinned snaps) ≡ some s
unfolding enforce_loop
last?-enforce_loop zero max_leaves pinned snaps s o h = h
last?-enforce_loop (suc fuel) max_leaves pinned snaps s o h =
    elim (Bool-cases (ltb max_leaves (retained_leaves snaps))) [
      | inr fits ↦ rw (fits, enforce_loop) h
      | inl over ↦ elim (Option-cases (evict_target pinned snaps)) [
        | inl stuck ↦ rw (over, stuck, enforce_loop) h
        | inr (t, e) ↦
            let ne =
              (evict_target-IsFair pinned snaps t s.height e (last?-heights_of snaps s o h)).1 in
            rw (over, e, enforce_loop)
              (last?-enforce_loop fuel max_leaves pinned
                (keep_if (λ r. not (nat_beq r.height t)) snaps) s
                (IsSorted-keep_if (λ r. r.height) (λ r. not (nat_beq r.height t)) snaps o)
                (last?-keep_if (λ r. not (nat_beq r.height t)) snaps s h (ground arith)))
      ]
    ]
