-- ===== src/Stores/RootWindows/Eviction.antt =====
-- `#enforceLeafBound` of core/stores.js: which height goes.
use dash_mno_verify.Prelude.{
  ◌⊎◌, ℕ, ◌<◌, ◌≡◌, ◌≢◌, ◌⊎◌, inl, inr, List, [], ◌∷◌, map, Bool, true, false, not, nat_beq, any_of,
  length, keep_if, last?, String, Option, some, none, arith, All, Bool-cases, Option-cases,
  nat_beq_iff, get_elem?, length-keep_if-le,
}
use dash_mno_verify.Stores.Order.{distinct}
use dash_mno_verify.Stores.RootWindows.{Snap, heights_of, is_pinned, evict_target, evict_from}

abbrev pub holds : ℕ → List ℕ → Bool
holds t hs = any_of (nat_beq t) hs

first_kept :
    (p : ℕ → Bool) (xs : List ℕ) (t : ℕ)
    → get_elem? (keep_if p xs) 0 ≡ some t
    → (p t ≡ true) × (holds t xs ≡ true)
first_kept p [] t h = ground arith
first_kept p (x ∷ xs) t h = elim (Bool-cases (p x)) [
  | inl kept ↦ let same : x ≡ t = cc (rw kept at h) in rw (← same) (kept, ground arith)
  | inr cut ↦ let (good, there) = first_kept p xs t (rw cut at h) in (good, ground arith)
]

none_kept :
    (p : ℕ → Bool) (xs : List ℕ) → get_elem? (keep_if p xs) 0 ≡ none → All (λ x. p x ≡ false) xs
none_kept p [] h = tt
none_kept p (x ∷ xs) h = elim (Bool-cases (p x)) [
  | inl kept ↦ cc (rw kept at h)
  | inr cut ↦ (cut, none_kept p xs (rw cut at h))
]

All-unkeep :
    (P : ℕ → Type 0) (p : ℕ → Bool) (xs : List ℕ)
    → All P (keep_if p xs)
    → All (λ x. p x ≡ true → P x) xs
All-unkeep P p [] h = tt
All-unkeep P p (x ∷ xs) h = elim (Bool-cases (p x)) [
  | inl kept ↦ let h' = rw kept at h in ((λ _. h'.0), All-unkeep P p xs h'.1)
  | inr cut ↦ ((λ e. cc), All-unkeep P p xs (rw cut at h))
]

All-imp : (P Q : ℕ → Type 0) (xs : List ℕ) → ((x : ℕ) → P x → Q x) → All P xs → All Q xs
All-imp P Q [] f h = tt
All-imp P Q (x ∷ xs) f h = (f x h.0, All-imp P Q xs f h.1)

holds-keep_if :
    (p : ℕ → Bool) (t : ℕ) (xs : List ℕ) → holds t (keep_if p xs) ≡ true → holds t xs ≡ true
holds-keep_if p t [] h = h
holds-keep_if p t (x ∷ xs) h = ground (arith, holds-keep_if p t xs)

holds-keep_if_kept :
    (p : ℕ → Bool) (t : ℕ) (xs : List ℕ) → holds t (keep_if p xs) ≡ true → p t ≡ true
holds-keep_if_kept p t [] h = cc
holds-keep_if_kept p t (x ∷ xs) h = elim (Bool-cases (p x)) [
  | inl kept ↦ elim (Bool-cases (nat_beq t x)) [
    | inl same ↦ rw ((nat_beq_iff t x).0 same) kept
    | inr ne ↦ holds-keep_if_kept p t xs (let h' = rw kept at h in rw ne at h')
  ]
  | inr cut ↦ holds-keep_if_kept p t xs (rw cut at h)
]

pub holds-distinct : (t : ℕ) (xs : List ℕ) → holds t (distinct xs) ≡ true → holds t xs ≡ true
unfolding distinct
holds-distinct t [] h = h
holds-distinct t (x ∷ xs) h =
    ground (arith, holds-distinct t xs, holds-keep_if (λ y. not (nat_beq y x)) t (distinct xs))

-- Dropping a height that is there makes the window shorter.
pub length-evict :
    (t : ℕ) (snaps : List Snap)
    → holds t (map (λ s. s.height) snaps) ≡ true
    → length (keep_if (λ s. not (nat_beq s.height t)) snaps) < length snaps
length-evict t [] h = cc
length-evict t (s ∷ rest) h =
    ground
      (arith, length-evict t rest, length-keep_if-le (λ (r : Snap). not (nat_beq r.height t)) rest)

abbrev pub IsFair : (ℕ → Bool) → List ℕ → ℕ → ℕ → Type 0
IsFair pinned heights newest t =
    (holds t heights ≡ true)
    × (t ≢ newest)
    × ((pinned t ≡ false) ⊎ All (λ h. (h ≡ newest) ⊎ (pinned h ≡ true)) heights)

other : (h newest : ℕ) → not (nat_beq h newest) ≡ true → h ≢ newest
other h newest e = ground arith

pinned_others :
    (pinned : ℕ → Bool) (heights : List ℕ) (newest : ℕ)
    → All (λ h. not (pinned h) ≡ false) (keep_if (λ h. not (nat_beq h newest)) heights)
    → All (λ h. (h ≡ newest) ⊎ (pinned h ≡ true)) heights
pinned_others pinned heights newest all =
    All-imp _ _ heights
      (λ h f. elim (Bool-cases (nat_beq h newest)) [
        | inl same ↦ inl (ground (arith, same))
        | inr ne ↦ inr (let e = f (ground (arith, ne)) in ground arith)
      ])
      (All-unkeep (λ h. not (pinned h) ≡ false) (λ h. not (nat_beq h newest)) heights all)

pub evict_from-IsFair :
    (pinned : ℕ → Bool) (heights : List ℕ) (newest t : ℕ)
    → evict_from pinned heights newest ≡ some t
    → IsFair pinned heights newest t
unfolding evict_from
evict_from-IsFair pinned heights newest t h =
    let candidates = keep_if (λ x. not (nat_beq x newest)) heights in
    elim (Option-cases (get_elem? (keep_if (λ x. not (pinned x)) candidates) 0)) [
      | inl none_free ↦
          let e : get_elem? candidates 0 ≡ some t = ground arith in
          let (good, there) = first_kept (λ x. not (nat_beq x newest)) heights t e in
          (
            there,
            other t newest good,
            inr (
                pinned_others pinned heights newest
                  (none_kept (λ x. not (pinned x)) candidates none_free)),
          )
      | inr (free, e) ↦
          let same : free ≡ t = ground arith in
          let (free_ok, there) = first_kept (λ x. not (pinned x)) candidates free e in
          rw (← same) (
            holds-keep_if (λ x. not (nat_beq x newest)) free heights there,
            other free newest (holds-keep_if_kept (λ x. not (nat_beq x newest)) free heights there),
            inl (ground arith),
          )
    ]

-- The target of an eviction is a height of the window, and never the newest. A pinned height is the
-- target only where every height but the newest is pinned.
pub evict_target-IsFair :
    (pinned : Option (List String)) (snaps : List Snap) (t newest : ℕ)
    → evict_target pinned snaps ≡ some t
    → last? (heights_of snaps) ≡ some newest
    → IsFair (is_pinned pinned snaps) (heights_of snaps) newest t
unfolding evict_target
evict_target-IsFair pinned snaps t newest h e =
    evict_from-IsFair (is_pinned pinned snaps) (heights_of snaps) newest t (ground (arith, e))
