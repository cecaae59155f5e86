-- ===== src/Stores/Order.antt =====
-- A stable sort by a number, a cut to the last elements, and distinct values in order, as the root
-- windows use `sort`, `slice(-n)` and `new Set`.
use dash_mno_verify.Prelude.{
  ℕ, zero, suc, ◌-◌, ◌≤◌, ◌<◌, ◌≡◌, refl, List, [], ◌∷◌, Bool, not, leb, nat_beq, length, drop,
  keep_if, last?, All, some, arith, if◌then◌else◌, length-drop, All-keep_if, Bool-cases, inl, inr,
}

-- `xs.slice(-n)`; `slice(-0)` is the whole list.
unfoldable pub slice_last {ℓ} : {A : Type ℓ} → ℕ → List A → List A
slice_last n xs = if nat_beq n 0 then xs else drop (length xs - n) xs

-- `[...new Set(xs)]`
unfoldable pub distinct : List ℕ → List ℕ
distinct [] = []
distinct (x ∷ xs) = x ∷ keep_if (λ y. not (nat_beq y x)) (distinct xs)

module _ {ℓ} {A : Type ℓ} (key : A → ℕ) where
  unfoldable pub insert_by : A → List A → List A
  insert_by x [] = x ∷ []
  insert_by x (y ∷ ys) =
      let rest = insert_by x ys in if leb (key x) (key y) then x ∷ y ∷ ys else y ∷ rest

  -- `xs.sort((a, b) => key(a) - key(b))`, which is stable.
  unfoldable pub sort_by : List A → List A
  unfolding insert_by
  sort_by [] = []
  sort_by (x ∷ xs) = insert_by x (sort_by xs)

  abbrev pub IsSorted : List A → Type 0
  IsSorted [] = Unit
  IsSorted (x ∷ xs) = All (λ y. key x ≤ key y) xs × IsSorted xs

  All-insert_by : (P : A → Type 0) (x : A) (xs : List A) → P x → All P xs → All P (insert_by x xs)
  unfolding insert_by
  All-insert_by P x [] h hs = (h, tt)
  All-insert_by P x (y ∷ ys) h hs = ground (arith, All-insert_by P x ys h hs.1)

  pub All-sort_by : (P : A → Type 0) (xs : List A) → All P xs → All P (sort_by xs)
  unfolding sort_by
  All-sort_by P [] h = tt
  All-sort_by P (x ∷ xs) h = All-insert_by P x (sort_by xs) h.0 (All-sort_by P xs h.1)

  All-le_trans : (a b : ℕ) (xs : List A) → a ≤ b → All (λ y. b ≤ key y) xs → All (λ y. a ≤ key y) xs
  All-le_trans a b [] h hs = tt
  All-le_trans a b (x ∷ xs) h hs = (omega arith, All-le_trans a b xs h hs.1)

  insert_by-IsSorted : (x : A) (xs : List A) → IsSorted xs → IsSorted (insert_by x xs)
  unfolding insert_by
  insert_by-IsSorted x [] s = (tt, tt)
  insert_by-IsSorted x (y ∷ ys) s = ground (
    arith,
    insert_by-IsSorted x ys s.1,
    All-le_trans (key x) (key y) ys,
    All-insert_by (λ w. key y ≤ key w) x ys,
  )

  pub sort_by-IsSorted : (xs : List A) → IsSorted (sort_by xs)
  unfolding sort_by
  sort_by-IsSorted [] = tt
  sort_by-IsSorted (x ∷ xs) = insert_by-IsSorted x (sort_by xs) (sort_by-IsSorted xs)

  pub IsSorted-keep_if : (p : A → Bool) (xs : List A) → IsSorted xs → IsSorted (keep_if p xs)
  IsSorted-keep_if p [] s = tt
  IsSorted-keep_if p (x ∷ xs) s =
      ground (arith, IsSorted-keep_if p xs s.1, All-keep_if (λ y. key x ≤ key y) p xs s.0)

  pub IsSorted-drop : (n : ℕ) (xs : List A) → IsSorted xs → IsSorted (drop n xs)
  IsSorted-drop zero xs s = s
  IsSorted-drop (suc n) [] s = tt
  IsSorted-drop (suc n) (x ∷ xs) s = IsSorted-drop n xs s.1

  pub slice_last-IsSorted : (n : ℕ) (xs : List A) → IsSorted xs → IsSorted (slice_last n xs)
  unfolding slice_last
  slice_last-IsSorted n xs s = ground (arith, IsSorted-drop (length xs - n) xs s)

  -- The last element of a sorted list has the greatest key.
  pub last?-IsSorted :
      (xs : List A) (x : A) → IsSorted xs → last? xs ≡ some x → All (λ y. key y ≤ key x) xs
  last?-IsSorted [] x s h = tt
  last?-IsSorted (y ∷ []) x s h = (ground arith)
  last?-IsSorted (y ∷ z ∷ xs) x s h =
      let below = last?-IsSorted (z ∷ xs) x s.1 h in (ground (arith, below.0), below)

module _ {ℓ} {A : Type ℓ} where
  pub All-drop {κ} : (P : A → Type κ) (n : ℕ) (xs : List A) → All P xs → All P (drop n xs)
  All-drop P zero xs h = h
  All-drop P (suc n) [] h = tt
  All-drop P (suc n) (x ∷ xs) h = All-drop P n xs h.1

  pub All-slice_last {κ} :
      (P : A → Type κ) (n : ℕ) (xs : List A) → All P xs → All P (slice_last n xs)
  unfolding slice_last
  All-slice_last P n xs h = ground (arith, All-drop P (length xs - n) xs h)

  pub length-slice_last-le : (n : ℕ) (xs : List A) → 0 < n → length (slice_last n xs) ≤ n
  unfolding slice_last
  length-slice_last-le n xs h = ground (arith, length-drop (length xs - n) xs)

  drop-nil : (n : ℕ) → drop {A = A} n [] ≡ []
  drop-nil zero = refl
  drop-nil (suc n) = refl

  last?-drop : (n : ℕ) (xs : List A) → n < length xs → last? (drop n xs) ≡ last? xs
  last?-drop zero xs h = refl
  last?-drop (suc n) [] h = refl
  last?-drop (suc n) (x ∷ []) h = absurd (omega arith)
  last?-drop (suc n) (x ∷ y ∷ xs) h = last?-drop n (y ∷ xs) (omega arith)

  -- A cut that keeps anything keeps the last element.
  pub last?-slice_last : (n : ℕ) (xs : List A) → last? (slice_last n xs) ≡ last? xs
  unfolding slice_last
  last?-slice_last n [] = ground (arith, drop-nil (0 - n))
  last?-slice_last n (x ∷ xs) = elim (Bool-cases (nat_beq n 0)) [
    | inl none_cut ↦ rw none_cut
    | inr cut ↦ rw cut (last?-drop (suc (length xs) - n) (x ∷ xs) (ground arith))
  ]
