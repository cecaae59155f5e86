-- ===== src/Merkle/Levels.antt =====
-- One level of a left-filled tree: how dml_root.js, merkle_path.js and the members tree pair the
-- nodes of a level, with the empty subtree of that height where a partner is missing.
use dash_mno_verify.Prelude.{
  ℕ, zero, suc, ◌/◌, ◌%◌, ◌≡◌, refl, ap, ◌∙◌, List, [], ◌∷◌, ◌++◌, length, get_or, get_elem?, arith,
  Option, none, some, ◌⊎◌, inl, inr,
}
use mathlib.Core.Path.{fun_ext}
use dash_mno_verify.Merkle.Hash.{Poseidon}
use dash_mno_verify.Merkle.Padded.{tree_root, tree_root-above, leaves_then, above}

module _ {F : Type 0} (p : Poseidon F) where
  -- `zeros[0]`, then `zeros[l + 1] = poseidon([zeros[l], zeros[l]])`, from the height of `z` up.
  unfoldable pub zeros_from : ℕ → F → List F
  zeros_from zero z = z ∷ []
  zeros_from (suc k) z = z ∷ zeros_from k (p.hash z z)

  -- The empty subtree `k` levels above `z`.
  abbrev pub zero_above : ℕ → F → F
  zero_above zero z = z
  zero_above (suc k) z = zero_above k (p.hash z z)

  -- A `for` over the level by twos, the missing right partner read from the zeros.
  unfoldable pub pair_pad : F → List F → List F
  pair_pad z [] = []
  pair_pad z (a ∷ []) = p.hash a z ∷ []
  pair_pad z (a ∷ b ∷ rest) = p.hash a b ∷ pair_pad z rest

  -- The level above once every missing partner is filled in, `k` times.
  unfoldable pub pad_levels : ℕ → F → List F → List F
  pad_levels zero z level = level
  pad_levels (suc k) z level = pad_levels k (p.hash z z) (pair_pad z level)

  pub above-pair_pad :
      (z : F) (xs : List F) (i : ℕ)
      → above p (leaves_then z xs) i ≡ leaves_then (p.hash z z) (pair_pad z xs) i
  unfolding pair_pad
  above-pair_pad z [] i = refl
  above-pair_pad z (a ∷ []) zero = refl
  above-pair_pad z (a ∷ []) (suc i) = refl
  above-pair_pad z (a ∷ b ∷ rest) zero = refl
  above-pair_pad z (a ∷ b ∷ rest) (suc i) = above-pair_pad z rest i

  -- The padded tree over a level is the padded tree, one lower, over the level above it.
  pub tree_root-pair_pad :
      (d : ℕ) (z : F) (xs : List F)
      → tree_root p (suc d) (leaves_then z xs)
        ≡ tree_root p d (leaves_then (p.hash z z) (pair_pad z xs))
  tree_root-pair_pad d z xs =
      tree_root-above p d (leaves_then z xs) ∙ ap (tree_root p d) (fun_ext (above-pair_pad z xs))

  pub tree_root-pad_levels :
      (d : ℕ) (z : F) (xs : List F)
      → tree_root p d (leaves_then z xs) ≡ get_or (pad_levels d z xs) 0 (zero_above d z)
  unfolding pad_levels tree_root
  tree_root-pad_levels zero z xs = refl
  tree_root-pad_levels (suc d) z xs =
      tree_root-pair_pad d z xs ∙ tree_root-pad_levels d (p.hash z z) (pair_pad z xs)

  pub get_or-zeros_from : (d : ℕ) (z other : F) → get_or (zeros_from d z) d other ≡ zero_above d z
  unfolding zeros_from
  get_or-zeros_from zero z other = refl
  get_or-zeros_from (suc d) z other = get_or-zeros_from d (p.hash z z) other

  pub pad_levels-nil : (d : ℕ) (z : F) → pad_levels d z [] ≡ []
  unfolding pad_levels pair_pad
  pad_levels-nil zero z = refl
  pad_levels-nil (suc d) z = pad_levels-nil d (p.hash z z)

  -- A level with a node in it never runs empty.
  pub pad_levels-cons :
      (d : ℕ) (z a : F) (rest : List F)
      → (b : F) × (others : List F) × (pad_levels d z (a ∷ rest) ≡ b ∷ others)
  unfolding pad_levels pair_pad
  pad_levels-cons zero z a rest = (a, rest, refl)
  pad_levels-cons (suc d) z a [] = pad_levels-cons d (p.hash z z) (p.hash a z) []
  pad_levels-cons (suc d) z a (b ∷ rest) =
      pad_levels-cons d (p.hash z z) (p.hash a b) (pair_pad z rest)

  -- The zeros end in the empty subtree of the full height.
  pub get_elem?-zeros_from : (d : ℕ) (z : F) → get_elem? (zeros_from d z) d ≡ some (zero_above d z)
  unfolding zeros_from
  get_elem?-zeros_from zero z = refl
  get_elem?-zeros_from (suc d) z = get_elem?-zeros_from d (p.hash z z)

  -- The nodes of the level above that both children are there for.
  unfoldable pub pairs : List F → List F
  pairs [] = []
  pairs (a ∷ []) = []
  pairs (a ∷ b ∷ rest) = p.hash a b ∷ pairs rest

-- The left sibling that waits for its right-hand partner.
unfoldable pub waiting : {F : Type 0} → List F → Option F
waiting [] = none
waiting (a ∷ []) = some a
waiting (a ∷ b ∷ rest) = waiting rest

-- Whether a sibling waits is the parity of the number of nodes.
pub waiting-parity :
    {F : Type 0} (xs : List F)
    → ((waiting xs ≡ none) × (length xs % 2 ≡ 0))
      ⊎ ((a : F) × (waiting xs ≡ some a) × (length xs % 2 ≡ 1))
unfolding waiting
waiting-parity [] = inl (refl, omega arith)
waiting-parity (a ∷ []) = inr (a, refl, omega arith)
waiting-parity (a ∷ b ∷ rest) = elim (waiting-parity rest) [
  | inl (w, e) ↦ inl (w, omega arith)
  | inr (x, w, e) ↦ inr (x, w, omega arith)
]

module _ {F : Type 0} (c : F) where
  pub waiting-snoc_even : (xs : List F) → waiting xs ≡ none → waiting (xs ++ c ∷ []) ≡ some c
  unfolding waiting
  waiting-snoc_even [] h = refl
  waiting-snoc_even (a ∷ []) h = cc
  waiting-snoc_even (a ∷ b ∷ rest) h = waiting-snoc_even rest h

  pub waiting-snoc_odd : (xs : List F) (a : F) → waiting xs ≡ some a → waiting (xs ++ c ∷ []) ≡ none
  unfolding waiting
  waiting-snoc_odd [] x h = cc
  waiting-snoc_odd (a ∷ []) x h = refl
  waiting-snoc_odd (a ∷ b ∷ rest) x h = waiting-snoc_odd rest x h

module _ {F : Type 0} (p : Poseidon F) where
  pub length-pairs : (xs : List F) → length (pairs p xs) ≡ length xs / 2
  unfolding pairs
  length-pairs [] = omega arith
  length-pairs (a ∷ []) = omega arith
  length-pairs (a ∷ b ∷ rest) = omega (arith, length-pairs rest)

  module _ (c : F) where
    pub pairs-snoc_even : (xs : List F) → waiting xs ≡ none → pairs p (xs ++ c ∷ []) ≡ pairs p xs
    unfolding pairs waiting
    pairs-snoc_even [] h = refl
    pairs-snoc_even (a ∷ []) h = cc
    pairs-snoc_even (a ∷ b ∷ rest) h = ap (◌∷◌ (p.hash a b)) (pairs-snoc_even rest h)

    pub pairs-snoc_odd :
        (xs : List F) (a : F)
        → waiting xs ≡ some a
        → pairs p (xs ++ c ∷ []) ≡ pairs p xs ++ p.hash a c ∷ []
    unfolding pairs waiting
    pairs-snoc_odd [] x h = cc
    pairs-snoc_odd (a ∷ []) x h = cc
    pairs-snoc_odd (a ∷ b ∷ rest) x h = ap (◌∷◌ (p.hash a b)) (pairs-snoc_odd rest x h)

  module _ (z : F) where
    pub pair_pad-even : (xs : List F) → waiting xs ≡ none → pair_pad p z xs ≡ pairs p xs
    unfolding pair_pad pairs waiting
    pair_pad-even [] h = refl
    pair_pad-even (a ∷ []) h = cc
    pair_pad-even (a ∷ b ∷ rest) h = ap (◌∷◌ (p.hash a b)) (pair_pad-even rest h)

    pub pair_pad-odd :
        (xs : List F) (a : F)
        → waiting xs ≡ some a
        → pair_pad p z xs ≡ pairs p xs ++ p.hash a z ∷ []
    unfolding pair_pad pairs waiting
    pair_pad-odd [] x h = cc
    pair_pad-odd (a ∷ []) x h = cc
    pair_pad-odd (a ∷ b ∷ rest) x h = ap (◌∷◌ (p.hash a b)) (pair_pad-odd rest x h)

    pub pair_pad-snoc_even :
        (xs : List F) (c : F)
        → waiting xs ≡ none
        → pair_pad p z (xs ++ c ∷ []) ≡ pairs p xs ++ p.hash c z ∷ []
    pair_pad-snoc_even xs c h =
        pair_pad-odd (xs ++ c ∷ []) c (waiting-snoc_even c xs h)
        ∙ ap (λ ys. ys ++ p.hash c z ∷ []) (pairs-snoc_even c xs h)

    pub pair_pad-snoc_odd :
        (xs : List F) (a c : F)
        → waiting xs ≡ some a
        → pair_pad p z (xs ++ c ∷ []) ≡ pairs p xs ++ p.hash a c ∷ []
    pair_pad-snoc_odd xs a c h =
        pair_pad-even (xs ++ c ∷ []) (waiting-snoc_odd c xs a h) ∙ pairs-snoc_odd c xs a h
