-- ===== src/Merkle/Padded.antt =====
-- The specification that every tree of the program is held to: the root of the complete binary
-- tree over infinitely many leaves, cut at a depth, and how a level follows from the one below it.
use mathlib.Core.Path.{fun_ext, ap₂}
use native.Mathlib.Nat.{pow-suc}
use dash_mno_verify.Prelude.{ℕ, zero, suc, ◌+◌, ◌^◌, ◌≡◌, refl, ap, ◌∙◌, List, get_or, arith}
use dash_mno_verify.Merkle.Hash.{Poseidon}

abbrev pub double : ℕ → ℕ
double zero = 0
double (suc n) = suc (suc (double n))

pub double-eq-add : (n : ℕ) → double n ≡ n + n
double-eq-add zero = omega arith
double-eq-add (suc n) = omega (arith, double-eq-add n)

-- The leaves of a list, and `z` past its end.
abbrev pub leaves_then : {F : Type 0} → F → List F → ℕ → F
leaves_then z xs i = get_or xs i z

module _ {F : Type 0} (p : Poseidon F) where
  -- The tree of depth `d` whose leaf number `i` is `leaf i`: the two halves, hashed.
  unfoldable pub tree_root : ℕ → (ℕ → F) → F
  tree_root zero leaf = leaf 0
  tree_root (suc d) leaf = p.hash (tree_root d leaf) (tree_root d (λ i. leaf (2 ^ d + i)))

  -- The level above, node by node.
  abbrev pub above : (ℕ → F) → ℕ → F
  above leaf i = p.hash (leaf (double i)) (leaf (suc (double i)))

  shift_double :
      (leaf : ℕ → F) (d i : ℕ) → above (λ j. leaf (2 ^ suc d + j)) i ≡ above leaf (2 ^ d + i)
  shift_double leaf d i =
      ap₂ p.hash (ap leaf (omega (arith, pow-suc, double-eq-add i, double-eq-add (2 ^ d + i))))
        (ap leaf (omega (arith, pow-suc, double-eq-add i, double-eq-add (2 ^ d + i))))

  -- Hashing a whole level first gives the same root as hashing the halves last.
  pub tree_root-above : (d : ℕ) (leaf : ℕ → F) → tree_root (suc d) leaf ≡ tree_root d (above leaf)
  unfolding tree_root
  tree_root-above zero leaf = refl
  tree_root-above (suc d) leaf = ap₂ p.hash (tree_root-above d leaf) (
      tree_root-above d (λ i. leaf (2 ^ suc d + i))
      ∙ ap (tree_root d) (fun_ext (shift_double leaf d)))
