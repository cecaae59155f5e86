-- ===== src/Merkle/MembersTree/Paths.antt =====
-- The Merkle paths of `pathFor` in core/members_tree.js: what a path proves.
use native.Mathlib.Nat.{pow-suc}
use dash_mno_verify.Prelude.{
  ℕ, zero, suc, ◌+◌, ◌-◌, ◌/◌, ◌%◌, ◌^◌, ◌<◌, ◌≤◌, ◌≡◌, refl, List, [], ◌∷◌, length, get_or, String,
  some, Result, ok, err, arith, if◌then◌else◌, nat_beq, ◌>>=◌, Bool-cases, inl, inr,
}
use dash_mno_verify.Merkle.Hash.{Poseidon, TreeError, element}
use dash_mno_verify.Merkle.Padded.{tree_root, leaves_then, double, double-eq-add}
use dash_mno_verify.Merkle.Levels.{pair_pad, tree_root-pair_pad, above-pair_pad}
use dash_mno_verify.Merkle.MembersTree.{path_loop, sibling}
use dash_mno_verify.Merkle.MembersTree.FullBuild.{
  padded_levels, get_elem?-pad_list, pow-double, length-pair_pad-le,
}

module _ {F : Type 0} (p : Poseidon F) where
  -- What a verifier of a path computes: the leaf hashed with one sibling for each level, on the
  -- side that the index bit says.
  unfoldable pub climb : List String → List ℕ → F → Result TreeError F
  climb [] bits cur = ok cur
  climb (e ∷ elements) [] cur = err TreeError.undefined_input
  climb (e ∷ elements) (b ∷ bits) cur = do
    s ← element p e
    climb elements bits (if nat_beq b 0 then p.hash cur s else p.hash s cur)

  node_pair :
      (z : F) (xs : List F) (a b i : ℕ)
      → a ≡ double i
      → b ≡ suc (double i)
      → p.hash (get_or xs a z) (get_or xs b z) ≡ get_or (pair_pad p z xs) i (p.hash z z)
  node_pair z xs a b i ea eb = rw (ea, eb) (above-pair_pad p z xs i)

  -- A node and its sibling, in the order of the index bit, make the node above.
  pub node_above :
      (z : F) (xs : List F) (idx : ℕ)
      → (if nat_beq (idx % 2) 0
          then p.hash (get_or xs idx z) (get_or xs (sibling idx) z)
          else p.hash (get_or xs (sibling idx) z) (get_or xs idx z))
        ≡ get_or (pair_pad p z xs) (idx / 2) (p.hash z z)
  node_above z xs idx = elim (Bool-cases (nat_beq (idx % 2) 0)) [
    | inl even ↦ rw even (
        node_pair z xs idx (idx + 1) (idx / 2) (ground (arith, double-eq-add (idx / 2)))
          (ground (arith, double-eq-add (idx / 2))))
    | inr odd ↦ rw odd (
        node_pair z xs (idx - 1) idx (idx / 2) (ground (arith, double-eq-add (idx / 2)))
          (ground (arith, double-eq-add (idx / 2))))
  ]

  sibling-lt : (idx m : ℕ) → idx < m + m → sibling idx < m + m
  sibling-lt idx m h = ground arith

  pub climb_step :
      (s cur : F) (elements : List String) (b : ℕ) (bits : List ℕ)
      → p.to_element (p.to_decimal s) ≡ some s
      → climb (p.to_decimal s ∷ elements) (b ∷ bits) cur
        ≡ climb elements bits (if nat_beq b 0 then p.hash cur s else p.hash s cur)
  unfolding climb
  climb_step s cur elements b bits e = rw e

  -- The sibling of each node on the way up from the leaf at `idx`, and its index bits.
  abbrev pub path_elements : ℕ → F → List F → ℕ → List String
  path_elements zero z xs idx = []
  path_elements (suc d) z xs idx =
      p.to_decimal (get_or xs (sibling idx) z)
      ∷ path_elements d (p.hash z z) (pair_pad p z xs) (idx / 2)

  abbrev pub path_bits : ℕ → ℕ → List ℕ
  path_bits zero idx = []
  path_bits (suc d) idx = (idx % 2) ∷ path_bits d (idx / 2)

  pub climb-path :
      (round_trip : (x : F) → p.to_element (p.to_decimal x) ≡ some x) (d : ℕ) (z : F) (xs : List F)
      (idx : ℕ)
      → idx < 2 ^ d
      → climb (path_elements d z xs idx) (path_bits d idx) (get_or xs idx z)
        ≡ ok (tree_root p d (leaves_then z xs))
  climb-path round_trip zero z xs idx below =
      let first : idx ≡ 0 = omega arith in unfold climb tree_root in rw first
  climb-path round_trip (suc d) z xs idx below =
      rw
        (
          climb_step (get_or xs (sibling idx) z) (get_or xs idx z)
              (path_elements d (p.hash z z) (pair_pad p z xs) (idx / 2)) (idx % 2)
              (path_bits d (idx / 2)) (round_trip (get_or xs (sibling idx) z)),
          node_above z xs idx,
          tree_root-pair_pad p d z xs,
        )
        (climb-path round_trip d (p.hash z z) (pair_pad p z xs) (idx / 2)
          (omega (arith, pow-suc 2 d)))

  pub path_loop-padded_levels :
      (d : ℕ) (z : F) (xs : List F) (idx : ℕ)
      → length xs ≤ 2 ^ d
      → idx < 2 ^ d
      → path_loop p d (padded_levels p d z xs) idx ≡ ok (path_elements d z xs idx, path_bits d idx)
  unfolding path_loop
  path_loop-padded_levels zero z xs idx h below = refl
  path_loop-padded_levels (suc d) z xs idx h below = rw (
    get_elem?-pad_list z (2 ^ suc d) (sibling idx) xs
        (omega (arith, pow-suc 2 d, sibling-lt idx (2 ^ d) (omega (arith, pow-suc 2 d)))),
    path_loop-padded_levels d (p.hash z z) (pair_pad p z xs) (idx / 2)
        (length-pair_pad-le p z xs (2 ^ d) (omega (arith, pow-double d)))
        (omega (arith, pow-suc 2 d)),
  )
