-- ===== src/Merkle/DmlRoot.antt =====
-- common/dml_root.js: the root of the masternode list, which the oracle publishes and the gateway
-- recomputes.
use dash_mno_verify.Prelude.{
  ℕ, zero, suc, ◌^◌, ◌≤◌, ◌≡◌, refl, List, [], ◌∷◌, length, String, ltb, le→ltb_false, Result, ok,
  err, throw_if, or_throw, map_result, ◌>>=◌, ◌>>◌, get_elem?,
}
use dash_mno_verify.Merkle.Hash.{Poseidon, TreeError, element}
use dash_mno_verify.Merkle.Padded.{tree_root, leaves_then}
use dash_mno_verify.Merkle.Levels.{
  zeros_from, pair_pad, pad_levels, tree_root-pad_levels, pad_levels-cons, get_elem?-zeros_from,
  pad_levels-nil,
}

module _ {F : Type 0} (p : Poseidon F) where
  -- `for (l = 0; l < depth; l++)` over the table of zeros, `zero[l]` at its head.
  unfoldable pub pad_loop : ℕ → List F → List F → Result TreeError (List F)
  unfolding pair_pad
  pad_loop zero zs level = ok level
  pad_loop (suc k) [] level = err TreeError.undefined_input
  pad_loop (suc k) (z ∷ zs) level = pad_loop k zs (pair_pad p z level)

  -- The root of the levels above a leaf list that is not empty; an empty one has the root of the
  -- empty tree, read from the table.
  root_element : ℕ → List F → Result TreeError F
  unfolding pad_loop zeros_from
  root_element depth [] =
      or_throw (get_elem? (zeros_from p depth p.zero_leaf) depth) TreeError.undefined_input
  root_element depth (leaf ∷ rest) = do
    top ← pad_loop depth (zeros_from p depth p.zero_leaf) (leaf ∷ rest)
    or_throw (get_elem? top 0) TreeError.undefined_input

  unfoldable pub root_from_leaves : ℕ → List String → Result TreeError String
  unfolding root_element
  root_from_leaves depth leaves = do
    throw_if (ltb (2 ^ depth) (length leaves)) TreeError.over_capacity
    level ← map_result (element p) leaves
    root ← root_element depth level
    ok (p.to_decimal root)

  pub pad_loop-zeros_from :
      (d : ℕ) (z : F) (level : List F)
      → pad_loop d (zeros_from p d z) level ≡ ok (pad_levels p d z level)
  unfolding pad_loop zeros_from pad_levels
  pad_loop-zeros_from zero z level = refl
  pad_loop-zeros_from (suc d) z level = pad_loop-zeros_from d (p.hash z z) (pair_pad p z level)

  root_element-eq-tree_root :
      (depth : ℕ) (xs : List F)
      → root_element depth xs ≡ ok (tree_root p depth (leaves_then p.zero_leaf xs))
  unfolding root_element
  root_element-eq-tree_root depth [] =
      rw (tree_root-pad_levels, pad_levels-nil, get_elem?-zeros_from)
  root_element-eq-tree_root depth (x ∷ xs) =
      let (top, others, e) = pad_levels-cons p depth p.zero_leaf x xs in
      rw (tree_root-pad_levels, pad_loop-zeros_from, e)

  -- For leaves that convert and fit the depth, the root is that of the tree padded to the depth with
  -- the zero leaf.
  pub root_from_leaves-eq-tree_root :
      (depth : ℕ) (leaves : List String) (xs : List F)
      → length leaves ≤ 2 ^ depth
      → map_result (element p) leaves ≡ ok xs
      → root_from_leaves depth leaves
        ≡ ok (p.to_decimal (tree_root p depth (leaves_then p.zero_leaf xs)))
  unfolding root_from_leaves
  root_from_leaves-eq-tree_root depth leaves xs fits read =
      rw (le→ltb_false _ _ fits, read, root_element-eq-tree_root)
