-- ===== src/Merkle/MerklePath.antt =====
-- common/merkle_path.js: the path of one leaf, built without padding the leaves.

use dash_mno_verify.Prelude.{
  length-map_result, ℕ, zero, suc, ◌/◌, ◌%◌, ◌^◌, ◌<◌, ◌≤◌, ◌≡◌, refl, List, [], ◌∷◌, length,
  get_or, get_elem?, String, ltb, leb, nat_beq, le→ltb_false, Result, ok, err, arith, if◌then◌else◌,
  ◌>>=◌, ◌>>◌, or_throw, throw_if, map_result, nat_beq_ne, lt→leb_false, some,
}
use dash_mno_verify.Merkle.Hash.{Poseidon, TreeError, element}
use dash_mno_verify.Merkle.Padded.{tree_root, leaves_then}
use dash_mno_verify.Merkle.Levels.{
  zeros_from, pair_pad, pad_levels, pad_levels-cons, tree_root-pad_levels,
}
use dash_mno_verify.Merkle.MembersTree.{sibling}
use dash_mno_verify.Merkle.MembersTree.Paths.{path_elements, path_bits, climb, climb-path}

pub record MerklePath : Type 0 where
  pub elements : List String
  pub indices : List ℕ
  pub root : String

module _ {F : Type 0} (p : Poseidon F) where
  -- The `depth` turns of the loop: the elements, the indices, and the level that is left.
  unfoldable pub path_levels :
      ℕ → List F → List F → ℕ → Result TreeError (List String × List ℕ × List F)
  unfolding pair_pad
  path_levels zero zeros level idx = ok ([], [], level)
  path_levels (suc k) [] level idx = err TreeError.undefined_input
  path_levels (suc k) (z ∷ zeros) level idx = do
    let node = if ltb (sibling idx) (length level) then get_or level (sibling idx) z else z
    (elements, indices, top) ← path_levels k zeros (pair_pad p z level) (idx / 2)
    ok (p.to_decimal node ∷ elements, (idx % 2) ∷ indices, top)

  unfoldable pub merkle_path_for : List String → ℕ → ℕ → Result TreeError MerklePath
  unfolding path_levels zeros_from
  merkle_path_for leaves index depth = do
    throw_if (nat_beq (length leaves) 0) TreeError.no_leaves
    throw_if (ltb (2 ^ depth) (length leaves)) TreeError.over_capacity
    throw_if (leb (length leaves) index) TreeError.not_a_leaf
    level ← map_result (element p) leaves
    (elements, indices, top) ← path_levels depth (zeros_from p depth p.zero_leaf) level index
    root ← or_throw (get_elem? top 0) TreeError.undefined_input
    ok (record { elements = elements; indices = indices; root = p.to_decimal root })

  read_past :
      (level : List F) (i : ℕ) (z : F)
      → (if ltb i (length level) then get_or level i z else z) ≡ get_or level i z
  read_past [] i z = ground arith
  read_past (x ∷ level) zero z = ground arith
  read_past (x ∷ level) (suc i) z = ground (arith, read_past level i z)

  path_levels-path :
      (d : ℕ) (z : F) (xs : List F) (idx : ℕ)
      → path_levels d (zeros_from p d z) xs idx
        ≡ ok (path_elements p d z xs idx, path_bits p d idx, pad_levels p d z xs)
  unfolding path_levels zeros_from pad_levels
  path_levels-path zero z xs idx = refl
  path_levels-path (suc d) z xs idx =
      rw (path_levels-path d (p.hash z z) (pair_pad p z xs) (idx / 2), read_past xs (sibling idx) z)

  -- The result, from the leaves as field elements.
  abbrev path_of : ℕ → List F → ℕ → MerklePath
  path_of depth xs index = record {
    elements = path_elements p depth p.zero_leaf xs index;
    indices = path_bits p depth index;
    root = p.to_decimal (tree_root p depth (leaves_then p.zero_leaf xs));
  }

  merkle_path_for-eq :
      (leaves : List String) (xs : List F) (index depth : ℕ)
      → length leaves ≤ 2 ^ depth
      → index < length leaves
      → map_result (element p) leaves ≡ ok xs
      → merkle_path_for leaves index depth ≡ ok (path_of depth xs index)
  unfolding merkle_path_for
  merkle_path_for-eq leaves [] index depth fits below read =
      absurd (omega (arith, length-map_result (element p) leaves [] read))
  merkle_path_for-eq leaves (x ∷ xs) index depth fits below read =
      let (top, others, e) = pad_levels-cons p depth p.zero_leaf x xs in
      rw (
        nat_beq_ne (length leaves) 0 (omega arith),
        le→ltb_false _ _ fits,
        lt→leb_false _ _ below,
        read,
        path_levels-path,
        tree_root-pad_levels,
        e,
      )

  -- For leaves that convert and fit the depth, and an index of one of them, the path is found; its root
  -- is the root of the padded tree, and climbing its elements and indices from the leaf gives that root,
  -- where decimals convert back.
  pub merkle_path_for-climbs :
      (leaves : List String) (xs : List F) (index depth : ℕ)
      → ((x : F) → p.to_element (p.to_decimal x) ≡ some x)
      → length leaves ≤ 2 ^ depth
      → index < length leaves
      → map_result (element p) leaves ≡ ok xs
      → (path : MerklePath) × (merkle_path_for leaves index depth ≡ ok path)
        × (path.root ≡ p.to_decimal (tree_root p depth (leaves_then p.zero_leaf xs)))
        × (climb p path.elements path.indices (get_or xs index p.zero_leaf)
            ≡ ok (tree_root p depth (leaves_then p.zero_leaf xs)))
  merkle_path_for-climbs leaves xs index depth round_trip fits below read = (
    path_of depth xs index,
    merkle_path_for-eq leaves xs index depth fits below read,
    refl,
    climb-path p round_trip depth p.zero_leaf xs index (omega arith),
  )
