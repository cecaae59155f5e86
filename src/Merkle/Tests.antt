-- ===== src/Merkle/Tests.antt =====
-- The trees at concrete inputs, over a hash that writes its two inputs down.
use Prim.Native.String.{◌++◌}
use dash_mno_verify.Prelude.{
  ℕ, ◌^◌, ◌≡◌, refl, List, [], ◌∷◌, String, some, ok, err, arith, get_or, ap,
}
use dash_mno_verify.Merkle.Hash.{Poseidon, TreeError}
use dash_mno_verify.Merkle.Padded.{tree_root, leaves_then}
use dash_mno_verify.Merkle.DmlRoot.{root_from_leaves, root_from_leaves-eq-tree_root}
use dash_mno_verify.Merkle.MerklePath.{MerklePath, merkle_path_for, merkle_path_for-climbs}
use dash_mno_verify.Merkle.MembersTree.{
  MembersTree, new, append, root, from_commitments, root_from_full_build, path_for, carry_all,
  pair_level,
}
use dash_mno_verify.Merkle.MembersTree.Paths.{climb}
use dash_mno_verify.Merkle.MembersTree.Consistent.{
  IsConsistent, new-IsConsistent, append-IsConsistent, from_commitments-IsConsistent,
}
use dash_mno_verify.Merkle.MembersTree.Roots.{root-eq-full_build, root-rebuild, path_for-climbs}

abbrev pub free_hash : Poseidon String
free_hash = record {
  hash = λ a b. "(" ++ a ++ "," ++ b ++ ")";
  zero_leaf = "0";
  to_element = λ s. some s;
  to_decimal = λ x. x;
}

abbrev three : List String
three = "5" ∷ "6" ∷ "7" ∷ []

three_root : root_from_leaves free_hash 2 three ≡ ok "((5,6),(7,0))"
unfolding root_from_leaves
three_root = refl

-- The tree over the three, as a rebuild makes it.
rebuilt :
    (t : MembersTree String) × (from_commitments free_hash three 2 ≡ ok t)
    × IsConsistent free_hash t
    × (t.commitments ≡ three)
    × (t.depth ≡ 2)
    × (t.root_node ≡ tree_root free_hash 2 (leaves_then "0" three))
rebuilt = from_commitments-IsConsistent free_hash three three 2 (omega arith) refl

append-IsConsistent_example :
    (t' : MembersTree String) × (append free_hash "5" (new free_hash 2) ≡ ok (0, t'))
    × IsConsistent free_hash t'
    × (t'.commitments ≡ "5" ∷ [])
    × (t'.depth ≡ 2)
unfolding new
append-IsConsistent_example =
    append-IsConsistent free_hash "5" "5" (new-IsConsistent free_hash 2) (omega arith) refl

from_commitments-IsConsistent_example :
    (t : MembersTree String) × (from_commitments free_hash three 2 ≡ ok t)
    × IsConsistent free_hash t
    × (t.commitments ≡ three)
    × (t.depth ≡ 2)
    × (t.root_node ≡ tree_root free_hash 2 (leaves_then "0" three))
from_commitments-IsConsistent_example =
    from_commitments-IsConsistent free_hash three three 2 (omega arith) refl

root-eq-full_build_example :
    (t' : MembersTree String) × (root_from_full_build free_hash rebuilt.0
      ≡ ok (root free_hash rebuilt.0, t'))
    × IsConsistent free_hash t'
    × (t'.commitments ≡ rebuilt.0.commitments)
root-eq-full_build_example = root-eq-full_build free_hash rebuilt.2

root-rebuild_example :
    (t' : MembersTree String) × (from_commitments free_hash rebuilt.0.commitments rebuilt.0.depth
      ≡ ok t')
    × IsConsistent free_hash t'
    × (root free_hash t' ≡ root free_hash rebuilt.0)
root-rebuild_example = root-rebuild free_hash rebuilt.2

path_for-climbs_example :
    (elements : List String) × (bits : List ℕ) × (t' : MembersTree String) × (path_for free_hash 2
        rebuilt.0
      ≡ ok ((elements, bits), t'))
    × (climb free_hash elements bits (get_or rebuilt.2.leaves 2 "0") ≡ ok rebuilt.0.root_node)
    × IsConsistent free_hash t'
unfolding rebuilt
path_for-climbs_example =
    path_for-climbs free_hash 2 rebuilt.2 (λ x. refl) (omega (arith, ap (λ d. 2 ^ d) rebuilt.4))

root_from_leaves-eq-tree_root_example :
    root_from_leaves free_hash 2 three ≡ ok (tree_root free_hash 2 (leaves_then "0" three))
root_from_leaves-eq-tree_root_example =
    root_from_leaves-eq-tree_root free_hash 2 three three (omega arith) refl

merkle_path_for-climbs_example :
    (path : MerklePath) × (merkle_path_for free_hash three 2 2 ≡ ok path)
    × (path.root ≡ tree_root free_hash 2 (leaves_then "0" three))
    × (climb free_hash path.elements path.indices "7"
        ≡ ok (tree_root free_hash 2 (leaves_then "0" three)))
merkle_path_for-climbs_example =
    merkle_path_for-climbs free_hash three three 2 2 (λ x. refl) (omega arith) (omega arith) refl

-- Three carried leaves leave a pair and a single sibling.
three_carried : carry_all free_hash [] three ≡ (0, "7") ∷ (1, "(5,6)") ∷ []
unfolding carry_all
three_carried = refl

-- An odd level cannot be paired without its zero.
odd_level : pair_level free_hash three ≡ err TreeError.undefined_input
unfolding pair_level
odd_level = refl
