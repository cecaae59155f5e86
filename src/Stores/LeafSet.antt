-- ===== src/Stores/LeafSet.antt =====
-- `leafSetCommitment` of core/stores.js: the hash of a list's leaves in their sorted order.
pub mod Counts
pub mod Lines
use dash_mno_verify.Prelude.{
  hex, ℕ, suc, ◌≡◌, refl, sym, ap, ◌∙◌, List, [], ◌∷◌, Bool, true, false, not, ◌&&◌, ◌||◌, ltb,
  nat_beq, any_of, all_of, length, String, string_eq, ◌==◌, if◌then◌else◌, arith, All,
}
use dash_mno_verify.Field.{codes, is_canonical_field, spelled_decimal}

-- `a < b` of two strings
unfoldable pub codes_before : List ℕ → List ℕ → Bool
codes_before xs [] = false
codes_before [] (y ∷ ys) = true
codes_before (x ∷ xs) (y ∷ ys) = let rest = codes_before xs ys in ltb x y || (nat_beq x y && rest)

-- Whether the comparison puts a no later than b.
unfoldable pub in_order : String → String → Bool
unfolding codes_before
in_order a b =
    let x = codes a in
    let y = codes b in
    if a == b
    then true
    else if nat_beq (length x) (length y)
    then codes_before x y
    else ltb (length x) (length y)

unfoldable pub insert_leaf : String → List String → List String
unfolding in_order
insert_leaf x [] = x ∷ []
insert_leaf x (y ∷ ys) =
    let rest = insert_leaf x ys in if in_order x y then x ∷ y ∷ ys else y ∷ rest

unfoldable pub sort_leaves : List String → List String
unfolding insert_leaf
sort_leaves [] = []
sort_leaves (x ∷ xs) = insert_leaf x (sort_leaves xs)

abbrev pub followed_by : String → String → String
followed_by String.[] t = t
followed_by (String.◌∷◌ c s) t = String.◌∷◌ c (followed_by s t)

-- `xs.join("\n")`
unfoldable pub join_lines : List String → String
join_lines [] = ""
join_lines (x ∷ []) = x
join_lines (x ∷ y ∷ ys) = let rest = join_lines (y ∷ ys) in followed_by x (String.◌∷◌ "\n" rest)

-- The text that is hashed.
unfoldable pub leaf_text : List String → String
unfolding join_lines sort_leaves
leaf_text leaves = join_lines (sort_leaves leaves)

-- `leafSetCommitment(leaves)`; leaves are digits, whose codes are their bytes.
unfoldable pub leaf_set_commitment : (List ℕ → List ℕ) → List String → String
unfolding leaf_text
leaf_set_commitment sha256 leaves = hex (sha256 (codes (leaf_text leaves)))

-- How often a leaf is in a list.
unfoldable pub count : String → List String → ℕ
count x [] = 0
count x (y ∷ ys) = let rest = count x ys in if x == y then suc rest else rest
