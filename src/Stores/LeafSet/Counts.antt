-- ===== src/Stores/LeafSet/Counts.antt =====
-- The sort of `leafSetCommitment` of core/stores.js keeps a list's leaves.
use dash_mno_verify.Prelude.{
  ◌≡◌, refl, ap, ◌∙◌, List, [], ◌∷◌, String, string_eq, ◌==◌, arith, All, if◌then◌else◌, suc,
}
use dash_mno_verify.Stores.LeafSet.{insert_leaf, sort_leaves, count}

count-insert_leaf :
    (leaf x : String) (ys : List String) → count leaf (insert_leaf x ys) ≡ count leaf (x ∷ ys)
unfolding count insert_leaf
count-insert_leaf leaf x [] = refl
count-insert_leaf leaf x (y ∷ ys) = ground (arith, count-insert_leaf leaf x ys)

-- Each leaf is in the sorted list as often as in the list.
pub count-sort_leaves :
    (leaf : String) (xs : List String) → count leaf (sort_leaves xs) ≡ count leaf xs
unfolding count sort_leaves
count-sort_leaves leaf [] = refl
count-sort_leaves leaf (x ∷ xs) =
    count-insert_leaf leaf x (sort_leaves xs)
    ∙ ap (λ n. if leaf == x then suc n else n) (count-sort_leaves leaf xs)

All-insert_leaf :
    (P : String → Type 0) (x : String) (ys : List String)
    → P x
    → All P ys
    → All P (insert_leaf x ys)
unfolding insert_leaf
All-insert_leaf P x [] h hs = (h, tt)
All-insert_leaf P x (y ∷ ys) h hs = ground (arith, All-insert_leaf P x ys h hs.1)

pub All-sort_leaves : (P : String → Type 0) (xs : List String) → All P xs → All P (sort_leaves xs)
unfolding sort_leaves
All-sort_leaves P [] h = tt
All-sort_leaves P (x ∷ xs) h = All-insert_leaf P x (sort_leaves xs) h.0 (All-sort_leaves P xs h.1)
