-- ===== src/Stores/RootStore.antt =====
-- `RootStore` of core/stores.js: the recent roots, one to a height.
use dash_mno_verify.Prelude.{
  zero, suc, ◌⊎◌, inl, inr, ℕ, ◌≤◌, ◌≡◌, refl, List, [], ◌∷◌, map, Bool, leb, any_of, ◌==◌,
  string_eq, nat_eq, length, keep_if, last?, String, Option, arith, All, length-keep_if-le,
}
use dash_mno_verify.Prelude.JsMap.{JsMap, put}
use dash_mno_verify.Stores.Order.{
  sort_by, slice_last, IsSorted, sort_by-IsSorted, slice_last-IsSorted, length-slice_last-le,
  IsSorted-keep_if,
}

pub record Root : Type 0 where
  pub height : ℕ
  pub root : String
  pub ts : ℕ

pub record RootStore : Type 0 where
  pub window : ℕ
  pub roots : List Root

unfoldable pub new : ℕ → RootStore
new window = record { window = window; roots = [] }

abbrev values : JsMap ℕ Root → List Root
values m = map (λ e. e.1) m

-- `for (const r of list) byHeight.set(r.height, r)`
unfoldable pub set_all : List Root → JsMap ℕ Root → JsMap ℕ Root
set_all [] m = m
set_all (r ∷ rest) m = set_all rest (put r.height r m)

unfoldable pub update : List Root → RootStore → RootStore
unfolding set_all
update list s = record s {
  roots =
      slice_last s.window (sort_by (λ r. r.height) (values (set_all list (set_all s.roots []))));
}

unfoldable pub current : RootStore → Option Root
current s = last? s.roots

unfoldable pub is_recent : String → RootStore → Bool
is_recent root s = any_of (λ r. r.root == root) s.roots

unfoldable pub clear : RootStore → RootStore
clear s = record s { roots = [] }

unfoldable pub drop_older_than : ℕ → RootStore → RootStore
drop_older_than cutoff s = record s { roots = keep_if (λ r. leb cutoff r.ts) s.roots }

-- The roots ascend in height, and a window that is not 0 bounds how many there are.
pub record IsOrdered (s : RootStore) : Type 0 where
  pub ascending : IsSorted (λ r. r.height) s.roots
  pub bounded : (s.window ≡ 0) ⊎ (length s.roots ≤ s.window)

length-slice :
    (window : ℕ) (all : List Root) → (window ≡ 0) ⊎ (length (slice_last window all) ≤ window)
length-slice zero all = inl refl
length-slice (suc n) all = inr (length-slice_last-le (suc n) all (omega arith))

-- An update, from any state, leaves the roots in the order of their heights, and at most as many as
-- the window, where the window is not 0.
pub update-IsOrdered : (list : List Root) (s : RootStore) → IsOrdered (update list s)
unfolding update
update-IsOrdered list s = record {
  ascending = slice_last-IsSorted (λ r. r.height) s.window _ (sort_by-IsSorted (λ r. r.height) _);
  bounded = length-slice s.window _;
}

kept_young :
    (cutoff : ℕ) (roots : List Root)
    → All (λ (r : Root). cutoff ≤ r.ts) (keep_if (λ r. leb cutoff r.ts) roots)
kept_young cutoff [] = tt
kept_young cutoff (r ∷ rest) = ground (arith, kept_young cutoff rest)

-- Dropping the roots older than a cutoff keeps the order and the bound, and every root that is left
-- has a timestamp at or after the cutoff.
pub drop_older_than-IsOrdered :
    (cutoff : ℕ) (s : RootStore)
    → IsOrdered s
    → IsOrdered (drop_older_than cutoff s)
      × All (λ (r : Root). cutoff ≤ r.ts) (drop_older_than cutoff s).roots
unfolding drop_older_than
drop_older_than-IsOrdered cutoff s h = (
  record {
    ascending = IsSorted-keep_if (λ r. r.height) _ s.roots h.ascending;
    bounded = elim h.bounded [
      | inl free ↦ inl free
      | inr b ↦ inr (omega (arith, length-keep_if-le (λ (r : Root). leb cutoff r.ts) s.roots))
    ];
  },
  kept_young cutoff s.roots,
)
