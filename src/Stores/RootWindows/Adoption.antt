-- ===== src/Stores/RootWindows/Adoption.antt =====
-- `adopt` of core/stores.js: the record that it makes current, and the errors that it throws.
use dash_mno_verify.Prelude.{
  nat_eq, string_eq, pair_eq, ℕ, ◌≤◌, ◌≡◌, refl, ap, ◌∙◌, inl, inr, List, [], ◌∷◌, ◌++◌, true, leb,
  nat_beq, any_of, length, last?, String, Option, some, none, arith, All, Bool-cases, ok, ==_self,
}
use dash_mno_verify.Prelude.JsMap.{JsMap, put_absent, get, put, delete, get-delete}
use dash_mno_verify.Stores.Order.{
  sort_by, insert_by, sort_by-IsSorted, IsSorted-keep_if, last?-slice_last, slice_last, IsSorted,
}
use dash_mno_verify.Stores.RootWindows.{
  Snap, RootWindows, heights_of, enforce_leaf_bound, trim, all_snaps, by_key, values, key_of, adopt,
  current,
}
use dash_mno_verify.Stores.RootWindows.Eviction.{holds}
use dash_mno_verify.Stores.RootWindows.Newest.{
  last?-keep_if, last?-enforce_loop, last?-heights_of, last?-cons,
}

abbrev Key : Type 0
Key = ℕ × String

values-append : (m : JsMap Key Snap) (e : Key × Snap) → values (m ++ e ∷ []) ≡ values m ++ e.1 ∷ []
values-append [] e = refl
values-append (d ∷ m) e = ap (◌∷◌ d.1) (values-append m e)

-- A record that is last and as high as the others stays last in the sort.
last?-insert_by :
    (y a : Snap) (xs : List Snap)
    → last? xs ≡ some a
    → y.height ≤ a.height
    → last? (insert_by (λ s. s.height) y xs) ≡ some a
unfolding insert_by
last?-insert_by y a [] h le = cc
last?-insert_by y a (x ∷ []) h le = ground arith
last?-insert_by y a (x ∷ z ∷ xs) h le =
    let rest = last?-insert_by y a (z ∷ xs) h le in
    elim (Bool-cases (leb y.height x.height)) [
      | inl before ↦ rw before h
      | inr after ↦ rw after (last?-cons x a (insert_by (λ s. s.height) y (z ∷ xs)) rest)
    ]

last?-sort_by :
    (a : Snap) (xs : List Snap)
    → All (λ (s : Snap). s.height ≤ a.height) xs
    → last? (sort_by (λ s. s.height) (xs ++ a ∷ [])) ≡ some a
unfolding sort_by
last?-sort_by a [] h = refl
last?-sort_by a (x ∷ xs) h =
    last?-insert_by x a (sort_by (λ s. s.height) (xs ++ a ∷ [])) (last?-sort_by a xs h.1) h.0

pub All-put :
    (P : Snap → Type 0) (k : Key) (v : Snap) (m : JsMap Key Snap)
    → P v
    → All P (values m)
    → All P (values (put k v m))
unfolding put
All-put P k v [] h hs = (h, tt)
All-put P k v ((j, w) ∷ m) h hs = ground (arith, All-put P k v m h hs.1)

pub All-by_key :
    (P : Snap → Type 0) (snaps : List Snap) (m : JsMap Key Snap)
    → All P snaps
    → All P (values m)
    → All P (values (by_key snaps m))
unfolding by_key
All-by_key P [] m hs hm = hm
All-by_key P (s ∷ snaps) m hs hm =
    All-by_key P snaps (put (key_of s) s m) hs.1 (All-put P (key_of s) s m hs.0 hm)

pub All-delete :
    (P : Snap → Type 0) (k : Key) (m : JsMap Key Snap)
    → All P (values m)
    → All P (values (delete k m))
unfolding delete
All-delete P k [] hs = tt
All-delete P k ((j, w) ∷ m) hs = ground (arith, All-delete P k m hs.1)

last?-all_snaps :
    (a : Snap) (snaps : List Snap)
    → All (λ (s : Snap). s.height ≤ a.height) snaps
    → last? (all_snaps a snaps) ≡ some a
unfolding all_snaps
last?-all_snaps a snaps h =
    let m = delete (key_of a) (by_key snaps []) in
    let absent : get (key_of a) m ≡ none = rw (get-delete, ==_self (key_of a)) in
    rw (put_absent (key_of a) a m absent, values-append m (key_of a, a))
      (last?-sort_by a (values m)
        (All-delete _ (key_of a) (by_key snaps []) (All-by_key _ snaps [] h tt)))

holds-last : (n : ℕ) (xs : List ℕ) → last? xs ≡ some n → holds n xs ≡ true
holds-last n [] h = cc
holds-last n (x ∷ []) h = ground arith
holds-last n (x ∷ y ∷ xs) h = ground (arith, holds-last n (y ∷ xs) h)

last?-trim :
    (window : ℕ) (snaps : List Snap) (a : Snap)
    → last? (heights_of snaps) ≡ some a.height
    → last? snaps ≡ some a
    → last? (trim window snaps) ≡ some a
unfolding trim
last?-trim window snaps a h e =
    last?-keep_if (λ s. any_of (nat_beq s.height) (slice_last window (heights_of snaps))) snaps a e
      (holds-last a.height (slice_last window (heights_of snaps))
        (last?-slice_last window (heights_of snaps) ∙ h))

last?-enforce_leaf_bound :
    (max_leaves : ℕ) (pinned : Option (List String)) (snaps : List Snap) (a : Snap)
    → IsSorted (λ s. s.height) snaps
    → last? snaps ≡ some a
    → last? (enforce_leaf_bound max_leaves pinned snaps) ≡ some a
unfolding enforce_leaf_bound
last?-enforce_leaf_bound max_leaves pinned snaps a o h = elim (Bool-cases (nat_beq max_leaves 0)) [
  | inl free ↦ rw free h
  | inr set ↦ rw set (last?-enforce_loop (length snaps) max_leaves pinned snaps a o h)
]

all_snaps-IsSorted : (a : Snap) (snaps : List Snap) → IsSorted (λ s. s.height) (all_snaps a snaps)
unfolding all_snaps
all_snaps-IsSorted a snaps =
    sort_by-IsSorted (λ s. s.height)
      (values (put (key_of a) a (delete (key_of a) (by_key snaps []))))

trim-IsSorted :
    (window : ℕ) (snaps : List Snap)
    → IsSorted (λ s. s.height) snaps
    → IsSorted (λ s. s.height) (trim window snaps)
unfolding trim
trim-IsSorted window snaps o =
    IsSorted-keep_if (λ s. s.height)
      (λ s. any_of (nat_beq s.height) (slice_last window (heights_of snaps))) snaps o

pub adopt-snaps :
    (pinned : Option (List String)) (a : Snap) (w w' : RootWindows)
    → adopt pinned a w ≡ ok w'
    → w'.snaps ≡ enforce_leaf_bound w.max_leaves pinned (trim w.window (all_snaps a w.snaps))
unfolding adopt
adopt-snaps pinned a w w' h = ground arith

-- A successful adoption at or above every held height makes the adopted record the current one,
-- whatever the window, the leaf bound and the pins.
pub current-adopt :
    (pinned : Option (List String)) (a : Snap) (w w' : RootWindows)
    → adopt pinned a w ≡ ok w'
    → All (λ (s : Snap). s.height ≤ a.height) w.snaps
    → current w' ≡ some a
unfolding current
current-adopt pinned a w w' h high =
    let all = all_snaps a w.snaps in
    let sorted = all_snaps-IsSorted a w.snaps in
    let top = last?-all_snaps a w.snaps high in
    rw (adopt-snaps pinned a w w' h) (
      last?-enforce_leaf_bound w.max_leaves pinned (trim w.window all) a
        (trim-IsSorted w.window all sorted)
        (last?-trim w.window all a (last?-heights_of all a sorted top) top))
