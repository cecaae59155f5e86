-- ===== src/Stores/RootWindows/Members.antt =====
-- The records of a window of core/stores.js, before and after another is adopted.
use dash_mno_verify.Prelude.{
  nat_eq, string_eq, pair_eq, ℕ, zero, suc, ◌≡◌, List, [], Bool, true, false, leb, ltb, nat_beq,
  any_of, keep_if, String, Option, some, none, arith, All, All-keep_if, ok, not, subst, sym, length,
}
use dash_mno_verify.Prelude.JsMap.{put, delete}
use dash_mno_verify.Stores.Order.{All-sort_by, slice_last}
use dash_mno_verify.Stores.RootWindows.{
  Snap, RootWindows, heights_of, enforce_leaf_bound, enforce_loop, evict_target, retained_leaves,
  trim, all_snaps, by_key, key_of, values, adopt, drop_older_than,
}
use dash_mno_verify.Stores.RootWindows.Adoption.{All-put, All-by_key, All-delete, adopt-snaps}

module _ (P : Snap → Type 0) where
  All-all_snaps : (a : Snap) (snaps : List Snap) → P a → All P snaps → All P (all_snaps a snaps)
  unfolding all_snaps
  All-all_snaps a snaps h hs =
      All-sort_by (λ s. s.height) P
        (values (put (key_of a) a (delete (key_of a) (by_key snaps []))))
        (All-put P (key_of a) a (delete (key_of a) (by_key snaps [])) h
          (All-delete P (key_of a) (by_key snaps []) (All-by_key P snaps [] hs tt)))

  All-trim : (window : ℕ) (all : List Snap) → All P all → All P (trim window all)
  unfolding trim
  All-trim window all h =
      All-keep_if P (λ s. any_of (nat_beq s.height) (slice_last window (heights_of all))) all h

  All-enforce_loop :
      (fuel max_leaves : ℕ) (pinned : Option (List String)) (snaps : List Snap)
      → All P snaps
      → All P (enforce_loop fuel max_leaves pinned snaps)
  unfolding enforce_loop
  All-enforce_loop zero max_leaves pinned snaps h = h
  All-enforce_loop (suc fuel) max_leaves pinned snaps h =
      evicted (ltb max_leaves (retained_leaves snaps)) (evict_target pinned snaps) (λ target.
        All-enforce_loop fuel max_leaves pinned (keep_if (λ s. not (nat_beq s.height target)) snaps)
          (All-keep_if P (λ s. not (nat_beq s.height target)) snaps h))
    where
      evicted :
          (over : Bool) (target : Option ℕ)
          → ((t : ℕ)
              → All P (
                  enforce_loop fuel max_leaves pinned
                    (keep_if (λ s. not (nat_beq s.height t)) snaps)))
          → All P (elim over [
            | false ↦ snaps
            | true ↦ elim target [
              | none ↦ snaps
              | some t ↦
                  enforce_loop fuel max_leaves pinned
                    (keep_if (λ s. not (nat_beq s.height t)) snaps)
            ]
          ])
      evicted false target rest = h
      evicted true none rest = h
      evicted true (some t) rest = rest t

  All-enforce_leaf_bound :
      (max_leaves : ℕ) (pinned : Option (List String)) (snaps : List Snap)
      → All P snaps
      → All P (enforce_leaf_bound max_leaves pinned snaps)
  unfolding enforce_leaf_bound
  All-enforce_leaf_bound max_leaves pinned snaps h =
      ground (arith, All-enforce_loop (length snaps) max_leaves pinned snaps h)

  pub All-adopt :
      (pinned : Option (List String)) (a : Snap) (w w' : RootWindows)
      → adopt pinned a w ≡ ok w'
      → P a
      → All P w.snaps
      → All P w'.snaps
  All-adopt pinned a w w' e h hs = subst (All P) (sym (adopt-snaps pinned a w w' e)) (
      All-enforce_leaf_bound w.max_leaves pinned _
        (All-trim w.window _ (All-all_snaps a w.snaps h hs)))

  pub All-drop_older_than :
      (cutoff : ℕ) (w : RootWindows) → All P w.snaps → All P (drop_older_than cutoff w).snaps
  unfolding drop_older_than
  All-drop_older_than cutoff w h = All-keep_if P (λ s. leb cutoff s.ts) w.snaps h
