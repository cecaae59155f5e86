-- ===== src/Season/Reconcile.antt =====
-- The operations of core/season.js that build trees from the durable registrations leave the trees
-- true to them, and never throw for the trees' sake.
use mathlib.Core.List.{append-nil}
use dash_mno_verify.Prelude.{
  ℕ, ◌≤◌, ◌≡◌, refl, ap, sym, ◌∙◌, subst, List, [], ◌∷◌, ◌++◌, length, length-append, Bool, true,
  false, String, Option, some, ok, arith, inl, inr, Bool-cases, Option-cases, some-injective,
  string_eq, ltb, is_some,
}
use dash_mno_verify.Prelude.JsMap
use dash_mno_verify.Prelude.JsMap.{JsMap, get-put_self}
use dash_mno_verify.Merkle.Hash.{Poseidon}
use dash_mno_verify.Stores.RootStore
use dash_mno_verify.Stores.RootStore.{RootStore}
use dash_mno_verify.Registration.{Registration, Backend, records_of}
use dash_mno_verify.Season.State.{Context, SeasonMembers, size_of, roots_of, list_or}
use dash_mno_verify.Season.Trees.{commitments_of, materialize, reconcile_if_behind}
use dash_mno_verify.Season.Synced.{
  IsCached, IsSynced, build_context-IsSynced, length-commitments_of,
}

empty_of_length : (xs : List String) → length xs ≤ 0 → xs ≡ []
empty_of_length [] h = refl
empty_of_length (x ∷ xs) h = absurd (omega arith)

ltb_false→le : (a b : ℕ) → ltb a b ≡ false → b ≤ a
ltb_false→le a b h = ground arith

none_of_length : (recs : List Registration) → length recs ≤ 0 → commitments_of recs ≡ []
none_of_length [] h = refl
none_of_length (r ∷ recs) h = absurd (omega arith)

module _ {F : Type 0} (p : Poseidon F) where
  -- A cached tree that is not behind the records holds all of them.
  all_of_cached :
      {depth : ℕ} {current : Option ℕ} {b : Backend} (season : ℕ) (c : String) (k : Context F)
      → IsCached p depth current b c k
      → current ≡ some season
      → length (records_of (season, c) b) ≤ length k.tree.commitments
      → k.tree.commitments ≡ commitments_of (records_of (season, c) b)
  all_of_cached {depth} {current} {b} season c k h now_current up_to_date =
      let same : h.season ≡ season =
        some-injective h.season season (sym h.is_current ∙ now_current) in
      let whole =
        subst (λ n. commitments_of (records_of (n, c) b) ≡ k.tree.commitments ++ h.rest) same
          h.prefix in
      let none_left : h.rest ≡ [] = empty_of_length h.rest (
        omega (
          arith,
          ap length whole,
          length-append k.tree.commitments h.rest,
          length-commitments_of (records_of (season, c) b),
        )) in
      sym (whole ∙ ap (λ xs. k.tree.commitments ++ xs) none_left ∙ append-nil k.tree.commitments)

  pub materialize-IsSynced :
      {s : SeasonMembers F} {b : Backend} (now season : ℕ) (c : String)
      → IsSynced p s b
      → s.current ≡ some season
      → (k : Context F) × (m : JsMap String (Context F)) × (materialize p now season c b s
          ≡ (ok k, record s { ctx = m }))
        × IsSynced p (record s { ctx = m }) b
        × (JsMap.get c m ≡ some k)
  unfolding materialize
  materialize-IsSynced {s} {b} now season c h now_current =
      elim (Option-cases (JsMap.get c s.ctx)) [
        | inl absent ↦
            let (k, e, h', all) =
              build_context-IsSynced p now season c (RootStore.new s.root_window) h now_current in
            (k, JsMap.put c k s.ctx, rw (absent, e) refl, h', get-put_self c k s.ctx)
        | inr (k, there) ↦ (k, s.ctx, rw there refl, h, there)
      ]

  list_of_whole :
      {s : SeasonMembers F} {b : Backend} (season : ℕ) (c : String)
      → IsSynced p s b
      → s.current ≡ some season
      → ltb (size_of (JsMap.get c s.ctx)) (length (records_of (season, c) b)) ≡ false
      → list_or (JsMap.get c s.ctx) ≡ commitments_of (records_of (season, c) b)
  list_of_whole {s} {b} season c h now_current whole = elim (Option-cases (JsMap.get c s.ctx)) [
    | inl absent ↦
        let few : length (records_of (season, c) b) ≤ 0 =
          ltb_false→le _ _
            (ap (λ o. ltb (size_of o) (length (records_of (season, c) b))) (sym absent) ∙ whole) in
        ap list_or absent ∙ sym (none_of_length (records_of (season, c) b) few)
    | inr (k, there) ↦
        let few : length (records_of (season, c) b) ≤ length k.tree.commitments =
          ltb_false→le _ _
            (ap (λ o. ltb (size_of o) (length (records_of (season, c) b))) (sym there) ∙ whole) in
        ap list_or there ∙ all_of_cached season c k (h.cached c k there) now_current few
  ]

  -- A reconciliation in a season that is current succeeds, and the context then lists every
  -- registration of its bucket.
  pub reconcile-IsSynced :
      {s : SeasonMembers F} {b : Backend} (now season : ℕ) (c : String)
      → IsSynced p s b
      → s.current ≡ some season
      → (done : Bool) × (m : JsMap String (Context F)) × (reconcile_if_behind p now season c b s
          ≡ (ok done, record s { ctx = m }))
        × IsSynced p (record s { ctx = m }) b
        × (list_or (JsMap.get c m) ≡ commitments_of (records_of (season, c) b))
        × (is_some (JsMap.get c s.ctx) ≡ true → is_some (JsMap.get c m) ≡ true)
  unfolding reconcile_if_behind
  reconcile-IsSynced {s} {b} now season c h now_current =
      elim (Bool-cases (ltb (size_of (JsMap.get c s.ctx)) (length (records_of (season, c) b)))) [
        | inl behind ↦
            let (k, e, h', all) =
              build_context-IsSynced p now season c (roots_of s.root_window (JsMap.get c s.ctx)) h
                now_current in
            (
              true,
              JsMap.put c k s.ctx,
              rw (behind, e) refl,
              h',
              ap list_or (get-put_self c k s.ctx) ∙ all,
              λ _. ap is_some (get-put_self c k s.ctx),
            )
        | inr whole ↦
            (false, s.ctx, rw whole refl, h, list_of_whole season c h now_current whole, λ old. old)
      ]
