-- ===== src/Season/Ensure.antt =====
-- `ensure`, `ensureContext` and `recoverMember` of core/season.js leave the trees true to the durable
-- registrations.

use dash_mno_verify.Season.Reconcile.{reconcile-IsSynced}
use dash_mno_verify.Prelude.{
  nat_beq_iff, ◌⊎◌, ◌&&◌, ℕ, ◌≡◌, refl, ap, List, [], ◌∷◌, true, String, Option, some, none, Result,
  ok, err, inl, inr, Bool-cases, string_eq, if◌then◌else◌,
}
use dash_mno_verify.Prelude.JsMap
use dash_mno_verify.Prelude.JsMap.{JsMap, get-put}
use dash_mno_verify.Merkle.Hash.{Poseidon}
use dash_mno_verify.Stores.RootStore
use dash_mno_verify.Stores.RootStore.{RootStore}
use dash_mno_verify.Registration.{Registration, Backend, records_of}
use dash_mno_verify.Season.State.{
  Context, SeasonMembers, SeasonError, SeasonError, is_season, roll, rolls_back, members, is_past,
}
use dash_mno_verify.Season.Trees.{
  commitments_of, recover_member, ensure_context, build_if_any, built_if_any,
}
use dash_mno_verify.Season.Synced.{IsSynced, build_context-IsSynced}
use mathlib.Core.Logic.{◌⊎◌}

module _ {F : Type 0} (p : Poseidon F) where
  cleared :
      {s : SeasonMembers F} {b : Backend} (season : ℕ)
      → IsSynced p s b
      → IsSynced p (record s { ctx = []; current = some season }) b
  unfolding JsMap.get
  cleared season h = record { fits = h.fits; readable = h.readable; cached = λ c k e. cc }

  pub is_season-eq :
      (season : ℕ) (current : Option ℕ) → is_season season current ≡ true → current ≡ some season
  is_season-eq season none h = cc
  is_season-eq season (some n) h = ap some ((nat_beq_iff n season).0 h)

  -- A roll that is not refused makes the season current, and leaves the trees true.
  pub roll-IsSynced :
      {s : SeasonMembers F} {b : Backend} (season : ℕ)
      → IsSynced p s b
      → (roll season s ≡ (err rolls_back, s))
        ⊎ ((s' : SeasonMembers F) × (roll season s ≡ (ok tt, s'))
            × (s'.current ≡ some season)
            × IsSynced p s' b)
  unfolding roll
  roll-IsSynced {s} {b} season h = elim (Bool-cases (s.monotonic && is_past season s.current)) [
    | inl back ↦ inl (rw back refl)
    | inr forth ↦ elim (Bool-cases (is_season season s.current)) [
      | inl same ↦ inr (s, rw (forth, same) refl, is_season-eq season s.current same, h)
      | inr new ↦ inr (
        record s { ctx = []; current = some season },
        rw (forth, new) refl,
        refl,
        cleared season h,
      )
    ]
  ]

  built_if_any-IsSynced :
      {b : Backend} (built : Result SeasonError (Context F) × SeasonMembers F) (s : SeasonMembers F)
      (recs : List Registration)
      → IsSynced p s b
      → IsSynced p built.1 b
      → IsSynced p (built_if_any p built s recs).1 b
  built_if_any-IsSynced built s [] h h' = h
  built_if_any-IsSynced (ok k, s') s (r ∷ recs) h h' = h'
  built_if_any-IsSynced (err e, s') s (r ∷ recs) h h' = h'

  build_if_any-IsSynced :
      {s : SeasonMembers F} {b : Backend} (now season : ℕ) (c : String)
      → IsSynced p s b
      → s.current ≡ some season
      → IsSynced p (build_if_any p now season c b s).1 b
  unfolding build_if_any
  build_if_any-IsSynced {s} {b} now season c h now_current = elim (Bool-cases (JsMap.has c s.ctx)) [
    | inl there ↦ rw there h
    | inr absent ↦
        let (k, e, h', all) =
          build_context-IsSynced p now season c (RootStore.new s.root_window) h now_current in
        rw (absent, e)
          (built_if_any-IsSynced (ok k, record s { ctx = JsMap.put c k s.ctx }) s
            (records_of (season, c) b) h h')
  ]

  -- A context is made ready and the trees stay true, whatever the season was.
  pub ensure_context-IsSynced :
      {s : SeasonMembers F} {b : Backend} (now season : ℕ) (c : String)
      → IsSynced p s b
      → IsSynced p (ensure_context p now season c b s).1 b
  unfolding ensure_context
  ensure_context-IsSynced {s} {b} now season c h = elim (roll-IsSynced season h) [
    | inl back ↦ rw back h
    | inr (s', e, now_current, h') ↦ rw e (build_if_any-IsSynced now season c h' now_current)
  ]

  pub recover_member-IsSynced :
      {s : SeasonMembers F} {b : Backend} (now season : ℕ) (c : String)
      → IsSynced p s b
      → let (r, s') = recover_member p now season c b s in
        IsSynced p s' b
        × (if is_season season s.current
            then members c s' ≡ commitments_of (records_of (season, c) b)
            else s' ≡ s)
  unfolding recover_member members
  recover_member-IsSynced {s} {b} now season c h = elim (Bool-cases (is_season season s.current)) [
    | inl same ↦
        let now_current = is_season-eq season s.current same in
        let (done, m, e, h', all, kept) = reconcile-IsSynced p now season c h now_current in
        rw (same, e) (h', all)
    | inr other ↦ rw other (h, refl)
  ]

  -- From a season whose trees are true to the registrations, a recovery in the current season leaves
  -- the context listing every registration of its bucket, in order; in another season it changes
  -- nothing.
  pub recover_member-lists :
      {s : SeasonMembers F} {b : Backend} (now season : ℕ) (c : String)
      → IsSynced p s b
      → let (r, s') = recover_member p now season c b s in
        if is_season season s.current
        then members c s' ≡ commitments_of (records_of (season, c) b)
        else s' ≡ s
  recover_member-lists now season c h = (recover_member-IsSynced now season c h).1
