-- ===== src/Season/Trees.antt =====
-- The trees that core/season.js builds from the durable registrations. The operations that `_serial`
-- queues run one at a time, so each is one function from the state to the state.
use dash_mno_verify.Prelude.{
  ℕ, List, [], ◌∷◌, map, Bool, true, false, ltb, length, string_eq, String, some, none, Result, ok,
  err, if◌then◌else◌, Option,
}
use dash_mno_verify.Prelude.JsMap
use dash_mno_verify.Prelude.JsMap.{JsMap}
use dash_mno_verify.Merkle.Hash.{Poseidon, TreeError}
use dash_mno_verify.Merkle.MembersTree
use dash_mno_verify.Merkle.MembersTree.{MembersTree, from_commitments}
use dash_mno_verify.Stores.RootStore
use dash_mno_verify.Stores.RootStore.{Root, RootStore}
use dash_mno_verify.Registration.{Registration, Backend, records_of}
use dash_mno_verify.Season.State.{
  Context, SeasonMembers, SeasonError, is_season, roll, size_of, roots_of,
}

-- The answers of `recoverMember`.
pub data Recovered : Type 0 where
  season_rolled : Recovered
  recovered : Bool → ℕ → Recovered

abbrev pub commitments_of : List Registration → List String
commitments_of recs = map (λ r. r.request.commitment) recs

module _ {F : Type 0} (p : Poseidon F) where
  abbrev pub live_root : ℕ → MembersTree F → Root
  live_root now t = record { height = length t.commitments; root = MembersTree.root p t; ts = now }

  -- A context of the records' tree, its root the newest of `roots`.
  abbrev pub context_of : ℕ → RootStore → MembersTree F → Context F
  context_of now roots t = record {
    tree = t;
    roots = RootStore.update (live_root now t ∷ []) roots;
  }

  abbrev pub cache :
      ℕ
      → String
      → RootStore
      → Result TreeError (MembersTree F)
      → SeasonMembers F
      → Result SeasonError (Context F) × SeasonMembers F
  cache now c roots (err e) s = (err (SeasonError.tree e), s)
  cache now c roots (ok t) s =
      (ok (context_of now roots t), record s { ctx = JsMap.put c (context_of now roots t) s.ctx })

  -- `_materializeFrom` with a new root store, `_rebuildTreePreservingRoots` with the context's.
  unfoldable pub build_context :
      ℕ
      → String
      → RootStore
      → List Registration
      → SeasonMembers F
      → Result SeasonError (Context F) × SeasonMembers F
  build_context now c roots recs s =
      cache now c roots (from_commitments p (commitments_of recs) s.depth) s

  -- `ctx.get(contextHash) ?? built`
  abbrev pub cached_or :
      Result SeasonError (Context F) × SeasonMembers F
      → SeasonMembers F
      → Option (Context F)
      → Result SeasonError (Context F) × SeasonMembers F
  cached_or built s none = built
  cached_or built s (some k) = (ok k, s)

  unfoldable pub materialize :
      ℕ → ℕ → String → Backend → SeasonMembers F → Result SeasonError (Context F) × SeasonMembers F
  materialize now season c b s =
      cached_or (build_context now c (RootStore.new s.root_window) (records_of (season, c) b) s) s
        (JsMap.get c s.ctx)

  abbrev pub rebuilt :
      Result SeasonError (Context F) × SeasonMembers F → Result SeasonError Bool × SeasonMembers F
  rebuilt (err e, s) = (err e, s)
  rebuilt (ok k, s) = (ok true, s)

  unfoldable pub reconcile_if_behind :
      ℕ → ℕ → String → Backend → SeasonMembers F → Result SeasonError Bool × SeasonMembers F
  reconcile_if_behind now season c b s =
      let recs = records_of (season, c) b in
      let existing = JsMap.get c s.ctx in
      if ltb (size_of existing) (length recs)
      then rebuilt (build_context now c (roots_of s.root_window existing) recs s)
      else (ok false, s)

  abbrev pub recovered_as :
      String
      → Result SeasonError Bool × SeasonMembers F
      → Result SeasonError Recovered × SeasonMembers F
  recovered_as c (err e, s) = (err e, s)
  recovered_as c (ok done, s) = (ok (recovered done (size_of (JsMap.get c s.ctx))), s)

  unfoldable pub recover_member :
      ℕ → ℕ → String → Backend → SeasonMembers F → Result SeasonError Recovered × SeasonMembers F
  recover_member now season c b s =
      if is_season season s.current
      then recovered_as c (reconcile_if_behind now season c b s)
      else (ok season_rolled, s)

  abbrev pub forget :
      Result SeasonError (Context F) × SeasonMembers F
      → Result SeasonError (Unit {0}) × SeasonMembers F
  forget (err e, s) = (err e, s)
  forget (ok k, s) = (ok tt, s)

  abbrev pub built_if_any :
      Result SeasonError (Context F) × SeasonMembers F
      → SeasonMembers F
      → List Registration
      → Result SeasonError (Unit {0}) × SeasonMembers F
  built_if_any built s [] = (ok tt, s)
  built_if_any built s (r ∷ rest) = forget built

  -- Once the season is current: an absent context with records is built.
  unfoldable pub build_if_any :
      ℕ → ℕ → String → Backend → SeasonMembers F → Result SeasonError (Unit {0}) × SeasonMembers F
  build_if_any now season c b s =
      let recs = records_of (season, c) b in
      if JsMap.has c s.ctx
      then (ok tt, s)
      else built_if_any (build_context now c (RootStore.new s.root_window) recs s) s recs

  abbrev pub after_roll :
      (SeasonMembers F → Result SeasonError (Unit {0}) × SeasonMembers F)
      → Result SeasonError (Unit {0}) × SeasonMembers F
      → Result SeasonError (Unit {0}) × SeasonMembers F
  after_roll next (err e, s) = (err e, s)
  after_roll next (ok u, s) = next s

  unfoldable pub ensure_context :
      ℕ → ℕ → String → Backend → SeasonMembers F → Result SeasonError (Unit {0}) × SeasonMembers F
  ensure_context now season c b s = after_roll (build_if_any now season c b) (roll season s)
