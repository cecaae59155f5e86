-- ===== src/Season/Commit.antt =====
-- `commit` of core/season.js: one durable write and the same leaf in the tree. The live season, whether
-- the clock went back, and the fate of the write are arguments of the call.
use dash_mno_verify.Prelude.{
  ℕ, Bool, true, not, nat_beq, length, string_eq, String, Option, some, none, Result, ok, err,
  if◌then◌else◌,
}
use dash_mno_verify.Prelude.JsMap
use dash_mno_verify.Prelude.JsMap.{JsMap}
use dash_mno_verify.Merkle.Hash.{Poseidon, TreeError}
use dash_mno_verify.Merkle.MembersTree
use dash_mno_verify.Merkle.MembersTree.{MembersTree, from_commitments}
use dash_mno_verify.Stores.RootStore.{RootStore}
use dash_mno_verify.Registration
use dash_mno_verify.Registration.{
  Request, Registration, Declaration, Backend, Appended, records_of, key_of, append_checked,
}
use dash_mno_verify.Season.State.{Context, SeasonMembers, SeasonError, write_threw, is_season}
use dash_mno_verify.Season.Trees.{context_of, materialize, reconcile_if_behind}

-- What the caller's durable write does: it runs; it throws with nothing in the store, or with the
-- record in it; or the anchor is stale and it does not run.
pub data Fate : Type 0 where
  runs throws_before throws_after anchor_stale : Fate

pub data Written : Type 0 where
  threw stale : Written
  answered : Appended → Written

-- The answers of `commit`.
pub data Commit : Type 0 where
  committed : ℕ → String → ℕ → Commit
  season_rolled_retry already_registered clock_regressed invalid_declaration stale_root
        index_tree_mismatch :
      Commit
  members_tree_full : ℕ → Commit
  statement_mismatch : Declaration → Commit

-- `appendDurable()` of the gateway.
unfoldable pub write : Fate → Request → Backend → Written × Backend
write Fate.runs d b = let (res, b') = append_checked d b in (answered res, b')
write Fate.throws_before d b = (threw, b)
write Fate.throws_after d b = (threw, (append_checked d b).1)
write Fate.anchor_stale d b = (stale, b)

module _ {F : Type 0} (p : Poseidon F) where
  -- The tree and its root store with the new leaf.
  abbrev pub publish :
      ℕ
      → String
      → ℕ
      → RootStore
      → Result TreeError (ℕ × MembersTree F)
      → SeasonMembers F
      → Result SeasonError Commit × SeasonMembers F
  publish now c index roots (err e) s = (err (SeasonError.tree e), s)
  publish now c index roots (ok (slot, t)) s = (
    ok (committed index (MembersTree.root p t) (length t.commitments)),
    record s { ctx = JsMap.put c (context_of p now roots t) s.ctx },
  )

  -- After the durable write: only a record that was appended at the tree's size enters the tree.
  unfoldable pub mirror :
      ℕ
      → Request
      → Context F
      → Written
      → SeasonMembers F
      → Result SeasonError Commit × SeasonMembers F
  mirror now d k threw s = (err write_threw, s)
  mirror now d k stale s = (ok stale_root, s)
  mirror now d k (answered Appended.duplicate) s = (ok already_registered, s)
  mirror now d k (answered (Appended.conflict declared)) s = (ok (statement_mismatch declared), s)
  mirror now d k (answered Appended.invalid) s = (ok invalid_declaration, s)
  mirror now d k (answered (Appended.appended index)) s =
      if nat_beq index (length k.tree.commitments)
      then publish now d.context_hash index k.roots (MembersTree.append p d.commitment k.tree) s
      else (ok index_tree_mismatch, s)

  abbrev pub is_live : ℕ → Option ℕ → Bool
  is_live season none = true
  is_live season (some live) = nat_beq live season

  abbrev pub with_store :
      {A : Type 0}
      → Backend
      → Result SeasonError A × SeasonMembers F
      → Result SeasonError A × SeasonMembers F × Backend
  with_store b (r, s) = (r, s, b)

  -- The checks right before the write: why there is none. `live` is what `seasonNow()` answers, none
  -- where the season manager was given no such function.
  unfoldable pub refusal : Option ℕ → Bool → Request → Context F → Backend → Option Commit
  refusal live regressed d k b =
      if Registration.has (key_of d) b
      then some already_registered
      else if MembersTree.full k.tree
      then some (members_tree_full (MembersTree.capacity k.tree))
      else if not (is_live d.season live)
      then some season_rolled_retry
      else if regressed
      then some clock_regressed
      else none

  abbrev pub unless_refused :
      ℕ
      → Fate
      → Request
      → Context F
      → SeasonMembers F
      → Backend
      → Option Commit
      → Result SeasonError Commit × SeasonMembers F × Backend
  unless_refused now fate d k s b (some answer) = (ok answer, s, b)
  unless_refused now fate d k s b none =
      let (written, b') = write fate d b in with_store b' (mirror now d k written s)

  unfoldable pub write_record :
      ℕ
      → Option ℕ
      → Bool
      → Fate
      → Request
      → Context F
      → SeasonMembers F
      → Backend
      → Result SeasonError Commit × SeasonMembers F × Backend
  write_record now live regressed fate d k s b =
      unless_refused now fate d k s b (refusal live regressed d k b)

  abbrev pub current_or : Option (Context F) → Context F → Context F
  current_or none k = k
  current_or (some k') k = k'

  abbrev pub reconciled :
      ℕ
      → Option ℕ
      → Bool
      → Fate
      → Request
      → Context F
      → Backend
      → Result SeasonError Bool × SeasonMembers F
      → Result SeasonError Commit × SeasonMembers F × Backend
  reconciled now live regressed fate d k b (err e, s) = (err e, s, b)
  reconciled now live regressed fate d k b (ok done, s) =
      write_record now live regressed fate d (current_or (JsMap.get d.context_hash s.ctx) k) s b

  abbrev pub materialized :
      ℕ
      → Option ℕ
      → Bool
      → Fate
      → Request
      → Backend
      → Result SeasonError (Context F) × SeasonMembers F
      → Result SeasonError Commit × SeasonMembers F × Backend
  materialized now live regressed fate d b (err e, s) = (err e, s, b)
  materialized now live regressed fate d b (ok k, s) =
      reconciled now live regressed fate d k b
        (reconcile_if_behind p now d.season d.context_hash b s)

  -- `commit`, with the registration's season, context, commitment and nullifier in the request.
  unfoldable pub commit :
      ℕ
      → Option ℕ
      → Bool
      → Fate
      → Request
      → SeasonMembers F
      → Backend
      → Result SeasonError Commit × SeasonMembers F × Backend
  commit now live regressed fate d s b =
      if is_season d.season s.current
      then materialized now live regressed fate d b (materialize p now d.season d.context_hash b s)
      else (ok season_rolled_retry, s, b)
