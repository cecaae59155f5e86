-- ===== src/Season/State.antt =====
-- The state of `SeasonMembers` of core/season.js, its views and the roll to another season.
use dash_mno_verify.Prelude.{
  ℕ, List, [], ◌∷◌, Bool, false, ◌&&◌, ltb, nat_beq, length, string_eq, String, Option, some, none,
  Result, ok, err, if◌then◌else◌,
}
use dash_mno_verify.Prelude.JsMap
use dash_mno_verify.Prelude.JsMap.{JsMap}
use dash_mno_verify.Merkle.Hash.{Poseidon, TreeError}
use dash_mno_verify.Merkle.MembersTree
use dash_mno_verify.Merkle.MembersTree.{MembersTree, from_commitments}
use dash_mno_verify.Stores.RootStore
use dash_mno_verify.Stores.RootStore.{Root, RootStore}

-- The value of `ctx` under a context hash.
pub record Context (F : Type 0) : Type 0 where
  pub tree : MembersTree F
  pub roots : RootStore

-- `current` is none before the first `ensure`.
pub record SeasonMembers (F : Type 0) : Type 0 where
  pub monotonic : Bool
  pub depth : ℕ
  pub root_window : ℕ
  pub empty_root : String
  pub empty_roots : RootStore
  pub current : Option ℕ
  pub ctx : JsMap String (Context F)

-- What an operation throws.
pub data SeasonError : Type 0 where
  rolls_back write_threw : SeasonError
  tree : TreeError → SeasonError

abbrev pub is_season : ℕ → Option ℕ → Bool
is_season season none = false
is_season season (some current) = nat_beq current season

abbrev pub is_past : ℕ → Option ℕ → Bool
is_past season none = false
is_past season (some current) = ltb season current

module _ {F : Type 0} where
  -- `_roll`, `ensure`.
  unfoldable pub roll : ℕ → SeasonMembers F → Result SeasonError (Unit {0}) × SeasonMembers F
  roll season s =
      if s.monotonic && is_past season s.current
      then (err rolls_back, s)
      else if is_season season s.current
      then (ok tt, s)
      else (ok tt, record s { ctx = []; current = some season })

  abbrev pub size_of : Option (Context F) → ℕ
  size_of none = 0
  size_of (some k) = length k.tree.commitments

  abbrev pub roots_of : ℕ → Option (Context F) → RootStore
  roots_of window none = RootStore.new window
  roots_of window (some k) = k.roots

module _ {F : Type 0} where
  -- `new SeasonMembers(…)`
  unfoldable pub new : Bool → ℕ → ℕ → String → ℕ → SeasonMembers F
  new monotonic depth root_window empty_root now = record {
    monotonic = monotonic;
    depth = depth;
    root_window = root_window;
    empty_root = empty_root;
    empty_roots =
        RootStore.update (record { height = 0; root = empty_root; ts = now } ∷ [])
          (RootStore.new root_window);
    current = none;
    ctx = [];
  }

  -- The read-only views of a context.
  unfoldable pub members_size : String → SeasonMembers F → ℕ
  members_size c s = size_of (JsMap.get c s.ctx)

  abbrev pub list_or : Option (Context F) → List String
  list_or none = []
  list_or (some k) = k.tree.commitments

  unfoldable pub members : String → SeasonMembers F → List String
  members c s = list_or (JsMap.get c s.ctx)

  unfoldable pub context_count : SeasonMembers F → ℕ
  context_count s = length s.ctx

  unfoldable pub root_current : ℕ → String → SeasonMembers F → Option Root
  root_current now c s = elim (JsMap.get c s.ctx) [
    | none ↦ some (record { height = 0; root = s.empty_root; ts = now })
    | some k ↦ RootStore.current k.roots
  ]

  unfoldable pub root_store : String → SeasonMembers F → RootStore
  root_store c s = elim (JsMap.get c s.ctx) [ none ↦ s.empty_roots | some k ↦ k.roots ]

module _ {F : Type 0} (p : Poseidon F) where
  abbrev pub root_or : String → Option (Context F) → String
  root_or empty none = empty
  root_or empty (some k) = MembersTree.root p k.tree

  unfoldable pub members_root : String → SeasonMembers F → String
  members_root c s = root_or s.empty_root (JsMap.get c s.ctx)
