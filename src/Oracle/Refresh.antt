-- ===== src/Oracle/Refresh.antt =====
-- `refreshRoots` of core/gateway.js after its reads, and `enforceDmlFreshness`.
use dash_mno_verify.Prelude.{
  ℕ, ◌-◌, List, [], ◌∷◌, Bool, true, false, not, ◌&&◌, ltb, nat_beq, ◌==◌, string_eq, String,
  Option, some, none, Result, ok, err, if◌then◌else◌,
}
use dash_mno_verify.Merkle.Hash.{Poseidon, TreeError}
use dash_mno_verify.Merkle.DmlRoot.{root_from_leaves}
use dash_mno_verify.Merkle.ShaRoot.{sha_root_from_leaves}
use dash_mno_verify.Stores.LeafSet.{leaf_set_commitment}
use dash_mno_verify.Stores.RootWindows.{
  RootWindows, Snap, Snapshot, snapshot_fields, adopt, max_height, may_coexist, drop_older_than,
  AdoptError,
}
use dash_mno_verify.Oracle.Snapshot.{
  SnapshotError, Published, Settings, validate_snapshot, snapshot_version,
}
use dash_mno_verify.Oracle.Signatures.{Crypto, oracle_signatures_ok}

-- What circomlibjs and node's crypto compute: Poseidon with its field, and SHA-256 of bytes.
pub record Hashes (F : Type 0) : Type 0 where
  pub poseidon : Poseidon F
  pub sha256 : List ℕ → List ℕ

-- A tick of the refresh: what the source gave, none where the read failed, whether a SHA root is required,
-- the time, and what `pinnedRoots()` answers.
pub record Tick : Type 0 where
  pub source : Option Published
  pub requires_sha : Bool
  pub now : ℕ
  pub pinned : Option (List String)

-- Whether a root was computed and is the claimed one; where computing it throws, the tick fails.
abbrev pub is_text : Result TreeError String → String → Bool
is_text (err e) s = false
is_text (ok t) s = t == s

abbrev pub ts_or : Option ℕ → ℕ → ℕ
ts_or none now = now
ts_or (some ts) now = ts

-- `windowOrderKey`
abbrev pub window_order_key : Option ℕ → Option String → Option String
window_order_key none order = none
window_order_key (some version) order = if nat_beq version 3 then order else none

abbrev pub below : ℕ → Option ℕ → Bool
below height none = false
below height (some top) = ltb height top

-- `normalizeSnapshot(o, depth)`: always with the same properties.
abbrev pub normalize_snapshot : Published → Snapshot
normalize_snapshot o = record {
  keys = snapshot_fields;
  height = o.height;
  root = o.root;
  sha_root = o.sha_root;
  leaves = o.leaves;
}

module _ {F : Type 0} (c : Settings) (k : Crypto) (hashes : Hashes F) where
  abbrev pub signatures_ok : Published → Bool
  signatures_ok o = if c.from_node then true else oracle_signatures_ok k c o

  -- Whether both recomputed roots are the claimed ones.
  abbrev pub sha_matches : Published → Option String → Bool
  sha_matches o none = true
  sha_matches o (some claimed) =
      is_text (sha_root_from_leaves hashes.sha256 c.tree_depth o.leaves) claimed

  abbrev pub roots_match : Published → Bool
  roots_match o =
      is_text (root_from_leaves hashes.poseidon c.tree_depth o.leaves) o.root
      && sha_matches o o.sha_root

  -- The record of the window.
  abbrev pub snap_of : ℕ → Published → Snap
  snap_of now o = record {
    height = o.height;
    root = o.root;
    sha_root = o.sha_root;
    ts = ts_or o.ts now;
    order = window_order_key (snapshot_version o.version) o.order;
    block_hash = o.block_hash;
    set_commitment = some (leaf_set_commitment hashes.sha256 o.leaves);
    snapshot = some (normalize_snapshot o);
  }

  abbrev pub adopted_or : RootWindows → Result AdoptError RootWindows → RootWindows
  adopted_or w (err e) = w
  adopted_or w (ok w') = w'

  -- The tests of a snapshot that is valid, in their order; a rejected one leaves the window.
  unfoldable pub adopt_tested : Tick → Published → RootWindows → RootWindows
  adopt_tested t o w =
      if not (signatures_ok o)
      then w
      else if not (roots_match o)
      then w
      else if below o.height (max_height w.snaps)
      then w
      else if not
          (may_coexist o.height o.block_hash (some (leaf_set_commitment hashes.sha256 o.leaves)) w)
      then w
      else adopted_or w (adopt t.pinned (snap_of t.now o) w)

  abbrev pub adopt_valid :
      Tick → Published → RootWindows → Result SnapshotError (Unit {0}) → RootWindows
  adopt_valid t o w (err e) = w
  adopt_valid t o w (ok u) = adopt_tested t o w

  abbrev pub take_source : Tick → Option Published → RootWindows → RootWindows
  take_source t none w = w
  take_source t (some o) w = adopt_valid t o w (validate_snapshot c t.requires_sha t.now o)

  -- `enforceDmlFreshness()`
  unfoldable pub enforce_freshness : ℕ → RootWindows → RootWindows
  enforce_freshness now w = if nat_beq c.max_age 0 then w else drop_older_than (now - c.max_age) w

  unfoldable pub refresh : Tick → RootWindows → RootWindows
  refresh t w = enforce_freshness t.now (take_source t t.source w)

  unfoldable pub run_ticks : List Tick → RootWindows → RootWindows
  run_ticks [] w = w
  run_ticks (t ∷ ts) w = run_ticks ts (refresh t w)
