-- ===== src/Oracle/Snapshot.antt =====
-- `validateSnapshot` of core/gateway.js, and the versions of a snapshot in common/oracle_sig.js.
use dash_mno_verify.Prelude.{
  ℕ, ◌-◌, ◌^◌, List, Bool, true, false, not, ◌&&◌, ◌||◌, leb, ltb, nat_beq, all_of, ◌==◌, string_eq,
  length, String, Option, some, none, is_some, Result, ok, throw_if, or_throw, ◌>>=◌, ◌>>◌,
  if◌then◌else◌,
}
use dash_mno_verify.Field.{codes, is_canonical_field}

-- A snapshot as it was parsed, each property of its type: none for null or missing. A signature is its key's
-- label and the signature.
pub record Published : Type 0 where
  pub version : Option ℕ
  pub height : ℕ
  pub block_hash : Option String
  pub depth : Option ℕ
  pub root : String
  pub sha_root : Option String
  pub leaves : List String
  pub order : Option String
  pub chainlocked : Option Bool
  pub ts : Option ℕ
  pub sigs : List (String × String)

-- `config`: an age of 0 is no bound on the age, and no keys is no check of signatures.
pub record Settings : Type 0 where
  pub tree_depth : ℕ
  pub max_age : ℕ
  pub future_skew : ℕ
  pub from_node : Bool
  pub keys : List String
  pub quorum : ℕ

pub data SnapshotError : Type 0 where
  bad_depth bad_root too_many_leaves bad_leaf bad_version bad_sha_root bad_block_hash :
      SnapshotError
  missing_sha_root extra_sha_root extra_order extra_chainlock : SnapshotError
  missing_order unknown_order no_chainlock missing_block_hash : SnapshotError
  downgrade no_timestamp too_old from_future : SnapshotError

-- `/^[0-9a-f]{64}$/`
abbrev pub is_hex_code : ℕ → Bool
is_hex_code c = (leb b'0' c && leb c b'9') || (leb b'a' c && leb c b'f')

unfoldable pub is_hex64 : String → Bool
is_hex64 s = nat_beq (length (codes s)) 64 && all_of is_hex_code (codes s)

abbrev pub none_or_hex64 : Option String → Bool
none_or_hex64 none = true
none_or_hex64 (some s) = is_hex64 s

abbrev pub some_hex64 : Option String → Bool
some_hex64 none = false
some_hex64 (some s) = is_hex64 s

-- `snapshotVersion(o)`
abbrev pub snapshot_version : Option ℕ → Option ℕ
snapshot_version none = some 1
snapshot_version (some v) = if leb 1 v && leb v 3 then some v else none

abbrev pub depth_or : Option ℕ → ℕ → ℕ
depth_or none d = d
depth_or (some depth) d = depth

abbrev pub is_empty_text : Option String → Bool
is_empty_text none = true
is_empty_text (some s) = s == ""

abbrev pub is_pro_reg : Option String → Bool
is_pro_reg none = false
is_pro_reg (some s) = s == "proRegTxHash"

abbrev pub is_chainlocked : Option Bool → Bool
is_chainlocked none = false
is_chainlocked (some b) = b

-- The rules of the third version.
unfoldable pub check_v3 : Published → Result SnapshotError (Unit {0})
check_v3 o = do
  throw_if (not (is_some o.sha_root)) missing_sha_root
  throw_if (is_empty_text o.order) missing_order
  throw_if (not (is_pro_reg o.order)) unknown_order
  throw_if (not (is_chainlocked o.chainlocked)) no_chainlock
  throw_if (not (some_hex64 o.block_hash)) missing_block_hash

unfoldable pub check_version : ℕ → Bool → Published → Result SnapshotError (Unit {0})
check_version version requires_sha o = do
  throw_if (nat_beq version 2 && not (is_some o.sha_root)) missing_sha_root
  throw_if (nat_beq version 1 && is_some o.sha_root) extra_sha_root
  throw_if (not (nat_beq version 3) && is_some o.order) extra_order
  throw_if (not (nat_beq version 3) && is_some o.chainlocked) extra_chainlock
  (if nat_beq version 3 then check_v3 o else ok tt)
  throw_if (requires_sha && (nat_beq version 1 || not (is_some o.sha_root))) downgrade

unfoldable pub check_age : Settings → ℕ → Option ℕ → Result SnapshotError (Unit {0})
check_age c now none = throw_if (ltb 0 c.max_age) no_timestamp
check_age c now (some ts) = do
  throw_if (ltb 0 c.max_age && ltb c.max_age (now - ts)) too_old
  throw_if (ltb 0 c.max_age && ltb c.future_skew (ts - now)) from_future

-- `validateSnapshot(o, requiresSha)` at a time.
unfoldable pub validate_snapshot : Settings → Bool → ℕ → Published → Result SnapshotError (Unit {0})
validate_snapshot c requires_sha now o = do
  throw_if (not (nat_beq (depth_or o.depth c.tree_depth) c.tree_depth)) bad_depth
  throw_if (not (is_canonical_field o.root)) bad_root
  throw_if (ltb (2 ^ c.tree_depth) (length o.leaves)) too_many_leaves
  throw_if (not (all_of is_canonical_field o.leaves)) bad_leaf
  version ← or_throw (snapshot_version o.version) bad_version
  throw_if (not (none_or_hex64 o.sha_root)) bad_sha_root
  throw_if (not (none_or_hex64 o.block_hash)) bad_block_hash
  check_version version requires_sha o
  check_age c now o.ts
