-- ===== src/Oracle/Tests.antt =====
-- The refresh of core/gateway.js at concrete inputs.
use dash_mno_verify.Prelude.{
  hex, ℕ, ◌≡◌, ◌≤◌, ◌+◌, refl, List, [], ◌∷◌, true, false, String, string_eq, ◌==◌, some, none,
  arith, length, All, get_elem?, ok, keep_if, ◌&&◌, ◌||◌, ◌++◌, ◌*◌, replicate, ◌%◌,
}
use dash_mno_verify.Prelude.JsMap
use dash_mno_verify.Stores.RootWindows.{
  RootWindows, adopt, check_snapshot, known_order, all_snaps, by_key, trim, enforce_leaf_bound,
  enforce_loop, max_height, may_coexist, drop_older_than, retained_leaves, Snap, is_recent,
}
use dash_mno_verify.Oracle.Snapshot.{
  Published, Settings, validate_snapshot, check_version, check_v3, check_age, is_hex64,
}
use dash_mno_verify.Oracle.Signatures.{
  index_sigs, count_met, has_message, frame_safe, Crypto, oracle_signatures_ok,
}
use dash_mno_verify.Oracle.Refresh.{
  snap_of, adopt_tested, enforce_freshness, Hashes, Tick, run_ticks, refresh, signatures_ok,
}
use dash_mno_verify.Stores.Order.{slice_last, distinct, sort_by, insert_by}
use dash_mno_verify.Field.{codes, is_canonical_field, spelled_decimal, decimal_value}
use dash_mno_verify.Merkle.Hash.{Poseidon}
use dash_mno_verify.Merkle.DmlRoot.{root_from_leaves, pad_loop}
use dash_mno_verify.Merkle.Levels.{zeros_from}
use dash_mno_verify.Merkle.ShaRoot.{sha_root_from_leaves, last_bytes, leaf_to_key_id}
use dash_mno_verify.Stores.LeafSet.{
  leaf_set_commitment, leaf_text, sort_leaves, insert_leaf, in_order, codes_before, join_lines,
}
use dash_mno_verify.Verifier.Registering.Decoded.{spell, spell_before}
use dash_mno_verify.Oracle.Vouched.{new_window, is_recent-vouched, refresh-fresh}
use dash_mno_verify.Oracle.Quorum.{signed_in, oracle_signatures_ok-quorum}

abbrev block : String
block = "00000000000000000000000000000000000000000000000000000000000000ab"

abbrev sha : String
sha = "000000000000000000000000000000000000000000000000000000000000001a"

-- The legacy order, and the order of a block-bound read, at one height.
abbrev v2 : Published
v2 = record {
  version = some 2;
  height = 7;
  block_hash = some block;
  depth = some 4;
  root = "56000";
  sha_root = some sha;
  leaves = "5" ∷ "6" ∷ [];
  order = none;
  chainlocked = none;
  ts = some 1000;
  sigs = ("keyA", "sigA") ∷ ("keyB", "sigB") ∷ [];
}

abbrev v3 : Published
v3 = record v2 {
  version = some 3;
  root = "65000";
  leaves = "6" ∷ "5" ∷ [];
  order = some "proRegTxHash";
  chainlocked = some true;
}

abbrev settings : Settings
settings = record {
  tree_depth = 4;
  max_age = 600;
  future_skew = 60;
  from_node = false;
  keys = "keyA" ∷ "keyB" ∷ "keyC" ∷ [];
  quorum = 2;
}

-- A label is its key, and the signature of key x is `sig` with its letter.
abbrev crypto : Crypto
crypto = record {
  key_of_label = λ label. some label;
  verifies =
      λ o sig key. ((sig == "sigA") && (key == "keyA")) || ((sig == "sigB") && (key == "keyB"));
}

-- A pair of numbers is hashed to the first one's digits and the second one.
abbrev free_field : Poseidon ℕ
free_field = record {
  hash = λ l r. 10 * l + r;
  zero_leaf = 0;
  to_element = λ leaf. some (decimal_value 0 (codes leaf));
  to_decimal = spell;
}

-- A hash of bytes that is their sum.
unfoldable sum_of : List ℕ → ℕ
sum_of [] = 0
sum_of (b ∷ bs) = b + sum_of bs

abbrev hashes : Hashes ℕ
hashes = record {
  poseidon = free_field;
  sha256 = λ bytes. replicate 31 0 ++ sum_of bytes % 256 ∷ [];
}

abbrev tick : ℕ → Published → Tick
tick now o = record { source = some o; requires_sha = true; now = now; pinned = none }

abbrev ticks : List Tick
ticks = tick 1010 v2 ∷ tick 1020 v3 ∷ []

-- Both are in the window, the later one last.
abbrev after : RootWindows
after = run_ticks settings crypto hashes ticks (new_window settings crypto hashes 8 0)

two_records : length after.snaps ≡ 2
unfolding run_ticks refresh adopt_tested enforce_freshness validate_snapshot check_version check_v3
    check_age is_hex64 oracle_signatures_ok index_sigs count_met has_message frame_safe is_recent
    adopt check_snapshot known_order all_snaps by_key trim enforce_leaf_bound enforce_loop
    max_height may_coexist drop_older_than slice_last distinct sort_by insert_by retained_leaves
    JsMap.get JsMap.put JsMap.delete is_canonical_field spelled_decimal decimal_value
    root_from_leaves zeros_from pad_loop sha_root_from_leaves last_bytes leaf_to_key_id hex
    leaf_set_commitment leaf_text sort_leaves insert_leaf in_order codes_before join_lines spell
    spell_before sum_of
two_records = refl

abbrev other_block : String
other_block = "00000000000000000000000000000000000000000000000000000000000000ee"

-- Another block at the height is rejected.
one_block :
    run_ticks settings crypto hashes
      (ticks ++ tick 1030 (record v2 { block_hash = some other_block }) ∷ [])
      (new_window settings crypto hashes 8 0)
    ≡ after
unfolding run_ticks refresh adopt_tested enforce_freshness validate_snapshot check_version check_v3
    check_age is_hex64 oracle_signatures_ok index_sigs count_met has_message frame_safe is_recent
    adopt check_snapshot known_order all_snaps by_key trim enforce_leaf_bound enforce_loop
    max_height may_coexist drop_older_than slice_last distinct sort_by insert_by retained_leaves
    JsMap.get JsMap.put JsMap.delete is_canonical_field spelled_decimal decimal_value
    root_from_leaves zeros_from pad_loop sha_root_from_leaves last_bytes leaf_to_key_id hex
    leaf_set_commitment leaf_text sort_leaves insert_leaf in_order codes_before join_lines spell
    spell_before sum_of
one_block = refl

is_recent-vouched_example :
    (i : ℕ) × (t : Tick) × (o : Published) × (get_elem? ticks i ≡ some t)
    × (t.source ≡ some o)
    × (validate_snapshot settings t.requires_sha t.now o ≡ ok tt)
    × (signatures_ok settings crypto hashes o ≡ true)
    × (root_from_leaves free_field 4 o.leaves ≡ ok "65000")
unfolding run_ticks refresh adopt_tested enforce_freshness validate_snapshot check_version check_v3
    check_age is_hex64 oracle_signatures_ok index_sigs count_met has_message frame_safe is_recent
    adopt check_snapshot known_order all_snaps by_key trim enforce_leaf_bound enforce_loop
    max_height may_coexist drop_older_than slice_last distinct sort_by insert_by retained_leaves
    JsMap.get JsMap.put JsMap.delete is_canonical_field spelled_decimal decimal_value
    root_from_leaves zeros_from pad_loop sha_root_from_leaves last_bytes leaf_to_key_id hex
    leaf_set_commitment leaf_text sort_leaves insert_leaf in_order codes_before join_lines spell
    spell_before sum_of
is_recent-vouched_example = is_recent-vouched settings crypto hashes ticks 8 0 "65000" refl

refresh-fresh_example :
    All
      (λ (s : Snap). 1700 ≤ s.ts + 600)
      (refresh settings crypto hashes
        (record { source = none; requires_sha = true; now = 1700; pinned = none })
        after).snaps
refresh-fresh_example =
    refresh-fresh settings crypto hashes
      (record { source = none; requires_sha = true; now = 1700; pinned = none }) after (omega arith)

abbrev snap_at : ℕ → Snap
snap_at i = elim (get_elem? after.snaps i) [
  | none ↦ snap_of settings crypto hashes 0 v2
  | some s ↦ s
]

oracle_signatures_ok-quorum_example :
    2 ≤ length (keep_if (signed_in crypto v3 v3.sigs) settings.keys)
unfolding run_ticks refresh adopt_tested enforce_freshness validate_snapshot check_version check_v3
    check_age is_hex64 oracle_signatures_ok index_sigs count_met has_message frame_safe is_recent
    adopt check_snapshot known_order all_snaps by_key trim enforce_leaf_bound enforce_loop
    max_height may_coexist drop_older_than slice_last distinct sort_by insert_by retained_leaves
    JsMap.get JsMap.put JsMap.delete is_canonical_field spelled_decimal decimal_value
    root_from_leaves zeros_from pad_loop sha_root_from_leaves last_bytes leaf_to_key_id hex
    leaf_set_commitment leaf_text sort_leaves insert_leaf in_order codes_before join_lines spell
    spell_before sum_of
oracle_signatures_ok-quorum_example =
    oracle_signatures_ok-quorum crypto v3 settings (omega arith) refl
