-- ===== src/Oracle/Signatures.antt =====
-- `oracleSignaturesOk` of core/gateway.js: the quorum of the configured keys.
use dash_mno_verify.Prelude.{
  ℕ, ◌+◌, List, [], ◌∷◌, Bool, true, false, not, ◌&&◌, leb, ltb, nat_beq, any_of, string_eq, length,
  String, Option, some, none, if◌then◌else◌, is_some,
}
use dash_mno_verify.Prelude.JsMap
use dash_mno_verify.Prelude.JsMap.{JsMap}
use dash_mno_verify.Field.{codes}
use dash_mno_verify.Oracle.Snapshot.{
  is_empty_text, is_chainlocked, snapshot_version, Published, Settings, some_hex64,
}

-- The cap of core/config.js.
abbrev pub max_snapshot_sigs : ℕ
max_snapshot_sigs = 64

-- `frameSafe(value)`, which throws on a newline.
unfoldable pub frame_safe : String → Bool
frame_safe s = not (any_of (nat_beq 10) (codes s))

abbrev pub frame_safe_or_none : Option String → Bool
frame_safe_or_none none = true
frame_safe_or_none (some s) = frame_safe s

-- Whether `snapshotMessage(o)` returns, for each version.
abbrev pub frames_v1 : Published → Bool
frames_v1 o =
    is_some o.ts && is_some o.depth && frame_safe_or_none o.block_hash && frame_safe o.root

abbrev pub frames_v2 : Published → Bool
frames_v2 o = is_some o.sha_root && frame_safe_or_none o.sha_root && frames_v1 o

abbrev pub frames_v3 : Published → Bool
frames_v3 o =
    not (is_empty_text o.order)
    && is_chainlocked o.chainlocked
    && frame_safe_or_none o.order
    && frames_v2 o

abbrev pub frames_at : Option ℕ → Published → Bool
frames_at none o = false
frames_at (some version) o =
    if nat_beq version 3
    then frames_v3 o
    else if nat_beq version 2
    then frames_v2 o
    else frames_v1 o

unfoldable pub has_message : Published → Bool
has_message o = frames_at (snapshot_version o.version) o

-- What node's crypto answers: `rawPublicB64(publicKeyFromRaw(label))`, none where it throws, and
-- `verifySnapshotSig(snapshotMessage(o), sig, key)` where
-- the message is formed.
pub record Crypto : Type 0 where
  pub key_of_label : String → Option String
  pub verifies : Published → String → String → Bool

module _ (k : Crypto) where
  -- The signatures by their keys; none where two are for one key.
  abbrev pub index_one : Option String → String → JsMap String String → Option (JsMap String String)
  index_one none sig by_key = some by_key
  index_one (some id) sig by_key =
      if JsMap.has id by_key then none else some (JsMap.put id sig by_key)

  abbrev pub index_rest :
      (JsMap String String → Option (JsMap String String))
      → Option (JsMap String String)
      → Option (JsMap String String)
  index_rest next none = none
  index_rest next (some by_key) = next by_key

  unfoldable pub index_sigs :
      List (String × String) → JsMap String String → Option (JsMap String String)
  index_sigs [] by_key = some by_key
  index_sigs ((label, sig) ∷ rest) by_key =
      index_rest (index_sigs rest) (index_one (k.key_of_label label) sig by_key)

  abbrev pub verifies_under : Published → String → Option String → Bool
  verifies_under o key none = false
  verifies_under o key (some sig) = k.verifies o sig key

  -- `met`
  unfoldable pub count_met : Published → JsMap String String → List String → ℕ
  count_met o by_key [] = 0
  count_met o by_key (key ∷ keys) =
      (if verifies_under o key (JsMap.get key by_key) then 1 else 0) + count_met o by_key keys

  abbrev pub quorum_met : Settings → Published → Option (JsMap String String) → Bool
  quorum_met c o none = false
  quorum_met c o (some by_key) = has_message o && leb c.quorum (count_met o by_key c.keys)

  -- Where the message is not formed, the source throws, and the refresh rejects the snapshot too.
  unfoldable pub oracle_signatures_ok : Settings → Published → Bool
  oracle_signatures_ok c o =
      if nat_beq (length c.keys) 0
      then true
      else if not (some_hex64 o.block_hash)
      then false
      else if ltb max_snapshot_sigs (length o.sigs)
      then false
      else quorum_met c o (index_sigs o.sigs [])
