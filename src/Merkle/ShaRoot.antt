-- ===== src/Merkle/ShaRoot.antt =====
-- common/dml_sha_root.js: the second root of the masternode list, the tree of SHA-256 hashes over the
-- 20-byte key ids. Its builder is the one of common/dml_root.js with other hashes.
use dash_mno_verify.Prelude.{
  hex, ℕ, zero, suc, ◌/◌, ◌%◌, ◌^◌, List, [], ◌∷◌, ◌++◌, ltb, String, Option, some, none, Result,
  if◌then◌else◌, replicate,
}
use dash_mno_verify.Field.{codes, decimal_value}
use dash_mno_verify.Merkle.Hash.{Poseidon, TreeError}
use dash_mno_verify.Merkle.DmlRoot.{root_from_leaves}

-- The last bytes of a number, the greatest first.
unfoldable pub last_bytes : ℕ → ℕ → List ℕ
last_bytes zero n = []
last_bytes (suc k) n = last_bytes k (n / 256) ++ n % 256 ∷ []

-- `leafToKeyId(leaf)` of a string of digits; none where it throws.
unfoldable pub leaf_to_key_id : String → Option (List ℕ)
unfolding decimal_value
leaf_to_key_id leaf =
    let n = decimal_value 0 (codes leaf) in if ltb n (2 ^ 160) then some (last_bytes 20 n) else none

-- `createHash("sha256")` of bytes, digested to bytes.
module _ (sha256 : List ℕ → List ℕ) where
  abbrev pub leaf_hash : List ℕ → List ℕ
  leaf_hash key_id = sha256 (0 ∷ key_id)

  abbrev pub node_hash : List ℕ → List ℕ → List ℕ
  node_hash left right = sha256 (1 ∷ left ++ right)

  abbrev pub leaf_element : Option (List ℕ) → Option (List ℕ)
  leaf_element none = none
  leaf_element (some key_id) = some (leaf_hash key_id)

  -- The hashes of `makeShaDmlRootHasher(depth)`, in the places of the other builder's.
  abbrev pub sha_hashes : Poseidon (List ℕ)
  sha_hashes = record {
    hash = node_hash;
    zero_leaf = leaf_hash (replicate 20 0);
    to_element = λ leaf. leaf_element (leaf_to_key_id leaf);
    to_decimal = hex;
  }

  -- `shaRootFromLeaves(leaves, depth)`
  unfoldable pub sha_root_from_leaves : ℕ → List String → Result TreeError String
  sha_root_from_leaves depth leaves = root_from_leaves sha_hashes depth leaves
