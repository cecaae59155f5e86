-- ===== src/Oracle/Agreed.antt =====
-- The records at one height in the window of core/gateway.js.
use dash_mno_verify.Prelude.{
  some-injective, ℕ, ◌≡◌, List, true, all_of, string_eq, some, get_elem?, some-injective,
}
use dash_mno_verify.Field.{is_canonical_field}
use dash_mno_verify.Stores.LeafSet.{leaf_set_commitment}
use dash_mno_verify.Stores.RootWindows.{RootWindows, Snap, Snapshot}
use dash_mno_verify.Oracle.Snapshot.{Settings, Published}
use dash_mno_verify.Oracle.Signatures.{Crypto}
use dash_mno_verify.Oracle.Refresh.{Hashes, normalize_snapshot}

abbrev In : Snap → List Snap → Type 0
In s snaps = (i : ℕ) × (get_elem? snaps i ≡ some s)

-- The same block, and the same commitment to the leaves.
abbrev pub SameSet : Snap → Snap → Type 0
SameSet s t = (s.block_hash ≡ t.block_hash) × (s.set_commitment ≡ t.set_commitment)

abbrev Agreeing : RootWindows → Type 0
Agreeing w =
    (i j : ℕ) (s t : Snap)
    → get_elem? w.snaps i ≡ some s
    → get_elem? w.snaps j ≡ some t
    → s.height ≡ t.height
    → SameSet s t

module _ {F : Type 0} (c : Settings) (k : Crypto) (hashes : Hashes F) where
  -- A record has the commitment and the leaves of one snapshot, all of them canonical.
  Committed : Snap → Type 0
  Committed s =
      (o : Published) × (all_of is_canonical_field o.leaves ≡ true)
      × (s.set_commitment ≡ some (leaf_set_commitment hashes.sha256 o.leaves))
      × (s.snapshot ≡ some (normalize_snapshot o))
