-- ===== src/Oracle/Outcomes.antt =====
-- The outcomes of a refresh of core/gateway.js.
use dash_mno_verify.Prelude.{
  ◌≡◌, refl, Bool, true, false, not, string_eq, Option, some, none, Result, ok, err, arith,
  if◌then◌else◌, ℕ, all_of,
}
use dash_mno_verify.Field.{is_canonical_field}
use dash_mno_verify.Stores.LeafSet.{leaf_set_commitment}
use dash_mno_verify.Stores.RootWindows.{AdoptError, RootWindows, adopt, max_height, may_coexist}
use dash_mno_verify.Oracle.Snapshot.{Published, Settings, SnapshotError, validate_snapshot}
use dash_mno_verify.Oracle.Signatures.{Crypto}
use dash_mno_verify.Oracle.Refresh.{
  Hashes, Tick, below, signatures_ok, roots_match, snap_of, adopted_or, adopt_tested, adopt_valid,
  take_source,
}

-- A valid snapshot has canonical leaves.
pub validate_snapshot-leaves :
    (c : Settings) (requires_sha : Bool) (now : ℕ) (o : Published)
    → validate_snapshot c requires_sha now o ≡ ok tt
    → all_of is_canonical_field o.leaves ≡ true
unfolding validate_snapshot
validate_snapshot-leaves c requires_sha now o e = ground arith

unless :
    (Q : RootWindows → Type 0) (test : Bool) (w w' : RootWindows)
    → Q w
    → (test ≡ false → Q w')
    → Q (if test then w else w')
unless Q true w w' h k = h
unless Q false w w' h k = k refl

module _ {F : Type 0} (c : Settings) (k : Crypto) (hashes : Hashes F) where
  -- The tests that a snapshot passed whose record a tick adds to a window.
  pub record Passed (t : Tick) (o : Published) (w : RootWindows) : Type 0 where
    pub valid : validate_snapshot c t.requires_sha t.now o ≡ ok tt
    pub signed : signatures_ok c k hashes o ≡ true
    pub roots : roots_match c k hashes o ≡ true
    pub higher : below o.height (max_height w.snaps) ≡ false
    pub coexists :
        may_coexist o.height o.block_hash (some (leaf_set_commitment hashes.sha256 o.leaves)) w
        ≡ true

  -- A tick leaves a window or adopts the record of what it was given.
  module _ (Q : RootWindows → Type 0) (t : Tick) (w : RootWindows) (same : Q w) where
    adopted_or-keeps :
        (o : Published) (r : Result AdoptError RootWindows)
        → ((w' : RootWindows) → r ≡ ok w' → Q w')
        → Q (adopted_or c k hashes w r)
    adopted_or-keeps o (err e) h = same
    adopted_or-keeps o (ok w') h = h w' refl

    adopt_tested-keeps :
        (o : Published)
        → validate_snapshot c t.requires_sha t.now o ≡ ok tt
        → ((w' : RootWindows)
            → Passed t o w
            → adopt t.pinned (snap_of c k hashes t.now o) w ≡ ok w'
            → Q w')
        → Q (adopt_tested c k hashes t o w)
    unfolding adopt_tested
    adopt_tested-keeps o valid h = unless Q (not (signatures_ok c k hashes o)) w _ same (λ signed.
        unless Q (not (roots_match c k hashes o)) w _ same (λ roots.
          unless Q (below o.height (max_height w.snaps)) w _ same (λ higher.
            unless Q
              (not (
                may_coexist o.height o.block_hash
                  (some (leaf_set_commitment hashes.sha256 o.leaves)) w))
              w _ same
              (λ coexists.
                adopted_or-keeps o (adopt t.pinned (snap_of c k hashes t.now o) w) (λ w' e.
                  h w'
                    (record {
                      valid = valid;
                      signed = ground (arith, signed);
                      roots = ground (arith, roots);
                      higher = higher;
                      coexists = ground (arith, coexists);
                    })
                    e)))))

    adopt_valid-keeps :
        (o : Published) (r : Result SnapshotError (Unit {0}))
        → validate_snapshot c t.requires_sha t.now o ≡ r
        → ((w' : RootWindows)
            → Passed t o w
            → adopt t.pinned (snap_of c k hashes t.now o) w ≡ ok w'
            → Q w')
        → Q (adopt_valid c k hashes t o w r)
    adopt_valid-keeps o (err e) v h = same
    adopt_valid-keeps o (ok u) v h = adopt_tested-keeps o v h

    pub take_source-keeps :
        (source : Option Published)
        → ((o : Published) (w' : RootWindows)
            → source ≡ some o
            → Passed t o w
            → adopt t.pinned (snap_of c k hashes t.now o) w ≡ ok w'
            → Q w')
        → Q (take_source c k hashes t source w)
    take_source-keeps none h = same
    take_source-keeps (some o) h =
        adopt_valid-keeps o (validate_snapshot c t.requires_sha t.now o) refl
          (λ w' p e. h o w' refl p e)
