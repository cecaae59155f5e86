-- ===== src/Merkle/MembersTree/Frontier.antt =====
-- `#insert` of core/members_tree.js against the padded tree.
use dash_mno_verify.Prelude.{
  ℕ, zero, suc, ◌%◌, ◌^◌, ◌<◌, ◌≡◌, refl, ap, ◌∙◌, sym, List, [], ◌∷◌, ◌++◌, length, replicate,
  Option, none, some, ok, inl, inr, arith,
}
use native.Mathlib.Nat.{pow-suc}
use dash_mno_verify.Merkle.Hash.{Poseidon}
use dash_mno_verify.Merkle.Padded.{tree_root, leaves_then}
use dash_mno_verify.Merkle.Levels.{
  zeros_from, pairs, waiting, waiting-parity, length-pairs, pairs-snoc_even, pairs-snoc_odd,
  waiting-snoc_even, waiting-snoc_odd, pair_pad-snoc_even, pair_pad-snoc_odd, tree_root-pair_pad,
}
use dash_mno_verify.Merkle.MembersTree.{insert, insert_level}

module _ {F : Type 0} (p : Poseidon F) where
  -- At every level where a sibling waits, the frontier holds it. The other entries are free.
  abbrev pub Waits : List F → List (Option F) → Type 0
  Waits nodes [] = Unit
  Waits nodes (entry ∷ entries) =
      ((a : F) → waiting nodes ≡ some a → entry ≡ some a) × Waits (pairs p nodes) entries

  -- The insertion of `cur` at `idx` gives the root over `nodes`, and a frontier for `kept`.
  abbrev pub Inserts : List F → List F → F → List (Option F) → F → ℕ → Type 0
  Inserts kept nodes z entries cur idx =
      (entries' : List (Option F)) × (insert p (zeros_from p (length entries) z) entries cur idx
        ≡ ok (entries', tree_root p (length entries) (leaves_then z nodes)))
      × Waits kept entries'
      × (length entries' ≡ length entries)

  insert_level_left :
      (idx : ℕ) (z : F) (entry : Option F) (cur : F)
      → idx % 2 ≡ 0
      → insert_level p idx z entry cur ≡ ok (some cur, p.hash cur z)
  unfolding insert_level
  insert_level_left idx z entry cur h = rw h

  insert_level_right :
      (idx : ℕ) (z a : F) (entry : Option F) (cur : F)
      → idx % 2 ≡ 1
      → entry ≡ some a
      → insert_level p idx z entry cur ≡ ok (entry, p.hash a cur)
  unfolding insert_level
  insert_level_right idx z a entry cur h held = rw (h, held)

  module _ (z cur : F) (nodes : List F) (entry : Option F) (entries : List (Option F)) where
    -- A left child is kept as the frontier entry and hashed with the empty subtree.
    Inserts-left :
        (kept : List F)
        → waiting nodes ≡ none
        → length nodes % 2 ≡ 0
        → ((a : F) → waiting kept ≡ some a → some cur ≡ some a)
        → Inserts
            (pairs p kept)
            (pairs p nodes ++ p.hash cur z ∷ [])
            (p.hash z z)
            entries
            (p.hash cur z)
            (length (pairs p nodes))
        → Inserts kept (nodes ++ cur ∷ []) z (entry ∷ entries) cur (length nodes)
    unfolding insert zeros_from
    Inserts-left kept w even holds (entries', e, keeps, same) = (
      some cur ∷ entries',
      rw (
        insert_level_left (length nodes) z entry cur even,
        ← length-pairs p nodes,
        e,
        tree_root-pair_pad p (length entries) z,
        pair_pad-snoc_even p z nodes cur w,
      ),
      (holds, keeps),
      ap suc same,
    )

    -- A right child is hashed with the sibling that waits.
    Inserts-right :
        (kept : List F) (a : F)
        → waiting nodes ≡ some a
        → length nodes % 2 ≡ 1
        → entry ≡ some a
        → ((b : F) → waiting kept ≡ some b → entry ≡ some b)
        → Inserts
            (pairs p kept)
            (pairs p nodes ++ p.hash a cur ∷ [])
            (p.hash z z)
            entries
            (p.hash a cur)
            (length (pairs p nodes))
        → Inserts kept (nodes ++ cur ∷ []) z (entry ∷ entries) cur (length nodes)
    unfolding insert zeros_from
    Inserts-right kept a w odd held holds (entries', e, keeps, same) = (
      entry ∷ entries',
      rw (
        insert_level_right (length nodes) z a entry cur odd held,
        ← length-pairs p nodes,
        e,
        tree_root-pair_pad p (length entries) z,
        pair_pad-snoc_odd p z nodes a cur w,
      ),
      (holds, keeps),
      ap suc same,
    )

  half_below : (nodes : List F) (k : ℕ) → length nodes < 2 ^ suc k → length (pairs p nodes) < 2 ^ k
  half_below nodes k h = omega (arith, pow-suc 2 k, length-pairs p nodes)

  -- A node that is not full yet: the frontier keeps what waited before.
  pub insert_partial :
      (entries : List (Option F)) (z cur : F) (nodes : List F)
      → Waits nodes entries
      → length nodes < 2 ^ length entries
      → Inserts nodes (nodes ++ cur ∷ []) z entries cur (length nodes)
  insert_partial [] z cur [] w h = ([], unfold insert zeros_from tree_root in refl, tt, refl)
  insert_partial [] z cur (x ∷ nodes) w h = absurd (omega arith)
  insert_partial (entry ∷ entries) z cur nodes w h = elim (waiting-parity nodes) [
    | inl (free, even) ↦
        Inserts-left z cur nodes entry entries nodes free even (λ a q. cc)
          (insert_partial entries (p.hash z z) (p.hash cur z) (pairs p nodes) w.1
            (half_below nodes (length entries) h))
    | inr (a, held, odd) ↦
        Inserts-right z cur nodes entry entries nodes a held odd (w.0 a held) w.0 (
          insert_partial entries (p.hash z z) (p.hash a cur) (pairs p nodes) w.1
            (half_below nodes (length entries) h))
  ]

  -- A full node: it waits for its partner, or completes the sibling that waited.
  pub insert_complete :
      (entries : List (Option F)) (z cur : F) (nodes : List F)
      → Waits nodes entries
      → length nodes < 2 ^ length entries
      → Inserts (nodes ++ cur ∷ []) (nodes ++ cur ∷ []) z entries cur (length nodes)
  insert_complete [] z cur [] w h = ([], unfold insert zeros_from tree_root in refl, tt, refl)
  insert_complete [] z cur (x ∷ nodes) w h = absurd (omega arith)
  insert_complete (entry ∷ entries) z cur nodes w h = elim (waiting-parity nodes) [
    | inl (free, even) ↦
        Inserts-left z cur nodes entry entries (nodes ++ cur ∷ []) free even
          (λ a q. sym (waiting-snoc_even cur nodes free) ∙ q)
          (rw (pairs-snoc_even p cur nodes free) (
            insert_partial entries (p.hash z z) (p.hash cur z) (pairs p nodes) w.1
              (half_below nodes (length entries) h)))
    | inr (a, held, odd) ↦
        Inserts-right z cur nodes entry entries (nodes ++ cur ∷ []) a held odd (w.0 a held)
          (λ b q. cc (waiting-snoc_odd cur nodes a held))
          (rw (pairs-snoc_odd p cur nodes a held) (
            insert_complete entries (p.hash z z) (p.hash a cur) (pairs p nodes) w.1
              (half_below nodes (length entries) h)))
  ]

  pub Waits-nil : (k : ℕ) → Waits [] (replicate k none)
  unfolding waiting pairs
  Waits-nil zero = tt
  Waits-nil (suc k) = (λ a q. cc, Waits-nil k)
