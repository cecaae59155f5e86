-- ===== src/Merkle/MembersTree/Roots.antt =====
-- What core/members_tree.js promises its callers: one root, however the tree came to its
-- commitments, and paths that lead to it.
use dash_mno_verify.Prelude.{
  error_of, Result-cases, is_some, map_result, ltb, Bool-cases, true, false, Option, ◌⊎◌, ℕ, ◌^◌,
  ◌<◌, ◌≤◌, ◌≡◌, refl, ap, sym, ◌∙◌, List, length, get_or, String, none, some, ok, err, arith,
  Option-cases, length-map_result, inl, inr, if◌then◌else◌,
}
use dash_mno_verify.Merkle.Hash.{Poseidon, TreeError, element}
use dash_mno_verify.Merkle.MembersTree.{
  MembersTree, full_levels, levels, append, from_commitments, root, root_from_full_build, path_for,
  full, capacity, new,
}
use dash_mno_verify.Merkle.MembersTree.FullBuild.{padded_levels, last?-padded_levels}
use dash_mno_verify.Merkle.MembersTree.Paths.{
  climb, climb-path, path_elements, path_bits, path_loop-padded_levels,
}
use dash_mno_verify.Merkle.MembersTree.Consistent.{
  append-IsConsistent, IsConsistent, full_levels-eq, from_commitments-IsConsistent,
}

module _ {F : Type 0} (p : Poseidon F) where
  small : {t : MembersTree F} (c : IsConsistent p t) → length c.leaves ≤ 2 ^ t.depth
  small {t} c = omega (arith, length-map_result (element p) t.commitments c.leaves c.read, c.fits)

  full_levels-cached :
      (t : MembersTree F) (built : List (List F))
      → full_levels p t ≡ ok built
      → (b : List (List F)) → some built ≡ some b
      → full_levels p (record t { cached_levels = some built }) ≡ ok b
  unfolding full_levels
  full_levels-cached t built e b q = cc

  -- `levels()` gives the padded levels, from the cache or not, and what it caches is right.
  levels_lem :
      {t : MembersTree F} (c : IsConsistent p t)
      → (t' : MembersTree F) × (levels p t ≡ ok (padded_levels p t.depth p.zero_leaf c.leaves, t'))
        × IsConsistent p t'
        × (t'.commitments ≡ t.commitments)
  unfolding levels
  levels_lem {t} c = elim (Option-cases t.cached_levels) [
    | inl fresh ↦
        let built = padded_levels p t.depth p.zero_leaf c.leaves in
        (
          record t { cached_levels = some built },
          rw (fresh, levels, full_levels-eq p c),
          record {
            leaves = c.leaves;
            read = c.read;
            fits = c.fits;
            table = c.table;
            entries = c.entries;
            waits = c.waits;
            rooted = c.rooted;
            cached = λ b q. full_levels-cached t built (full_levels-eq p c) b q;
          },
          refl,
        )
    | inr (built, hit) ↦
        (t, rw (hit, levels) (cc (c.cached built hit, full_levels-eq p c)), c, refl)
  ]

  -- In a consistent tree the O(1) root is the root that a full padded rebuild computes, with the
  -- levels cached or not, and the rebuild leaves the tree consistent and its commitments alone.
  pub root-eq-full_build :
      {t : MembersTree F}
      → IsConsistent p t
      → (t' : MembersTree F) × (root_from_full_build p t ≡ ok (root p t, t'))
        × IsConsistent p t'
        × (t'.commitments ≡ t.commitments)
  unfolding root_from_full_build root
  root-eq-full_build {t} c =
      let (t', e, c', same) = levels_lem c in
      (t', rw (e, last?-padded_levels p t.depth p.zero_leaf c.leaves (small c), c.rooted), c', same)

  -- Rebuilding a consistent tree from its own commitments, as a restart does, succeeds and gives a
  -- consistent tree with the same root.
  pub root-rebuild :
      {t : MembersTree F}
      → IsConsistent p t
      → (t' : MembersTree F) × (from_commitments p t.commitments t.depth ≡ ok t')
        × IsConsistent p t'
        × (root p t' ≡ root p t)
  unfolding root
  root-rebuild {t} c =
      let (t', e, c', same, deep, rooted) =
        from_commitments-IsConsistent p t.commitments c.leaves t.depth c.fits c.read in
      (t', e, c', ap p.to_decimal (rooted ∙ sym c.rooted))

  -- In a consistent tree, where decimals convert back, every index below the capacity has a path, and
  -- climbing it from that leaf, or from the zero leaf past the commitments, gives the root node. The
  -- tree that is left is consistent.
  pub path_for-climbs :
      {t : MembersTree F} (index : ℕ) (c : IsConsistent p t)
      → ((x : F) → p.to_element (p.to_decimal x) ≡ some x)
      → index < 2 ^ t.depth
      → (elements : List String) × (bits : List ℕ) × (t' : MembersTree F) × (path_for p index t
          ≡ ok ((elements, bits), t'))
        × (climb p elements bits (get_or c.leaves index p.zero_leaf) ≡ ok t.root_node)
        × IsConsistent p t'
  unfolding path_for
  path_for-climbs {t} index c round_trip below =
      let (t', e, c', _) = levels_lem c in
      (
        path_elements p t.depth p.zero_leaf c.leaves index,
        path_bits p t.depth index,
        t',
        rw (e, path_loop-padded_levels p t.depth p.zero_leaf c.leaves index (small c) below),
        climb-path p round_trip t.depth p.zero_leaf c.leaves index below ∙ ap ok (sym c.rooted),
        c',
      )

  abbrev append_error : MembersTree F → String → Option TreeError
  append_error t commitment =
      if full t
      then some TreeError.tree_full
      else if is_some (p.to_element commitment)
      then none
      else some TreeError.not_an_integer

  append_throws-refused :
      (t : MembersTree F) (commitment : String)
      → (full t ≡ true) ⊎ (p.to_element commitment ≡ none)
      → error_of (append p commitment t) ≡ append_error t commitment
  unfolding append
  append_throws-refused t commitment (inl is_full) = rw is_full refl
  append_throws-refused t commitment (inr bad) = elim (Bool-cases (full t)) [
    | inl is_full ↦ rw is_full refl
    | inr room ↦ rw (room, bad) refl
  ]

  append_throws-accepted :
      {t : MembersTree F} (commitment : String) (leaf : F) (c : IsConsistent p t)
      → full t ≡ false
      → p.to_element commitment ≡ some leaf
      → error_of (append p commitment t) ≡ append_error t commitment
  unfolding full capacity
  append_throws-accepted {t} commitment leaf c room good =
      let (t', e, c', same, deep) =
        append-IsConsistent p commitment leaf c (ground arith) (rw good refl) in
      rw (e, room, good) refl

  -- An append to a consistent tree throws exactly where the tree is full, or where it has room and the
  -- commitment does not convert.
  pub append_throws :
      {t : MembersTree F} (commitment : String) (c : IsConsistent p t)
      → error_of (append p commitment t) ≡ (
          if full t
          then some TreeError.tree_full
          else if is_some (p.to_element commitment)
          then none
          else some TreeError.not_an_integer)
  append_throws {t} commitment c = elim (Bool-cases (full t)) [
    | inl is_full ↦ append_throws-refused t commitment (inl is_full)
    | inr room ↦ elim (Option-cases (p.to_element commitment)) [
      | inl bad ↦ append_throws-refused t commitment (inr bad)
      | inr (leaf, good) ↦ append_throws-accepted commitment leaf c room good
    ]
  ]

  from_commitments_throws-refused :
      (commitments : List String) (depth : ℕ) (e : TreeError)
      → (ltb (2 ^ depth) (length commitments) ≡ true) ⊎ (map_result (element p) commitments ≡ err e)
      → error_of (from_commitments p commitments depth) ≡ (
          if ltb (2 ^ depth) (length commitments)
          then some TreeError.over_capacity
          else error_of (map_result (element p) commitments))
  unfolding from_commitments capacity new
  from_commitments_throws-refused commitments depth e (inl over) = rw over refl
  from_commitments_throws-refused commitments depth e (inr bad) =
      elim (Bool-cases (ltb (2 ^ depth) (length commitments))) [
        | inl over ↦ rw over refl
        | inr fits ↦ rw (fits, bad) refl
      ]

  -- A rebuild throws exactly where there are more commitments than the depth has leaves, or else where
  -- one of them does not convert.
  pub from_commitments_throws :
      (commitments : List String) (depth : ℕ)
      → error_of (from_commitments p commitments depth) ≡ (
          if ltb (2 ^ depth) (length commitments)
          then some TreeError.over_capacity
          else error_of (map_result (element p) commitments))
  from_commitments_throws commitments depth =
      elim (Bool-cases (ltb (2 ^ depth) (length commitments))) [
        | inl over ↦
            from_commitments_throws-refused commitments depth TreeError.over_capacity (inl over)
        | inr fits ↦ elim (Result-cases (map_result (element p) commitments)) [
          | inl (e, bad) ↦ from_commitments_throws-refused commitments depth e (inr bad)
          | inr (leaves, read) ↦
              let (t, e, t_ok, same, deep, rooted) =
                from_commitments-IsConsistent p commitments leaves depth (ground (arith, fits))
                  read in
              rw (e, fits, read) refl
        ]
      ]
