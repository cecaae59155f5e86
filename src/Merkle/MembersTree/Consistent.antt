-- ===== src/Merkle/MembersTree/Consistent.antt =====
-- The invariant of core/members_tree.js: the root, the frontier and the cached levels all belong to
-- the commitments. Every way to make or change a tree keeps it.

use dash_mno_verify.Prelude.{
  ℕ, suc, ◌^◌, ◌<◌, ◌≤◌, ◌≡◌, refl, ap, sym, ◌∙◌, List, [], ◌∷◌, ◌++◌, length, get_or, String,
  Option, none, some, ok, arith, map_result, replicate, length-replicate, length-map_result,
  lt→leb_false, map_result-snoc, length-append, le→ltb_false,
}
use dash_mno_verify.Merkle.Hash.{Poseidon, element}
use dash_mno_verify.Merkle.Padded.{tree_root, leaves_then}
use dash_mno_verify.Merkle.Levels.{
  zeros_from, tree_root-pad_levels, pad_levels-nil, get_or-zeros_from,
}
use dash_mno_verify.Merkle.MembersTree.{
  from_commitments, root_from_stack, fill_frontier, carry_all, MembersTree, new, full_levels,
  append, full, capacity,
}
use dash_mno_verify.Merkle.MembersTree.Stack.{
  waiting_stack, length-fill, root_from_stack-eq, carry_all_lem, Waits-fill_at,
}
use dash_mno_verify.Merkle.MembersTree.Frontier.{Waits, insert_complete, Waits-nil}
use dash_mno_verify.Merkle.MembersTree.FullBuild.{
  padded_levels, append-replicate, build_levels-padded_levels, pow-pos,
}

module _ {F : Type 0} (p : Poseidon F) where
  pub record IsConsistent (t : MembersTree F) : Type 0 where
    pub leaves : List F
    pub read : map_result (element p) t.commitments ≡ ok leaves
    pub fits : length t.commitments ≤ 2 ^ t.depth
    pub table : t.zeros ≡ zeros_from p t.depth p.zero_leaf
    pub entries : length t.frontier ≡ t.depth
    pub waits : Waits p leaves t.frontier
    pub rooted : t.root_node ≡ tree_root p t.depth (leaves_then p.zero_leaf leaves)
    pub cached : (built : List (List F)) → t.cached_levels ≡ some built → full_levels p t ≡ ok built

  tree_root-zero :
      (d : ℕ) (z : F) → tree_root p d (leaves_then z []) ≡ get_or (zeros_from p d z) d z
  tree_root-zero d z = rw (tree_root-pad_levels, pad_levels-nil) (sym (get_or-zeros_from p d z z))

  -- A new tree is consistent.
  pub new-IsConsistent : (depth : ℕ) → IsConsistent (new p depth)
  unfolding new
  new-IsConsistent depth = record {
    leaves = [];
    read = refl;
    fits = omega (arith, pow-pos depth);
    table = refl;
    entries = length-replicate depth none;
    waits = Waits-nil p depth;
    rooted = sym (tree_root-zero depth p.zero_leaf);
    cached = λ built e. cc;
  }

  -- What a full build gives.
  pub full_levels-eq :
      {t : MembersTree F} (c : IsConsistent t)
      → full_levels p t ≡ ok (padded_levels p t.depth p.zero_leaf c.leaves)
  unfolding full_levels capacity
  full_levels-eq {t} c =
      let small : length c.leaves ≤ 2 ^ t.depth =
        omega (arith, length-map_result (element p) t.commitments c.leaves c.read, c.fits) in
      rw (
        c.read,
        append-replicate p.zero_leaf (2 ^ t.depth) c.leaves small,
        build_levels-padded_levels p t.depth p.zero_leaf c.leaves small,
      )

  -- An append to a tree that is not full succeeds on a commitment that converts, gives the next
  -- index, and keeps the tree consistent.
  pub append-IsConsistent :
      {t : MembersTree F} (commitment : String) (leaf : F) (c : IsConsistent t)
      → length t.commitments < 2 ^ t.depth
      → element p commitment ≡ ok leaf
      → (t' : MembersTree F) × (append p commitment t ≡ ok (length t.commitments, t'))
        × IsConsistent t'
        × (t'.commitments ≡ t.commitments ++ commitment ∷ [])
        × (t'.depth ≡ t.depth)
  unfolding append full capacity
  append-IsConsistent {t} commitment leaf c room e =
      let same = length-map_result (element p) t.commitments c.leaves c.read in
      let (frontier', e', kept, entries') =
        insert_complete p t.frontier p.zero_leaf leaf c.leaves c.waits
          (omega (arith, ap (λ d. 2 ^ d) c.entries)) in
      let inserted = rw (c.entries, same) at e' in
      (
        record t {
          commitments = t.commitments ++ commitment ∷ [];
          cached_levels = none;
          frontier = frontier';
          root_node = tree_root p t.depth (leaves_then p.zero_leaf (c.leaves ++ leaf ∷ []));
        },
        rw (lt→leb_false _ _ room, e, c.table, inserted),
        record {
          leaves = c.leaves ++ leaf ∷ [];
          read = map_result-snoc (element p) t.commitments c.leaves commitment leaf c.read e;
          fits = omega (arith, length-append t.commitments (commitment ∷ []));
          table = c.table;
          entries = entries' ∙ c.entries;
          waits = kept;
          rooted = refl;
          cached = λ built q. cc;
        },
        refl,
        refl,
      )

  root_of_rebuild :
      (depth n : ℕ) (leaves : List F) (entries : List (Option F)) (stack : List (ℕ × F))
      → length entries ≡ depth
      → n ≡ length leaves
      → stack ≡ waiting_stack p (suc depth) 0 leaves
      → Waits p leaves entries
      → length leaves ≤ 2 ^ depth
      → root_from_stack p (2 ^ depth) stack (zeros_from p depth p.zero_leaf) entries n
        ≡ ok (tree_root p depth (leaves_then p.zero_leaf leaves))
  root_of_rebuild depth n leaves entries stack e same s w h =
      rw (← e, same) (root_from_stack-eq p entries p.zero_leaf leaves stack (rw e s) w (rw e h))

  -- A rebuild from stored commitments, in their order, is consistent.
  pub from_commitments-IsConsistent :
      (commitments : List String) (leaves : List F) (depth : ℕ)
      → length commitments ≤ 2 ^ depth
      → map_result (element p) commitments ≡ ok leaves
      → (t : MembersTree F) × (from_commitments p commitments depth ≡ ok t)
        × IsConsistent t
        × (t.commitments ≡ commitments)
        × (t.depth ≡ depth)
        × (t.root_node ≡ tree_root p depth (leaves_then p.zero_leaf leaves))
  unfolding from_commitments capacity new
  from_commitments-IsConsistent commitments leaves depth fits read =
      let same = length-map_result (element p) commitments leaves read in
      let stack = waiting_stack p (suc depth) 0 leaves in
      let carried : carry_all p [] leaves ≡ stack = carry_all_lem p depth leaves (omega arith) in
      let empty : List (Option F) = replicate depth none in
      let frontier' = fill_frontier p depth stack empty in
      let entries' = length-fill p depth stack empty ∙ length-replicate depth none in
      let waits =
        Waits-fill_at p empty depth (suc depth) leaves (length-replicate depth none)
          (omega arith) in
      (
        record {
          depth = depth;
          commitments = commitments;
          cached_levels = none;
          zeros = zeros_from p depth p.zero_leaf;
          frontier = frontier';
          root_node = tree_root p depth (leaves_then p.zero_leaf leaves);
        },
        rw (
          le→ltb_false _ _ fits,
          read,
          carried,
          root_of_rebuild depth (length commitments) leaves frontier' stack entries' (sym same) refl
              waits (omega arith),
        ),
        record {
          leaves = leaves;
          read = read;
          fits = fits;
          table = refl;
          entries = entries';
          waits = waits;
          rooted = refl;
          cached = λ built q. cc;
        },
        refl,
        refl,
        refl,
      )
