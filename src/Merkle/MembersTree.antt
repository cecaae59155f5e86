-- ===== src/Merkle/MembersTree.antt =====
-- core/members_tree.js: the members tree, its root kept up to date by a frontier of waiting left
-- siblings. A method that changes the tree returns the new one. The array indices that a loop over
-- the levels reads at `l` are the heads of the zeros and of the frontier.
pub mod Frontier
pub mod Stack
pub mod FullBuild
pub mod Paths
pub mod Consistent
pub mod Roots
use dash_mno_verify.Prelude.{
  ℕ, zero, suc, ◌+◌, ◌/◌, ◌%◌, ◌^◌, List, [], ◌∷◌, ◌++◌, length, get_elem?, get_or, set, replicate,
  last?, any_of, String, ltb, leb, nat_beq, ◌==◌, string_eq, Bool, true, false, Option, none, some,
  Result, ok, err, throw_if, or_throw, map_result, ◌>>=◌, ◌>>◌, if◌then◌else◌, ◌-◌,
}
use dash_mno_verify.Merkle.Hash.{Poseidon, TreeError, element}
use dash_mno_verify.Merkle.Levels.{zeros_from}

pub record MembersTree (F : Type 0) : Type 0 where
  pub depth : ℕ
  pub commitments : List String
  -- `_levels`, the full build for `levels()`; `none` for null
  pub cached_levels : Option (List (List F))
  pub zeros : List F
  -- `none` for null
  pub frontier : List (Option F)
  pub root_node : F

-- `idx ^ 1`
abbrev pub sibling : ℕ → ℕ
sibling idx = if nat_beq (idx % 2) 0 then idx + 1 else idx - 1

module _ {F : Type 0} where
  unfoldable pub capacity : MembersTree F → ℕ
  capacity t = 2 ^ t.depth

  unfoldable pub full : MembersTree F → Bool
  unfolding capacity
  full t = leb (capacity t) (length t.commitments)

  unfoldable pub size : MembersTree F → ℕ
  size t = length t.commitments

  unfoldable pub has : MembersTree F → String → Bool
  has t commitment = any_of (λ c. c == commitment) t.commitments

module _ {F : Type 0} (p : Poseidon F) where
  -- `new MembersTree(poseidon, depth)`
  unfoldable pub new : ℕ → MembersTree F
  new depth =
      let zeros = zeros_from p depth p.zero_leaf in
      record {
        depth = depth;
        commitments = [];
        cached_levels = none;
        zeros = zeros;
        frontier = replicate depth none;
        root_node = get_or zeros depth p.zero_leaf;
      }

  -- One turn of the loop of `#insert`: the frontier entry that the level keeps, and the node above.
  -- An odd index with no waiting sibling would hash a null.
  unfoldable pub insert_level : ℕ → F → Option F → F → Result TreeError (Option F × F)
  insert_level idx z entry cur =
      if nat_beq (idx % 2) 0
      then ok (some cur, p.hash cur z)
      else (do left ← or_throw entry TreeError.undefined_input; ok (entry, p.hash left cur))

  -- `#insert`: the new frontier and the new root.
  unfoldable pub insert : List F → List (Option F) → F → ℕ → Result TreeError (List (Option F) × F)
  unfolding insert_level
  insert zeros [] cur idx = ok ([], cur)
  insert [] (entry ∷ entries) cur idx = err TreeError.undefined_input
  insert (z ∷ zeros) (entry ∷ entries) cur idx = do
    (entry', node) ← insert_level idx z entry cur
    (entries', top) ← insert zeros entries node (idx / 2)
    ok (entry' ∷ entries', top)

  -- The leaf's index, and the tree with it. A throw leaves the tree as it was.
  unfoldable pub append : String → MembersTree F → Result TreeError (ℕ × MembersTree F)
  unfolding insert full
  append commitment t = do
    throw_if (full t) TreeError.tree_full
    leaf ← element p commitment
    let index = length t.commitments
    (frontier', top) ← insert t.zeros t.frontier leaf index
    ok (
      index,
      record t {
        commitments = t.commitments ++ commitment ∷ [];
        cached_levels = none;
        frontier = frontier';
        root_node = top;
      },
    )

  -- `while (stack's top is at this level)`: the stack's top is the head of the list.
  unfoldable pub carry : List (ℕ × F) → ℕ → F → List (ℕ × F)
  carry [] level node = (level, node) ∷ []
  carry ((l, m) ∷ stack) level node =
      let combined = carry stack (level + 1) (p.hash m node) in
      if nat_beq l level then combined else (level, node) ∷ (l, m) ∷ stack

  unfoldable pub carry_all : List (ℕ × F) → List F → List (ℕ × F)
  unfolding carry
  carry_all stack [] = stack
  carry_all stack (leaf ∷ leaves) = carry_all (carry stack 0 leaf) leaves

  -- `for (const { level, node } of stack) if (level < depth) t._frontier[level] = node`,
  -- the deepest entry first.
  unfoldable pub fill_frontier : ℕ → List (ℕ × F) → List (Option F) → List (Option F)
  fill_frontier depth [] frontier = frontier
  fill_frontier depth ((level, node) ∷ stack) frontier =
      let rest = fill_frontier depth stack frontier in
      if ltb level depth then set rest level (some node) else rest

  -- One turn of the fold: a set bit reads the waiting sibling, a clear one the empty subtree.
  unfoldable pub fold_level : ℕ → F → Option F → F → Result TreeError F
  fold_level n z entry cur =
      if nat_beq (n % 2) 1
      then (do left ← or_throw entry TreeError.undefined_input; ok (p.hash left cur))
      else ok (p.hash cur z)

  -- The root from the frontier, by the bits of the number of leaves.
  unfoldable pub fold_bits : List F → List (Option F) → F → ℕ → Result TreeError F
  fold_bits zeros [] cur n = ok cur
  fold_bits [] (entry ∷ entries) cur n = err TreeError.undefined_input
  fold_bits (z ∷ zeros) (entry ∷ entries) cur n = do
    node ← fold_level n z entry cur
    fold_bits zeros entries node (n / 2)

  -- An exactly full tree has its root as the single entry of the stack, `stack[0]`.
  unfoldable pub root_from_stack :
      ℕ → List (ℕ × F) → List F → List (Option F) → ℕ → Result TreeError F
  unfolding fold_bits
  root_from_stack capacity stack zeros frontier n =
      if nat_beq n capacity
      then (do (level, node) ← or_throw (last? stack) TreeError.undefined_input; ok node)
      else (do
        z ← or_throw (get_elem? zeros 0) TreeError.undefined_input
        fold_bits zeros frontier z n)

  unfoldable pub from_commitments : List String → ℕ → Result TreeError (MembersTree F)
  unfolding new carry_all fill_frontier root_from_stack capacity
  from_commitments commitments depth = do
    let t = new depth
    throw_if (ltb (capacity t) (length commitments)) TreeError.over_capacity
    leaves ← map_result (element p) commitments
    let stack = carry_all [] leaves
    let frontier' = fill_frontier depth stack t.frontier
    top ← root_from_stack (capacity t) stack t.zeros frontier' (length commitments)
    ok (record t { commitments = commitments; frontier = frontier'; root_node = top })

  -- `for (i = 0; i < level.length; i += 2)` without a zero for the last partner.
  unfoldable pub pair_level : List F → Result TreeError (List F)
  pair_level [] = ok []
  pair_level (a ∷ []) = err TreeError.undefined_input
  pair_level (a ∷ b ∷ rest) = do next ← pair_level rest; ok (p.hash a b ∷ next)

  -- `while (level.length > 1)`, on fuel.
  unfoldable pub build_levels : ℕ → List F → Result TreeError (List (List F))
  unfolding pair_level
  build_levels zero level = err TreeError.undefined_input
  build_levels (suc fuel) level =
      let up = (do next ← pair_level level; levels ← build_levels fuel next; ok (level ∷ levels)) in
      if ltb 1 (length level) then up else ok (level ∷ [])

  unfoldable pub full_levels : MembersTree F → Result TreeError (List (List F))
  unfolding build_levels capacity
  full_levels t = do
    leaves ← map_result (element p) t.commitments
    build_levels (suc t.depth) (leaves ++ replicate (capacity t - length leaves) p.zero_leaf)

  -- `levels()`: the cached build, or a new one, which is cached.
  unfoldable pub levels : MembersTree F → Result TreeError (List (List F) × MembersTree F)
  levels t = elim t.cached_levels [
    | some built ↦ ok (built, t)
    | none ↦ do built ← full_levels t; ok (built, record t { cached_levels = some built })
  ]

  unfoldable pub root : MembersTree F → String
  root t = p.to_decimal t.root_node

  unfoldable pub root_from_full_build : MembersTree F → Result TreeError (String × MembersTree F)
  unfolding levels
  root_from_full_build t = do
    (built, t') ← levels t
    top ← or_throw (last? built) TreeError.undefined_input
    node ← or_throw (get_elem? top 0) TreeError.undefined_input
    ok (p.to_decimal node, t')

  -- The `depth` turns of the loop of `pathFor`, the level's nodes at the head.
  unfoldable pub path_loop : ℕ → List (List F) → ℕ → Result TreeError (List String × List ℕ)
  path_loop zero built idx = ok ([], [])
  path_loop (suc k) [] idx = err TreeError.undefined_input
  path_loop (suc k) (level ∷ built) idx = do
    node ← or_throw (get_elem? level (sibling idx)) TreeError.undefined_input
    (elements, indices) ← path_loop k built (idx / 2)
    ok (p.to_decimal node ∷ elements, (idx % 2) ∷ indices)

  unfoldable pub path_for :
      ℕ → MembersTree F → Result TreeError ((List String × List ℕ) × MembersTree F)
  unfolding levels path_loop
  path_for index t = do (built, t') ← levels t; path ← path_loop t.depth built index; ok (path, t')
