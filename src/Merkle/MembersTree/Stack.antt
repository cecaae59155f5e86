-- ===== src/Merkle/MembersTree/Stack.antt =====
-- The carry stack of `fromCommitments` in core/members_tree.js: what it holds after any leaves, the
-- frontier that is filled from it, and the root that is read off it.
use mathlib.Core.Path.{fun_ext}
use mathlib.Core.List.{append-nil, append_assoc}
use native.Mathlib.Decide.{ℕ_discrete}
use dash_mno_verify.Merkle.MembersTree.FullBuild.{pow-pos}
use native.Mathlib.Nat.{pow-suc}
use native.Mathlib.Numerals.{add-one}
use dash_mno_verify.Prelude.{
  ℕ, zero, suc, ◌+◌, ◌/◌, ◌^◌, ◌<◌, ◌≤◌, ◌≡◌, ◌≢◌, refl, ap, ◌∙◌, sym, List, [], ◌∷◌, ◌++◌, length,
  length-append, Option, none, some, ok, inl, inr, arith, length-set, nat_beq_self, lt→ltb,
  >>=-eq-ok, nat_beq_ne,
}
use dash_mno_verify.Merkle.Hash.{Poseidon}
use dash_mno_verify.Merkle.Padded.{tree_root, leaves_then}
use dash_mno_verify.Merkle.Levels.{
  zeros_from, pairs, waiting, waiting-parity, length-pairs, pairs-snoc_even, pairs-snoc_odd,
  waiting-snoc_even, waiting-snoc_odd, pair_pad-even, tree_root-pair_pad,
}
use dash_mno_verify.Merkle.MembersTree.{
  insert, insert_level, carry, carry_all, fill_frontier, fold_bits, fold_level, root_from_stack,
  get_elem?,
}
use dash_mno_verify.Merkle.MembersTree.Frontier.{Waits, insert_partial}

module _ {F : Type 0} where
  abbrev pub on_top : Option F → ℕ → List (ℕ × F) → List (ℕ × F)
  on_top none level stack = stack
  on_top (some a) level stack = (level, a) ∷ stack

module _ {F : Type 0} (p : Poseidon F) where
  -- The siblings that wait, lowest level first.
  abbrev pub waiting_stack : ℕ → ℕ → List F → List (ℕ × F)
  waiting_stack zero level nodes = []
  waiting_stack (suc k) level nodes =
      on_top (waiting nodes) level (waiting_stack k (suc level) (pairs p nodes))

  carry_below :
      (k level above : ℕ) (c : F) (nodes : List F)
      → level < above
      → carry p (waiting_stack k above nodes) level c ≡ (level, c) ∷ waiting_stack k above nodes
  unfolding carry
  carry_below zero level above c nodes h = refl
  carry_below (suc k) level above c nodes h = elim (waiting-parity nodes) [
    | inl (free, _) ↦ rw free (carry_below k level (suc above) c (pairs p nodes) (omega arith))
    | inr (a, held, _) ↦ rw held (ground arith)
  ]

  carry-waiting_stack :
      (k level : ℕ) (c : F) (nodes : List F)
      → length nodes + 1 < 2 ^ k
      → carry p (waiting_stack k level nodes) level c ≡ waiting_stack k level (nodes ++ c ∷ [])
  unfolding carry
  carry-waiting_stack zero level c nodes h = absurd (omega arith)
  carry-waiting_stack (suc k) level c nodes h = elim (waiting-parity nodes) [
    | inl (free, _) ↦
        rw (free, waiting-snoc_even c nodes free, pairs-snoc_even p c nodes free)
          (carry_below k level (suc level) c (pairs p nodes) (omega arith))
    | inr (a, held, odd) ↦
        rw (held, waiting-snoc_odd c nodes a held, pairs-snoc_odd p c nodes a held)
          (rw (nat_beq_self level, add-one level)
            (carry-waiting_stack k (suc level) (p.hash a c) (pairs p nodes)
              (omega (arith, pow-suc 2 k, length-pairs p nodes))))
  ]

  pub carry_all-waiting_stack :
      (k : ℕ) (nodes leaves : List F)
      → length nodes + length leaves < 2 ^ k
      → carry_all p (waiting_stack k 0 nodes) leaves ≡ waiting_stack k 0 (nodes ++ leaves)
  unfolding carry_all
  carry_all-waiting_stack k nodes [] h = ap (waiting_stack k 0) (sym (append-nil nodes))
  carry_all-waiting_stack k nodes (leaf ∷ leaves) h =
      rw (carry-waiting_stack k 0 leaf nodes (omega arith)) (
        carry_all-waiting_stack k (nodes ++ leaf ∷ []) leaves
          (omega (arith, length-append nodes (leaf ∷ [])))
        ∙ ap (waiting_stack k 0) (append_assoc nodes (leaf ∷ []) leaves))

  -- An exactly full tree leaves one entry, its root.
  pub waiting_stack_full :
      (d level : ℕ) (z : F) (nodes : List F)
      → length nodes ≡ 2 ^ d
      → (top : ℕ) × (waiting_stack (suc d) level nodes
          ≡ (top, tree_root p d (leaves_then z nodes)) ∷ [])
  waiting_stack_full zero level z [] h = absurd (omega arith)
  waiting_stack_full zero level z (a ∷ []) h = (level, unfold waiting tree_root in refl)
  waiting_stack_full zero level z (a ∷ b ∷ rest) h = absurd (omega arith)
  waiting_stack_full (suc d) level z nodes h = elim (waiting-parity nodes) [
    | inl (free, _) ↦
        let (top, e) =
          waiting_stack_full d (suc level) (p.hash z z) (pairs p nodes)
            (omega (arith, pow-suc 2 d, length-pairs p nodes)) in
        (top, rw (free, e, tree_root-pair_pad, pair_pad-even p z nodes free))
    | inr (a, held, odd) ↦ absurd (omega (arith, pow-suc 2 d))
  ]

  -- The frontier that is filled from the stack.
  fill-shift :
      (d k level : ℕ) (nodes : List F) (entry : Option F) (entries : List (Option F))
      → fill_frontier p (suc d) (waiting_stack k (suc level) nodes) (entry ∷ entries)
        ≡ entry ∷ fill_frontier p d (waiting_stack k level nodes) entries
  unfolding fill_frontier
  fill-shift d zero level nodes entry entries = refl
  fill-shift d (suc k) level nodes entry entries = elim (waiting-parity nodes) [
    | inl (free, _) ↦ rw free (fill-shift d k (suc level) (pairs p nodes) entry entries)
    | inr (a, held, _) ↦
        rw (held, fill-shift d k (suc level) (pairs p nodes) entry entries) (ground arith)
  ]

  fill-nil : (d : ℕ) (stack : List (ℕ × F)) → fill_frontier p d stack [] ≡ []
  unfolding fill_frontier
  fill-nil d [] = refl
  fill-nil d ((l, a) ∷ stack) = rw (fill-nil d stack) (ground arith)

  fill_held :
      (d : ℕ) (a : F) (stack : List (ℕ × F)) (entry : Option F) (entries entries' : List (Option F))
      → fill_frontier p (suc d) stack (entry ∷ entries) ≡ entry ∷ entries'
      → fill_frontier p (suc d) ((0, a) ∷ stack) (entry ∷ entries) ≡ some a ∷ entries'
  unfolding fill_frontier
  fill_held d a stack entry entries entries' e = rw (e, lt→ltb 0 (suc d) (omega arith))

  pub Waits-fill :
      (entries : List (Option F)) (k : ℕ) (nodes : List F)
      → length entries ≤ k
      → Waits p nodes (fill_frontier p (length entries) (waiting_stack k 0 nodes) entries)
  Waits-fill [] k nodes h = rw fill-nil tt
  Waits-fill (entry ∷ entries) zero nodes h = absurd (omega arith)
  Waits-fill (entry ∷ entries) (suc k) nodes h = elim (waiting-parity nodes) [
    | inl (free, _) ↦
        rw (free, fill-shift (length entries) k 0 (pairs p nodes) entry entries)
          ((λ a q. cc), Waits-fill entries k (pairs p nodes) (omega arith))
    | inr (a, held, _) ↦
        rw
          (
            held,
            fill_held (length entries) a (waiting_stack k 1 (pairs p nodes)) entry entries
                (fill_frontier p (length entries) (waiting_stack k 0 (pairs p nodes)) entries)
                (fill-shift (length entries) k 0 (pairs p nodes) entry entries),
          )
          ((λ b q. cc), Waits-fill entries k (pairs p nodes) (omega arith))
  ]

  pub length-fill :
      (d : ℕ) (stack : List (ℕ × F)) (entries : List (Option F))
      → length (fill_frontier p d stack entries) ≡ length entries
  unfolding fill_frontier
  length-fill d [] entries = refl
  length-fill d ((l, a) ∷ stack) entries =
      ground (
        arith,
        length-fill d stack entries,
        length-set (fill_frontier p d stack entries) l (some a),
      )

  fold_level-insert_level :
      (n : ℕ) (z cur node : F) (entry kept : Option F)
      → insert_level p n z entry cur ≡ ok (kept, node)
      → fold_level p n z entry cur ≡ ok node
  unfolding insert_level fold_level
  fold_level-insert_level n z cur node entry kept h = ground arith

  -- Folding the bits of the number of leaves computes what `#insert` computes.
  pub fold_bits-insert :
      (zeros : List F) (entries : List (Option F)) (cur : F) (n : ℕ) (entries' : List (Option F))
      (top : F)
      → insert p zeros entries cur n ≡ ok (entries', top)
      → fold_bits p zeros entries cur n ≡ ok top
  unfolding insert fold_bits
  fold_bits-insert zeros [] cur n es top h = ground arith
  fold_bits-insert [] (entry ∷ entries) cur n es top h = cc
  fold_bits-insert (z ∷ zeros) (entry ∷ entries) cur n es top h =
      let ((kept, node), e, rest) = >>=-eq-ok (insert_level p n z entry cur) _ h in
      let ((es', top'), e', last) = >>=-eq-ok (insert p zeros entries node (n / 2)) _ rest in
      rw (fold_level-insert_level n z cur node entry kept e) (
        fold_bits-insert zeros entries node (n / 2) es' top
          (e' ∙ ap (λ t. ok (es', t)) (ground (arith, last))))

  waiting_stack-nil : (k level : ℕ) → waiting_stack k level [] ≡ []
  unfolding waiting pairs
  waiting_stack-nil zero level = refl
  waiting_stack-nil (suc k) level = waiting_stack-nil k (suc level)

  -- What the stack holds once every leaf has been carried in.
  pub carry_all_lem :
      (depth : ℕ) (leaves : List F)
      → length leaves ≤ 2 ^ depth
      → carry_all p [] leaves ≡ waiting_stack (suc depth) 0 leaves
  carry_all_lem depth leaves h =
      ap (λ stack. carry_all p stack leaves) (sym (waiting_stack-nil (suc depth) 0))
      ∙ carry_all-waiting_stack (suc depth) [] leaves
          (omega (arith, pow-suc 2 depth, pow-pos depth))

  pub Waits-fill_at :
      (entries : List (Option F)) (depth k : ℕ) (nodes : List F)
      → length entries ≡ depth
      → depth ≤ k
      → Waits p nodes (fill_frontier p depth (waiting_stack k 0 nodes) entries)
  Waits-fill_at entries depth k nodes e h = rw (← e) (Waits-fill entries k nodes (omega arith))

  leaves_then-snoc :
      (z : F) (xs : List F) (i : ℕ) → leaves_then z (xs ++ z ∷ []) i ≡ leaves_then z xs i
  leaves_then-snoc z [] zero = refl
  leaves_then-snoc z [] (suc i) = refl
  leaves_then-snoc z (x ∷ xs) zero = refl
  leaves_then-snoc z (x ∷ xs) (suc i) = leaves_then-snoc z xs i

  -- The bits of a number of leaves below the capacity fold to the padded root.
  fold_bits_lem :
      (entries : List (Option F)) (z : F) (nodes : List F)
      → Waits p nodes entries
      → length nodes < 2 ^ length entries
      → fold_bits p (zeros_from p (length entries) z) entries z (length nodes)
        ≡ ok (tree_root p (length entries) (leaves_then z nodes))
  fold_bits_lem entries z nodes w h =
      let (entries', e, _, _) = insert_partial p entries z z nodes w h in
      fold_bits-insert (zeros_from p (length entries) z) entries z (length nodes) entries' _ e
      ∙ ap (λ leaf. ok (tree_root p (length entries) leaf)) (fun_ext (leaves_then-snoc z nodes))

  root_full :
      (capacity n top : ℕ) (r : F) (stack : List (ℕ × F)) (zeros : List F)
      (entries : List (Option F))
      → n ≡ capacity
      → stack ≡ (top, r) ∷ []
      → root_from_stack p capacity stack zeros entries n ≡ ok r
  unfolding root_from_stack
  root_full capacity n top r stack zeros entries e s = rw (e, nat_beq_self capacity, s)

  root_room :
      (capacity n : ℕ) (z r : F) (stack : List (ℕ × F)) (zeros : List F) (entries : List (Option F))
      → n ≢ capacity
      → get_elem? zeros 0 ≡ some z
      → fold_bits p zeros entries z n ≡ ok r
      → root_from_stack p capacity stack zeros entries n ≡ ok r
  unfolding root_from_stack
  root_room capacity n z r stack zeros entries ne e folded = rw (nat_beq_ne n capacity ne, e) folded

  first_zero : (d : ℕ) (z : F) → get_elem? (zeros_from p d z) 0 ≡ some z
  unfolding zeros_from
  first_zero zero z = refl
  first_zero (suc d) z = refl

  -- Full or not, the root read off the stack is the padded root.
  pub root_from_stack-eq :
      (entries : List (Option F)) (z : F) (leaves : List F) (stack : List (ℕ × F))
      → stack ≡ waiting_stack (suc (length entries)) 0 leaves
      → Waits p leaves entries
      → length leaves ≤ 2 ^ length entries
      → root_from_stack p
          (2 ^ length entries)
          stack
          (zeros_from p (length entries) z)
          entries
          (length leaves)
        ≡ ok (tree_root p (length entries) (leaves_then z leaves))
  root_from_stack-eq entries z leaves stack e w h =
      elim (ℕ_discrete (length leaves) (2 ^ length entries)) [
        | yes exact ↦
            let (top, full) = waiting_stack_full (length entries) 0 z leaves exact in
            root_full (2 ^ length entries) (length leaves) top
              (tree_root p (length entries) (leaves_then z leaves)) stack
              (zeros_from p (length entries) z) entries exact (e ∙ full)
        | no room ↦
            root_room (2 ^ length entries) (length leaves) z
              (tree_root p (length entries) (leaves_then z leaves)) stack
              (zeros_from p (length entries) z) entries room (first_zero (length entries) z)
              (fold_bits_lem entries z leaves w (omega arith))
      ]
