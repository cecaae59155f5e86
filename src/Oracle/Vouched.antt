-- ===== src/Oracle/Vouched.antt =====
-- Where the records of the window of core/gateway.js come from, and how old they are.
use dash_mno_verify.Prelude.{
  nat_beq_ne, true_not_false, ℕ, suc, ◌+◌, ◌-◌, ◌≤◌, ◌<◌, ◌≡◌, refl, sym, ap, ◌∙◌, List, [], ◌∷◌,
  true, leb, any_of, ◌==◌, string_eq, eq_of_==, String, some, ok, err, Result, arith, All,
  get_elem?, keep_if, subst, if◌then◌else◌, Bool-cases, inl, inr,
}
use dash_mno_verify.Merkle.Hash.{TreeError}
use dash_mno_verify.Merkle.DmlRoot.{root_from_leaves}
use dash_mno_verify.Stores.RootWindows.{RootWindows, Snap, is_recent, drop_older_than}
use dash_mno_verify.Stores.RootWindows.Members.{All-adopt, All-drop_older_than}
use dash_mno_verify.Oracle.Snapshot.{Published, Settings, validate_snapshot}
use dash_mno_verify.Oracle.Signatures.{Crypto}
use dash_mno_verify.Oracle.Refresh.{
  Hashes, Tick, is_text, signatures_ok, snap_of, take_source, enforce_freshness, refresh, run_ticks,
}
use dash_mno_verify.Oracle.Outcomes.{Passed, take_source-keeps}

module _ {F : Type 0} (c : Settings) (k : Crypto) (hashes : Hashes F) where
  module _ (P : Snap → Type 0) where
    enforce_freshness-All :
        (now : ℕ) (w : RootWindows)
        → All P w.snaps
        → All P (enforce_freshness c k hashes now w).snaps
    unfolding enforce_freshness
    enforce_freshness-All now w h = ground (arith, All-drop_older_than P (now - c.max_age) w h)

    refresh-All :
        (t : Tick) (w : RootWindows)
        → ((o : Published)
            → t.source ≡ some o
            → Passed c k hashes t o w
            → P (snap_of c k hashes t.now o))
        → All P w.snaps
        → All P (refresh c k hashes t w).snaps
    unfolding refresh
    refresh-All t w h hs = enforce_freshness-All t.now (take_source c k hashes t t.source w) (
        take_source-keeps c k hashes (λ w'. All P w'.snaps) t w hs t.source
          (λ o w' e p e'. All-adopt P t.pinned (snap_of c k hashes t.now o) w w' e' (h o e p) hs))

    pub run_ticks-All :
        (ticks : List Tick) (w : RootWindows)
        → ((i : ℕ) (t : Tick) (o : Published) (w' : RootWindows)
            → get_elem? ticks i ≡ some t
            → t.source ≡ some o
            → Passed c k hashes t o w'
            → P (snap_of c k hashes t.now o))
        → All P w.snaps
        → All P (run_ticks c k hashes ticks w).snaps
    unfolding run_ticks
    run_ticks-All [] w h hs = hs
    run_ticks-All (t ∷ ticks) w h hs =
        run_ticks-All ticks (refresh c k hashes t w) (λ i. h (suc i))
          (refresh-All t w (λ o. h 0 t o w refl) hs)

  abbrev pub new_window : ℕ → ℕ → RootWindows
  new_window window max_leaves = record { window = window; max_leaves = max_leaves; snaps = [] }

  -- A record of a snapshot that one of the ticks was given, valid then, signed, and with the claimed roots.
  pub record Vouched (ticks : List Tick) (s : Snap) : Type 0 where
    pub index : ℕ
    pub tick : Tick
    pub given : Published
    pub offered : get_elem? ticks index ≡ some tick
    pub source : tick.source ≡ some given
    pub valid : validate_snapshot c tick.requires_sha tick.now given ≡ ok tt
    pub signed : signatures_ok c k hashes given ≡ true
    pub root : root_from_leaves hashes.poseidon c.tree_depth given.leaves ≡ ok s.root

  is_text-eq : (p : Result TreeError String) (s : String) → is_text p s ≡ true → p ≡ ok s
  is_text-eq (err x) s e = ground arith
  is_text-eq (ok t) s e = ap ok (eq_of_== t s e)

  run_ticks-Vouched :
      (ticks : List Tick) (window max_leaves : ℕ)
      → All (Vouched ticks) (run_ticks c k hashes ticks (new_window window max_leaves)).snaps
  run_ticks-Vouched ticks window max_leaves =
      run_ticks-All (Vouched ticks) ticks (new_window window max_leaves)
        (λ i t o w' e e' p. record {
          index = i;
          tick = t;
          given = o;
          offered = e;
          source = e';
          valid = p.valid;
          signed = p.signed;
          root =
              is_text-eq (root_from_leaves hashes.poseidon c.tree_depth o.leaves) o.root
                (ground (arith, p.roots));
        })
        tt

  of_recent :
      (Q : Snap → Type 0) (root : String) (snaps : List Snap)
      → All Q snaps
      → any_of (λ s. s.root == root) snaps ≡ true
      → (s : Snap) × Q s × (s.root ≡ root)
  of_recent Q root [] h e = absurd (true_not_false (sym e))
  of_recent Q root (s ∷ snaps) h e = elim (Bool-cases (s.root == root)) [
    | inl found ↦ (s, h.0, eq_of_== s.root root found)
    | inr other ↦ of_recent Q root snaps h.1 (ground (arith, e, other))
  ]

  -- Whatever the ticks of the refresh are given, at whatever times: a root that the window accepts is the
  -- Poseidon root, recomputed at the configured depth, of the leaves of a snapshot that one of the ticks was given, which was valid then and passed the
  -- check of its signatures, as every snapshot does where the list comes from the node or no keys are
  -- configured.
  pub is_recent-vouched :
      (ticks : List Tick) (window max_leaves : ℕ) (root : String)
      → is_recent root (run_ticks c k hashes ticks (new_window window max_leaves)) ≡ true
      → (i : ℕ) × (t : Tick) × (o : Published) × (get_elem? ticks i ≡ some t)
        × (t.source ≡ some o)
        × (validate_snapshot c t.requires_sha t.now o ≡ ok tt)
        × (signatures_ok c k hashes o ≡ true)
        × (root_from_leaves hashes.poseidon c.tree_depth o.leaves ≡ ok root)
  unfolding is_recent
  is_recent-vouched ticks window max_leaves root e =
      let (s, v, r) =
        of_recent (Vouched ticks) root _ (run_ticks-Vouched ticks window max_leaves) e in
      (v.index, v.tick, v.given, v.offered, v.source, v.valid, v.signed, v.root ∙ ap ok r)

  All-kept :
      (now age : ℕ) (snaps : List Snap)
      → All (λ s. now ≤ s.ts + age) (keep_if (λ s. leb (now - age) s.ts) snaps)
  All-kept now age [] = tt
  All-kept now age (s ∷ snaps) = ground (arith, All-kept now age snaps)

  -- Where the age is bounded: after a tick, whatever the window held and the source gave, or the read failed,
  -- each record of the window has a timestamp within the bound.
  pub refresh-fresh :
      (t : Tick) (w : RootWindows)
      → 0 < c.max_age
      → All (λ (s : Snap). t.now ≤ s.ts + c.max_age) (refresh c k hashes t w).snaps
  unfolding refresh enforce_freshness drop_older_than
  refresh-fresh t w bounded =
      let w' = take_source c k hashes t t.source w in
      subst
        (λ b.
          All (λ (s : Snap). t.now ≤ s.ts + c.max_age)
            (if b then w' else drop_older_than (t.now - c.max_age) w').snaps)
        (sym (nat_beq_ne c.max_age 0 (λ e. omega (arith, bounded, e))))
        (All-kept t.now c.max_age w'.snaps)
