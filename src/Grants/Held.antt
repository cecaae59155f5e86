-- ===== src/Grants/Held.antt =====
-- A start of adapters/common/grant_ledger.js on a ledger that holds rows.
use dash_mno_verify.Prelude.{
  Bool, true, false, String, string_eq, ◌==◌, eq_of_==, Option, none, some, length, ◌<◌, ◌≡◌, refl,
  sym, ap, ◌∙◌, ◌⊎◌, inl, inr, arith, subst,
}
use dash_mno_verify.Grants.Ledger.{Adapter}
use dash_mno_verify.Grants.Begins.{rows-observe_clock}
use dash_mno_verify.Grants.Scope.{
  Store, Config, Legacy, Opened, refused, opened, store_of, and_then, seed_rev_seq, refuse_foreign,
  refuse_other, refuse_foreign_scope, bind_rows, bind_unbound, bind_scope, import_legacy,
  validate_all, start_clock, open_store,
}

module _ {R : Type 0} where
  -- A store with the same rows, whose place is the same or one that the operator has named.
  abbrev pub Held : Config → Store R → Store R → Type 0
  Held c s s' =
      (s'.ledger.rows ≡ s.ledger.rows)
      × ((s'.scope ≡ s.scope)
          ⊎ ((s.scope ≡ none) × (s'.scope ≡ c.scope) × (c.adopt_scope ≡ c.scope)))

  and_then-keeps :
      (P : Store R → Type 0) (o : Opened R) (next : Store R → Opened R)
      → P (store_of o)
      → ((s : Store R) → P s → P (store_of (next s)))
      → P (store_of (and_then o next))
  and_then-keeps P (refused s) next h k = h
  and_then-keeps P (opened s) next h k = k s h

  module _ (s : Store R) (holds : 0 < length s.ledger.rows) where
    seed_rev_seq-kept :
        ((seed_rev_seq s).ledger.rows ≡ s.ledger.rows) × ((seed_rev_seq s).scope ≡ s.scope)
    seed_rev_seq-kept = ground arith

    refuse_foreign-kept :
        (scope : String) (allow : Bool) (file : Legacy R)
        → store_of (refuse_foreign scope allow file s) ≡ s
    refuse_foreign-kept scope true file = refl
    refuse_foreign-kept scope false file = ground (arith, holds)

    refuse_other-kept :
        (bound scope : Option String) (allow : Bool) (file : Legacy R)
        → store_of (refuse_other bound scope allow file s) ≡ s
    refuse_other-kept none scope allow file = refl
    refuse_other-kept (some bound) none allow file = refl
    refuse_other-kept (some bound) (some scope) allow file =
        ground (arith, refuse_foreign-kept scope allow file)

    import_legacy-kept :
        {O : Type 0} (a : Adapter R O) (file : Legacy R) → store_of (import_legacy a file s) ≡ s
    unfolding import_legacy
    import_legacy-kept a file = ground (arith, holds)

    bind_rows-kept :
        (scope : String) (adopt : Option String)
        → (store_of (bind_rows scope adopt s) ≡ s)
          ⊎ ((store_of (bind_rows scope adopt s) ≡ record s { scope = some scope })
              × (adopt ≡ some scope))
    bind_rows-kept scope none = inl (ground (arith, holds))
    bind_rows-kept scope (some adopt) = go (adopt == scope) refl
      where
        go :
            (b : Bool)
            → (adopt == scope) ≡ b
            → (store_of (bind_rows scope (some adopt) s) ≡ s)
              ⊎ ((store_of (bind_rows scope (some adopt) s) ≡ record s { scope = some scope })
                  × (some adopt ≡ some scope))
        go false e = inl (ground (arith, holds, e))
        go true e = inr (ground (arith, e), ap some (eq_of_== adopt scope e))

    bind_unbound-Held :
        (c : Config) (scope bound : Option String)
        → c.scope ≡ scope
        → s.scope ≡ bound
        → Held c s (store_of (bind_unbound scope c.adopt_scope bound s))
    bind_unbound-Held c none bound e e' = (refl, inl refl)
    bind_unbound-Held c (some scope) (some bound) e e' = (refl, inl refl)
    bind_unbound-Held c (some scope) none e e' = elim (bind_rows-kept scope c.adopt_scope) [
      | inl h ↦ (ap (λ t. t.ledger.rows) h, inl (ap (λ t. t.scope) h))
      | inr h ↦ (ap (λ t. t.ledger.rows) h.0, inr (e', ap (λ t. t.scope) h.0 ∙ sym e, h.1 ∙ sym e))
    ]

    start_clock-kept :
        (c : Config)
        → ((store_of (start_clock c s)).ledger.rows ≡ s.ledger.rows)
          × ((store_of (start_clock c s)).scope ≡ s.scope)
    start_clock-kept c = (rows-observe_clock c.now _ ∙ ground arith, refl)

  rows_hold :
      (c : Config) (s s' : Store R)
      → 0 < length s.ledger.rows
      → Held c s s'
      → 0 < length s'.ledger.rows
  rows_hold c s s' holds h = omega (arith, holds, ap length h.0)

  trans-Held : (c : Config) (s s1 s2 : Store R) → Held c s s1 → Held c s1 s2 → Held c s s2
  trans-Held c s s1 s2 (r, inl e) (r', inl e') = (r' ∙ r, inl (e' ∙ e))
  trans-Held c s s1 s2 (r, inl e) (r', inr (n, e', d)) = (r' ∙ r, inr (sym e ∙ n, e', d))
  trans-Held c s s1 s2 (r, inr (n, e, d)) (r', inl e') = (r' ∙ r, inr (n, e' ∙ e, d))
  trans-Held c s s1 s2 (r, inr (n, e, d)) (r', inr (n', e', d')) = (r' ∙ r, inr (n, e', d))

module _ {R O : Type 0} (a : Adapter R O) (c : Config) (file : Legacy R) (s : Store R)
    (holds : 0 < length s.ledger.rows) where
  to_Held : (s1 s2 : Store R) → s2 ≡ s1 → Held c s s1 → Held c s s2
  to_Held s1 s2 e h = subst (Held c s) (sym e) h

  validate_all-kept : (s3 : Store R) → store_of (validate_all a s3) ≡ s3
  validate_all-kept s3 = ground arith

  -- A step of `open_store` on a store that holds what `s` held.
  validated-Held :
      (s3 : Store R)
      → Held c s s3
      → Held c s (store_of (and_then (validate_all a s3) (start_clock c)))
  validated-Held s3 h =
      and_then-keeps (Held c s) (validate_all a s3) (start_clock c)
        (to_Held s3 _ (validate_all-kept s3) h)
        (λ s4 h4.
          let (r, e) = start_clock-kept s4 (rows_hold c s s4 holds h4) c in
          trans-Held c s s4 (store_of (start_clock c s4)) h4 (r, inl e))

  bound-Held :
      (s2 : Store R)
      → Held c s s2
      → Held c s (
          store_of
            (and_then (bind_scope c s2) (λ s3. and_then (validate_all a s3) (start_clock c))))
  unfolding bind_scope
  bound-Held s2 h =
      and_then-keeps (Held c s) (bind_scope c s2)
        (λ s3. and_then (validate_all a s3) (start_clock c))
        (trans-Held c s s2 (store_of (bind_scope c s2)) h
          (bind_unbound-Held s2 (rows_hold c s s2 holds h) c c.scope s2.scope refl refl))
        validated-Held

  imported-Held :
      (s1 : Store R)
      → Held c s s1
      → Held c s (
          store_of (
            and_then (import_legacy a file s1) (λ s2.
              and_then (bind_scope c s2) (λ s3. and_then (validate_all a s3) (start_clock c)))))
  imported-Held s1 h =
      and_then-keeps (Held c s) (import_legacy a file s1) _
        (to_Held s1 _ (import_legacy-kept s1 (rows_hold c s s1 holds h) a file) h) bound-Held

  -- A start on a ledger that holds rows, with any configuration and any older file, whether it is refused or
  -- not: the rows are those of before, and the place that the ledger is bound to is that of before, or it
  -- was bound to none, and now is to the configured one, which the operator has named for its rows.
  pub open_store-Held : Held c s (store_of (open_store a c file s))
  unfolding open_store refuse_foreign_scope
  open_store-Held =
      let s0 = seed_rev_seq s in
      let (r, e) = seed_rev_seq-kept s holds in
      let h : Held c s s0 = (r, inl e) in
      and_then-keeps (Held c s) (refuse_foreign_scope c file s0) _
        (to_Held s0 _
          (refuse_other-kept s0 (rows_hold c s s0 holds h) s0.scope c.scope c.allow_foreign_scope
            file)
          h)
        imported-Held
