-- ===== src/Grants/Bound.antt =====
-- The place that adapters/common/grant_ledger.js leaves a ledger bound to where it starts.
use dash_mno_verify.Prelude.{
  ℕ, Bool, true, false, not, ◌&&◌, ltb, String, string_eq, ◌==◌, eq_of_==, Option, none, some,
  if◌then◌else◌, length, ◌+◌, ◌≡◌, refl, sym, ap, ◌∙◌, ◌⊎◌, inl, inr, arith, subst,
}
use dash_mno_verify.Grants.Ledger.{Adapter, Ledger, Regression}
use dash_mno_verify.Grants.Scope.{
  absent, malformed, legacy, Store, Config, Legacy, Opened, refused, opened, and_then, seed_rev_seq,
  refuse_foreign, refuse_other, refuse_foreign_scope, bind_unbound, bind_scope, import_legacy,
  validate_all, start_clock, open_store, import_file, legacy, adopt_entries, raise_mark,
  adopt_regression, put_entries, takes_import, pending_legacy_count, all_valid,
}

-- The place of a store that was opened.
module _ {R : Type 0} where
  -- What a start leaves true where it returns.
  abbrev pub Returns : (Store R → Type 0) → Opened R → Type 0
  Returns P (refused s) = Unit
  Returns P (opened s) = P s

  returned : (P : Store R → Type 0) (o : Opened R) (s : Store R) → Returns P o → o ≡ opened s → P s
  returned P o s h e = subst (Returns P) e h

  and_then-Returns :
      (P Q : Store R → Type 0) (o : Opened R) (next : Store R → Opened R)
      → Returns P o
      → ((s : Store R) → P s → Returns Q (next s))
      → Returns Q (and_then o next)
  and_then-Returns P Q (refused s) next h k = h
  and_then-Returns P Q (opened s) next h k = k s h

  refused_or :
      (P : Store R → Type 0) (test : Bool) (s s' : Store R)
      → P s'
      → Returns P (if test then refused s else opened s')
  refused_or P true s s' h = tt
  refused_or P false s s' h = h

  -- Bound to the configured place, or to none.
  abbrev pub OwnOrNone : String → Store R → Type 0
  OwnOrNone scope s = (s.scope ≡ none) ⊎ (s.scope ≡ some scope)

  refuse_foreign-Own :
      (scope : String) (file : Legacy R) (s : Store R)
      → Returns (OwnOrNone scope) (refuse_foreign scope false file s)
  refuse_foreign-Own scope file s =
      refused_or (OwnOrNone scope) (ltb 0 (length s.ledger.rows + pending_legacy_count file s)) s
        (record s { scope = some scope }) (inr refl)

  refuse_other-Own :
      (bound : Option String) (scope : String) (file : Legacy R) (s : Store R)
      → s.scope ≡ bound
      → Returns (OwnOrNone scope) (refuse_other bound (some scope) false file s)
  refuse_other-Own none scope file s e = inl e
  refuse_other-Own (some bound) scope file s e = go (bound == scope) refl
    where
      go :
          (b : Bool)
          → (bound == scope) ≡ b
          → Returns (OwnOrNone scope) (if b then opened s else refuse_foreign scope false file s)
      go true t = inr (e ∙ ap some (eq_of_== bound scope t))
      go false t = refuse_foreign-Own scope file s

  abbrev pub BoundTo : String → Store R → Type 0
  BoundTo scope s = s.scope ≡ some scope

  bind_unbound-Own :
      (scope : String) (adopt bound : Option String) (s : Store R)
      → s.scope ≡ bound
      → OwnOrNone scope s
      → Returns (BoundTo scope) (bind_unbound (some scope) adopt bound s)
  bind_unbound-Own scope adopt (some b) s e (inl k) = ground (arith, e, k)
  bind_unbound-Own scope adopt (some b) s e (inr k) = k
  bind_unbound-Own scope none none s e k =
      refused_or (BoundTo scope) (ltb 0 (length s.ledger.rows)) s (record s { scope = some scope })
        refl
  bind_unbound-Own scope (some adopt) none s e k =
      refused_or (BoundTo scope) (ltb 0 (length s.ledger.rows) && not (adopt == scope)) s
        (record s { scope = some scope }) refl

  validate_all-Returns :
      {O : Type 0} (a : Adapter R O) (P : Store R → Type 0) (s : Store R)
      → P s
      → Returns P (validate_all a s)
  validate_all-Returns a P s h = go (all_valid a s.ledger.rows)
    where
      go : (b : Bool) → Returns P (if b then opened s else refused s)
      go true = h
      go false = tt

  module _ {O : Type 0} (a : Adapter R O) (P : Store R → Type 0) (s : Store R)
      (keeps : (l : Ledger R) (imported : Bool)
        → P (record s { ledger = l; imported = imported })) where
    adopt_entries-Returns :
        (mark : Option ℕ) (regression : Option Regression) (p : Option (Ledger R))
        → Returns P (adopt_entries a mark regression p s)
    adopt_entries-Returns mark regression none = tt
    adopt_entries-Returns mark regression (some l) =
        keeps (adopt_regression regression (raise_mark mark l)) true

    import_file-Returns : (file : Legacy R) → Returns P (import_file a file s)
    import_file-Returns absent = keeps s.ledger s.imported
    import_file-Returns malformed = tt
    import_file-Returns (legacy entries mark regression) =
        adopt_entries-Returns mark regression (put_entries a entries s.ledger)

    import_legacy-Returns : (file : Legacy R) → Returns P (import_legacy a file s)
    unfolding import_legacy
    import_legacy-Returns file = go (takes_import s)
      where
        go : (b : Bool) → Returns P (if b then import_file a file s else opened s)
        go true = import_file-Returns file
        go false = keeps s.ledger s.imported

-- A start that returns, of a process configured for a place and not the cleanup tool, leaves the ledger bound
-- to that place: whatever the ledger held or was bound to before, and whatever older file it took in.
pub open_store-scope :
    {R O : Type 0} (a : Adapter R O) (c : Config) (file : Legacy R) (s s' : Store R)
    (scope : String)
    → c.scope ≡ some scope
    → c.allow_foreign_scope ≡ false
    → open_store a c file s ≡ opened s'
    → s'.scope ≡ some scope
unfolding open_store refuse_foreign_scope bind_scope
open_store-scope a c file s s' scope configured own e =
    returned (BoundTo scope) (open_store a c file s) s'
      (and_then-Returns (OwnOrNone scope) (BoundTo scope)
        (refuse_foreign_scope c file (seed_rev_seq s)) _
        (subst
          (λ f.
            Returns (OwnOrNone scope)
              (refuse_other (seed_rev_seq s).scope c.scope f file (seed_rev_seq s)))
          (sym own)
          (subst
            (λ p.
              Returns (OwnOrNone scope)
                (refuse_other (seed_rev_seq s).scope p false file (seed_rev_seq s)))
            (sym configured) (refuse_other-Own _ scope file (seed_rev_seq s) refl)))
        (λ s1 h1.
          and_then-Returns (OwnOrNone scope) (BoundTo scope) (import_legacy a file s1) _
            (import_legacy-Returns a (OwnOrNone scope) s1 (λ l b. h1) file)
            (λ s2 h2.
              and_then-Returns (BoundTo scope) (BoundTo scope) (bind_scope c s2) _
                (subst (λ p. Returns (BoundTo scope) (bind_unbound p c.adopt_scope s2.scope s2))
                  (sym configured) (bind_unbound-Own scope c.adopt_scope s2.scope s2 refl h2))
                (λ s3 h3.
                  and_then-Returns (BoundTo scope) (BoundTo scope) (validate_all a s3)
                    (start_clock c) (validate_all-Returns a (BoundTo scope) s3 h3) (λ s4 h4. h4)))))
      e
