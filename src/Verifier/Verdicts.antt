-- ===== src/Verifier/Verdicts.antt =====
-- One membership check of core/verifier.js from its first await to its verdict.
use dash_mno_verify.Prelude.{
  ◌≡◌, refl, List, [], ◌∷◌, Bool, true, false, not, ◌&&◌, String, Option, some, none, inl, inr,
  is_some, pair_eq, string_eq, ◌==◌, Option-cases, Bool-cases, if◌then◌else◌,
}
use dash_mno_verify.Verifier.{
  Phase, Verdict, granted, regranted, refused, Outside, advance, period_reason, reason_after_spend,
}
use dash_mno_verify.Stores.Nullifiers
use dash_mno_verify.Stores.Nullifiers.{Tag, Claims, claimed_by}

-- The check's steps alone, one for each answer from outside.
unfoldable pub run_alone : Tag → String → List Outside → Claims → Phase → Phase × Claims
run_alone tag account [] claims phase = (phase, claims)
run_alone tag account (o ∷ os) claims phase =
    let (phase', claims') = advance tag account o claims phase in
    run_alone tag account os claims' phase'

-- The verdict of a check during which nothing outside changes, from the claim on the tag.
unfoldable pub plain_verdict : String → Outside → Option String → Verdict
unfolding period_reason
plain_verdict account o claimed =
    let accepted : Verdict → Verdict = λ verdict.
      if o.proof_ok
      then elim (period_reason o.verdict) [ none ↦ verdict | some reason ↦ refused reason ]
      else refused "invalid-proof" in
    elim claimed [
      | none ↦ accepted granted
      | some holder ↦ if holder == account then accepted regranted else refused "already-used"
    ]

-- The claims after it: the tag is added where the check is accepted, and `add` keeps a spent tag.
unfoldable pub plain_claims : Tag → String → Outside → Claims → Claims
unfolding period_reason
plain_claims tag account o claims =
    if o.proof_ok && not (is_some (period_reason o.verdict))
    then (Nullifiers.add tag account claims).1
    else claims

abbrev pub seven : Outside → List Outside
seven o = o ∷ o ∷ o ∷ o ∷ o ∷ o ∷ o ∷ []

module _ (tag : Tag) (account : String) (claims : Claims) where
  abbrev RunsPlainly : Outside → Option String → Type 0
  RunsPlainly o claimed =
      run_alone tag account (seven o) claims Phase.asking
      ≡ (Phase.done (plain_verdict account o claimed), plain_claims tag account o claims)

  RunsPlainly-free :
      (proof_ok : Bool) (verdict : Option String)
      → claimed_by tag claims ≡ none
      → RunsPlainly (record { proof_ok = proof_ok; verdict = verdict }) none
  unfolding run_alone plain_verdict plain_claims advance Nullifiers.has Nullifiers.claimed_by
      Nullifiers.add period_reason reason_after_spend
  RunsPlainly-free false verdict e = rw e refl
  RunsPlainly-free true (some reason) e = rw e refl
  RunsPlainly-free true none e = rw (e, e) refl

  RunsPlainly-other :
      (holder : String) (proof_ok : Bool) (verdict : Option String)
      → claimed_by tag claims ≡ some holder
      → (holder == account) ≡ false
      → RunsPlainly (record { proof_ok = proof_ok; verdict = verdict }) (some holder)
  unfolding run_alone plain_verdict plain_claims advance Nullifiers.has Nullifiers.claimed_by
      Nullifiers.add period_reason
  RunsPlainly-other holder false verdict e other = rw (e, e, other) refl
  RunsPlainly-other holder true (some reason) e other = rw (e, e, other) refl
  RunsPlainly-other holder true none e other = rw (e, e, other) refl

  RunsPlainly-same :
      (holder : String) (proof_ok : Bool) (verdict : Option String)
      → claimed_by tag claims ≡ some holder
      → (holder == account) ≡ true
      → RunsPlainly (record { proof_ok = proof_ok; verdict = verdict }) (some holder)
  unfolding run_alone plain_verdict plain_claims advance Nullifiers.has Nullifiers.claimed_by
      Nullifiers.add period_reason
  RunsPlainly-same holder false verdict e same = rw (e, e, same) refl
  RunsPlainly-same holder true (some reason) e same = rw (e, e, same) refl
  RunsPlainly-same holder true none e same = rw (e, e, same) refl

  -- A check alone on the store, which gets the same answer from outside at each await, has its verdict
  -- after seven steps: a tag that another account claimed is already used; else the proof is what
  -- decides first, and then the period; else the check is granted on a free tag, which it claims, and
  -- re-granted on its own account's tag, which changes no claim.
  pub run_alone-plain : (o : Outside) → RunsPlainly o (claimed_by tag claims)
  run_alone-plain o = elim (Option-cases (claimed_by tag claims)) [
    | inl e ↦ rw e (RunsPlainly-free o.proof_ok o.verdict e)
    | inr (holder, e) ↦ elim (Bool-cases (holder == account)) [
      | inl same ↦ rw e (RunsPlainly-same holder o.proof_ok o.verdict e same)
      | inr other ↦ rw e (RunsPlainly-other holder o.proof_ok o.verdict e other)
    ]
  ]
