-- ===== src/Verifier/Registering/Retry.antt =====
-- A retry of a durable registration in core/verifier.js: the case that `recover` is for.
use dash_mno_verify.Prelude.{
  ℕ, ◌≡◌, refl, List, [], ◌∷◌, true, String, ok, if◌then◌else◌, Bool-cases, inl, inr,
}
use dash_mno_verify.Field.{is_canonical_field}
use dash_mno_verify.Merkle.Hash.{Poseidon, element}
use dash_mno_verify.Registration
use dash_mno_verify.Registration.{Backend, bucket_of, key_of, records_of}
use dash_mno_verify.Season.State.{SeasonMembers, is_season, members}
use dash_mno_verify.Season.Trees.{recover_member, commitments_of}
use dash_mno_verify.Season.Synced.{IsSynced}
use dash_mno_verify.Season.Reconcile.{reconcile-IsSynced}
use dash_mno_verify.Season.Ensure.{is_season-eq, recover_member-IsSynced}
use dash_mno_verify.Season.History.{Event, run_events, run_events-IsSynced}
use dash_mno_verify.Verifier.Registering.{
  RegistrationClaims, Terms, Answers, Phase, check_terms, request_of, begin, recovered_phase,
  advance, run, already,
}

module _ {F : Type 0} (p : Poseidon F)
    (reads : (v : String) → is_canonical_field v ≡ true → (x : F) × (element p v ≡ ok x))
    (t : Terms) (c : RegistrationClaims) where
  recovered-done :
      {s : SeasonMembers F} {b : Backend} (now : ℕ)
      → IsSynced p s b
      → let (r, s') = recover_member p now t.season c.context_hash b s in
        recovered_phase (r, s') ≡ (Phase.done already, s')
  unfolding recover_member
  recovered-done {s} {b} now h = elim (Bool-cases (is_season t.season s.current)) [
    | inr other ↦ rw other refl
    | inl same ↦
        let (done, m, e, h', all, kept) =
          reconcile-IsSynced p now t.season c.context_hash h
            (is_season-eq p t.season s.current same) in
        rw (same, e) refl
  ]

  -- A check of a registration that is already durable is answered that it is, two steps on, whatever
  -- the anchor's age and the proof are, and whatever others do between the lookup and the recovery; if
  -- its season is still current then, its context lists every registration of the bucket, in order.
  pub retry-recovers :
      (spell : ℕ → String) (a a' : Answers) (others : List Event) (s : SeasonMembers F)
      (b : Backend)
      → IsSynced p s b
      → check_terms spell t c ≡ ok tt
      → t.has_recover ≡ true
      → Registration.has (key_of (request_of t c)) b ≡ true
      → let (s1, b1) = run_events p others (s, b) in
        let (phase, s', b') = run p t c (([], a) ∷ (others, a') ∷ []) (begin spell t c) (s, b) in
        (phase ≡ Phase.done already)
        × (if is_season t.season s1.current
            then members c.context_hash s'
              ≡ commitments_of (records_of (bucket_of (request_of t c)) b')
            else s' ≡ s1)
  unfolding run begin advance run_events
  retry-recovers spell a a' others s b h allowed recovers there =
      let (s1, b1) = run_events p others (s, b) in
      let h1 = run_events-IsSynced p reads others (s, b) h in
      rw (allowed, there, recovers, recovered-done a'.now h1)
        (refl, (recover_member-IsSynced p a'.now t.season c.context_hash h1).1)
