-- ===== src/Verifier/Registering/Earned.antt =====
-- What the registration check of core/verifier.js has done where it commits, and what a retry gets,
-- whatever other tasks do in between.
use dash_mno_verify.Prelude.{
  get_elem?-at_end, ℕ, ◌≡◌, refl, subst, List, [], ◌∷◌, any_of, get_elem?, Bool, true, false, ◌&&◌,
  ◌||◌, String, some, Result, ok, err, arith, if◌then◌else◌, Bool-cases, inl, inr,
}
use dash_mno_verify.Field.{is_canonical_field}
use dash_mno_verify.Merkle.Hash.{Poseidon, element}
use dash_mno_verify.Registration
use dash_mno_verify.Registration.{Backend, Registration, bucket_of, key_of, records_of}
use dash_mno_verify.Season.State.{SeasonMembers, SeasonError}
use dash_mno_verify.Season.Trees.{Recovered, recover_member}
use dash_mno_verify.Season.Commit.{Commit, committed, commit}
use dash_mno_verify.Season.Synced.{IsSynced}
use dash_mno_verify.Season.Ensure.{recover_member-IsSynced}
use dash_mno_verify.Season.Publish.{IsSound}
use dash_mno_verify.Season.History.{Event, run_events, run_events-IsSynced, commit-IsSound}
use dash_mno_verify.Season.Kept.{Keeps, run_events-Keeps}
use dash_mno_verify.Verifier.Registering.{
  RegistrationClaims, Terms, Answers, Outcome, Phase, proving, root_ok, check_terms, request_of,
  begin, if_durable, recovered_phase, committed_phase, advance, run, stale_anchor, first_phase,
  answered,
}

-- An answer to the proof check that leads to a commit.
abbrev pub proves : Answers → Bool
proves a = a.proof_ok && root_ok a

-- An answer that leads to the proof, and after it one that leads to a commit, of answers the last first.
unfoldable pub checked_twice : List Answers → Bool
checked_twice [] = false
checked_twice (a ∷ earlier) =
    let rest = checked_twice earlier in rest || (proves a && any_of root_ok earlier)

-- The answers that were given, the last one first, before those of `seen`.
unfoldable pub seen_after : List (List Event × Answers) → List Answers → List Answers
seen_after [] seen = seen
seen_after ((others, a) ∷ rest) seen = seen_after rest (a ∷ seen)

abbrev pub is_ok {ℓ} : {A E : Type ℓ} → Result E A → Bool
is_ok (ok a) = true
is_ok (err e) = false

module _ {F : Type 0} (p : Poseidon F)
    (reads : (v : String) → is_canonical_field v ≡ true → (x : F) × (element p v ≡ ok x))
    (t : Terms) (c : RegistrationClaims) where
  -- A committed registration is at its place in the store.
  abbrev pub IsWritten : Commit → Backend → Type 0
  IsWritten (committed index root size) b =
      get_elem? (records_of (bucket_of (request_of t c)) b) index
      ≡ some (record { request = request_of t c; index = index })
  IsWritten _ b = Unit {0}

  IsWritten-kept :
      (answer : Commit) (b b' : Backend) → Keeps b b' → IsWritten answer b → IsWritten answer b'
  IsWritten-kept (committed index root size) b b' keeps h =
      keeps (bucket_of (request_of t c)) index (record { request = request_of t c; index = index })
        h
  IsWritten-kept Commit.season_rolled_retry b b' keeps h = tt
  IsWritten-kept Commit.already_registered b b' keeps h = tt
  IsWritten-kept Commit.clock_regressed b b' keeps h = tt
  IsWritten-kept Commit.invalid_declaration b b' keeps h = tt
  IsWritten-kept Commit.stale_root b b' keeps h = tt
  IsWritten-kept Commit.index_tree_mismatch b b' keeps h = tt
  IsWritten-kept (Commit.members_tree_full n) b b' keeps h = tt
  IsWritten-kept (Commit.statement_mismatch d) b b' keeps h = tt

  still :
      (f : Answers → Bool) (a : Answers) (seen : List Answers)
      → any_of f seen ≡ true
      → any_of f (a ∷ seen) ≡ true
  still f a seen h = ground arith

  first :
      (f : Answers → Bool) (a : Answers) (seen : List Answers)
      → f a ≡ true
      → any_of f (a ∷ seen) ≡ true
  first f a seen h = ground arith

  still_twice :
      (a : Answers) (seen : List Answers)
      → checked_twice seen ≡ true
      → checked_twice (a ∷ seen) ≡ true
  unfolding checked_twice
  still_twice a seen h = ground arith

  second :
      (a : Answers) (seen : List Answers)
      → proves a ≡ true
      → any_of root_ok seen ≡ true
      → checked_twice (a ∷ seen) ≡ true
  unfolding checked_twice
  second a seen h k = ground arith

  -- `allowed` says whether the terms were checked.
  module _ (allowed : Bool) where
    -- What a phase shows, with the answers that were given so far.
    abbrev pub IsEarned : List Answers → Backend → Phase → Type 0
    IsEarned seen b Phase.proving = (allowed ≡ true) × (any_of root_ok seen ≡ true)
    IsEarned seen b Phase.committing =
        (allowed ≡ true) × (any_of root_ok seen ≡ true) × (checked_twice seen ≡ true)
    IsEarned seen b (Phase.done (answered answer)) =
        (allowed ≡ true)
        × (any_of root_ok seen ≡ true)
        × (checked_twice seen ≡ true)
        × IsWritten answer b
    IsEarned seen b (Phase.done _) = Unit {0}
    IsEarned seen b _ = allowed ≡ true

    if_durable-IsEarned :
        (seen : List Answers) (b : Backend) (has_recover there : Bool) (other : Phase)
        → allowed ≡ true
        → IsEarned seen b other
        → IsEarned seen b (if_durable has_recover there other)
    if_durable-IsEarned seen b true true other ok_terms h = ok_terms
    if_durable-IsEarned seen b false true other ok_terms h = tt
    if_durable-IsEarned seen b has_recover false other ok_terms h = h

    recovered-IsEarned :
        (seen : List Answers) (b : Backend) (res : Result SeasonError Recovered × SeasonMembers F)
        → IsSynced p res.1 b
        → let (phase, s') = recovered_phase res in IsSynced p s' b × IsEarned seen b phase
    recovered-IsEarned seen b (err e, s) h = (h, tt)
    recovered-IsEarned seen b (ok r, s) h = (h, tt)

    -- The answer of a commit from a phase that was earned.
    committed-IsEarned :
        (seen : List Answers) (b : Backend)
        (res : Result SeasonError Commit × SeasonMembers F × Backend)
        → IsSound p reads (request_of t c) b res
        → allowed ≡ true
        → any_of root_ok seen ≡ true
        → checked_twice seen ≡ true
        → let (phase, s', b') = committed_phase res in IsSynced p s' b' × IsEarned seen b' phase
    committed-IsEarned seen b (err e, s, b') h x y z = (h.0, tt)
    committed-IsEarned seen b (ok (committed index root size), s, b') h x y z = (
      h.0,
      (x, y, z, rw (h.1.0, h.1.1) (get_elem?-at_end (records_of (bucket_of (request_of t c)) b) _)),
    )
    committed-IsEarned seen b (ok Commit.season_rolled_retry, s, b') h x y z = (h.0, (x, y, z, tt))
    committed-IsEarned seen b (ok Commit.already_registered, s, b') h x y z = (h.0, (x, y, z, tt))
    committed-IsEarned seen b (ok Commit.clock_regressed, s, b') h x y z = (h.0, (x, y, z, tt))
    committed-IsEarned seen b (ok Commit.invalid_declaration, s, b') h x y z = (h.0, (x, y, z, tt))
    committed-IsEarned seen b (ok Commit.stale_root, s, b') h x y z = (h.0, (x, y, z, tt))
    committed-IsEarned seen b (ok Commit.index_tree_mismatch, s, b') h x y z = (h.0, (x, y, z, tt))
    committed-IsEarned seen b (ok (Commit.members_tree_full n), s, b') h x y z =
        (h.0, (x, y, z, tt))
    committed-IsEarned seen b (ok (Commit.statement_mismatch d), s, b') h x y z =
        (h.0, (x, y, z, tt))

    IsEarned-kept :
        (seen : List Answers) (phase : Phase) (b b' : Backend)
        → Keeps b b'
        → IsEarned seen b phase
        → IsEarned seen b' phase
    IsEarned-kept seen (Phase.done (answered answer)) b b' keeps (x, y, z, w) =
        (x, y, z, IsWritten-kept answer b b' keeps w)
    IsEarned-kept seen (Phase.done (Outcome.refused reason)) b b' keeps x = tt
    IsEarned-kept seen (Phase.done (Outcome.threw e)) b b' keeps x = tt
    IsEarned-kept seen Phase.looking_up b b' keeps x = x
    IsEarned-kept seen Phase.looking_again b b' keeps x = x
    IsEarned-kept seen Phase.recovering b b' keeps x = x
    IsEarned-kept seen Phase.proving b b' keeps x = x
    IsEarned-kept seen Phase.committing b b' keeps x = x

    proved-IsEarned :
        (seen : List Answers) (a : Answers) (b : Backend) (proven fresh : Bool)
        → a.proof_ok ≡ proven
        → root_ok a ≡ fresh
        → allowed ≡ true
        → any_of root_ok seen ≡ true
        → IsEarned (a ∷ seen) b (
            if proven
            then (if fresh then Phase.committing else Phase.looking_again)
            else Phase.done (Outcome.refused "invalid-proof"))
    proved-IsEarned seen a b false fresh e e' x y = tt
    proved-IsEarned seen a b true false e e' x y = x
    proved-IsEarned seen a b true true e e' x y =
        (x, still root_ok a seen y, second a seen (ground arith) y)

    advance-IsEarned :
        (seen : List Answers) (a : Answers) (s : SeasonMembers F) (b : Backend) (phase : Phase)
        → IsSynced p s b
        → IsEarned seen b phase
        → let (phase', s', b') = advance p t c a (s, b) phase in
          IsSynced p s' b' × IsEarned (a ∷ seen) b' phase'
    unfolding advance
    advance-IsEarned seen a s b Phase.looking_up h x = (
      h,
      if_durable-IsEarned (a ∷ seen) b t.has_recover (Registration.has (key_of (request_of t c)) b)
          (if root_ok a then proving else Phase.done stale_anchor) x
          (elim (Bool-cases (root_ok a)) [
            | inl fresh ↦ rw fresh (x, first root_ok a seen fresh)
            | inr old ↦ rw old tt
          ]),
    )
    advance-IsEarned seen a s b Phase.recovering h x =
        recovered-IsEarned (a ∷ seen) b (recover_member p a.now t.season c.context_hash b s)
          (recover_member-IsSynced p a.now t.season c.context_hash h).0
    advance-IsEarned seen a s b Phase.proving h (x, y) =
        (h, proved-IsEarned seen a b a.proof_ok (root_ok a) refl refl x y)
    advance-IsEarned seen a s b Phase.looking_again h x = (
      h,
      if_durable-IsEarned (a ∷ seen) b t.has_recover (Registration.has (key_of (request_of t c)) b)
          (Phase.done stale_anchor) x tt,
    )
    advance-IsEarned seen a s b Phase.committing h (x, y, z) =
        committed-IsEarned (a ∷ seen) b
          (commit p a.now a.live a.regressed a.fate (request_of t c) s b)
          (commit-IsSound p reads a.now a.live a.regressed a.fate (request_of t c) h) x
          (still root_ok a seen y) (still_twice a seen z)
    advance-IsEarned seen a s b (Phase.done (answered answer)) h (x, y, z, w) =
        (h, (x, still root_ok a seen y, still_twice a seen z, w))
    advance-IsEarned seen a s b (Phase.done (Outcome.refused reason)) h x = (h, tt)
    advance-IsEarned seen a s b (Phase.done (Outcome.threw e)) h x = (h, tt)

    -- The check's steps after others' keep what is earned.
    run-IsEarned :
        (met : List (List Event × Answers)) (seen : List Answers) (phase : Phase)
        (w : SeasonMembers F × Backend)
        → IsSynced p w.0 w.1
        → IsEarned seen w.1 phase
        → let (phase', s', b') = run p t c met phase w in
          IsSynced p s' b' × IsEarned (seen_after met seen) b' phase'
    unfolding run seen_after
    run-IsEarned [] seen phase w h x = (h, x)
    run-IsEarned ((others, a) ∷ rest) seen phase w h x =
        let h' = run_events-IsSynced p reads others w h in
        let (s1, b1) = run_events p others w in
        let x' = IsEarned-kept seen phase w.1 b1 (run_events-Keeps p others w) x in
        let (h2, x2) = advance-IsEarned seen a s1 b1 phase h' x' in
        let (phase', s', b') = advance p t c a (s1, b1) phase in
        run-IsEarned rest (a ∷ seen) phase' (s', b') h2 x2

  first_phase-IsEarned :
      (checked : Result String (Unit {0})) (b : Backend)
      → IsEarned (is_ok checked) [] b (first_phase checked)
  first_phase-IsEarned (err reason) b = tt
  first_phase-IsEarned (ok u) b = refl

  -- A registration check that answers a commit with an index, whatever other tasks do before each of
  -- its steps, passed the checks of its terms, was answered a live anchor at one step and, at a later
  -- one, a good proof and a live anchor again, and its record stands at that index of its bucket.
  pub run-earned :
      (spell : ℕ → String) (met : List (List Event × Answers)) (w : SeasonMembers F × Backend)
      (index size : ℕ) (root : String)
      → IsSynced p w.0 w.1
      → (run p t c met (begin spell t c) w).0 ≡ Phase.done (answered (committed index root size))
      → let (phase, s', b') = run p t c met (begin spell t c) w in
        (is_ok (check_terms spell t c) ≡ true)
        × (checked_twice (seen_after met []) ≡ true)
        × (get_elem? (records_of (bucket_of (request_of t c)) b') index
            ≡ some (record { request = request_of t c; index = index }))
  unfolding begin
  run-earned spell met w index size root h e =
      let checked = check_terms spell t c in
      let (phase, s', b') = run p t c met (first_phase checked) w in
      let (x, y, z, there) =
        subst (IsEarned (is_ok checked) (seen_after met []) b') e
          (run-IsEarned (is_ok checked) met [] (first_phase checked) w h
            (first_phase-IsEarned checked w.1)).1 in
      (x, z, there)
