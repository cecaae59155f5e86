-- ===== src/Verifier/Registering.antt =====
-- core/verifier.js: the two-tier registration check, `verifyRegistrationCore`, as a state machine over
-- its awaits: one step makes the awaited call and runs the code up to the next await. `recover` and
-- `commit` are the season's, each one turn of its queue; between the steps other tasks run.
pub mod Decoded
pub mod Earned
pub mod Retry
pub mod Journal
mod Tests
use dash_mno_verify.Prelude.{
  ℕ, List, [], ◌∷◌, Bool, true, false, not, ◌&&◌, ◌==◌, string_eq, String, Option, some, none,
  Result, ok, err, throw_if, ◌>>=◌, ◌>>◌, if◌then◌else◌,
}
use dash_mno_verify.Merkle.Hash.{Poseidon}
use dash_mno_verify.Registration
use dash_mno_verify.Registration.{
  Request, Key, Backend, key_of, or_default, is_valid_engine_statement,
}
use dash_mno_verify.Season.State.{SeasonMembers, SeasonError}
use dash_mno_verify.Season.Trees.{Recovered, recover_member}
use dash_mno_verify.Season.Commit.{Fate, Commit, commit}
use dash_mno_verify.Season.History.{Event, run_events}

-- What either engine's decoder makes of a proof.
pub record RegistrationClaims : Type 0 where
  pub commitment : String
  pub reg_nullifier : String
  pub root : String
  pub season : String
  pub context_hash : String

-- `expected`, and whether the caller supplies `recover`. A value that is not a string is none.
pub record Terms : Type 0 where
  pub engine : Option String
  pub statement : Option String
  pub season : ℕ
  pub context_hash : String
  pub has_recover : Bool

-- A call of the caller's: it throws, or answers, true only for the value true.
pub data Asked : Type 0 where
  throws : Asked
  says : Bool → Asked

-- What a step's calls outside the season answer: `rootStore.isRecent`, `rootEligible` (none where there
-- is none), the proof check, and the clock, the live season and the durable write of a commit.
pub record Answers : Type 0 where
  pub recent : Asked
  pub rule : Option Asked
  pub proof_ok : Bool
  pub now : ℕ
  pub live : Option ℕ
  pub regressed : Bool
  pub fate : Fate

pub data Outcome : Type 0 where
  refused : String → Outcome
  answered : Commit → Outcome
  threw : SeasonError → Outcome

-- The call that is awaited.
pub data Phase : Type 0 where
  -- `registrationStore.has`, before the anchor rule and again after it failed on a proven request
  looking_up looking_again : Phase
  -- `recover`; the proof check; `commit`
  recovering proving committing : Phase
  done : Outcome → Phase

-- `rootOk()`
unfoldable pub root_ok : Answers → Bool
root_ok a = elim a.recent [
  | throws ↦ false
  | says false ↦ false
  | says true ↦ elim a.rule [ none ↦ true | some throws ↦ false | some (says b) ↦ b ]
]

-- The checks before the first await. `spell` is `String` of a number.
unfoldable pub check_terms : (ℕ → String) → Terms → RegistrationClaims → Result String (Unit {0})
check_terms spell t c = do
  throw_if (not (is_valid_engine_statement (or_default "" t.engine) (or_default "" t.statement)))
      "invalid-engine-statement"
  throw_if (not (c.season == spell t.season)) "wrong-season"
  throw_if (not (c.context_hash == t.context_hash)) "wrong-context"
  ok tt

-- What `commit` is given. Its season is the expected one, which the claimed one spells.
abbrev pub request_of : Terms → RegistrationClaims → Request
request_of t c = record {
  season = t.season;
  context_hash = c.context_hash;
  reg_nullifier = c.reg_nullifier;
  commitment = c.commitment;
  engine = t.engine;
  statement = t.statement;
}

abbrev pub first_phase : Result String (Unit {0}) → Phase
first_phase (err reason) = done (refused reason)
first_phase (ok u) = looking_up

unfoldable pub begin : (ℕ → String) → Terms → RegistrationClaims → Phase
begin spell t c = first_phase (check_terms spell t c)

abbrev pub already : Outcome
already = refused "already-registered"

abbrev pub stale_anchor : Outcome
stale_anchor = refused "stale-or-unknown-root"

-- A durable registration is recovered and no more is asked of it.
abbrev pub if_durable : Bool → Bool → Phase → Phase
if_durable has_recover true other = if has_recover then recovering else done already
if_durable has_recover false other = other

abbrev pub recovered_phase :
    {F : Type 0} → Result SeasonError Recovered × SeasonMembers F → Phase × SeasonMembers F
recovered_phase (err e, s) = (done (threw e), s)
recovered_phase (ok r, s) = (done already, s)

abbrev pub committed_phase :
    {F : Type 0}
    → Result SeasonError Commit × SeasonMembers F × Backend
    → Phase × SeasonMembers F × Backend
committed_phase (err e, s, b) = (done (threw e), s, b)
committed_phase (ok answer, s, b) = (done (answered answer), s, b)

module _ {F : Type 0} (p : Poseidon F) (t : Terms) (c : RegistrationClaims) where
  unfoldable pub advance :
      Answers → SeasonMembers F × Backend → Phase → Phase × SeasonMembers F × Backend
  advance a (s, b) looking_up = (
    if_durable t.has_recover (Registration.has (key_of (request_of t c)) b)
        (if root_ok a then proving else done stale_anchor),
    s,
    b,
  )
  advance a (s, b) recovering =
      let (phase, s') = recovered_phase (recover_member p a.now t.season c.context_hash b s) in
      (phase, s', b)
  advance a (s, b) proving = (
    if a.proof_ok
        then (if root_ok a then committing else looking_again)
        else done (refused "invalid-proof"),
    s,
    b,
  )
  advance a (s, b) looking_again = (
    if_durable t.has_recover (Registration.has (key_of (request_of t c)) b) (done stale_anchor),
    s,
    b,
  )
  advance a (s, b) committing =
      committed_phase (commit p a.now a.live a.regressed a.fate (request_of t c) s b)
  advance a (s, b) (done outcome) = (done outcome, s, b)

  -- The check's steps, each after what other tasks did to the season and its store.
  unfoldable pub run :
      List (List Event × Answers)
      → Phase
      → SeasonMembers F × Backend
      → Phase × SeasonMembers F × Backend
  run [] phase (s, b) = (phase, s, b)
  run ((others, a) ∷ rest) phase w =
      let (phase', s', b') = advance a (run_events p others w) phase in run rest phase' (s', b')
