-- ===== src/Verifier.antt =====
-- core/verifier.js: the single-tier membership check. `verifyMembership` awaits at each call of the
-- store, of the proof check and of `stillCurrent`, so it is a state machine: a phase is an await, and
-- one step makes the awaited call and runs the code up to the next await.
pub mod Races
pub mod Verdicts
pub mod Registering
mod Tests
use dash_mno_verify.Prelude.{
  ℕ, zero, suc, List, [], ◌∷◌, Bool, true, false, not, ◌==◌, string_eq, nat_beq, all_of, length,
  String, Option, some, none, Result, ok, err, throw_if, ◌>>=◌, ◌>>◌, if◌then◌else◌,
}
use dash_mno_verify.Field.{is_canonical_field}
use dash_mno_verify.Stores.Nullifiers
use dash_mno_verify.Stores.Nullifiers.{Tag, Claims}

-- The public signals, in the order of `SIGNAL_INDEX`.
pub record Signals : Type 0 where
  pub nullifier : String
  pub root : String
  pub epoch : String
  pub context_hash : String
  pub signal_hash : String

-- `account` is none where it is not a string.
pub record Expected : Type 0 where
  pub account : Option String
  pub epoch : String
  pub context_hash : String
  pub signal_hash : String

pub data Verdict : Type 0 where
  granted regranted : Verdict
  refused : String → Verdict

unfoldable pub read_signals : List String → Option Signals
read_signals (nullifier ∷ root ∷ epoch ∷ context_hash ∷ signal_hash ∷ []) = some (record {
  nullifier = nullifier;
  root = root;
  epoch = epoch;
  context_hash = context_hash;
  signal_hash = signal_hash;
})
read_signals other = none

-- `signalsAreCanonical`, then `readSignals`.
unfoldable pub canonical_signals : List String → Result String Signals
unfolding read_signals
canonical_signals signals =
    if all_of is_canonical_field signals
    then (elim (read_signals signals) [ none ↦ err "non-canonical-signal" | some s ↦ ok s ])
    else err "non-canonical-signal"

abbrev pub has_account : Option String → Result String String
has_account none = err "missing-account"
has_account (some account) = if account == "" then err "missing-account" else ok account

-- The checks before the first await: the signals and the account of a request that passes them.
unfoldable pub check_policy :
    (String → Bool) → List String → Expected → Result String (Signals × String)
unfolding canonical_signals
check_policy is_recent signals expected = do
  s ← canonical_signals signals
  account ← has_account expected.account
  throw_if (not (is_recent s.root)) "stale-or-unknown-root"
  throw_if (not (s.epoch == expected.epoch)) "wrong-epoch"
  throw_if (not (s.context_hash == expected.context_hash)) "wrong-context"
  throw_if (not (s.signal_hash == expected.signal_hash)) "wrong-signal"
  ok (s, account)

abbrev pub tag_of : Signals → Tag
tag_of s = (s.epoch, (s.context_hash, s.nullifier))

-- The call that is awaited.
pub data Phase : Type 0 where
  -- `nullifiers.has`
  asking : Phase
  -- the tag is spent: `nullifiers.get`, the proof check, `stillCurrent`
  matching_claim proving_regrant checking_regrant : Phase
  -- the tag is free: the proof check, `stillCurrent`, `nullifiers.add`
  proving checking spending : Phase
  -- after the add, with its duplicate flag: `stillCurrent`; then `nullifiers.get`, `stillCurrent`
  checking_spent : Bool → Phase
  matching_spent checking_match : Phase
  done : Verdict → Phase

-- What the step's call outside the store answers: `checkProof`, which turns a throw into false, and
-- `stillCurrent`, none for null.
pub record Outside : Type 0 where
  pub proof_ok : Bool
  pub verdict : Option String

-- `periodStillCurrent()`
unfoldable pub period_reason : Option String → Option String
period_reason none = none
period_reason (some reason) = some (if reason == "" then "period-changed" else reason)

-- After the spend a root that went stale is no longer a reason.
unfoldable pub reason_after_spend : Option String → Option String
unfolding period_reason
reason_after_spend verdict = elim (period_reason verdict) [
  | none ↦ none
  | some reason ↦ if reason == "stale-or-unknown-root" then none else some reason
]

abbrev pub refused_or : Option String → Phase → Phase
refused_or none next = next
refused_or (some reason) next = done (refused reason)

-- `claimedBySameAccount()`
abbrev pub same_account : String → Option String → Bool
same_account account none = false
same_account account (some holder) = holder == account

unfoldable pub advance : Tag → String → Outside → Claims → Phase → Phase × Claims
unfolding period_reason reason_after_spend
advance tag account o claims asking =
    (if Nullifiers.has tag claims then matching_claim else proving, claims)
advance tag account o claims matching_claim = (
  if same_account account (Nullifiers.claimed_by tag claims)
      then proving_regrant
      else done (refused "already-used"),
  claims,
)
advance tag account o claims proving_regrant =
    (if o.proof_ok then checking_regrant else done (refused "invalid-proof"), claims)
advance tag account o claims checking_regrant =
    (refused_or (period_reason o.verdict) (done regranted), claims)
advance tag account o claims proving =
    (if o.proof_ok then checking else done (refused "invalid-proof"), claims)
advance tag account o claims checking = (refused_or (period_reason o.verdict) spending, claims)
advance tag account o claims spending =
    let (duplicate, claims') = Nullifiers.add tag account claims in
    (checking_spent duplicate, claims')
advance tag account o claims (checking_spent duplicate) = (
  refused_or (reason_after_spend o.verdict) (if duplicate then matching_spent else done granted),
  claims,
)
advance tag account o claims matching_spent = (
  if same_account account (Nullifiers.claimed_by tag claims)
      then checking_match
      else done (refused "already-used"),
  claims,
)
advance tag account o claims checking_match =
    (refused_or (reason_after_spend o.verdict) (done regranted), claims)
advance tag account o claims (done verdict) = (done verdict, claims)
