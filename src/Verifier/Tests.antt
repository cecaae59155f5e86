-- ===== src/Verifier/Tests.antt =====
-- The membership check of core/verifier.js at concrete requests.
use dash_mno_verify.Field.{is_canonical_field}
use dash_mno_verify.Prelude.{
  ◌==◌, string_eq, ok, ◌≡◌, refl, List, [], ◌∷◌, true, none, string_eq, String, some, Bool,
}
use dash_mno_verify.Prelude.JsMap
use dash_mno_verify.Stores.Nullifiers
use dash_mno_verify.Stores.Nullifiers.{Tag, Claims, claimed_by}
use dash_mno_verify.Verifier.{
  Signals, Expected, check_policy, canonical_signals, read_signals, Phase, Verdict, granted,
  regranted, Outside, advance, period_reason, reason_after_spend,
}
use dash_mno_verify.Verifier.Races.{
  Request, World, arrives, moves, Reach, unmoved, next, step_at, one_account,
}
use dash_mno_verify.Verifier.Verdicts.{run_alone, run_alone-plain, seven}

abbrev tag : Tag
tag = ("9", ("42", "1001"))

-- The proof passes and the period holds.
abbrev fine : Outside
fine = record { proof_ok = true; verdict = none }

abbrev start : World
start = record { claims = []; requests = [] }

run_alone-plain_example :
    run_alone tag "alice" (seven fine) [] Phase.asking ≡ (Phase.done granted, (tag, "alice") ∷ [])
unfolding dash_mno_verify.Verifier.Verdicts.plain_verdict
    dash_mno_verify.Verifier.Verdicts.plain_claims period_reason Nullifiers.claimed_by
    Nullifiers.add JsMap.get JsMap.put
run_alone-plain_example = run_alone-plain tag "alice" [] fine

abbrev first : Request
first = record { tag = tag; account = "alice"; phase = Phase.done granted }

abbrev second : Request
second = record { tag = tag; account = "alice"; phase = Phase.done regranted }

abbrev end : World
end = record { claims = (tag, "alice") ∷ []; requests = second ∷ first ∷ [] }

abbrev granted_once : World
granted_once = record { claims = (tag, "alice") ∷ []; requests = first ∷ [] }

first_ends : Reach start granted_once
unfolding step_at advance period_reason reason_after_spend Nullifiers.has Nullifiers.add JsMap.get
    JsMap.put
first_ends =
    next
      (next
        (next (next (next (next unmoved (arrives tag "alice")) (moves 0 fine)) (moves 0 fine))
          (moves 0 fine))
        (moves 0 fine))
      (moves 0 fine)

-- The first check is granted, and the second, of the same account, is re-granted.
both_end : Reach start end
unfolding step_at advance period_reason Nullifiers.has Nullifiers.claimed_by JsMap.get
both_end =
    next
      (next (next (next (next first_ends (arrives tag "alice")) (moves 0 fine)) (moves 0 fine))
        (moves 0 fine))
      (moves 0 fine)

one_account_example : second.account ≡ first.account
one_account_example =
    one_account [] end 0 1 second first regranted granted both_end refl refl refl refl refl refl
      refl

abbrev alice : String
alice = "alice"

abbrev is_known : String → Bool
is_known root = root == "77"

abbrev signals : List String
signals = "1001" ∷ "77" ∷ "9" ∷ "42" ∷ "5" ∷ []

abbrev expected : Expected
expected = record { account = some "alice"; epoch = "9"; context_hash = "42"; signal_hash = "5" }

abbrev read : Signals
read = record {
  nullifier = "1001";
  root = "77";
  epoch = "9";
  context_hash = "42";
  signal_hash = "5";
}

accepted : check_policy is_known signals expected ≡ ok (read, alice)
unfolding check_policy canonical_signals is_canonical_field read_signals
accepted = refl
