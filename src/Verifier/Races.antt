-- ===== src/Verifier/Races.antt =====
-- Any number of membership checks of core/verifier.js at once, over one nullifier store, their
-- awaits interleaved in any order and with any answers from outside.
use dash_mno_verify.Prelude.{
  ℕ, zero, suc, ◌≡◌, refl, ap, List, [], ◌∷◌, Bool, true, false, String, Option, some, none, All,
  string_eq, get_elem?, eq_of_==, if◌then◌else◌,
}
use dash_mno_verify.Stores.Nullifiers
use dash_mno_verify.Stores.Nullifiers.{
  Tag, Claims, claimed_by, claimed_by-add, claimed_by-add_keeps,
}
use dash_mno_verify.Verifier.{
  Verdict, refused, Phase, asking, done, Outside, advance, same_account, refused_or, period_reason,
  reason_after_spend,
}

pub record Request : Type 0 where
  pub tag : Tag
  pub account : String
  pub phase : Phase

pub record World : Type 0 where
  pub claims : Claims
  pub requests : List Request

-- The request at the index takes its step.
unfoldable pub step_at : ℕ → Outside → Claims → List Request → Claims × List Request
step_at i o claims [] = (claims, [])
step_at zero o claims (r ∷ rest) =
    let (phase', claims') = advance r.tag r.account o claims r.phase in
    (claims', record r { phase = phase' } ∷ rest)
step_at (suc i) o claims (r ∷ rest) =
    let (claims', rest') = step_at i o claims rest in (claims', r ∷ rest')

pub data Step (w : World) : World → Type 0 where
  arrives :
      (tag : Tag) (account : String)
      → Step w (record w {
        requests = record { tag = tag; account = account; phase = asking } ∷ w.requests;
      })
  moves :
      (i : ℕ) (o : Outside)
      → Step w (
          let (claims', requests') = step_at i o w.claims w.requests in
          record { claims = claims'; requests = requests' })

pub data Reach (w : World) : World → Type 0 where
  unmoved : Reach w w
  next : {v u : World} → Reach w v → Step v u → Reach w u

-- The phases at which the tag is known to be the account's.
abbrev holds_claim : Phase → Bool
holds_claim Phase.proving_regrant = true
holds_claim Phase.checking_regrant = true
holds_claim (Phase.checking_spent false) = true
holds_claim Phase.checking_match = true
holds_claim (Phase.done Verdict.granted) = true
holds_claim (Phase.done Verdict.regranted) = true
holds_claim _ = false

abbrev pub IsBacked : Claims → Request → Type 0
IsBacked claims r = holds_claim r.phase ≡ true → claimed_by r.tag claims ≡ some r.account

abbrev Extends : Claims → Claims → Type 0
Extends claims claims' =
    (tag : Tag) (holder : String)
    → claimed_by tag claims ≡ some holder
    → claimed_by tag claims' ≡ some holder

same_account_lem :
    (account : String) (o : Option String) → same_account account o ≡ true → o ≡ some account
same_account_lem account none h = cc
same_account_lem account (some holder) h = ap some (eq_of_== holder account h)

advance-Extends :
    (tag : Tag) (account : String) (o : Outside) (claims : Claims) (phase : Phase)
    → Extends claims (advance tag account o claims phase).1
unfolding advance
advance-Extends tag account o claims Phase.spending t holder h =
    claimed_by-add_keeps t tag account holder claims h
advance-Extends tag account o claims _ t holder h = h

not_duplicate :
    (duplicate : Bool) → holds_claim (Phase.checking_spent duplicate) ≡ true → duplicate ≡ false
not_duplicate true h = cc
not_duplicate false h = refl

holds_claim-if :
    (test : Bool) (then_phase else_phase : Phase)
    → holds_claim else_phase ≡ false
    → holds_claim (if test then then_phase else else_phase) ≡ true
    → (test ≡ true) × (holds_claim then_phase ≡ true)
holds_claim-if true then_phase else_phase k h = (refl, h)
holds_claim-if false then_phase else_phase k h = cc

holds_claim-refused_or :
    (reason : Option String) (after : Phase)
    → holds_claim (refused_or reason after) ≡ true
    → holds_claim after ≡ true
holds_claim-refused_or none after h = h
holds_claim-refused_or (some reason) after h = cc

advance-IsBacked :
    (tag : Tag) (account : String) (o : Outside) (claims : Claims) (phase : Phase)
    → (holds_claim phase ≡ true → claimed_by tag claims ≡ some account)
    → holds_claim (advance tag account o claims phase).0 ≡ true
    → claimed_by tag (advance tag account o claims phase).1 ≡ some account
unfolding advance
advance-IsBacked tag account o claims Phase.asking k h =
    let bad =
      (holds_claim-if (Nullifiers.has tag claims) Phase.matching_claim Phase.proving refl h).1 in
    cc
advance-IsBacked tag account o claims Phase.matching_claim k h =
    let t =
      holds_claim-if (same_account account (claimed_by tag claims)) Phase.proving_regrant
        (Phase.done (refused "already-used")) refl h in
    same_account_lem account (claimed_by tag claims) t.0
advance-IsBacked tag account o claims Phase.proving_regrant k h = k refl
advance-IsBacked tag account o claims Phase.checking_regrant k h = k refl
advance-IsBacked tag account o claims Phase.proving k h =
    let t =
      holds_claim-if o.proof_ok Phase.checking (Phase.done (refused "invalid-proof")) refl h in
    cc
advance-IsBacked tag account o claims Phase.checking k h =
    let t = holds_claim-refused_or (period_reason o.verdict) Phase.spending h in cc
advance-IsBacked tag account o claims Phase.spending k h =
    let fresh = not_duplicate (Nullifiers.add tag account claims).0 h in
    rw fresh at (claimed_by-add tag account claims)
advance-IsBacked tag account o claims (Phase.checking_spent false) k h = k refl
advance-IsBacked tag account o claims (Phase.checking_spent true) k h =
    let t = holds_claim-refused_or (reason_after_spend o.verdict) Phase.matching_spent h in cc
advance-IsBacked tag account o claims Phase.matching_spent k h =
    let t =
      holds_claim-if (same_account account (claimed_by tag claims)) Phase.checking_match
        (Phase.done (refused "already-used")) refl h in
    same_account_lem account (claimed_by tag claims) t.0
advance-IsBacked tag account o claims Phase.checking_match k h = k refl
advance-IsBacked tag account o claims (Phase.done v) k h = k h

step_at-Extends :
    (i : ℕ) (o : Outside) (claims : Claims) (requests : List Request)
    → Extends claims (step_at i o claims requests).0
unfolding step_at
step_at-Extends i o claims [] tag holder h = h
step_at-Extends zero o claims (r ∷ rest) tag holder h =
    advance-Extends r.tag r.account o claims r.phase tag holder h
step_at-Extends (suc i) o claims (r ∷ rest) tag holder h =
    step_at-Extends i o claims rest tag holder h

All-IsBacked-Extends :
    (claims claims' : Claims) (requests : List Request)
    → Extends claims claims'
    → All (IsBacked claims) requests
    → All (IsBacked claims') requests
All-IsBacked-Extends claims claims' [] e h = h
All-IsBacked-Extends claims claims' (r ∷ rest) e (k, h) =
    (λ c. e r.tag r.account (k c), All-IsBacked-Extends claims claims' rest e h)

step_at-IsBacked :
    (i : ℕ) (o : Outside) (claims : Claims) (requests : List Request)
    → All (IsBacked claims) requests
    → All (IsBacked (step_at i o claims requests).0) (step_at i o claims requests).1
unfolding step_at
step_at-IsBacked i o claims [] h = h
step_at-IsBacked zero o claims (r ∷ rest) (k, h) = (
  advance-IsBacked r.tag r.account o claims r.phase k,
  All-IsBacked-Extends claims _ rest (advance-Extends r.tag r.account o claims r.phase) h,
)
step_at-IsBacked (suc i) o claims (r ∷ rest) (k, h) =
    (λ c. step_at-Extends i o claims rest r.tag r.account (k c), step_at-IsBacked i o claims rest h)

abbrev pub AllBacked : World → Type 0
AllBacked w = All (IsBacked w.claims) w.requests

Step-AllBacked : {w w' : World} → Step w w' → AllBacked w → AllBacked w'
Step-AllBacked (arrives tag account) h = (λ c. cc, h)
Step-AllBacked {w} (moves i o) h = step_at-IsBacked i o w.claims w.requests h

Reach-AllBacked : {w w' : World} → Reach w w' → AllBacked w → AllBacked w'
Reach-AllBacked unmoved h = h
Reach-AllBacked (next reached step) h = Step-AllBacked step (Reach-AllBacked reached h)

All-get_elem? :
    (claims : Claims) (requests : List Request) (i : ℕ) (r : Request)
    → All (IsBacked claims) requests
    → get_elem? requests i ≡ some r
    → IsBacked claims r
All-get_elem? claims [] i r h e = cc
All-get_elem? claims (r' ∷ rest) zero r (k, h) e = let same : r' ≡ r = cc in rw (← same) k
All-get_elem? claims (r' ∷ rest) (suc i) r (k, h) e = All-get_elem? claims rest i r h e

-- `ok` of the verdict.
abbrev pub admits : Verdict → Bool
admits Verdict.granted = true
admits Verdict.regranted = true
admits (Verdict.refused reason) = false

admits-holds_claim :
    (phase : Phase) (verdict : Verdict)
    → phase ≡ Phase.done verdict
    → admits verdict ≡ true
    → holds_claim phase ≡ true
admits-holds_claim phase Verdict.granted e h = rw e refl
admits-holds_claim phase Verdict.regranted e h = rw e refl
admits-holds_claim phase (Verdict.refused reason) e h = cc

-- However the awaits of any number of checks interleave, and whatever the proof checks and the period
-- checks answer, two checks that ended granted or re-granted for one tag were of one account, from a
-- store with any claims and no check under way.
pub one_account :
    (claims : Claims) (w : World) (i j : ℕ) (r s : Request) (v u : Verdict)
    → Reach (record { claims = claims; requests = [] }) w
    → get_elem? w.requests i ≡ some r
    → get_elem? w.requests j ≡ some s
    → r.phase ≡ done v
    → admits v ≡ true
    → s.phase ≡ done u
    → admits u ≡ true
    → r.tag ≡ s.tag
    → r.account ≡ s.account
one_account claims w i j r s v u reached ri sj rv av su au same =
    let all = Reach-AllBacked reached tt in
    let a = All-get_elem? w.claims w.requests i r all ri (admits-holds_claim r.phase v rv av) in
    let b = All-get_elem? w.claims w.requests j s all sj (admits-holds_claim s.phase u su au) in cc
