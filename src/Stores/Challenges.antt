-- ===== src/Stores/Challenges.antt =====
-- `ChallengeStore` of core/stores.js: the pending challenges by their one-time nonce, and the roots that
-- verifies in flight hold. `now` is what `Date.now()` answers at the call.
use dash_mno_verify.Prelude.{
  ℕ, ◌+◌, ◌-◌, ◌*◌, ◌≤◌, ◌<◌, ◌≡◌, ◌⊎◌, inl, inr, refl, ap, sym, ◌∙◌, [], Bool, true, false, not,
  ltb, leb, le→ltb_false, nat_beq, length, keep_if, length-keep_if-le, Option, some, none,
  Option-cases, Bool-cases, ==_self, string_eq, String, if◌then◌else◌, arith,
}
use dash_mno_verify.Prelude.JsMap
use dash_mno_verify.Prelude.JsMap.{JsMap, get-put, get-delete, length-put, length-delete-le}

-- A pending value; `account` stands for the fields that the store only carries.
pub record Challenge : Type 0 where
  pub account : String
  pub root : Option String
  pub expires : ℕ

pub record ChallengeStore : Type 0 where
  pub ttl : ℕ
  pub max_pending : ℕ
  pub pending : JsMap String Challenge
  pub held : JsMap String ℕ

unfoldable pub new : ℕ → ℕ → ChallengeStore
new ttl_seconds max_pending = record {
  ttl = ttl_seconds * 1000;
  max_pending = max_pending;
  pending = [];
  held = [];
}

unfoldable pub sweep : ℕ → ChallengeStore → ChallengeStore
sweep now s = record s { pending = keep_if (λ e. not (ltb e.1.expires now)) s.pending }

abbrev pub is_full : ChallengeStore → Bool
is_full s = leb s.max_pending (length s.pending)

-- Whether there is room for one more, with a sweep where there seems to be none.
unfoldable pub room : ℕ → ChallengeStore → Bool × ChallengeStore
unfolding sweep
room now s = if is_full s then (not (is_full (sweep now s)), sweep now s) else (true, s)

abbrev pub set_pending : String → Challenge → ChallengeStore → ChallengeStore
set_pending nonce value s = record s { pending = JsMap.put nonce value s.pending }

-- Sets the value where `room` found any.
abbrev pub set_if_free : String → Challenge → Bool × ChallengeStore → Bool × ChallengeStore
set_if_free nonce value (true, s) = (true, set_pending nonce value s)
set_if_free nonce value (false, s) = (false, s)

unfoldable pub put : ℕ → String → Challenge → ChallengeStore → Bool × ChallengeStore
put now nonce value s = set_if_free nonce (record value { expires = now + s.ttl }) (room now s)

-- What is pending under the nonce goes, and is the answer where it has not expired.
abbrev pub taken :
    ℕ → String → ChallengeStore → Option Challenge → Option Challenge × ChallengeStore
taken now nonce s none = (none, s)
taken now nonce s (some v) = (
  if ltb v.expires now then none else some v,
  record s { pending = JsMap.delete nonce s.pending },
)

unfoldable pub take : ℕ → String → ChallengeStore → Option Challenge × ChallengeStore
take now nonce s = taken now nonce s (JsMap.get nonce s.pending)

unfoldable pub restore : ℕ → String → Challenge → ChallengeStore → Bool × ChallengeStore
restore now nonce value s =
    if ltb value.expires now then (false, s) else set_if_free nonce value (room now s)

abbrev count_of : Option ℕ → ℕ → ℕ
count_of none default = default
count_of (some n) default = n

-- `hold(root)` on a root, and the first call of the function that it returns.
unfoldable pub hold : String → ChallengeStore → ChallengeStore
hold root s = record s { held = JsMap.put root (count_of (JsMap.get root s.held) 0 + 1) s.held }

unfoldable pub release : String → ChallengeStore → ChallengeStore
release root s =
    let n = count_of (JsMap.get root s.held) 1 - 1 in
    record s { held = if nat_beq n 0 then JsMap.delete root s.held else JsMap.put root n s.held }

-- No more are pending than the bound.
abbrev pub IsBounded : ChallengeStore → Type 0
IsBounded s = length s.pending ≤ s.max_pending

room-IsBounded :
    (now : ℕ) (s : ChallengeStore)
    → IsBounded s
    → IsBounded (room now s).1
      × (((room now s).0 ≡ false) ⊎ (length (room now s).1.pending < (room now s).1.max_pending))
unfolding room sweep
room-IsBounded now s h =
    ground
      (arith, length-keep_if-le (λ (e : String × Challenge). not (ltb e.1.expires now)) s.pending)

set_if_free-IsBounded :
    (nonce : String) (value : Challenge) (r : Bool × ChallengeStore)
    → IsBounded r.1
    → (r.0 ≡ false) ⊎ (length r.1.pending < r.1.max_pending)
    → IsBounded (set_if_free nonce value r).1
set_if_free-IsBounded nonce value (false, s) h free = h
set_if_free-IsBounded nonce value (true, s) h (inl full) = cc
set_if_free-IsBounded nonce value (true, s) h (inr free) =
    ground (arith, length-put nonce value s.pending)

-- A put and a restore, whether they find room or not, keep the number of pending challenges within
-- the bound.
pub put-IsBounded :
    (now : ℕ) (nonce : String) (value : Challenge) (s : ChallengeStore)
    → IsBounded s
    → IsBounded (put now nonce value s).1 × IsBounded (restore now nonce value s).1
unfolding put restore
put-IsBounded now nonce value s h =
    let (bounded, free) = room-IsBounded now s h in
    let set = λ (v : Challenge). set_if_free-IsBounded nonce v (room now s) bounded free in
    (
      set (record value { expires = now + s.ttl }),
      elim (Bool-cases (ltb value.expires now)) [
        | inl late ↦ rw late h
        | inr fresh ↦ rw fresh (set value)
      ],
    )

-- Whatever a take of a nonce answers, a take of it from the store that is left, at any time, answers
-- none.
pub take-once :
    (now later : ℕ) (nonce : String) (s : ChallengeStore)
    → (take later nonce (take now nonce s).1).0 ≡ none
unfolding take
take-once now later nonce s = elim (Option-cases (JsMap.get nonce s.pending)) [
  | inl e ↦ rw (e, e) refl
  | inr (v, e) ↦ rw e (
      ap (λ o. (taken later nonce (taken now nonce s (some v)).1 o).0)
        (get-delete nonce nonce s.pending
          ∙ ap (λ t. if t then none else JsMap.get nonce s.pending) (==_self nonce)))
]

get-set_if_free :
    (nonce : String) (value : Challenge) (r : Bool × ChallengeStore) (s' : ChallengeStore)
    → set_if_free nonce value r ≡ (true, s')
    → JsMap.get nonce s'.pending ≡ some value
get-set_if_free nonce value (false, s) s' h = cc
get-set_if_free nonce value (true, s) s' h =
    ap (λ x. JsMap.get nonce x.1.pending) (sym h)
    ∙ get-put nonce nonce value s.pending
    ∙ ap (λ t. if t then some value else JsMap.get nonce s.pending) (==_self nonce)

-- A challenge that was put is what a take of its nonce answers until its time to live is over.
pub take-put :
    (now later : ℕ) (nonce : String) (value : Challenge) (s s' : ChallengeStore)
    → put now nonce value s ≡ (true, s')
    → later ≤ now + s.ttl
    → (take later nonce s').0 ≡ some (record value { expires = now + s.ttl })
unfolding put take
take-put now later nonce value s s' h young =
    rw
      (
        get-set_if_free nonce (record value { expires = now + s.ttl }) (room now s) s' h,
        le→ltb_false (now + s.ttl) later young,
      )
      refl
