-- ===== src/Registration/Once.antt =====
-- What the registrations of core/registration_store.js are like after any requests: every index is a
-- place, a bucket has one declaration, and a nullifier registers once.
use dash_mno_verify.Prelude.{
  subst, ℕ, ◌≡◌, refl, sym, ◌∙◌, ap, ◌<◌, List, [], ◌∷◌, ◌++◌, true, false, ◌==◌, string_eq, nat_eq,
  pair_eq, length, get_elem?, some, none, arith, inl, inr, eq_of_==, ==_self, Bool-cases,
  Option-cases,
}
use dash_mno_verify.Prelude.JsMap
use dash_mno_verify.Registration.{
  Registration, Request, Bucket, Key, bucket_of, key_of, declaration_of, conflict_with, records_of,
  push, empty, is_seen, append, append_checked, append_all, declaration_for, is_valid, Backend,
  first_declaration,
}
use dash_mno_verify.Registration.Buckets.{
  get_elem?-snoc, get_elem?-lt, conflict_with-none, records_of-push, records_of-push_other,
}

-- A bucket's records, by their places.
pub record IsBucket (seen : List Key) (bucket : Bucket) (recs : List Registration) : Type 0 where
  pub placed : (i : ℕ) (r : Registration) → get_elem? recs i ≡ some r → r.index ≡ i
  pub belongs :
      (i : ℕ) (r : Registration) → get_elem? recs i ≡ some r → bucket_of r.request ≡ bucket
  pub counted :
      (i : ℕ) (r : Registration)
      → get_elem? recs i ≡ some r
      → is_seen (key_of r.request) seen ≡ true
  pub declared :
      (i : ℕ) (r first : Registration)
      → get_elem? recs 0 ≡ some first
      → get_elem? recs i ≡ some r
      → declaration_of r.request ≡ declaration_of first.request
  pub once :
      (i j : ℕ) (r s : Registration)
      → get_elem? recs i ≡ some r
      → get_elem? recs j ≡ some s
      → r.request.reg_nullifier ≡ s.request.reg_nullifier
      → i ≡ j

pub is_seen-head : (key : Key) (seen : List Key) → is_seen key (key ∷ seen) ≡ true
unfolding is_seen
is_seen-head key seen = rw (==_self key) refl

pub is_seen-tail :
    (key other : Key) (seen : List Key)
    → is_seen key seen ≡ true
    → is_seen key (other ∷ seen) ≡ true
unfolding is_seen
is_seen-tail key other seen h = ground arith

not_empty : {i n : ℕ} → i < n → 0 ≡ n → ⊥
not_empty h e = omega arith

abbrev pub IsRegistry : Backend → Type 0
IsRegistry b = (bucket : Bucket) → IsBucket b.seen bucket (records_of bucket b)

module _ (seen : List Key) (d : Request) (recs : List Registration)
    (h : IsBucket seen (bucket_of d) recs) (fresh : is_seen (key_of d) seen ≡ false)
    (agrees : conflict_with (declaration_of d) recs ≡ none) where
  abbrev new : Registration
  new = record { request = d; index = length recs }

  -- A registration of the same nullifier in the bucket was seen.
  not_there :
      (i : ℕ) (r : Registration)
      → get_elem? recs i ≡ some r
      → r.request.reg_nullifier ≡ d.reg_nullifier
      → ⊥
  not_there i r e same =
      let key : key_of r.request ≡ key_of d =
        ap (λ x. (x, r.request.reg_nullifier)) (h.belongs i r e)
        ∙ ap (λ n. (bucket_of d, n)) same in
      let was : is_seen (key_of d) seen ≡ true = rw (← key) (h.counted i r e) in cc

  once-snoc :
      (i j : ℕ) (r s : Registration)
      → get_elem? (recs ++ new ∷ []) i ≡ some r
      → get_elem? (recs ++ new ∷ []) j ≡ some s
      → r.request.reg_nullifier ≡ s.request.reg_nullifier
      → i ≡ j
  once-snoc i j r s ei ej same = elim (get_elem?-snoc recs new r i ei) [
    | inl oi ↦ elim (get_elem?-snoc recs new s j ej) [
      | inl oj ↦ h.once i j r s oi oj same
      | inr (nj, s_new) ↦
          elim (not_there i r oi (same ∙ ap (λ x. x.request.reg_nullifier) s_new)) [ ]
    ]
    | inr (ni, r_new) ↦ elim (get_elem?-snoc recs new s j ej) [
      | inl oj ↦ elim (not_there j s oj (sym same ∙ ap (λ x. x.request.reg_nullifier) r_new)) [ ]
      | inr (nj, s_new) ↦ ni ∙ sym nj
    ]
  ]

  declared-snoc :
      (i : ℕ) (r first : Registration)
      → get_elem? (recs ++ new ∷ []) 0 ≡ some first
      → get_elem? (recs ++ new ∷ []) i ≡ some r
      → declaration_of r.request ≡ declaration_of first.request
  declared-snoc i r first e0 ei = elim (get_elem?-snoc recs new first 0 e0) [
    | inl o0 ↦ elim (get_elem?-snoc recs new r i ei) [
      | inl oi ↦ h.declared i r first o0 oi
      | inr (ni, r_new) ↦
          ap (λ x. declaration_of x.request) r_new
          ∙ sym (conflict_with-none (declaration_of d) recs first agrees o0)
    ]
    | inr (n0, first_new) ↦ elim (get_elem?-snoc recs new r i ei) [
      | inl oi ↦ elim (not_empty (get_elem?-lt recs r i oi) n0) [ ]
      | inr (ni, r_new) ↦ ap (λ x. declaration_of x.request) (r_new ∙ sym first_new)
    ]
  ]

  IsBucket-snoc : IsBucket (key_of d ∷ seen) (bucket_of d) (recs ++ new ∷ [])
  IsBucket-snoc = record {
    placed = λ i r e. elim (get_elem?-snoc recs new r i e) [
      | inl o ↦ h.placed i r o
      | inr (n, r_new) ↦ ap (λ x. x.index) r_new ∙ sym n
    ];
    belongs = λ i r e. elim (get_elem?-snoc recs new r i e) [
      | inl o ↦ h.belongs i r o
      | inr (n, r_new) ↦ ap (λ x. bucket_of x.request) r_new
    ];
    counted = λ i r e. elim (get_elem?-snoc recs new r i e) [
      | inl o ↦ let was = h.counted i r o in is_seen-tail (key_of r.request) (key_of d) seen was
      | inr (n, r_new) ↦
          ap (λ x. is_seen (key_of x.request) (key_of d ∷ seen)) r_new
          ∙ is_seen-head (key_of d) seen
    ];
    declared = declared-snoc;
    once = once-snoc;
  }

IsBucket-seen :
    (key : Key) (seen : List Key) (bucket : Bucket) (recs : List Registration)
    → IsBucket seen bucket recs
    → IsBucket (key ∷ seen) bucket recs
IsBucket-seen key seen bucket recs h = record {
  placed = h.placed;
  belongs = h.belongs;
  declared = h.declared;
  once = h.once;
  counted = λ i r e. is_seen-tail (key_of r.request) key seen (h.counted i r e);
}

push-IsRegistry :
    (d : Request) (b : Backend)
    → is_seen (key_of d) b.seen ≡ false
    → conflict_with (declaration_of d) (records_of (bucket_of d) b) ≡ none
    → IsRegistry b
    → IsRegistry (push d b)
unfolding push
push-IsRegistry d b fresh agrees h bucket = elim (Bool-cases (bucket_of d == bucket)) [
  | inl same ↦
      subst (λ k. IsBucket (key_of d ∷ b.seen) k (records_of k (push d b)))
        (eq_of_== (bucket_of d) bucket same)
        (subst (IsBucket (key_of d ∷ b.seen) (bucket_of d)) (sym (records_of-push d b))
          (IsBucket-snoc b.seen d (records_of (bucket_of d) b) (h (bucket_of d)) fresh agrees))
  | inr other ↦
      subst (IsBucket (key_of d ∷ b.seen) bucket) (sym (records_of-push_other d bucket b other))
        (IsBucket-seen (key_of d) b.seen bucket (records_of bucket b) (h bucket))
]

append-IsRegistry : (d : Request) (b : Backend) → IsRegistry b → IsRegistry (append d b).1
unfolding append
append-IsRegistry d b h = elim (Bool-cases (is_seen (key_of d) b.seen)) [
  | inl was ↦ rw was h
  | inr fresh ↦
      elim (Option-cases (conflict_with (declaration_of d) (records_of (bucket_of d) b))) [
        | inl agrees ↦ rw (fresh, agrees) (push-IsRegistry d b fresh agrees h)
        | inr (declared, c) ↦ rw (fresh, c) h
      ]
]

pub append_all-IsRegistry :
    (ds : List Request) (b : Backend) → IsRegistry b → IsRegistry (append_all ds b)
unfolding append_all append_checked
append_all-IsRegistry [] b h = h
append_all-IsRegistry (d ∷ ds) b h =
    append_all-IsRegistry ds (append_checked d b).1 (elim (Bool-cases (is_valid d)) [
      | inl ok ↦ rw ok (append-IsRegistry d b h)
      | inr bad ↦ rw bad h
    ])

pub empty-IsRegistry : IsRegistry empty
unfolding records_of JsMap.get
empty-IsRegistry bucket = record {
  placed = λ i r e. cc;
  belongs = λ i r e. cc;
  counted = λ i r e. cc;
  declared = λ i r first e0 ei. cc;
  once = λ i j r s ei ej same. cc;
}

-- After any requests to an empty store, two places of one bucket that hold the same registration
-- nullifier are the same place.
pub registers_once :
    (ds : List Request) (bucket : Bucket) (i j : ℕ) (r s : Registration)
    → get_elem? (records_of bucket (append_all ds empty)) i ≡ some r
    → get_elem? (records_of bucket (append_all ds empty)) j ≡ some s
    → r.request.reg_nullifier ≡ s.request.reg_nullifier
    → i ≡ j
registers_once ds bucket = (append_all-IsRegistry ds empty empty-IsRegistry bucket).once

first_declaration-eq :
    (recs : List Registration) (i : ℕ) (r : Registration)
    → get_elem? recs i ≡ some r
    → ((first : Registration)
        → get_elem? recs 0 ≡ some first
        → declaration_of r.request ≡ declaration_of first.request)
    → first_declaration recs ≡ some (declaration_of r.request)
first_declaration-eq [] i r e h = cc
first_declaration-eq (first ∷ rest) i r e h = sym (ap some (h first refl))

-- After any requests to an empty store, the record at a place of a bucket has the place as its index,
-- is of the bucket's season and context, and declares the bucket's engine and statement.
pub one_declaration :
    (ds : List Request) (bucket : Bucket) (i : ℕ) (r : Registration)
    → get_elem? (records_of bucket (append_all ds empty)) i ≡ some r
    → (r.index ≡ i)
      × (bucket_of r.request ≡ bucket)
      × (declaration_for bucket (append_all ds empty) ≡ some (declaration_of r.request))
unfolding declaration_for
one_declaration ds bucket i r e =
    let h = append_all-IsRegistry ds empty empty-IsRegistry bucket in
    (
      h.placed i r e,
      h.belongs i r e,
      first_declaration-eq (records_of bucket (append_all ds empty)) i r e
          (λ first e0. h.declared i r first e0 e),
    )
