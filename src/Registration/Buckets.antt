-- ===== src/Registration/Buckets.antt =====
-- What a push does to the buckets of core/registration_store.js.
use dash_mno_verify.Prelude.{
  ℕ, zero, suc, ◌≡◌, refl, ◌∙◌, ap, ◌<◌, ◌⊎◌, List, [], ◌∷◌, ◌++◌, true, false, ◌==◌, string_eq,
  nat_eq, pair_eq, length, get_elem?, some, none, if◌then◌else◌, arith, inl, inr, eq_of_==, ==_self,
  Bool-cases,
}
use dash_mno_verify.Prelude.JsMap
use dash_mno_verify.Prelude.JsMap.{JsMap, get-put}
use dash_mno_verify.Registration.{
  Registration, Request, Declaration, Bucket, bucket_of, declaration_of, same_declaration,
  conflict_with, records_of, push, Backend, list_of,
}

pub get_elem?-snoc {ℓ} :
    {A : Type ℓ} (xs : List A) (x a : A) (i : ℕ)
    → get_elem? (xs ++ x ∷ []) i ≡ some a
    → (get_elem? xs i ≡ some a) ⊎ ((i ≡ length xs) × (a ≡ x))
get_elem?-snoc [] x a zero e = inr (refl, cc)
get_elem?-snoc [] x a (suc i) e = cc
get_elem?-snoc (y ∷ xs) x a zero e = inl e
get_elem?-snoc (y ∷ xs) x a (suc i) e = elim (get_elem?-snoc xs x a i e) [
  | inl h ↦ inl h
  | inr (h, k) ↦ inr (omega arith, k)
]

pub get_elem?-lt {ℓ} :
    {A : Type ℓ} (xs : List A) (a : A) (i : ℕ) → get_elem? xs i ≡ some a → i < length xs
get_elem?-lt [] a i e = cc
get_elem?-lt (x ∷ xs) a zero e = omega arith
get_elem?-lt (x ∷ xs) a (suc i) e = omega (arith, get_elem?-lt xs a i e)

pub same_declaration-eq : (a b : Declaration) → same_declaration a b ≡ true → a ≡ b
unfolding same_declaration
same_declaration-eq a b h = elim (Bool-cases (a.engine == b.engine)) [
  | inl e ↦ elim (Bool-cases (a.statement == b.statement)) [
    | inl s ↦
        ap (λ x. record { engine = x; statement = a.statement }) (eq_of_== a.engine b.engine e)
        ∙ ap (λ x. record { engine = b.engine; statement = x }) (eq_of_== a.statement b.statement s)
    | inr s ↦ ground (arith, s)
  ]
  | inr e ↦ ground (arith, e)
]

pub conflict_with-none :
    (want : Declaration) (recs : List Registration) (first : Registration)
    → conflict_with want recs ≡ none
    → get_elem? recs 0 ≡ some first
    → declaration_of first.request ≡ want
conflict_with-none want [] first h e = cc
conflict_with-none want (r ∷ rest) first h e =
    elim (Bool-cases (same_declaration (declaration_of r.request) want)) [
      | inl same ↦
          let at_head : r ≡ first = cc in
          rw (← at_head) (same_declaration-eq (declaration_of r.request) want same)
      | inr other ↦ ground (arith, other)
    ]

abbrev pub with_pushed : Request → Backend → List Registration
with_pushed d b =
    records_of (bucket_of d) b
    ++ (record { request = d; index = length (records_of (bucket_of d) b) } ∷ [])

pub records_of-push :
    (d : Request) (b : Backend) → records_of (bucket_of d) (push d b) ≡ with_pushed d b
unfolding records_of push
records_of-push d b =
    ap list_of (get-put (bucket_of d) (bucket_of d) (with_pushed d b) b.by_bucket)
    ∙ ap (λ t. list_of (if t then some (with_pushed d b) else JsMap.get (bucket_of d) b.by_bucket))
        (==_self (bucket_of d))

pub records_of-push_other :
    (d : Request) (bucket : Bucket) (b : Backend)
    → (bucket_of d == bucket) ≡ false
    → records_of bucket (push d b) ≡ records_of bucket b
unfolding records_of push
records_of-push_other d bucket b other =
    ap list_of (get-put (bucket_of d) bucket (with_pushed d b) b.by_bucket)
    ∙ ap (λ t. list_of (if t then some (with_pushed d b) else JsMap.get bucket b.by_bucket)) other
