-- ===== src/Registration/Loader/InOrder.antt =====
-- The indexes of core/registration_store.js after any requests: each is its record's place.
use dash_mno_verify.Prelude.{
  ℕ, le→ltb_false, leb, le→leb, suc, ◌+◌, ◌≤◌, ◌≡◌, refl, sym, ap, ◌∙◌, subst, List, [], ◌∷◌, ◌++◌,
  All, true, false, ltb, length, ok, map_result, arith, Bool-cases, inl, inr, ◌==◌, string_eq,
  nat_eq, pair_eq,
}
use dash_mno_verify.Prelude.JsMap
use dash_mno_verify.Prelude.JsMap.{JsMap}
use dash_mno_verify.Stores.Order.{sort_by, insert_by}
use dash_mno_verify.Registration.{
  Registration, Request, Bucket, Backend, bucket_of, records_of, push, append_all, list_of,
}
use dash_mno_verify.Registration.Outcomes.{append_checked-outcomes}
use dash_mno_verify.Registration.Loader.{last_index, ordered}

-- Indexes that count on from a number.
abbrev ArePlaced : ℕ → List Registration → Type 0
ArePlaced n [] = Unit
ArePlaced n (r ∷ rs) = (r.index ≡ n) × ArePlaced (suc n) rs

ArePlaced-snoc :
    (n : ℕ) (rs : List Registration) (d : Request)
    → ArePlaced n rs
    → ArePlaced n (rs ++ record { request = d; index = n + length rs } ∷ [])
ArePlaced-snoc n [] d h = (omega arith, tt)
ArePlaced-snoc n (r ∷ rs) d h = (
  h.0,
  subst (λ k. ArePlaced (suc n) (rs ++ record { request = d; index = k } ∷ []))
      (let same : suc n + length rs ≡ n + suc (length rs) = omega arith in same)
      (ArePlaced-snoc (suc n) rs d h.1),
)

sort_by-ArePlaced :
    (n : ℕ) (rs : List Registration) → ArePlaced n rs → sort_by Registration.index rs ≡ rs
unfolding sort_by insert_by
sort_by-ArePlaced n [] h = refl
sort_by-ArePlaced n (r ∷ []) h = refl
sort_by-ArePlaced n (r ∷ s ∷ rs) h =
    let below : leb r.index s.index ≡ true = le→leb r.index s.index (omega (arith, h.0, h.1.0)) in
    ap (insert_by Registration.index r) (sort_by-ArePlaced (suc n) (s ∷ rs) h.1) ∙ rw below refl

last_index-ArePlaced :
    (n : ℕ) (rs : List Registration) → ArePlaced n rs → last_index rs ≤ n + length rs
last_index-ArePlaced n [] h = omega arith
last_index-ArePlaced n (r ∷ []) h = omega (arith, h.0)
last_index-ArePlaced n (r ∷ s ∷ rs) h = omega (arith, last_index-ArePlaced (suc n) (s ∷ rs) h.1)

abbrev pub IsInOrder : Bucket × List Registration → Type 0
IsInOrder (bucket, recs) = ArePlaced 0 recs

All-put :
    (k : Bucket) (recs : List Registration) (m : JsMap Bucket (List Registration))
    → ArePlaced 0 recs
    → All IsInOrder m
    → All IsInOrder (JsMap.put k recs m)
unfolding JsMap.put
All-put k recs [] h hs = (h, tt)
All-put k recs ((j, w) ∷ m) h hs = elim (Bool-cases (j == k)) [
  | inl same ↦ rw same (h, hs.1)
  | inr other ↦ rw other (hs.0, All-put k recs m h hs.1)
]

All-get :
    (k : Bucket) (m : JsMap Bucket (List Registration))
    → All IsInOrder m
    → ArePlaced 0 (list_of (JsMap.get k m))
unfolding JsMap.get
All-get k [] hs = tt
All-get k ((j, w) ∷ m) hs = elim (Bool-cases (j == k)) [
  | inl same ↦ rw same hs.0
  | inr other ↦ rw other (All-get k m hs.1)
]

push-IsInOrder :
    (d : Request) (b : Backend) → All IsInOrder b.by_bucket → All IsInOrder (push d b).by_bucket
unfolding push records_of
push-IsInOrder d b h =
    let recs = records_of (bucket_of d) b in
    All-put (bucket_of d) _ b.by_bucket
      (subst (λ k. ArePlaced 0 (recs ++ record { request = d; index = k } ∷ []))
        (let same : 0 + length recs ≡ length recs = omega arith in same)
        (ArePlaced-snoc 0 recs d (All-get (bucket_of d) b.by_bucket h)))
      h

pub append_all-IsInOrder :
    (ds : List Request) (b : Backend)
    → All IsInOrder b.by_bucket
    → All IsInOrder (append_all ds b).by_bucket
unfolding append_all
append_all-IsInOrder [] b h = h
append_all-IsInOrder (d ∷ ds) b h = elim (append_checked-outcomes d b) [
  | inl (answer, e, refused) ↦
      subst (λ x. All IsInOrder (append_all ds x.1).by_bucket) (sym e) (append_all-IsInOrder ds b h)
  | inr (e, good, fresh, agrees) ↦
      subst (λ x. All IsInOrder (append_all ds x.1).by_bucket) (sym e)
        (append_all-IsInOrder ds (push d b) (push-IsInOrder d b h))
]

pub ordered-IsInOrder :
    (m : JsMap Bucket (List Registration)) → All IsInOrder m → map_result ordered m ≡ ok m
unfolding ordered
ordered-IsInOrder [] h = refl
ordered-IsInOrder ((bucket, recs) ∷ m) h =
    let no_gap : ltb (length recs) (last_index recs) ≡ false =
      le→ltb_false (length recs) (last_index recs)
        (omega (arith, last_index-ArePlaced 0 recs h.0)) in
    rw (sort_by-ArePlaced 0 recs h.0, no_gap, ordered-IsInOrder m h.1) refl
