-- ===== src/Season/Kept.antt =====
-- No operation of core/season.js loses or moves a durable registration.
use dash_mno_verify.Prelude.{
  ℕ, zero, suc, ◌≡◌, subst, List, [], ◌∷◌, ◌++◌, get_elem?, Bool, Option, some, none, Result, ok,
  err, Bool-cases, inl, inr, ◌==◌, string_eq, nat_eq, pair_eq, eq_of_==,
}
use dash_mno_verify.Prelude.JsMap
use dash_mno_verify.Merkle.Hash.{Poseidon}
use dash_mno_verify.Registration.{
  Registration, Request, Bucket, Backend, bucket_of, records_of, push, append_checked,
}
use dash_mno_verify.Registration.Buckets.{records_of-push, records_of-push_other}
use dash_mno_verify.Season.State.{Context, SeasonMembers, SeasonError, is_season}
use dash_mno_verify.Season.Trees.{materialize, reconcile_if_behind}
use dash_mno_verify.Season.Commit.{
  Fate, Commit, write, refusal, unless_refused, write_record, reconciled, materialized, current_or,
  commit,
}
use dash_mno_verify.Season.Publish.{append_checked-cases}
use dash_mno_verify.Season.History.{Event, rolls, ensures, recovers, commits, step, run_events}

pub get_elem?-snoc_keeps {ℓ} :
    {A : Type ℓ} (xs : List A) (x a : A) (i : ℕ)
    → get_elem? xs i ≡ some a
    → get_elem? (xs ++ x ∷ []) i ≡ some a
get_elem?-snoc_keeps [] x a i e = cc
get_elem?-snoc_keeps (y ∷ xs) x a zero e = e
get_elem?-snoc_keeps (y ∷ xs) x a (suc i) e = get_elem?-snoc_keeps xs x a i e

abbrev pub Keeps : Backend → Backend → Type 0
Keeps b b' =
    (bucket : Bucket) (i : ℕ) (r : Registration)
    → get_elem? (records_of bucket b) i ≡ some r
    → get_elem? (records_of bucket b') i ≡ some r

push-Keeps : (d : Request) (b : Backend) → Keeps b (push d b)
push-Keeps d b bucket i r e = elim (Bool-cases (bucket_of d == bucket)) [
  | inl same ↦
      subst
        (λ k.
          get_elem? (records_of k b) i ≡ some r → get_elem? (records_of k (push d b)) i ≡ some r)
        (eq_of_== (bucket_of d) bucket same)
        (λ h. rw (records_of-push d b) (get_elem?-snoc_keeps (records_of (bucket_of d) b) _ r i h))
        e
  | inr other ↦ rw (records_of-push_other d bucket b other) e
]

append_checked-Keeps : (d : Request) (b : Backend) → Keeps b (append_checked d b).1
append_checked-Keeps d b = elim (append_checked-cases d b) [
  | inl (res, e, refused) ↦ rw e (λ bucket i r h. h)
  | inr (e, canonical) ↦ rw e (push-Keeps d b)
]

write-Keeps : (fate : Fate) (d : Request) (b : Backend) → Keeps b (write fate d b).1
unfolding write
write-Keeps Fate.runs d b = append_checked-Keeps d b
write-Keeps Fate.throws_before d b = λ bucket i r h. h
write-Keeps Fate.throws_after d b = append_checked-Keeps d b
write-Keeps Fate.anchor_stale d b = λ bucket i r h. h

module _ {F : Type 0} (p : Poseidon F) where
  abbrev backend_of : Result SeasonError Commit × SeasonMembers F × Backend → Backend
  backend_of (r, s, b) = b

  unless_refused-Keeps :
      (now : ℕ) (fate : Fate) (d : Request) (k : Context F) (s : SeasonMembers F) (b : Backend)
      (answer : Option Commit)
      → Keeps b (backend_of (unless_refused p now fate d k s b answer))
  unless_refused-Keeps now fate d k s b (some answer) = λ bucket i r h. h
  unless_refused-Keeps now fate d k s b none = write-Keeps fate d b

  reconciled-Keeps :
      (now : ℕ) (live : Option ℕ) (regressed : Bool) (fate : Fate) (d : Request) (k : Context F)
      (b : Backend) (res : Result SeasonError Bool × SeasonMembers F)
      → Keeps b (backend_of (reconciled p now live regressed fate d k b res))
  unfolding write_record
  reconciled-Keeps now live regressed fate d k b (err e, s) = λ bucket i r h. h
  reconciled-Keeps now live regressed fate d k b (ok done, s) =
      unless_refused-Keeps now fate d (current_or p (JsMap.get d.context_hash s.ctx) k) s b
        (refusal p live regressed d (current_or p (JsMap.get d.context_hash s.ctx) k) b)

  materialized-Keeps :
      (now : ℕ) (live : Option ℕ) (regressed : Bool) (fate : Fate) (d : Request) (b : Backend)
      (res : Result SeasonError (Context F) × SeasonMembers F)
      → Keeps b (backend_of (materialized p now live regressed fate d b res))
  materialized-Keeps now live regressed fate d b (err e, s) = λ bucket i r h. h
  materialized-Keeps now live regressed fate d b (ok k, s) =
      reconciled-Keeps now live regressed fate d k b
        (reconcile_if_behind p now d.season d.context_hash b s)

  pub commit-Keeps :
      (now : ℕ) (live : Option ℕ) (regressed : Bool) (fate : Fate) (d : Request)
      (s : SeasonMembers F) (b : Backend)
      → let (r, s', b') = commit p now live regressed fate d s b in Keeps b b'
  unfolding commit
  commit-Keeps now live regressed fate d s b = elim (Bool-cases (is_season d.season s.current)) [
    | inl same ↦ rw same (
        materialized-Keeps now live regressed fate d b
          (materialize p now d.season d.context_hash b s))
    | inr other ↦ rw other (λ bucket i r h. h)
  ]

  step-Keeps :
      (e : Event) (w : SeasonMembers F × Backend) → let (s', b') = step p e w in Keeps w.1 b'
  unfolding step
  step-Keeps (rolls season) (s, b) = λ bucket i r h. h
  step-Keeps (ensures now season c) (s, b) = λ bucket i r h. h
  step-Keeps (recovers now season c) (s, b) = λ bucket i r h. h
  step-Keeps (commits now live regressed fate d) (s, b) = commit-Keeps now live regressed fate d s b

  pub run_events-Keeps :
      (es : List Event) (w : SeasonMembers F × Backend)
      → let (s', b') = run_events p es w in Keeps w.1 b'
  unfolding run_events
  run_events-Keeps [] w = λ bucket i r h. h
  run_events-Keeps (e ∷ es) w =
      λ bucket i r h. run_events-Keeps es (step p e w) bucket i r (step-Keeps e w bucket i r h)

  -- Over any history of the season's operations, failed writes included, a durable registration stays
  -- in its bucket at its place.
  pub run_events-keeps :
      (es : List Event) (w : SeasonMembers F × Backend) (bucket : Bucket) (i : ℕ) (r : Registration)
      → get_elem? (records_of bucket w.1) i ≡ some r
      → get_elem? (records_of bucket (run_events p es w).1) i ≡ some r
  run_events-keeps es w bucket i r h = run_events-Keeps es w bucket i r h
