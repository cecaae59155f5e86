-- ===== src/Registration/FileBackend/Acknowledged.antt =====
-- A registration that `FileBackend` of core/registration_store.js reports is on its disk.
use dash_mno_verify.Prelude.{
  ℕ, zero, suc, ◌≡◌, refl, sym, ap, ◌∙◌, subst, List, [], ◌∷◌, get_elem?, length, Bool, true, false,
  Option, none, some, some-injective, ok, if◌then◌else◌, Bool-cases, inl, inr, ◌==◌, string_eq,
  nat_eq, pair_eq, eq_of_==, String, ==_self, get_elem?-at_end,
}
use dash_mno_verify.Registration
use dash_mno_verify.Registration.{
  Registration, Request, Key, Backend, Appended, bucket_of, key_of, is_seen, or_default, records_of,
  push, empty, append, append_checked, append_all, is_valid,
}
use dash_mno_verify.Registration.Buckets.{records_of-push}
use dash_mno_verify.Registration.Outcomes.{append_checked-outcomes, is_refused}
use dash_mno_verify.Registration.Once.{
  is_seen-head, append_all-IsRegistry, empty-IsRegistry, IsRegistry,
}
use dash_mno_verify.Registration.Loader.{Loaded, load, same_registration}
use dash_mno_verify.Registration.FileBackend.{
  FileStore, Weather, WriteFate, mark, flush, reconcile, ready, write_line, first_with, landed,
  found_after, recover, written_or, write_if, append_ready, append_one, Call, after_calls, opened,
}
use dash_mno_verify.Registration.FileBackend.Filed.{
  IsLogged, IsFiled, IsCurrent, IsReadied, mark-IsFiled, load-IsLogged, reconcile-IsReadied,
  ready-IsReadied,
}
use dash_mno_verify.Registration.FileBackend.Durable.{
  grown-IsLogged, append_checked-valid, after_calls-IsFiled, opened-IsFiled,
}

module _ (schedule : Option String) where
  first_with-there :
      (key : Key) (recs : List Registration) (r : Registration)
      → first_with schedule key recs ≡ some r
      → (i : ℕ) × (get_elem? recs i ≡ some r) × (key_of r.request ≡ key)
  first_with-there key [] r e = cc
  first_with-there key (x ∷ recs) r e = elim (Bool-cases (key_of x.request == key)) [
    | inl same ↦ (
      zero,
      sym (ap (λ t. if t then some x else first_with schedule key recs) same) ∙ e,
      ap (λ y. key_of y.request)
            (sym (
              some-injective x r
                (sym (ap (λ t. if t then some x else first_with schedule key recs) same) ∙ e)))
          ∙ eq_of_== (key_of x.request) key same,
    )
    | inr other ↦
        let (i, there, same) =
          first_with-there key recs r
            (sym (ap (λ t. if t then some x else first_with schedule key recs) other) ∙ e) in
        (suc i, there, same)
  ]

  -- A backend has a request's registration at an index: its key is seen, and the record there is of the same
  -- member with the same commitment, engine and statement.
  abbrev IsAt : Request → ℕ → Backend → Type 0
  IsAt d index b =
      (Registration.has (key_of d) b ≡ true)
      × (r : Registration) × (get_elem? (records_of (bucket_of d) b) index ≡ some r)
      × (same_registration r (record { request = d; index = index }) ≡ true)

  -- A record of the view that is found is at its own index, and has its key seen.
  found-IsAt :
      (d : Request) (s : FileStore) (found : Registration)
      → IsCurrent schedule s
      → first_with schedule (key_of d) (records_of (bucket_of d) s.view) ≡ some found
      → same_registration found (record { request = d; index = found.index }) ≡ true
      → IsAt d found.index s.view
  found-IsAt d s found h e agrees =
      let registry : IsRegistry s.view =
        subst IsRegistry (sym h.fresh) (append_all-IsRegistry h.logged.ds empty empty-IsRegistry) in
      let (i, there, same) =
        first_with-there (key_of d) (records_of (bucket_of d) s.view) found e in
      (
        subst (λ key. is_seen key s.view.seen ≡ true) same
            ((registry (bucket_of d)).counted i found there),
        found,
        subst (λ n. get_elem? (records_of (bucket_of d) s.view) n ≡ some found)
            (sym ((registry (bucket_of d)).placed i found there)) there,
        agrees,
      )

  -- An answered index comes with a current view that has the registration at it.
  IsReported : Request → Option Appended × FileStore → Type 0
  IsReported d (some (Appended.appended index), s) = IsCurrent schedule s × IsAt d index s.view
  IsReported d (_, s) = Unit {0}

  landed-IsReported :
      (d : Request) (s : FileStore) (o : Option Registration)
      → IsCurrent schedule s
      → first_with schedule (key_of d) (records_of (bucket_of d) s.view) ≡ o
      → IsReported d (landed schedule d o, s)
  unfolding IsReported
  landed-IsReported d s none h e = tt
  landed-IsReported d s (some found) h e =
      elim (Bool-cases (same_registration found (record { request = d; index = found.index }))) [
        | inl same ↦ rw same (h, found-IsAt d s found h e same)
        | inr other ↦ rw other tt
      ]

  found-IsReported :
      (d : Request) (r : Bool × FileStore)
      → IsReadied schedule r
      → IsReported d (found_after schedule d r)
  unfolding IsReported
  found-IsReported d (true, s) h = landed-IsReported d s _ h refl
  found-IsReported d (false, s) h = tt

  recover-IsReported :
      (weather : Weather) (flushes : Bool) (d : Request) (s : FileStore)
      → IsLogged schedule s.file
      → IsReported d (recover schedule weather flushes d (mark s))
  unfolding recover IsReported
  recover-IsReported weather true d s h =
      found-IsReported d (reconcile schedule weather (flush (mark s)))
        (reconcile-IsReadied schedule weather (flush (mark s)) (mark-IsFiled schedule (flush s) h))
  recover-IsReported weather false d s h = tt

  same_registration_self :
      (d : Request) (i j : ℕ)
      → same_registration (record { request = d; index = i }) (record { request = d; index = j })
        ≡ true
  unfolding same_registration
  same_registration_self d i j = rw (
    ==_self (key_of d),
    ==_self d.commitment,
    ==_self (or_default "" d.engine),
    ==_self (or_default "" d.statement),
  )

  push-has : (d : Request) (b : Backend) → Registration.has (key_of d) (push d b) ≡ true
  unfolding push
  push-has d b = is_seen-head (key_of d) b.seen

  push-IsAt : (d : Request) (b : Backend) → IsAt d (length (records_of (bucket_of d) b)) (push d b)
  push-IsAt d b =
      let n = length (records_of (bucket_of d) b) in
      (
        push-has d b,
        record { request = d; index = n },
        rw (records_of-push d b) (get_elem?-at_end (records_of (bucket_of d) b) _),
        same_registration_self d n n,
      )

  written-IsReported :
      (fate : WriteFate) (weather : Weather) (flushes : Bool) (d : Request) (s : FileStore)
      → IsCurrent schedule s
      → append_checked d s.view
        ≡ (Appended.appended (length (records_of (bucket_of d) s.view)), push d s.view)
      → IsReported d (written_or schedule fate weather flushes d s)
  unfolding write_line IsReported
  written-IsReported WriteFate.not_written weather flushes d s h e =
      recover-IsReported weather flushes d s h.logged
  written-IsReported WriteFate.not_flushed weather flushes d s h e =
      recover-IsReported weather flushes d (write_line schedule WriteFate.not_flushed d s)
        (grown-IsLogged schedule s d h e).0
  written-IsReported WriteFate.not_closed weather flushes d s h e =
      recover-IsReported weather flushes d (write_line schedule WriteFate.not_closed d s)
        (grown-IsLogged schedule s d h e).0
  written-IsReported WriteFate.done weather flushes d s h e =
      let (logged, after) = grown-IsLogged schedule s d h e in
      (record { logged = logged; flushed = refl; fresh = sym after }, push-IsAt d s.view)

  refused-IsReported :
      (fate : WriteFate) (weather : Weather) (flushes : Bool) (d : Request) (s : FileStore)
      (answer : Appended)
      → is_refused answer ≡ true
      → IsReported d (write_if schedule fate weather flushes d s answer)
  unfolding IsReported
  refused-IsReported fate weather flushes d s Appended.invalid h = tt
  refused-IsReported fate weather flushes d s Appended.duplicate h = tt
  refused-IsReported fate weather flushes d s (Appended.conflict declared) h = tt
  refused-IsReported fate weather flushes d s (Appended.appended index) h = cc

  append_ready-IsReported :
      (fate : WriteFate) (weather : Weather) (flushes : Bool) (d : Request) (r : Bool × FileStore)
      → is_valid d ≡ true
      → IsReadied schedule r
      → IsReported d (append_ready schedule fate weather flushes d r)
  unfolding IsReported
  append_ready-IsReported fate weather flushes d (false, s) good h = tt
  append_ready-IsReported fate weather flushes d (true, s) good h =
      let same = append_checked-valid schedule d s good in
      elim (append_checked-outcomes d s.view) [
        | inl (res, e, refused) ↦
            subst (λ a. IsReported d (write_if schedule fate weather flushes d s a.0))
              (sym e ∙ same) (refused-IsReported fate weather flushes d s res refused)
        | inr (e, valid, fresh, agrees) ↦
            subst (λ a. IsReported d (write_if schedule fate weather flushes d s a.0))
              (sym e ∙ same) (written-IsReported fate weather flushes d s h e)
      ]

  append_one-IsReported :
      (before : Weather) (fate : WriteFate) (flushes : Bool) (after : Weather) (d : Request)
      (s : FileStore)
      → IsFiled schedule s
      → IsReported d (append_one schedule before fate flushes after d s)
  unfolding append_one IsReported
  append_one-IsReported before fate flushes after d s h = elim (Bool-cases (is_valid d)) [
    | inr bad ↦ rw bad tt
    | inl good ↦ rw good (
        append_ready-IsReported fate after flushes d (ready schedule before s) good
          (ready-IsReadied schedule before s h))
  ]

  -- After any calls, where an append answers an index, a load of the flushed lines of the disk gives a backend
  -- that has seen the key and whose record at that index of the bucket is the same registration: its key,
  -- commitment, engine and statement are those of the request, an absent engine or statement counting as
  -- an empty one, whatever flush, write, read or close has failed.
  pub append_one-durable :
      (cs : List Call) (before : Weather) (fate : WriteFate) (flushes : Bool) (after : Weather)
      (d : Request) (index : ℕ)
      → (append_one schedule before fate flushes after d
          (after_calls schedule cs (opened schedule))).0
        ≡ some (Appended.appended index)
      → let (answer, s) =
          append_one schedule before fate flushes after d
            (after_calls schedule cs (opened schedule)) in
        (loaded : Loaded) × (load schedule false true s.disk ≡ ok loaded)
        × (Registration.has (key_of d) loaded.backend ≡ true)
        × (r : Registration) × (get_elem? (records_of (bucket_of d) loaded.backend) index ≡ some r)
        × (same_registration r (record { request = d; index = index }) ≡ true)
  unfolding IsReported
  append_one-durable cs before fate flushes after d index e =
      let s = after_calls schedule cs (opened schedule) in
      let (answer, s') = append_one schedule before fate flushes after d s in
      let (h, there) : IsCurrent schedule s' × IsAt d index s'.view =
        subst (λ o. IsReported d (o, s')) e
          (append_one-IsReported before fate flushes after d s
            (after_calls-IsFiled schedule cs (opened schedule) (opened-IsFiled schedule))) in
      let (seen, r, at, same) = subst (IsAt d index) h.fresh there in
      (
        record { backend = append_all h.logged.ds empty; torn = false; stamps = false },
        subst
            (λ ls.
              load schedule false true ls
              ≡ ok
                  (record { backend = append_all h.logged.ds empty; torn = false; stamps = false }))
            (sym h.flushed) (load-IsLogged schedule s'.file h.logged),
        seen,
        r,
        at,
        same,
      )
