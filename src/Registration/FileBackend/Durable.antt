-- ===== src/Registration/FileBackend/Durable.antt =====
-- What `FileBackend` of core/registration_store.js answers is what its disk holds.
use mathlib.Core.List.{append-nil, append_assoc}
use dash_mno_verify.Prelude.{
  ◌≡◌, refl, sym, ap, ◌∙◌, subst, List, [], ◌∷◌, ◌++◌, length, Bool, true, false, Option, none,
  some, ok, Bool-cases, inl, inr, string_eq, nat_eq, pair_eq, String,
}
use dash_mno_verify.Registration
use dash_mno_verify.Registration.{
  Registration, Request, Key, Appended, bucket_of, records_of, push, empty, append, append_checked,
  append_all, is_valid,
}
use dash_mno_verify.Registration.Outcomes.{append_checked-outcomes, is_refused}
use dash_mno_verify.Registration.Loader.{object, Loaded, load}
use dash_mno_verify.Registration.Loader.Written.{written, write_log, header_lines}
use dash_mno_verify.Registration.FileBackend.{
  FileStore, Weather, WriteFate, mark, flush, reconcile, ready, answer_if, has_key, write_line,
  found_after, recover, written_or, write_if, append_ready, append_one, Call, asks, appends,
  after_call, after_calls, opened,
}
use dash_mno_verify.Registration.FileBackend.Filed.{
  write_log-snoc, IsLogged, IsFiled, IsCurrent, IsReadied, current-IsFiled, mark-IsFiled,
  load-IsLogged, reconcile-IsReadied, ready-IsReadied,
}

module _ (schedule : Option String) where
  -- The line of an append that the view accepts.
  pub grown-IsLogged :
      (s : FileStore) (d : Request) (h : IsCurrent schedule s)
      → append_checked d s.view
        ≡ (Appended.appended (length (records_of (bucket_of d) s.view)), push d s.view)
      → (h' : IsLogged schedule
          (s.file ++ object (written d (length (records_of (bucket_of d) s.view))) ∷ []))
        × (append_all h'.ds empty ≡ push d s.view)
  grown-IsLogged s d h e =
      let all = append_all h.logged.ds empty in
      let (lines, after) =
        write_log-snoc h.logged.ds empty (push d s.view) d
          (length (records_of (bucket_of d) s.view))
          (subst
            (λ b.
              append_checked d b
              ≡ (Appended.appended (length (records_of (bucket_of d) s.view)), push d s.view))
            h.fresh e) in
      (
        record {
          ds = h.logged.ds ++ d ∷ [];
          on_file =
              ap (λ ls. ls ++ object (written d (length (records_of (bucket_of d) s.view))) ∷ [])
                h.logged.on_file
              ∙ append_assoc (header_lines schedule) (write_log h.logged.ds empty) _
              ∙ ap (λ ls. header_lines schedule ++ ls) (sym lines);
        },
        after,
      )

  found-IsFiled :
      (d : Request) (r : Bool × FileStore)
      → IsReadied schedule r
      → IsFiled schedule (found_after schedule d r).1
  found-IsFiled d (true, s) h = current-IsFiled schedule h
  found-IsFiled d (false, s) h = h

  recover-IsFiled :
      (weather : Weather) (flushes : Bool) (d : Request) (s : FileStore)
      → IsLogged schedule s.file
      → IsFiled schedule (recover schedule weather flushes d (mark s)).1
  unfolding recover
  recover-IsFiled weather true d s h =
      found-IsFiled d (reconcile schedule weather (flush (mark s)))
        (reconcile-IsReadied schedule weather (flush (mark s)) (mark-IsFiled schedule (flush s) h))
  recover-IsFiled weather false d s h = mark-IsFiled schedule s h

  written-IsFiled :
      (fate : WriteFate) (weather : Weather) (flushes : Bool) (d : Request) (s : FileStore)
      → IsCurrent schedule s
      → append_checked d s.view
        ≡ (Appended.appended (length (records_of (bucket_of d) s.view)), push d s.view)
      → IsFiled schedule (written_or schedule fate weather flushes d s).1
  unfolding write_line
  written-IsFiled WriteFate.not_written weather flushes d s h e =
      recover-IsFiled weather flushes d s h.logged
  written-IsFiled WriteFate.not_flushed weather flushes d s h e =
      recover-IsFiled weather flushes d (write_line schedule WriteFate.not_flushed d s)
        (grown-IsLogged s d h e).0
  written-IsFiled WriteFate.not_closed weather flushes d s h e =
      recover-IsFiled weather flushes d (write_line schedule WriteFate.not_closed d s)
        (grown-IsLogged s d h e).0
  written-IsFiled WriteFate.done weather flushes d s h e =
      let (logged, after) = grown-IsLogged s d h e in
      record { logged = logged; flushed = λ k. refl; fresh = λ k. sym after }

  refused-same :
      (fate : WriteFate) (weather : Weather) (flushes : Bool) (d : Request) (s : FileStore)
      (answer : Appended)
      → is_refused answer ≡ true
      → (write_if schedule fate weather flushes d s answer).1 ≡ s
  refused-same fate weather flushes d s Appended.invalid h = refl
  refused-same fate weather flushes d s Appended.duplicate h = refl
  refused-same fate weather flushes d s (Appended.conflict declared) h = refl
  refused-same fate weather flushes d s (Appended.appended index) h = cc

  pub append_checked-valid :
      (d : Request) (s : FileStore) → is_valid d ≡ true → append_checked d s.view ≡ append d s.view
  unfolding append_checked
  append_checked-valid d s good = rw good refl

  append_ready-IsFiled :
      (fate : WriteFate) (weather : Weather) (flushes : Bool) (d : Request) (r : Bool × FileStore)
      → is_valid d ≡ true
      → IsReadied schedule r
      → IsFiled schedule (append_ready schedule fate weather flushes d r).1
  append_ready-IsFiled fate weather flushes d (false, s) good h = h
  append_ready-IsFiled fate weather flushes d (true, s) good h =
      let same = append_checked-valid d s good in
      elim (append_checked-outcomes d s.view) [
        | inl (res, e, refused) ↦
            subst (λ a. IsFiled schedule (write_if schedule fate weather flushes d s a.0).1)
              (sym e ∙ same)
              (subst (IsFiled schedule) (sym (refused-same fate weather flushes d s res refused))
                (current-IsFiled schedule h))
        | inr (e, valid, fresh, agrees) ↦
            subst (λ a. IsFiled schedule (write_if schedule fate weather flushes d s a.0).1)
              (sym e ∙ same) (written-IsFiled fate weather flushes d s h e)
      ]

  append_one-IsFiled :
      (before : Weather) (fate : WriteFate) (flushes : Bool) (after : Weather) (d : Request)
      (s : FileStore)
      → IsFiled schedule s
      → IsFiled schedule (append_one schedule before fate flushes after d s).1
  unfolding append_one
  append_one-IsFiled before fate flushes after d s h = elim (Bool-cases (is_valid d)) [
    | inr bad ↦ rw bad h
    | inl good ↦ rw good (
        append_ready-IsFiled fate after flushes d (ready schedule before s) good
          (ready-IsReadied schedule before s h))
  ]

  answered-IsFiled :
      {A : Type 0} (read : FileStore → A) (r : Bool × FileStore)
      → IsReadied schedule r
      → IsFiled schedule (answer_if schedule read r).1
  answered-IsFiled read (true, s) h = current-IsFiled schedule h
  answered-IsFiled read (false, s) h = h

  pub after_calls-IsFiled :
      (cs : List Call) (s : FileStore)
      → IsFiled schedule s
      → IsFiled schedule (after_calls schedule cs s)
  unfolding after_calls after_call has_key
  after_calls-IsFiled [] s h = h
  after_calls-IsFiled (asks key weather ∷ cs) s h = after_calls-IsFiled cs _ (
      answered-IsFiled (λ s. Registration.has key s.view) (ready schedule weather s)
        (ready-IsReadied schedule weather s h))
  after_calls-IsFiled (appends before fate flushes after d ∷ cs) s h =
      after_calls-IsFiled cs _ (append_one-IsFiled before fate flushes after d s h)

  pub opened-IsFiled : IsFiled schedule (opened schedule)
  unfolding write_log append_all
  opened-IsFiled = record {
    logged = record { ds = []; on_file = sym (append-nil (header_lines schedule)) };
    flushed = λ e. refl;
    fresh = λ e. refl;
  }

  IsDurable : Key → Option Bool × FileStore → Type 0
  IsDurable key (none, s) = Unit {0}
  IsDurable key (some answer, s) =
      (loaded : Loaded) × (load schedule false true s.disk ≡ ok loaded)
      × (Registration.has key loaded.backend ≡ answer)

  readied-IsDurable :
      (key : Key) (r : Bool × FileStore)
      → IsReadied schedule r
      → IsDurable key (answer_if schedule (λ s. Registration.has key s.view) r)
  unfolding IsDurable
  readied-IsDurable key (false, s) h = tt
  readied-IsDurable key (true, s) h = (
    record { backend = append_all h.logged.ds empty; torn = false; stamps = false },
    subst
        (λ ls.
          load schedule false true ls
          ≡ ok (record { backend = append_all h.logged.ds empty; torn = false; stamps = false }))
        (sym h.flushed) (load-IsLogged schedule s.file h.logged),
    ap (Registration.has key) (sym h.fresh),
  )

  -- After any calls, each with any flush, read, write or close that fails, the answer to whether a
  -- registration is there, where one is given, is what a load of the flushed lines of the disk gives.
  pub has_key-durable :
      (cs : List Call) (key : Key) (weather : Weather) (answer : Bool)
      → (has_key schedule key weather (after_calls schedule cs (opened schedule))).0 ≡ some answer
      → let (given, s) = has_key schedule key weather (after_calls schedule cs (opened schedule)) in
        (loaded : Loaded) × (load schedule false true s.disk ≡ ok loaded)
        × (Registration.has key loaded.backend ≡ answer)
  unfolding has_key IsDurable
  has_key-durable cs key weather answer e =
      let s = after_calls schedule cs (opened schedule) in
      let (given, s') = has_key schedule key weather s in
      subst (λ o. IsDurable key (o, s')) e
        (readied-IsDurable key (ready schedule weather s) (
          ready-IsReadied schedule weather s
            (after_calls-IsFiled cs (opened schedule) opened-IsFiled)))
