-- ===== src/Registration/FileBackend/Filed.antt =====
-- The file of `FileBackend` of core/registration_store.js, and a view that is current with it.
use mathlib.Core.List.{append-nil, append_assoc}
use dash_mno_verify.Prelude.{
  ℕ, ◌≡◌, refl, sym, ap, ◌∙◌, subst, List, [], ◌∷◌, ◌++◌, Bool, true, false, ◌||◌, String, Option,
  ok, if◌then◌else◌, Bool-cases, inl, inr, true_not_false,
}
use dash_mno_verify.Registration
use dash_mno_verify.Registration.{
  Registration, Request, Key, Backend, Appended, bucket_of, records_of, push, empty, append,
  append_checked, append_all, is_valid,
}
use dash_mno_verify.Registration.Loader.{Line, object, LoadError, Loaded, load}
use dash_mno_verify.Registration.Loader.Written.{written, lines_of, write_log, header_lines}
use dash_mno_verify.Registration.Loader.Reload.{load-log}
use dash_mno_verify.Registration.FileBackend.{
  FileStore, Weather, mark, flush, installed, load_if, reconcile, ready,
}

pub write_log-snoc :
    (ds : List Request) (b b' : Backend) (d : Request) (index : ℕ)
    → append_checked d (append_all ds b) ≡ (Appended.appended index, b')
    → (write_log (ds ++ d ∷ []) b ≡ write_log ds b ++ object (written d index) ∷ [])
      × (append_all (ds ++ d ∷ []) b ≡ b')
unfolding write_log append_all
write_log-snoc [] b b' d index e = (rw e refl, ap (λ x. x.1) e)
write_log-snoc (x ∷ ds) b b' d index e =
    let (answer, b1) = append_checked x b in
    let (lines, all) = write_log-snoc ds b1 b' d index e in
    (ap (λ ls. lines_of answer x ++ ls) lines ∙ sym (append_assoc (lines_of answer x) _ _), all)

module _ (schedule : Option String) where
  -- The lines of some appends.
  pub record IsLogged (file : List Line) : Type 0 where
    pub ds : List Request
    pub on_file : file ≡ header_lines schedule ++ write_log ds empty

  -- The file is of some appends; it is flushed unless the store says that it may not be, and the view is
  -- theirs unless the store says that it may not be.
  pub record IsFiled (s : FileStore) : Type 0 where
    pub logged : IsLogged s.file
    pub flushed : s.unbarriered ≡ false → s.disk ≡ s.file
    pub fresh : (s.stale || s.unbarriered) ≡ false → s.view ≡ append_all logged.ds empty

  pub record IsCurrent (s : FileStore) : Type 0 where
    pub logged : IsLogged s.file
    pub flushed : s.disk ≡ s.file
    pub fresh : s.view ≡ append_all logged.ds empty

  pub current-IsFiled : {s : FileStore} → IsCurrent s → IsFiled s
  current-IsFiled h = record { logged = h.logged; flushed = λ e. h.flushed; fresh = λ e. h.fresh }

  pub mark-IsFiled : (s : FileStore) → IsLogged s.file → IsFiled (mark s)
  mark-IsFiled s h = record {
    logged = h;
    flushed = λ e. absurd (true_not_false e);
    fresh = λ e. absurd (true_not_false e);
  }

  abbrev pub IsReadied : Bool × FileStore → Type 0
  IsReadied (true, s) = IsCurrent s
  IsReadied (false, s) = IsFiled s

  pub load-IsLogged :
      (file : List Line) (h : IsLogged file)
      → load schedule false true file
        ≡ ok (record { backend = append_all h.ds empty; torn = false; stamps = false })
  unfolding Registration.Loader.load_lines
  load-IsLogged file h =
      subst
        (λ f.
          load schedule false true f
          ≡ ok (record { backend = append_all h.ds empty; torn = false; stamps = false }))
        (sym (
          h.on_file
          ∙ ap (λ ls. header_lines schedule ++ ls) (sym (append-nil (write_log h.ds empty)))))
        (load-log schedule false true false h.ds [] (λ l. refl))

  stale-IsFiled :
      (s : FileStore)
      → IsLogged s.file
      → (s.unbarriered ≡ false → s.disk ≡ s.file)
      → IsFiled (record s { stale = true })
  stale-IsFiled s h k = record { logged = h; flushed = k; fresh = λ e. absurd (true_not_false e) }

  load_if-IsReadied :
      (reads : Bool) (s : FileStore)
      → IsLogged s.file
      → s.disk ≡ s.file
      → IsReadied (load_if schedule reads s)
  load_if-IsReadied false s h k = stale-IsFiled s h (λ e. k)
  load_if-IsReadied true s h k =
      subst (λ r. IsReadied (installed schedule s r)) (sym (load-IsLogged s.file h))
        (record { logged = h; flushed = k; fresh = refl })

  reconcile_at-IsReadied :
      (unbarriered : Bool) (weather : Weather) (s : FileStore)
      → s.unbarriered ≡ unbarriered
      → IsFiled s
      → IsReadied (
          if unbarriered
          then (if weather.flushes
              then load_if schedule weather.reads (flush s)
              else (false, record s { stale = true }))
          else load_if schedule weather.reads s)
  reconcile_at-IsReadied false weather s e h =
      load_if-IsReadied weather.reads s h.logged (h.flushed e)
  reconcile_at-IsReadied true weather s e h = elim (Bool-cases weather.flushes) [
    | inl holds ↦
        subst
          (λ t. IsReadied (
            if t
            then load_if schedule weather.reads (flush s)
            else (false, record s { stale = true })))
          (sym holds) (load_if-IsReadied weather.reads (flush s) h.logged refl)
    | inr fails ↦
        subst
          (λ t. IsReadied (
            if t
            then load_if schedule weather.reads (flush s)
            else (false, record s { stale = true })))
          (sym fails) (stale-IsFiled s h.logged h.flushed)
  ]

  pub reconcile-IsReadied :
      (weather : Weather) (s : FileStore) → IsFiled s → IsReadied (reconcile schedule weather s)
  unfolding reconcile
  reconcile-IsReadied weather s h = reconcile_at-IsReadied s.unbarriered weather s refl h

  no_barrier : (x y : Bool) → (x || y) ≡ false → y ≡ false
  no_barrier false y e = e
  no_barrier true y e = cc

  ready_at-IsReadied :
      (behind : Bool) (weather : Weather) (s : FileStore)
      → (s.stale || s.unbarriered) ≡ behind
      → IsFiled s
      → IsReadied (if behind then reconcile schedule weather s else (true, s))
  ready_at-IsReadied true weather s e h = reconcile-IsReadied weather s h
  ready_at-IsReadied false weather s e h = record {
    logged = h.logged;
    flushed = h.flushed (no_barrier s.stale s.unbarriered e);
    fresh = h.fresh e;
  }

  pub ready-IsReadied :
      (weather : Weather) (s : FileStore) → IsFiled s → IsReadied (ready schedule weather s)
  unfolding ready
  ready-IsReadied weather s h = ready_at-IsReadied (s.stale || s.unbarriered) weather s refl h

  pub readied-IsFiled : (r : Bool × FileStore) → IsReadied r → IsFiled r.1
  readied-IsFiled (true, s) h = current-IsFiled h
  readied-IsFiled (false, s) h = h
