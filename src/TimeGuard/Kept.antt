-- ===== src/TimeGuard/Kept.antt =====
-- What the marks' file of core/time_guard.js keeps over reads, failed saves and restarts.
use dash_mno_verify.Prelude.{
  ℕ, ◌⊎◌, ltb→lt, ◌≤◌, ◌≡◌, refl, sym, subst, List, [], ◌∷◌, Bool, true, false, ltb, nat_beq_self,
  is_some, Option, none, some, Result, ok, err, arith, Bool-cases, inl, inr, if◌then◌else◌,
}
use dash_mno_verify.TimeGuard.{
  Kind, epoch, season, Regression, Marks, Clock, MarksFile, GuardError, fresh, load_saved,
  load_file, load, to_save, mark_of, with_mark, observed, observed_at, World, saved_as,
  after_observe, read_period, period, Event, reads, restarts, restarted, step, run, first_boot,
  field_of, mark_of_field,
}

abbrev pub IsAtLeast : Option ℕ → Option ℕ → Type 0
IsAtLeast none new = Unit
IsAtLeast (some old) none = ⊥
IsAtLeast (some old) (some new) = old ≤ new

abbrev pub Stays : Option Regression → Option Regression → Type 0
Stays none new = Unit
Stays (some r) new = new ≡ some r

-- No mark is lower, and a regression is still the one that was seen first.
pub record IsKept (m m' : Marks) : Type 0 where
  pub epochs : IsAtLeast m.epoch_mark m'.epoch_mark
  pub seasons : IsAtLeast m.season_mark m'.season_mark
  pub sticky : Stays m.regression m'.regression

IsAtLeast-refl : (o : Option ℕ) → IsAtLeast o o
IsAtLeast-refl none = tt
IsAtLeast-refl (some n) = omega arith

IsAtLeast-trans : (a b c : Option ℕ) → IsAtLeast a b → IsAtLeast b c → IsAtLeast a c
IsAtLeast-trans none b c h k = tt
IsAtLeast-trans (some x) none c h k = elim h [ ]
IsAtLeast-trans (some x) (some y) none h k = elim k [ ]
IsAtLeast-trans (some x) (some y) (some z) h k = omega arith

Stays-refl : (o : Option Regression) → Stays o o
Stays-refl none = tt
Stays-refl (some r) = refl

Stays-trans : (a b c : Option Regression) → Stays a b → Stays b c → Stays a c
Stays-trans none b c h k = tt
Stays-trans (some r) b c h k = subst (λ o. Stays o c) h k

IsKept-refl : (m : Marks) → IsKept m m
IsKept-refl m = record {
  epochs = IsAtLeast-refl m.epoch_mark;
  seasons = IsAtLeast-refl m.season_mark;
  sticky = Stays-refl m.regression;
}

IsKept-trans : {a b c : Marks} → IsKept a b → IsKept b c → IsKept a c
IsKept-trans {a} {b} {c} h k = record {
  epochs = IsAtLeast-trans a.epoch_mark b.epoch_mark c.epoch_mark h.epochs k.epochs;
  seasons = IsAtLeast-trans a.season_mark b.season_mark c.season_mark h.seasons k.seasons;
  sticky = Stays-trans a.regression b.regression c.regression h.sticky k.sticky;
}

with_mark-IsKept :
    (kind : Kind) (n : ℕ) (m : Marks)
    → IsAtLeast (mark_of kind m) (some n)
    → IsKept m (with_mark kind n m)
with_mark-IsKept epoch n m h = record {
  epochs = h;
  seasons = IsAtLeast-refl m.season_mark;
  sticky = Stays-refl m.regression;
}
with_mark-IsKept season n m h = record {
  epochs = IsAtLeast-refl m.epoch_mark;
  seasons = h;
  sticky = Stays-refl m.regression;
}

Stays-absent : (o new : Option Regression) → is_some o ≡ false → Stays o new
Stays-absent none new h = tt
Stays-absent (some r) new h = cc

abbrev pub marks_after : Marks → Option Marks → Marks
marks_after m none = m
marks_after m (some m') = m'

observed_at-IsKept :
    (kind : Kind) (value now : ℕ) (m : Marks) (o : Option ℕ)
    → mark_of kind m ≡ o
    → IsKept m (marks_after m (observed_at kind value now m o))
observed_at-IsKept kind value now m none e =
    with_mark-IsKept kind value m (subst (λ o. IsAtLeast o (some value)) (sym e) tt)
observed_at-IsKept kind value now m (some mark) e = elim (Bool-cases (ltb mark value)) [
  | inl above ↦ rw above (
      with_mark-IsKept kind value m (
        subst (λ o. IsAtLeast o (some value)) (sym e)
          (let low : mark ≤ value = omega (arith, ltb→lt mark value above) in low)))
  | inr no_higher ↦ elim (Bool-cases (ltb value mark)) [
    | inr same ↦ rw (no_higher, same) (IsKept-refl m)
    | inl below ↦ elim (Bool-cases (is_some m.regression)) [
      | inl known ↦ rw (no_higher, below, known) (IsKept-refl m)
      | inr first ↦
          rw (no_higher, below, first)
            (record {
              epochs = IsAtLeast-refl m.epoch_mark;
              seasons = IsAtLeast-refl m.season_mark;
              sticky = Stays-absent m.regression _ first;
            })
    ]
  ]
]

mark_of_field-field_of : (o : Option ℕ) → mark_of_field (field_of o) ≡ ok o
mark_of_field-field_of none = refl
mark_of_field-field_of (some n) = refl

either_way : {A : Type 0} (t : Bool) (x : A) → (if t then x else x) ≡ x
either_way true x = refl
either_way false x = refl

module _ (clock : Clock) where
  -- What a guard saves, a restart under the same lengths loads.
  load_file-to_save : (m : Marks) → load_file clock (to_save clock m) ≡ ok m
  unfolding to_save load_saved
  load_file-to_save m =
      rw
        (
          nat_beq_self clock.epoch_seconds,
          nat_beq_self clock.season_seconds,
          mark_of_field-field_of m.epoch_mark,
          mark_of_field-field_of m.season_mark,
        )
        refl

  load-to_save : (m : Marks) → clock.has_path ≡ true → load clock (to_save clock m) ≡ ok m
  unfolding load
  load-to_save m on_disk =
      subst (λ t. (if t then load_file clock (to_save clock m) else ok fresh) ≡ ok m) (sym on_disk)
        (load_file-to_save m)

  saved_as-cases :
      (has_path saves : Bool) (m : Marks) (file : MarksFile)
      → clock.has_path ≡ has_path
      → let (done, f) : Result GuardError (Unit {0}) × MarksFile =
          if has_path
          then (if saves then (ok tt, to_save clock m) else (err GuardError.cannot_save, file))
          else (ok tt, file) in
        (f ≡ file) ⊎ ((f ≡ to_save clock m) × (clock.has_path ≡ true))
  saved_as-cases true true m file e = inr (refl, e)
  saved_as-cases true false m file e = inl refl
  saved_as-cases false saves m file e = inl refl

  -- The file loads, and the memory keeps what is in it.
  record IsSaved (w : World) : Type 0 where
    pub on_file : Marks
    pub loads : load clock w.file ≡ ok on_file
    pub below : IsKept on_file w.marks

  abbrev Advances : World → World → Type 0
  Advances w w' = (h : IsSaved w) → (h' : IsSaved w') × IsKept h.on_file h'.on_file

  after_observe-Advances :
      (saves : Bool) (value : ℕ) (o : Option Marks) (w : World)
      → IsKept w.marks (marks_after w.marks o)
      → Advances w (after_observe clock saves value o w).1
  unfolding load
  after_observe-Advances saves value none w k = λ h. (h, IsKept-refl h.on_file)
  after_observe-Advances saves value (some m) w k = λ h.
      let file = (saved_as clock saves m w.file).1 in
      elim (saved_as-cases clock.has_path saves m w.file refl) [
        | inl same ↦ (
          record {
            on_file = h.on_file;
            loads = subst (λ f. load clock f ≡ ok h.on_file) (sym same) h.loads;
            below = IsKept-trans h.below k;
          },
          IsKept-refl h.on_file,
        )
        | inr (new, on_disk) ↦ (
          record {
            on_file = m;
            loads = subst (λ f. load clock f ≡ ok m) (sym new) (load-to_save m on_disk);
            below = IsKept-refl m;
          },
          IsKept-trans h.below k,
        )
      ]

  step-Advances : (e : Event) (w : World) → Advances w (step clock e w)
  unfolding step read_period observed
  step-Advances (reads kind now saves) w =
      after_observe-Advances saves (period clock kind now)
        (observed_at kind (period clock kind now) now w.marks (mark_of kind w.marks)) w
        (observed_at-IsKept kind (period clock kind now) now w.marks (mark_of kind w.marks) refl)
  step-Advances restarts w = λ h.
      subst (λ r. (h' : IsSaved (restarted r w)) × IsKept h.on_file h'.on_file) (sym h.loads)
        (
          record { on_file = h.on_file; loads = h.loads; below = IsKept-refl h.on_file },
          IsKept-refl h.on_file,
        )

  run-Advances : (es : List Event) (w : World) → Advances w (run clock es w)
  unfolding run
  run-Advances [] w h = (h, IsKept-refl h.on_file)
  run-Advances (e ∷ es) w h =
      let (h1, k1) = step-Advances e w h in
      let (h2, k2) = run-Advances es (step clock e w) h1 in (h2, IsKept-trans k1 k2)

  first_boot-IsSaved : IsSaved first_boot
  unfolding load
  first_boot-IsSaved = record {
    on_file = fresh;
    loads = either_way clock.has_path (ok fresh);
    below = IsKept-refl fresh;
  }

  -- Over any reads, whose saves may fail, and restarts from a first boot on, the file always loads; what
  -- a restart would load from it never has a lower mark or another regression than what it would have
  -- loaded at an earlier time; and the memory has no lower mark, and no other regression, than the file.
  pub run-keeps :
      (before after : List Event)
      → let w = run clock before first_boot in
        (m : Marks) × (m' : Marks) × (load clock w.file ≡ ok m)
        × (load clock (run clock after w).file ≡ ok m')
        × IsKept m m'
        × IsKept m' (run clock after w).marks
  run-keeps before after =
      let w = run clock before first_boot in
      let (h1, k1) = run-Advances before first_boot first_boot-IsSaved in
      let (h2, k2) = run-Advances after w h1 in
      (h1.on_file, h2.on_file, h1.loads, h2.loads, k2, h2.below)
