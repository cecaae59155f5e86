-- ===== src/TimeGuard.antt =====
-- core/time_guard.js: the high-water marks of the epoch and the season, and the periods of
-- common/index.js that they watch. The marks' file is what the last rename left.
pub mod Kept
mod Tests
use dash_mno_verify.Prelude.{
  ℕ, ◌/◌, List, [], ◌∷◌, Bool, true, false, ◌&&◌, not, ltb, nat_beq, is_some, Option, none, some,
  Result, ok, err, ◌>>=◌, if◌then◌else◌,
}

pub data Kind : Type 0 where
  epoch season : Kind

pub record Regression : Type 0 where
  pub kind : Kind
  pub observed : ℕ
  pub mark : ℕ
  pub at : ℕ

-- The marks and the regression of a guard.
pub record Marks : Type 0 where
  pub epoch_mark : Option ℕ
  pub season_mark : Option ℕ
  pub regression : Option Regression

-- A guard's path, or none to keep the marks in memory only, and its period lengths, which are not 0.
pub record Clock : Type 0 where
  pub has_path : Bool
  pub epoch_seconds : ℕ
  pub season_seconds : ℕ

-- A mark in the file: null or left out, an integer, or something else.
pub data MarkField : Type 0 where
  null other : MarkField
  integer : ℕ → MarkField

pub record Saved : Type 0 where
  pub epoch_seconds : ℕ
  pub season_seconds : ℕ
  pub epoch : MarkField
  pub season : MarkField
  pub regression : Option Regression

pub data MarksFile : Type 0 where
  missing unreadable not_json not_object : MarksFile
  saved : Saved → MarksFile

pub data GuardError : Type 0 where
  cannot_read invalid_json malformed malformed_mark cannot_save : GuardError

abbrev pub fresh : Marks
fresh = record { epoch_mark = none; season_mark = none; regression = none }

-- A mark of the file, where it is well formed.
abbrev pub mark_of_field : MarkField → Result GuardError (Option ℕ)
mark_of_field null = ok none
mark_of_field (integer n) = ok (some n)
mark_of_field other = err malformed_mark

-- `#load()`. Marks under other lengths are of another numbering.
unfoldable pub load_saved : Clock → Saved → Result GuardError Marks
load_saved clock raw =
    if nat_beq raw.epoch_seconds clock.epoch_seconds
      && nat_beq raw.season_seconds clock.season_seconds
    then (do
      epoch_mark ← mark_of_field raw.epoch
      season_mark ← mark_of_field raw.season
      ok (record {
        epoch_mark = epoch_mark;
        season_mark = season_mark;
        regression = raw.regression;
      }))
    else ok fresh

abbrev pub load_file : Clock → MarksFile → Result GuardError Marks
load_file clock missing = ok fresh
load_file clock unreadable = err cannot_read
load_file clock not_json = err invalid_json
load_file clock not_object = err malformed
load_file clock (saved raw) = load_saved clock raw

unfoldable pub load : Clock → MarksFile → Result GuardError Marks
load clock file = if clock.has_path then load_file clock file else ok fresh

abbrev pub field_of : Option ℕ → MarkField
field_of none = null
field_of (some n) = integer n

-- What `#persist()` writes.
unfoldable pub to_save : Clock → Marks → MarksFile
to_save clock m = saved (record {
  epoch_seconds = clock.epoch_seconds;
  season_seconds = clock.season_seconds;
  epoch = field_of m.epoch_mark;
  season = field_of m.season_mark;
  regression = m.regression;
})

abbrev pub mark_of : Kind → Marks → Option ℕ
mark_of epoch m = m.epoch_mark
mark_of season m = m.season_mark

abbrev pub with_mark : Kind → ℕ → Marks → Marks
with_mark epoch n m = record m { epoch_mark = some n }
with_mark season n m = record m { season_mark = some n }

-- `#observe`: the marks after it where they changed, none where they did not.
abbrev pub observed_at : Kind → ℕ → ℕ → Marks → Option ℕ → Option Marks
observed_at kind value now m none = some (with_mark kind value m)
observed_at kind value now m (some mark) =
    if ltb mark value
    then some (with_mark kind value m)
    else if ltb value mark && not (is_some m.regression)
    then some (record m {
      regression = some (record { kind = kind; observed = value; mark = mark; at = now });
    })
    else none

unfoldable pub observed : Kind → ℕ → ℕ → Marks → Option Marks
observed kind value now m = observed_at kind value now m (mark_of kind m)

-- `epochNow` and `seasonNow` under the guard's lengths.
unfoldable pub period : Clock → Kind → ℕ → ℕ
period clock epoch now = now / clock.epoch_seconds
period clock season now = now / clock.season_seconds

-- A guard and its file. Where the save fails, the read throws, with the new marks in memory and the old
-- ones in the file.
pub record World : Type 0 where
  pub marks : Marks
  pub file : MarksFile

abbrev pub saved_as : Clock → Bool → Marks → MarksFile → Result GuardError (Unit {0}) × MarksFile
saved_as clock saves m file =
    if clock.has_path
    then (if saves then (ok tt, to_save clock m) else (err cannot_save, file))
    else (ok tt, file)

abbrev pub after_observe : Clock → Bool → ℕ → Option Marks → World → Result GuardError ℕ × World
after_observe clock saves value none w = (ok value, w)
after_observe clock saves value (some m) w =
    let (done, file) = saved_as clock saves m w.file in
    (done >>= λ u. ok value, record { marks = m; file = file })

-- `epoch()` and `season()`.
unfoldable pub read_period : Clock → Kind → ℕ → Bool → World → Result GuardError ℕ × World
read_period clock kind now saves w =
    let value = period clock kind now in
    after_observe clock saves value (observed kind value now w.marks) w

-- `regressed`
abbrev pub regressed : Marks → Bool
regressed m = is_some m.regression

-- What happens to a guard: a read at a time, its save done or failed, and a restart, which a file that
-- does not load keeps from happening.
pub data Event : Type 0 where
  reads : Kind → ℕ → Bool → Event
  restarts : Event

abbrev pub restarted : Result GuardError Marks → World → World
restarted (err e) w = w
restarted (ok m) w = record w { marks = m }

unfoldable pub step : Clock → Event → World → World
step clock (reads kind now saves) w = (read_period clock kind now saves w).1
step clock restarts w = restarted (load clock w.file) w

unfoldable pub run : Clock → List Event → World → World
run clock [] w = w
run clock (e ∷ es) w = run clock es (step clock e w)

abbrev pub first_boot : World
first_boot = record { marks = fresh; file = missing }
