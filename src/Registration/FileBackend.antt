-- ===== src/Registration/FileBackend.antt =====
-- core/registration_store.js: `FileBackend` between its file and its index. The file is the lines that a
-- read of it sees, the empty piece after the last newline left out, and the disk those that a flush has
-- forced; a flush, an open, a read or a close may fail. A write of part of a line, the flush that a load
-- makes of its own and calls that overlap are not modelled here.
pub mod Filed
pub mod Durable
pub mod Acknowledged
mod Tests
use dash_mno_verify.Prelude.{
  List, [], ◌∷◌, ◌++◌, Bool, true, false, ◌||◌, length, String, Option, some, none, Result, ok, err,
  if◌then◌else◌, ◌==◌, string_eq, nat_eq, pair_eq,
}
use dash_mno_verify.Registration
use dash_mno_verify.Registration.{
  Registration, Request, Key, Backend, Appended, bucket_of, key_of, records_of, push, empty, append,
  is_valid,
}
use dash_mno_verify.Registration.Loader.{Line, object, LoadError, Loaded, load, same_registration}
use dash_mno_verify.Registration.Loader.Written.{written, header_lines}

-- `seen` and `byBucket` are the view.
pub record FileStore : Type 0 where
  pub view : Backend
  pub stale : Bool
  pub unbarriered : Bool
  pub file : List Line
  pub disk : List Line

-- What a call of the file system does, for a reconciliation: whether its flush holds, and its read.
pub record Weather : Type 0 where
  pub flushes : Bool
  pub reads : Bool

-- How far the write of a record comes: it is not there, it is there and not flushed, it is flushed and
-- the close fails, or all is well.
pub data WriteFate : Type 0 where
  not_written not_flushed not_closed done : WriteFate

-- `#mark()`
abbrev pub mark : FileStore → FileStore
mark s = record s { stale = true; unbarriered = true }

abbrev pub flush : FileStore → FileStore
flush s = record s { disk = s.file }

-- The calls of a store: `has`, and `append` with the weather before its write, the write, and the flush
-- and the weather of its `catch`.
pub data Call : Type 0 where
  asks : Key → Weather → Call
  appends : Weather → WriteFate → Bool → Weather → Request → Call

module _ (schedule : Option String) where
  abbrev pub installed : FileStore → Result LoadError Loaded → Bool × FileStore
  installed s (err e) = (false, record s { stale = true })
  installed s (ok loaded) =
      (true, record s { view = loaded.backend; stale = false; unbarriered = false })

  abbrev pub load_if : Bool → FileStore → Bool × FileStore
  load_if true s = installed s (load schedule false true s.file)
  load_if false s = (false, record s { stale = true })

  -- `#reconcile()`: a flush where one is due, and the load; whether it succeeded.
  unfoldable pub reconcile : Weather → FileStore → Bool × FileStore
  reconcile weather s =
      if s.unbarriered
      then (if weather.flushes
          then load_if weather.reads (flush s)
          else (false, record s { stale = true }))
      else load_if weather.reads s

  -- `#ready()`
  unfoldable pub ready : Weather → FileStore → Bool × FileStore
  ready weather s = if s.stale || s.unbarriered then reconcile weather s else (true, s)

  abbrev pub answer_if : {A : Type 0} → (FileStore → A) → Bool × FileStore → Option A × FileStore
  answer_if read (true, s) = (some (read s), s)
  answer_if read (false, s) = (none, s)

  -- `has`, none where it throws.
  unfoldable pub has_key : Key → Weather → FileStore → Option Bool × FileStore
  has_key key weather s = answer_if (λ s. Registration.has key s.view) (ready weather s)

  unfoldable pub write_line : WriteFate → Request → FileStore → FileStore
  write_line not_written d s = s
  write_line not_flushed d s = record s {
    file = s.file ++ object (written d (length (records_of (bucket_of d) s.view))) ∷ [];
  }
  write_line not_closed d s =
      let file = s.file ++ object (written d (length (records_of (bucket_of d) s.view))) ∷ [] in
      record s { file = file; disk = file; view = push d s.view }
  write_line done d s =
      let file = s.file ++ object (written d (length (records_of (bucket_of d) s.view))) ∷ [] in
      record s { file = file; disk = file; view = push d s.view }

  abbrev pub first_with : Key → List Registration → Option Registration
  first_with key [] = none
  first_with key (r ∷ rs) =
      let rest = first_with key rs in if key_of r.request == key then some r else rest

  -- The record that the retried flush and the load have found for the key.
  abbrev pub landed : Request → Option Registration → Option Appended
  landed d none = none
  landed d (some found) =
      if same_registration found (record { request = d; index = found.index })
      then some (Appended.appended found.index)
      else some Appended.duplicate

  abbrev pub found_after : Request → Bool × FileStore → Option Appended × FileStore
  found_after d (false, s) = (none, s)
  found_after d (true, s) = (landed d (first_with (key_of d) (records_of (bucket_of d) s.view)), s)

  -- The outer `catch`: the flush again, and the load.
  unfoldable pub recover : Weather → Bool → Request → FileStore → Option Appended × FileStore
  recover weather flushes d s =
      if flushes then found_after d (reconcile weather (flush s)) else (none, s)

  abbrev pub written_or :
      WriteFate → Weather → Bool → Request → FileStore → Option Appended × FileStore
  written_or done weather flushes d s =
      (some (Appended.appended (length (records_of (bucket_of d) s.view))), write_line done d s)
  written_or fate weather flushes d s = recover weather flushes d (mark (write_line fate d s))

  abbrev pub write_if :
      WriteFate → Weather → Bool → Request → FileStore → Appended → Option Appended × FileStore
  write_if fate weather flushes d s (Appended.appended index) = written_or fate weather flushes d s
  write_if fate weather flushes d s refusal = (some refusal, s)

  abbrev pub append_ready :
      WriteFate → Weather → Bool → Request → Bool × FileStore → Option Appended × FileStore
  append_ready fate weather flushes d (false, s) = (none, s)
  append_ready fate weather flushes d (true, s) =
      write_if fate weather flushes d s (append d s.view).0

  -- The store's `append` over `#appendOne`, none where it throws: the weather before the write, the
  -- write, and the flush and the weather of the `catch`.
  unfoldable pub append_one :
      Weather → WriteFate → Bool → Weather → Request → FileStore → Option Appended × FileStore
  append_one before fate flushes after d s =
      if is_valid d
      then append_ready fate after flushes d (ready before s)
      else (some Appended.invalid, s)

  unfoldable pub after_call : Call → FileStore → FileStore
  after_call (asks key weather) s = (has_key key weather s).1
  after_call (appends before fate flushes after d) s = (append_one before fate flushes after d s).1

  unfoldable pub after_calls : List Call → FileStore → FileStore
  after_calls [] s = s
  after_calls (c ∷ cs) s = after_calls cs (after_call c s)

  -- The store over a new file with its header.
  abbrev pub opened : FileStore
  opened = record {
    view = empty;
    stale = false;
    unbarriered = false;
    file = header_lines schedule;
    disk = header_lines schedule;
  }
