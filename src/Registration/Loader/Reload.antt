-- ===== src/Registration/Loader/Reload.antt =====
-- A restart in core/registration_store.js: what the appends wrote is what the load rebuilds.
use dash_mno_verify.Registration.Loader.Written.{write_log, header_lines, load_lines-log}
use dash_mno_verify.Registration.Loader.InOrder.{append_all-IsInOrder, ordered-IsInOrder}
use dash_mno_verify.Prelude.{
  ==_self, ◌≡◌, refl, List, [], ◌∷◌, ◌++◌, Bool, true, false, String, Option, some, none, ok,
  string_eq, nat_eq, pair_eq,
}
use dash_mno_verify.Registration.{Request, empty, append_all}
use dash_mno_verify.Registration.Loader.{
  Line, blank, malformed, Loading, load_line, load_lines, start, finish, load, is_set,
}

-- The state after the header line.
abbrev headed : Option String → Loading
headed schedule = record start { seen_header = is_set schedule }

finish-log :
    (schedule : Option String) (assume torn : Bool) (ds : List Request)
    → finish schedule assume (record (headed schedule) { backend = append_all ds empty }, torn)
      ≡ ok (record { backend = append_all ds empty; torn = torn; stamps = false })
unfolding finish
finish-log none assume torn ds =
    rw (ordered-IsInOrder (append_all ds empty).by_bucket (append_all-IsInOrder ds empty tt)) refl
finish-log (some schedule) assume torn ds =
    rw (ordered-IsInOrder (append_all ds empty).by_bucket (append_all-IsInOrder ds empty tt)) refl

load_lines-headed :
    (schedule : Option String) (ends_newline : Bool) (lines : List Line)
    → load_lines schedule ends_newline (header_lines schedule ++ lines) start
      ≡ load_lines schedule ends_newline lines (headed schedule)
unfolding load_lines load_line
load_lines-headed none ends_newline lines = refl
load_lines-headed (some schedule) ends_newline lines = rw (==_self schedule) refl

-- A file that ends as `rest` does after its header and the lines of the appends.
pub load-log :
    (schedule : Option String) (assume ends_newline torn : Bool) (ds : List Request)
    (rest : List Line)
    → ((l : Loading) → load_lines schedule ends_newline rest l ≡ ok (l, torn))
    → load schedule assume ends_newline (header_lines schedule ++ (write_log ds empty ++ rest))
      ≡ ok (record { backend = append_all ds empty; torn = torn; stamps = false })
unfolding load
load-log schedule assume ends_newline torn ds rest ends =
    rw
      (
        load_lines-headed schedule ends_newline (write_log ds empty ++ rest),
        load_lines-log schedule ends_newline ds rest (headed schedule),
        ends (record (headed schedule) { backend = append_all ds empty }),
      )
      (finish-log schedule assume torn ds)

-- What any requests leave in the store is what a restart loads from the file that their appends wrote
-- under the schedule of the gateway: where the file is whole, where the last append stopped before its
-- newline, and where it stopped within its line, which alone is dropped.
pub load-write_log :
    (schedule : Option String) (assume : Bool) (ds : List Request)
    → (load schedule assume true (header_lines schedule ++ (write_log ds empty ++ blank ∷ []))
        ≡ ok (record { backend = append_all ds empty; torn = false; stamps = false }))
      × (load schedule assume false (header_lines schedule ++ (write_log ds empty ++ []))
          ≡ ok (record { backend = append_all ds empty; torn = false; stamps = false }))
      × (load schedule assume false
            (header_lines schedule ++ (write_log ds empty ++ malformed ∷ []))
          ≡ ok (record { backend = append_all ds empty; torn = true; stamps = false }))
unfolding load_lines
load-write_log schedule assume ds = (
  load-log schedule assume true false ds (blank ∷ []) (λ l. refl),
  load-log schedule assume false false ds [] (λ l. refl),
  load-log schedule assume false true ds (malformed ∷ []) (λ l. refl),
)
