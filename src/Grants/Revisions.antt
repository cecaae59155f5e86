-- ===== src/Grants/Revisions.antt =====
-- The revisions of the rows in adapters/common/grant_ledger.js, and `revSeq`.
use dash_mno_verify.Prelude.{
  ℕ, suc, ◌≤◌, ◌≡◌, ap, ◌∙◌, List, [], ◌∷◌, Bool, true, false, String, string_eq, ◌==◌, Option,
  some, none, some-injective, arith, if◌then◌else◌, nat_beq_ne,
}
use dash_mno_verify.Prelude.JsMap
use dash_mno_verify.Prelude.JsMap.{JsMap}
use dash_mno_verify.Grants.Ledger.{
  Adapter, Row, Ledger, row_of, put, has_rev, delete_rev, observe_clock, observed_at,
}
use dash_mno_verify.Grants.Machine.{World, Event, run_events}
use dash_mno_verify.Grants.Grows.{Grows, run_events-grows}
use dash_mno_verify.Grants.Scope.{Store, highest_rev, seed_rev_seq}

module _ {R : Type 0} where
  abbrev rev_seq_of : Ledger R → ℕ
  rev_seq_of l = l.rev_seq

  rev_seq-observed_at :
      (now : ℕ) (l : Ledger R) (mark : Option ℕ) → l.rev_seq ≤ (observed_at now l mark).1.rev_seq
  rev_seq-observed_at now l none = omega arith
  rev_seq-observed_at now l (some mark) = ground arith

  rev_seq-Grows : Grows rev_seq_of
  unfolding put delete_rev observe_clock
  rev_seq-Grows = record {
    observed = λ now l. rev_seq-observed_at now l l.clock_mark;
    stored = λ user r l. omega arith;
    deleted = λ user rev l. ground arith;
  }

  highest_rev-le :
      (user : String) (rows : JsMap String (Row R)) (row : Row R)
      → JsMap.get user rows ≡ some row
      → row.rev ≤ highest_rev rows
  unfolding JsMap.get highest_rev
  highest_rev-le user [] row e = absurd (ground arith)
  highest_rev-le user ((u, x) ∷ rows) row e = go (u == user) e (highest_rev-le user rows row)
    where
      go :
          (here : Bool)
          → (if here then some x else JsMap.get user rows) ≡ some row
          → (JsMap.get user rows ≡ some row → row.rev ≤ highest_rev rows)
          → row.rev ≤ highest_rev ((u, x) ∷ rows)
      go true h rest = ground (arith, ap (λ (r : Row R). r.rev) (some-injective x row h))
      go false h rest = ground (arith, rest h)

  seed_rev_seq-le : (s : Store R) → highest_rev s.ledger.rows ≤ (seed_rev_seq s).ledger.rev_seq
  seed_rev_seq-le s = ground arith

-- A delete by the revision of a row that was there when the ledger was opened does nothing to a row of the
-- member that a later grant has written, whatever happened between, so that what was read before the
-- grant cannot delete it.
pub delete_rev-stale :
    {R O : Type 0} (a : Adapter R O) (s : Store R) (w : World R O) (es : List (Event R))
    (user : String) (r : R) (row : Row R)
    → row_of user s.ledger ≡ some row
    → w.ledger ≡ (seed_rev_seq s).ledger
    → let l = (put user r (run_events a es w).ledger).1 in delete_rev user row.rev l ≡ (false, l)
unfolding delete_rev put
delete_rev-stale a s w es user r row e opened =
    let top = (run_events a es w).ledger in
    let older : row.rev ≤ top.rev_seq = omega (
      arith,
      highest_rev-le user s.ledger.rows row e,
      seed_rev_seq-le s,
      ap rev_seq_of opened,
      run_events-grows rev_seq_of rev_seq-Grows a es w,
    ) in
    let other : has_rev row.rev (row_of user (put user r top).1) ≡ false =
      ap (has_rev row.rev) (JsMap.get-put_self user _ top.rows)
      ∙ nat_beq_ne (suc top.rev_seq) row.rev (λ same. omega (arith, older, same)) in
    ap
      (λ t.
        if t
        then (true, record (put user r top).1 { rows = JsMap.delete user (put user r top).1.rows })
        else (false, (put user r top).1))
      other
