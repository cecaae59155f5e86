-- ===== src/Grants/Ledger.antt =====
-- The rows and the clock of adapters/common/grant_ledger.js. A statement of the database is one step:
-- it is done, or it throws and changes nothing.
use dash_mno_verify.Prelude.{
  ℕ, suc, [], Bool, true, false, not, ◌&&◌, ltb, nat_beq, is_some, String, string_eq, Option, none,
  some, if◌then◌else◌,
}
use dash_mno_verify.Prelude.JsMap
use dash_mno_verify.Prelude.JsMap.{JsMap}

-- What the adapter passes to the constructor: R is its records, O what `orphaned` takes from one. `names`
-- and `names_part` say which of the platform's targets they name.
pub record Adapter (R O : Type 0) : Type 0 where
  pub expires_at : R → ℕ
  pub validate : R → Bool
  pub orphaned : R → R → Option O
  pub covering : R → O → Option R
  pub repairs : Bool
  pub names : R → String → Bool
  pub names_part : O → String → Bool

pub record Row (R : Type 0) : Type 0 where
  pub record_ : R
  pub rev : ℕ

pub record Regression : Type 0 where
  pub observed : ℕ
  pub mark : ℕ

-- The tables: `grants`, and of `meta` the keys `clockMark`, `clockRegressed` and `revSeq`.
pub record Ledger (R : Type 0) : Type 0 where
  pub rows : JsMap String (Row R)
  pub clock_mark : Option ℕ
  pub clock_regressed : Option Regression
  pub rev_seq : ℕ

abbrev pub empty : {R : Type 0} → Ledger R
empty = record { rows = []; clock_mark = none; clock_regressed = none; rev_seq = 0 }

module _ {R : Type 0} where
  -- `#observeClock()`: the floor, and the ledger.
  abbrev pub observed_at : ℕ → Ledger R → Option ℕ → ℕ × Ledger R
  observed_at now l none = (now, record l { clock_mark = some now })
  observed_at now l (some mark) =
      if ltb mark now then (now, record l { clock_mark = some now }) else (
        mark,
        if ltb now mark && not (is_some l.clock_regressed)
            then record l { clock_regressed = some (record { observed = now; mark = mark }) }
            else l,
      )

  unfoldable pub observe_clock : ℕ → Ledger R → ℕ × Ledger R
  observe_clock now l = observed_at now l l.clock_mark

  abbrev pub record_of : Option (Row R) → Option R
  record_of none = none
  record_of (some row) = some row.record_

  -- `#rowWithRev`, `#row`
  abbrev pub row_of : String → Ledger R → Option (Row R)
  row_of user l = JsMap.get user l.rows

  -- `#put` where it does not throw, with the revision that it wrote.
  unfoldable pub put : String → R → Ledger R → ℕ × Ledger R
  put user r l = (
    suc l.rev_seq,
    record l {
      rows = JsMap.put user (record { record_ = r; rev = suc l.rev_seq }) l.rows;
      rev_seq = suc l.rev_seq;
    },
  )

  abbrev pub has_rev : ℕ → Option (Row R) → Bool
  has_rev rev none = false
  has_rev rev (some row) = nat_beq row.rev rev

  -- `DELETE … WHERE user_id=? AND rev=?`, and whether it changed a row.
  unfoldable pub delete_rev : String → ℕ → Ledger R → Bool × Ledger R
  delete_rev user rev l =
      if has_rev rev (row_of user l)
      then (true, record l { rows = JsMap.delete user l.rows })
      else (false, l)
