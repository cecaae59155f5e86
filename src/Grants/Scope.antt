-- ===== src/Grants/Scope.antt =====
-- Opening the ledger in adapters/common/grant_ledger.js: `#open`, with the place that the database is bound
-- to. Each statement that writes is kept where a later one throws.
use dash_mno_verify.Prelude.{
  ℕ, List, [], ◌∷◌, Bool, true, not, ◌&&◌, ltb, String, string_eq, ◌==◌, Option, none, some,
  if◌then◌else◌, length, ◌+◌,
}
use dash_mno_verify.Prelude.JsMap.{JsMap}
use dash_mno_verify.Grants.Ledger.{Adapter, Row, Ledger, Regression, observe_clock, put}

-- The database: `importedFrom` by whether it is there.
pub record Store (R : Type 0) : Type 0 where
  pub ledger : Ledger R
  pub scope : Option String
  pub imported : Bool

-- The file of the older version: its grants, its clock mark and its clock's regression, where it can be
-- read.
pub data Legacy (R : Type 0) : Type 0 where
  absent malformed : Legacy R
  legacy : List (String × R) → Option ℕ → Option Regression → Legacy R

pub record Config : Type 0 where
  pub scope : Option String
  pub adopt_scope : Option String
  pub allow_foreign_scope : Bool
  pub reset_clock : Bool
  pub now : ℕ

-- The store that is left, and whether the constructor returned.
pub data Opened (R : Type 0) : Type 0 where
  refused opened : Store R → Opened R

abbrev pub raised : ℕ → Option ℕ → Option ℕ
raised mark none = some mark
raised mark (some old) = if ltb old mark then some mark else some old

module _ {R : Type 0} where
  abbrev pub store_of : Opened R → Store R
  store_of (refused s) = s
  store_of (opened s) = s

  abbrev pub and_then : Opened R → (Store R → Opened R) → Opened R
  and_then (refused s) next = refused s
  and_then (opened s) next = next s

  unfoldable pub highest_rev : JsMap String (Row R) → ℕ
  highest_rev [] = 0
  highest_rev ((user, row) ∷ rows) =
      let rest = highest_rev rows in if ltb rest row.rev then row.rev else rest

  -- `#seedRevSeq()`, for a counter that is a number; 0 stands for none.
  abbrev pub seed_rev_seq : Store R → Store R
  seed_rev_seq s =
      let highest = highest_rev s.ledger.rows in
      if ltb s.ledger.rev_seq highest
      then record s { ledger = record s.ledger { rev_seq = highest } }
      else s

  -- `#pendingLegacyCount`
  abbrev pub pending_count : Legacy R → ℕ
  pending_count absent = 0
  pending_count malformed = 1
  pending_count (legacy entries mark regression) = length entries

  abbrev pub takes_import : Store R → Bool
  takes_import s = not (ltb 0 (length s.ledger.rows)) && not s.imported

  abbrev pub pending_legacy_count : Legacy R → Store R → ℕ
  pending_legacy_count file s = if takes_import s then pending_count file else 0

  -- `#refuseForeignScope`, for a bound database and a configured scope that differ.
  abbrev pub refuse_foreign : String → Bool → Legacy R → Store R → Opened R
  refuse_foreign scope allow file s =
      if allow
      then opened s
      else if ltb 0 (length s.ledger.rows + pending_legacy_count file s)
      then refused s
      else opened (record s { scope = some scope })

  abbrev pub refuse_other : Option String → Option String → Bool → Legacy R → Store R → Opened R
  refuse_other none scope allow file s = opened s
  refuse_other (some bound) none allow file s = opened s
  refuse_other (some bound) (some scope) allow file s =
      if bound == scope then opened s else refuse_foreign scope allow file s

  unfoldable pub refuse_foreign_scope : Config → Legacy R → Store R → Opened R
  refuse_foreign_scope c file s = refuse_other s.scope c.scope c.allow_foreign_scope file s

  -- `#bindScope`
  abbrev pub bind_rows : String → Option String → Store R → Opened R
  bind_rows scope none s =
      if ltb 0 (length s.ledger.rows) then refused s else opened (record s { scope = some scope })
  bind_rows scope (some adopt) s =
      if ltb 0 (length s.ledger.rows) && not (adopt == scope)
      then refused s
      else opened (record s { scope = some scope })

  abbrev pub bind_unbound : Option String → Option String → Option String → Store R → Opened R
  bind_unbound none adopt bound s = opened s
  bind_unbound (some scope) adopt (some bound) s = opened s
  bind_unbound (some scope) adopt none s = bind_rows scope adopt s

  unfoldable pub bind_scope : Config → Store R → Opened R
  bind_scope c s = bind_unbound c.scope c.adopt_scope s.scope s

  -- `raiseMark`, where the file has a mark.
  abbrev pub raise_mark : Option ℕ → Ledger R → Ledger R
  raise_mark none l = l
  raise_mark (some mark) l = record l { clock_mark = raised mark l.clock_mark }

  -- The regression of the file, where it has one.
  abbrev pub adopt_regression : Option Regression → Ledger R → Ledger R
  adopt_regression none l = l
  adopt_regression (some regression) l = record l { clock_regressed = some regression }

  -- What is left of `#open`: the floor is dropped on request, and the clock observed.
  abbrev pub start_clock : Config → Store R → Opened R
  start_clock c s =
      let l =
        if c.reset_clock
        then record s.ledger { clock_mark = none; clock_regressed = none }
        else s.ledger in
      opened (record s { ledger = (observe_clock c.now l).1 })

module _ {R O : Type 0} (a : Adapter R O) where
  -- The rows of the file, unless one is malformed.
  unfoldable pub put_entries : List (String × R) → Ledger R → Option (Ledger R)
  put_entries [] l = some l
  put_entries ((user, r) ∷ rest) l =
      let more = put_entries rest (put user r l).1 in if a.validate r then more else none

  abbrev pub adopt_entries : Option ℕ → Option Regression → Option (Ledger R) → Store R → Opened R
  adopt_entries mark regression none s = refused s
  adopt_entries mark regression (some l) s =
      opened
        (record s { ledger = adopt_regression regression (raise_mark mark l); imported = true })

  abbrev pub import_file : Legacy R → Store R → Opened R
  import_file absent s = opened s
  import_file malformed s = refused s
  import_file (legacy entries mark regression) s =
      adopt_entries mark regression (put_entries entries s.ledger) s

  -- `#importLegacy`
  unfoldable pub import_legacy : Legacy R → Store R → Opened R
  import_legacy file s = if takes_import s then import_file file s else opened s

  unfoldable pub all_valid : JsMap String (Row R) → Bool
  all_valid [] = true
  all_valid ((user, row) ∷ rows) = a.validate row.record_ && all_valid rows

  -- `#validateAll`
  abbrev pub validate_all : Store R → Opened R
  validate_all s = if all_valid s.ledger.rows then opened s else refused s

  unfoldable pub open_store : Config → Legacy R → Store R → Opened R
  open_store c file s = and_then (refuse_foreign_scope c file (seed_rev_seq s)) (λ s1.
      and_then (import_legacy file s1)
        (λ s2. and_then (bind_scope c s2) (λ s3. and_then (validate_all s3) (start_clock c))))
