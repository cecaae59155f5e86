-- ===== src/Grants/Tracked.antt =====
-- The invariant of adapters/common/grant_ledger.js, member by member, as the source words it: the row
-- always covers everything that could be live.
use dash_mno_verify.Prelude.{
  Bool, true, false, String, string_eq, ==_self, Option, none, some, ◌≡◌, sym, ap, arith, subst,
}
use dash_mno_verify.Prelude.JsMap
use dash_mno_verify.Grants.Ledger.{Adapter, Row, Ledger, row_of, put}
use dash_mno_verify.Grants.Others.{Kept}
use dash_mno_verify.Grants.Machine.{
  Phase, World, Answer, give, take, wait, settle, migrating, done, applying, compensating, sweeping,
  admitting,
}

-- What an adapter's comparison of records has to mean: no part is orphaned only where the new record names
-- all of the old one, the old targets that are not in the orphaned part are in the new record, and a
-- covering record names all of the old one.
pub record Laws {R O : Type 0} (a : Adapter R O) : Type 0 where
  pub none_orphaned :
      (prev r : R)
      → a.orphaned prev r ≡ none
      → (t : String) → a.names prev t ≡ true
      → a.names r t ≡ true
  pub carried :
      (prev r : R) (o : O)
      → a.orphaned prev r ≡ some o
      → (t : String) → a.names prev t ≡ true
      → a.names_part o t ≡ false
      → a.names r t ≡ true
  pub covered :
      (prev r c : R) (o : O)
      → a.orphaned prev r ≡ some o
      → a.covering r o ≡ some c
      → (t : String) → a.names prev t ≡ true
      → a.names c t ≡ true

abbrev pub Within : (String → Bool) → (String → Bool) → Type 0
Within f g = (t : String) → f t ≡ true → g t ≡ true

module _ {R O : Type 0} (a : Adapter R O) where
  -- The targets that a member's row names.
  abbrev pub named : Option (Row R) → String → Bool
  named none t = false
  named (some row) t = a.names row.record_ t

  -- For a waiting operation, the targets of its row and the live ones.
  unfoldable pub Waiting : Phase R O → (String → Bool) → (String → Bool) → Type 0
  Waiting (migrating prev r o covered) row acc =
      Within acc (a.names prev) × Within (a.names prev) row × (a.orphaned prev r ≡ some o)
  Waiting (applying r first rev) row acc =
      Within acc (a.names r)
      × Within (a.names r) row
      × (first ≡ true → (t : String) → acc t ≡ false)
  Waiting (compensating r rev) row acc = Within acc (a.names r) × Within (a.names r) row
  Waiting (sweeping r rev) row acc = Within acc (a.names r) × Within (a.names r) row
  Waiting (admitting r) row acc = Within acc row × Within (a.names r) row

  unfoldable pub Tracks : Option (Phase R O) → (String → Bool) → (String → Bool) → Type 0
  Tracks none row acc = Within acc row
  Tracks (some phase) row acc = Waiting phase row acc

  unfoldable pub Tracked : String → World R O → Type 0
  Tracked user w = Tracks (JsMap.get user w.phases) (named (row_of user w.ledger)) (w.access user)

  -- A step on a member that leaves the other members as they were and the member's row over its access.
  abbrev pub Good : String → World R O → World R O → Type 0
  Good user w w' = Kept user w w' × Tracked user w'

  pub trans-Within : (f g h : String → Bool) → Within f g → Within g h → Within f h
  trans-Within f g k p q t e = q t (p t e)

  pub Waiting-Within :
      (phase : Phase R O) (row acc : String → Bool) → Waiting phase row acc → Within acc row
  unfolding Waiting
  Waiting-Within (migrating prev r o covered) row acc (h, k, e) = trans-Within _ _ _ h k
  Waiting-Within (applying r first rev) row acc (h, k, e) = trans-Within _ _ _ h k
  Waiting-Within (compensating r rev) row acc (h, k) = trans-Within _ _ _ h k
  Waiting-Within (sweeping r rev) row acc (h, k) = trans-Within _ _ _ h k
  Waiting-Within (admitting r) row acc (h, k) = h

  pub Tracks-Within :
      (p : Option (Phase R O)) (row acc : String → Bool) → Tracks p row acc → Within acc row
  unfolding Tracks
  Tracks-Within none row acc h = h
  Tracks-Within (some phase) row acc h = Waiting-Within phase row acc h

  module _ (user : String) (w : World R O) where
    pub wait-Tracked :
        (phase : Phase R O)
        → Waiting phase (named (row_of user w.ledger)) (w.access user)
        → Tracked user (wait user phase w)
    unfolding Tracked Tracks
    wait-Tracked phase h =
        subst (λ p. Tracks p (named (row_of user w.ledger)) (w.access user))
          (sym (JsMap.get-put_self user phase w.phases)) h

    pub settle-Tracked :
        Within (w.access user) (named (row_of user w.ledger)) → Tracked user (settle user w)
    unfolding Tracked Tracks
    settle-Tracked h =
        subst (λ p. Tracks p (named (row_of user w.ledger)) (w.access user))
          (sym (JsMap.get-delete_self user w.phases)) h

    pub free-Tracked :
        JsMap.get user w.phases ≡ none
        → Within (w.access user) (named (row_of user w.ledger))
        → Tracked user w
    unfolding Tracked Tracks
    free-Tracked e h =
        subst (λ p. Tracks p (named (row_of user w.ledger)) (w.access user)) (sym e) h

    pub Tracked-free :
        JsMap.get user w.phases ≡ none
        → Tracked user w
        → Within (w.access user) (named (row_of user w.ledger))
    unfolding Tracked
    Tracked-free e h = Tracks-Within _ _ _ h

    -- What `give` and `take` leave.
    pub give-Within :
        (names row : String → Bool) (answer : Answer)
        → Within (w.access user) row
        → Within names row
        → Within ((give user names answer w).access user) row
    unfolding give
    give-Within names row answer h k t e = ground (arith, h t, k t)

    pub take-Within :
        (names row : String → Bool) (answer : Answer)
        → Within (w.access user) row
        → Within ((take user names answer w).access user) row
    unfolding take
    take-Within names row answer h t e = ground (arith, h t)

    pub take_done :
        (names : String → Bool) (t : String)
        → (take user names done w).access user t ≡ true
        → (w.access user t ≡ true) × (names t ≡ false)
    unfolding take
    take_done names t e = ground (arith, ==_self user)

  pub named-put :
      (user : String) (r : R) (l : Ledger R) → named (row_of user (put user r l).1) ≡ a.names r
  unfolding put
  named-put user r l = ap named (JsMap.get-put_self user _ l.rows)

  pub to_named :
      (user : String) (r : R) (l : Ledger R) (f : String → Bool)
      → Within f (a.names r)
      → Within f (named (row_of user (put user r l).1))
  to_named user r l f h = subst (λ g. Within f g) (sym (named-put user r l)) h
