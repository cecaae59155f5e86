-- ===== src/Grants/Resumes.antt =====
-- The steps after the platform's answer in adapters/common/grant_ledger.js, and a member's row and access.
use dash_mno_verify.Prelude.{
  ℕ, Bool, true, false, String, string_eq, ◌≡◌, refl, ◌∙◌, arith, if◌then◌else◌,
}
use dash_mno_verify.Grants.Ledger.{Adapter, row_of}
use dash_mno_verify.Grants.Machine.{
  done, unsent, partly, Phase, World, Answer, wait, settle, give, take, is_done, is_unsent,
  forget_row, put_back, failed_apply, resume, migrating, partly, compensating, applying, sweeping,
  admitting,
}
use dash_mno_verify.Grants.Others.{
  Kept, trans-Kept, wait-Kept, settle-Kept, put-Kept, give-Kept, take-Kept, delete_rev-Kept,
}
use dash_mno_verify.Grants.Tracked.{
  Laws, Within, Waiting, named, wait-Tracked, settle-Tracked, to_named, give-Within, take-Within,
  take_done, trans-Within, Good,
}
use dash_mno_verify.Grants.Begins.{write_grant-Good, if-Good}

module _ {R O : Type 0} (a : Adapter R O) (laws : Laws a) where
  module _ (user : String) where
    -- A step after another on the same member.
    pub after-Good : (w w1 w2 : World R O) → Kept user w w1 → Good a user w1 w2 → Good a user w w2
    after-Good w w1 w2 k (k', h) = (trans-Kept user w w1 w2 k k', h)

    module _ (w : World R O) where
      pub settle-Good :
          Within (w.access user) (named a (row_of user w.ledger)) → Good a user w (settle user w)
      settle-Good h = (settle-Kept user w, settle-Tracked a user w h)

      -- Without access, a member's row may go.
      pub forget-Good :
          (rev : ℕ) (writes : Bool)
          → ((t : String) → w.access user t ≡ false)
          → Good a user w (settle user (forget_row user rev writes w))
      forget-Good rev false h = settle-Good (λ t e. ground (arith, h t))
      forget-Good rev true h = (
        trans-Kept user w _ _ (delete_rev-Kept user w rev) (settle-Kept user _),
        settle-Tracked a user _ (λ t e. ground (arith, h t)),
      )

      pub put_back-Good :
          (prev : R) (covered writes : Bool)
          → Within (w.access user) (a.names prev)
          → Within (a.names prev) (named a (row_of user w.ledger))
          → Good a user w (settle user (put_back user prev covered writes w))
      put_back-Good prev true true h k = (
        trans-Kept user w _ _ (put-Kept user w prev) (settle-Kept user _),
        settle-Tracked a user _ (to_named a user prev w.ledger _ h),
      )
      put_back-Good prev true false h k = settle-Good (trans-Within a _ _ _ h k)
      put_back-Good prev false writes h k = settle-Good (trans-Within a _ _ _ h k)

      pub compensate-Good :
          (r : R) (rev : ℕ)
          → Within (w.access user) (a.names r)
          → Within (a.names r) (named a (row_of user w.ledger))
          → Good a user w (if a.repairs then settle user w else wait user (compensating r rev) w)
      unfolding Waiting
      compensate-Good r rev h k =
          if-Good a laws user w _ _ a.repairs (settle-Good (trans-Within a _ _ _ h k))
            (wait-Kept user w _, wait-Tracked a user w _ (h, k))

      pub failed_apply-Good :
          (r : R) (first : Bool) (rev : ℕ) (answer : Answer) (writes : Bool)
          → Within (w.access user) (a.names r)
          → Within (a.names r) (named a (row_of user w.ledger))
          → (is_unsent answer ≡ true → first ≡ true → (t : String) → w.access user t ≡ false)
          → Good a user w (failed_apply a user r first rev answer writes w)
      unfolding Waiting
      failed_apply-Good r false rev answer writes h k e = settle-Good (trans-Within a _ _ _ h k)
      failed_apply-Good r true rev unsent writes h k e = forget-Good rev writes (e refl refl)
      failed_apply-Good r true rev done writes h k e = compensate-Good r rev h k
      failed_apply-Good r true rev (partly part) writes h k e = compensate-Good r rev h k

    pub migrated-Good :
        (prev r : R) (o : O) (writes covered : Bool) (answer : Answer) (w : World R O)
        → Waiting a (migrating prev r o covered) (named a (row_of user w.ledger)) (w.access user)
        → Good a user w (resume a user answer writes (migrating prev r o covered) w)
    unfolding Waiting resume take give
    migrated-Good prev r o writes covered done w (h, k, e) =
        after-Good w _ _ (take-Kept user w (a.names_part o) done) (
          write_grant-Good a laws user r false writes (take user (a.names_part o) done w)
            (λ t x.
              let (live, part) = take_done a user w (a.names_part o) t x in
              laws.carried prev r o e t (h t live) part)
            (λ x t. ground arith)
            (take-Within a user w (a.names_part o) _ done (trans-Within a _ _ _ h k)))
    migrated-Good prev r o writes covered unsent w (h, k, e) =
        after-Good w _ _ (take-Kept user w (a.names_part o) unsent) (
          put_back-Good (take user (a.names_part o) unsent w) prev covered writes
            (take-Within a user w (a.names_part o) _ unsent h) k)
    migrated-Good prev r o writes covered (partly part) w (h, k, e) =
        after-Good w _ _ (take-Kept user w (a.names_part o) (partly part)) (
          put_back-Good (take user (a.names_part o) (partly part) w) prev covered writes
            (take-Within a user w (a.names_part o) _ (partly part) h) k)

    -- A revoke of all that the row names, after which the row may go.
    pub revoked-Good :
        (r : R) (rev : ℕ) (answer : Answer) (writes : Bool) (w : World R O)
        → Within (w.access user) (a.names r)
        → Within (a.names r) (named a (row_of user w.ledger))
        → Good a user w (
            let w' = take user (a.names r) answer w in
            if is_done answer then settle user (forget_row user rev writes w') else settle user w')
    unfolding take
    revoked-Good r rev done writes w h k = after-Good w _ _ (take-Kept user w (a.names r) done) (
        forget-Good (take user (a.names r) done w) rev writes
          (λ t. ground (arith, take_done a user w (a.names r) t, h t)))
    revoked-Good r rev unsent writes w h k =
        after-Good w _ _ (take-Kept user w (a.names r) unsent) (
          settle-Good (take user (a.names r) unsent w)
            (take-Within a user w (a.names r) _ unsent (trans-Within a _ _ _ h k)))
    revoked-Good r rev (partly part) writes w h k =
        after-Good w _ _ (take-Kept user w (a.names r) (partly part)) (
          settle-Good (take user (a.names r) (partly part) w)
            (take-Within a user w (a.names r) _ (partly part) (trans-Within a _ _ _ h k)))

    give_unsent :
        (names : String → Bool) (answer : Answer) (w : World R O)
        → is_unsent answer ≡ true
        → (t : String) → (give user names answer w).access user t ≡ w.access user t
    unfolding give
    give_unsent names unsent w e t = ground arith
    give_unsent names done w e t = ground arith
    give_unsent names (partly part) w e t = ground arith

    pub applied-Good :
        (r : R) (first writes : Bool) (rev : ℕ) (answer : Answer) (w : World R O)
        → Waiting a (applying r first rev) (named a (row_of user w.ledger)) (w.access user)
        → Good a user w (resume a user answer writes (applying r first rev) w)
    unfolding Waiting resume take give
    applied-Good r first writes rev answer w (h, k, e) =
        let w' = give user (a.names r) answer w in
        let h' = give-Within a user w (a.names r) (a.names r) answer h (λ t x. x) in
        after-Good w _ _ (give-Kept user w (a.names r) answer) (
          if-Good a laws user w' _ _ (is_done answer) (settle-Good w' (trans-Within a _ _ _ h' k)) (
            failed_apply-Good w' r first rev answer writes h' k
              (λ u f t. give_unsent (a.names r) answer w u t ∙ e f t)))

    pub resume-Good :
        (answer : Answer) (writes : Bool) (phase : Phase R O) (w : World R O)
        → Waiting a phase (named a (row_of user w.ledger)) (w.access user)
        → Good a user w (resume a user answer writes phase w)
    unfolding Waiting resume take give
    resume-Good answer writes (migrating prev r o covered) w h =
        migrated-Good prev r o writes covered answer w h
    resume-Good answer writes (applying r first rev) w h =
        applied-Good r first writes rev answer w h
    resume-Good answer writes (compensating r rev) w (h, k) = revoked-Good r rev answer writes w h k
    resume-Good answer writes (sweeping r rev) w (h, k) = revoked-Good r rev answer writes w h k
    resume-Good answer writes (admitting r) w (h, k) =
        after-Good w _ _ (give-Kept user w (a.names r) answer) (
          settle-Good (give user (a.names r) answer w)
            (give-Within a user w (a.names r) _ answer h k))
