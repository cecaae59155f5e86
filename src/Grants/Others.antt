-- ===== src/Grants/Others.antt =====
-- The steps of adapters/common/grant_ledger.js on a member, seen from another member.
use dash_mno_verify.Prelude.{ℕ, Bool, false, String, string_eq, ◌==◌, ◌≡◌, refl, ◌∙◌, arith}
use dash_mno_verify.Prelude.JsMap
use dash_mno_verify.Grants.Ledger.{row_of, put, delete_rev}
use dash_mno_verify.Grants.Machine.{Phase, World, Answer, give, take, wait, settle, with_ledger}

-- A member's phase, row and access are those of before.
unfoldable pub Same : {R O : Type 0} → String → World R O → World R O → Type 0
Same user w w' =
    (JsMap.get user w'.phases ≡ JsMap.get user w.phases)
    × (row_of user w'.ledger ≡ row_of user w.ledger)
    × ((target : String) → w'.access user target ≡ w.access user target)

-- So are those of all members but one.
unfoldable pub Kept : {R O : Type 0} → String → World R O → World R O → Type 0
Kept user w w' = (other : String) → (user == other) ≡ false → Same other w w'

module _ {R O : Type 0} (user : String) (w : World R O) where
  pub refl-Kept : Kept user w w
  unfolding Kept Same
  refl-Kept other h = (refl, refl, λ target. refl)

  pub trans-Kept : (w1 w2 : World R O) → Kept user w w1 → Kept user w1 w2 → Kept user w w2
  unfolding Kept Same
  trans-Kept w1 w2 h h' other ne =
      let (p, r, acc) = h other ne in
      let (p', r', acc') = h' other ne in (p' ∙ p, r' ∙ r, λ target. acc' target ∙ acc target)

  pub wait-Kept : (phase : Phase R O) → Kept user w (wait user phase w)
  unfolding Kept Same
  wait-Kept phase other ne =
      (JsMap.get-put_other user other phase w.phases ne, refl, λ target. refl)

  pub settle-Kept : Kept user w (settle user w)
  unfolding Kept Same
  settle-Kept other ne = (JsMap.get-delete_other user other w.phases ne, refl, λ target. refl)

  pub put-Kept : (r : R) → Kept user w (with_ledger (put user r w.ledger).1 w)
  unfolding Kept Same put
  put-Kept r other ne = (refl, JsMap.get-put_other user other _ w.ledger.rows ne, λ target. refl)

  pub delete_rev-Kept : (rev : ℕ) → Kept user w (with_ledger (delete_rev user rev w.ledger).1 w)
  unfolding Kept Same delete_rev
  delete_rev-Kept rev other ne =
      (refl, ground (arith, JsMap.get-delete_other user other w.ledger.rows ne), λ target. refl)

  pub give-Kept : (names : String → Bool) (answer : Answer) → Kept user w (give user names answer w)
  unfolding Kept Same give
  give-Kept names answer other ne = (refl, refl, λ target. ground arith)

  pub take-Kept : (names : String → Bool) (answer : Answer) → Kept user w (take user names answer w)
  unfolding Kept Same take
  take-Kept names answer other ne = (refl, refl, λ target. ground arith)
