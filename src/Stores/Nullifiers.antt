-- ===== src/Stores/Nullifiers.antt =====
-- `NullifierStore` of core/stores.js: the spent tags, each with the account that claimed it first.
-- A key `${epoch}:${contextHash}:${nf}` is the triple of its parts, none of which holds a colon.
use dash_mno_verify.Prelude.{
  ℕ, ◌≡◌, refl, [], ◌∷◌, Bool, true, false, ltb, ◌==◌, string_eq, pair_eq, length, String, Option,
  some, none, arith, if◌then◌else◌, ◌+◌, ==_self, Bool-cases, inl, eq_of_==, inr,
}
use dash_mno_verify.Prelude.JsMap
use dash_mno_verify.Prelude.JsMap.{JsMap, get-put}

abbrev pub Tag : Type 0
Tag = String × (String × String)

abbrev pub Claims : Type 0
Claims = JsMap Tag String

unfoldable pub has : Tag → Claims → Bool
has tag claims = JsMap.has tag claims

unfoldable pub claimed_by : Tag → Claims → Option String
claimed_by tag claims = JsMap.get tag claims

-- Whether the tag was spent already, and the claims after; a spent tag keeps its account.
unfoldable pub add : Tag → String → Claims → Bool × Claims
add tag account claims =
    if JsMap.has tag claims then (true, claims) else (false, JsMap.put tag account claims)

-- `Number(epoch)`, `none` where it is not finite.
module _ (number : String → Option ℕ) where
  abbrev is_past : ℕ → Option ℕ → Bool
  is_past cutoff none = false
  is_past cutoff (some epoch) = ltb epoch cutoff

  -- Drops the tags of the epochs before the cutoff, and counts them; a cutoff that is not a finite
  -- number drops nothing.
  unfoldable pub prune : Option ℕ → Claims → ℕ × Claims
  prune none claims = (0, claims)
  prune (some cutoff) [] = (0, [])
  prune (some cutoff) (((epoch, rest), account) ∷ claims) =
      let (removed, kept) = prune (some cutoff) claims in
      if is_past cutoff (number epoch)
      then (removed + 1, kept)
      else (removed, ((epoch, rest), account) ∷ kept)

  -- A pruned store answers for a tag of an epoch at or after the cutoff, or of no finite epoch, as
  -- it did before.
  pub claimed_by-prune :
      (tag : Tag) (cutoff : ℕ) (claims : Claims)
      → is_past cutoff (number tag.0) ≡ false
      → claimed_by tag (prune (some cutoff) claims).1 ≡ claimed_by tag claims
  unfolding claimed_by prune JsMap.get
  claimed_by-prune tag cutoff [] h = refl
  claimed_by-prune tag cutoff (((epoch, rest), account) ∷ claims) h =
      elim (Bool-cases (epoch == tag.0)) [
        | inl same ↦
            let e : is_past cutoff (number epoch) ≡ false = rw (eq_of_== epoch tag.0 same) h in
            rw e (ground (arith, claimed_by-prune tag cutoff claims h))
        | inr other ↦ ground (arith, other, claimed_by-prune tag cutoff claims h)
      ]

  pub length-prune :
      (cutoff : Option ℕ) (claims : Claims)
      → length (prune cutoff claims).1 + (prune cutoff claims).0 ≡ length claims
  unfolding prune
  length-prune none claims = omega arith
  length-prune (some cutoff) [] = omega arith
  length-prune (some cutoff) (((epoch, rest), account) ∷ claims) =
      ground (arith, length-prune (some cutoff) claims)

-- A claim stands: adding any tag for any account leaves every claim that was there.
pub claimed_by-add_keeps :
    (tag other : Tag) (account holder : String) (claims : Claims)
    → claimed_by tag claims ≡ some holder
    → claimed_by tag (add other account claims).1 ≡ some holder
unfolding claimed_by add
claimed_by-add_keeps tag other account holder claims h = elim (Bool-cases (other == tag)) [
  | inl same ↦ rw (eq_of_== other tag same) (ground arith)
  | inr ne ↦ ground (arith, get-put other tag account claims, ne)
]

-- After an add that reports no duplicate the tag is the account's; after a duplicate it is whose it
-- was.
pub claimed_by-add :
    (tag : Tag) (account : String) (claims : Claims)
    → claimed_by tag (add tag account claims).1
      ≡ (if (add tag account claims).0 then claimed_by tag claims else some account)
unfolding claimed_by add
claimed_by-add tag account claims = ground (arith, get-put tag tag account claims, ==_self tag)
