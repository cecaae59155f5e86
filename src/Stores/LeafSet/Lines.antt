-- ===== src/Stores/LeafSet/Lines.antt =====
-- The text that `leafSetCommitment` of core/stores.js hashes, read back into its lines.
use Prim.Native.Char.{Char, code}
use dash_mno_verify.Prelude.{
  ℕ, ◌≡◌, refl, sym, ap, ◌∙◌, List, [], ◌∷◌, true, not, nat_beq, all_of, String, string_eq, ◌==◌,
  arith, All, if◌then◌else◌, ◌≢◌, ==_of_ne, nat_eq, ◌⊎◌, Bool-cases, inl, eq_of_==, inr,
  true_not_false, ==_self,
}
use dash_mno_verify.Field.{codes, is_canonical_field, spelled_decimal, is_digit}
use dash_mno_verify.Stores.LeafSet.{
  followed_by, join_lines, leaf_text, sort_leaves, count, leaf_set_commitment,
}
use dash_mno_verify.Stores.LeafSet.Counts.{count-sort_leaves, All-sort_leaves}

abbrev onto_first : Char → List String → List String
onto_first c [] = String.◌∷◌ c "" ∷ []
onto_first c (line ∷ others) = String.◌∷◌ c line ∷ others

unfoldable lines : String → List String
lines String.[] = "" ∷ []
lines (String.◌∷◌ c s) =
    let rest = lines s in if nat_beq (code c) 10 then "" ∷ rest else onto_first c rest

-- No newline, and not empty.
abbrev IsLine : String → Type 0
IsLine s = (all_of (λ c. not (nat_beq c 10)) (codes s) ≡ true) × (s ≢ "")

lines-followed_by :
    (s t : String)
    → all_of (λ c. not (nat_beq c 10)) (codes s) ≡ true
    → lines (followed_by s (String.◌∷◌ "\n" t)) ≡ s ∷ lines t
unfolding lines
lines-followed_by String.[] t h = refl
lines-followed_by (String.◌∷◌ c s) t h = ground (arith, lines-followed_by s t (ground (arith, h)))

lines-line : (s : String) → all_of (λ c. not (nat_beq c 10)) (codes s) ≡ true → lines s ≡ s ∷ []
unfolding lines
lines-line String.[] h = refl
lines-line (String.◌∷◌ c s) h = ground (arith, lines-line s (ground (arith, h)))

lines-join_lines :
    (x : String) (xs : List String) → All IsLine (x ∷ xs) → lines (join_lines (x ∷ xs)) ≡ x ∷ xs
unfolding join_lines
lines-join_lines x [] h = lines-line x h.0.0
lines-join_lines x (y ∷ ys) h =
    lines-followed_by x (join_lines (y ∷ ys)) h.0.0
    ∙ ap (λ rest. x ∷ rest) (lines-join_lines y ys h.1)

followed_by-not_empty : (s t : String) → followed_by s (String.◌∷◌ "\n" t) ≢ ""
followed_by-not_empty String.[] t e = cc
followed_by-not_empty (String.◌∷◌ c s) t e = cc

join_lines-not_empty :
    (x : String) (xs : List String) → All IsLine (x ∷ xs) → join_lines (x ∷ xs) ≢ ""
unfolding join_lines
join_lines-not_empty x [] h = h.0.1
join_lines-not_empty x (y ∷ ys) h = followed_by-not_empty x (join_lines (y ∷ ys))

unfoldable unjoin : String → List String
unfolding lines
unjoin s = if s == "" then [] else lines s

unjoin-join_lines : (xs : List String) → All IsLine xs → unjoin (join_lines xs) ≡ xs
unfolding unjoin join_lines
unjoin-join_lines [] h = refl
unjoin-join_lines (x ∷ xs) h =
    ap (λ b. if b then [] else lines (join_lines (x ∷ xs)))
      (==_of_ne (join_lines (x ∷ xs)) "" (join_lines-not_empty x xs h))
    ∙ lines-join_lines x xs h

line_codes : (cs : List ℕ) → all_of is_digit cs ≡ true → all_of (λ c. not (nat_beq c 10)) cs ≡ true
line_codes [] h = refl
line_codes (c ∷ cs) h = ground (arith, line_codes cs (ground (arith, h)))

spelled_decimal-line :
    (cs : List ℕ) → spelled_decimal cs ≡ true → all_of (λ c. not (nat_beq c 10)) cs ≡ true
unfolding spelled_decimal
spelled_decimal-line [] h = refl
spelled_decimal-line (c ∷ []) h = ground arith
spelled_decimal-line (c ∷ d ∷ cs) h = ground (arith, line_codes (d ∷ cs))

-- A canonical leaf is one line.
is_canonical_field-IsLine : (v : String) → is_canonical_field v ≡ true → IsLine v
unfolding is_canonical_field spelled_decimal
is_canonical_field-IsLine String.[] h = cc
is_canonical_field-IsLine (String.◌∷◌ c s) h =
    (spelled_decimal-line (codes (String.◌∷◌ c s)) (ground (arith, h)), λ e. cc)

All-IsLine : (xs : List String) → all_of is_canonical_field xs ≡ true → All IsLine xs
All-IsLine [] h = tt
All-IsLine (x ∷ xs) h =
    (is_canonical_field-IsLine x (ground (arith, h)), All-IsLine xs (ground (arith, h)))

-- Canonical leaves with the same text are the same with their numbers.
pub leaf_text-counts :
    (xs ys : List String)
    → all_of is_canonical_field xs ≡ true
    → all_of is_canonical_field ys ≡ true
    → leaf_text xs ≡ leaf_text ys
    → (leaf : String) → count leaf xs ≡ count leaf ys
unfolding leaf_text
leaf_text-counts xs ys h k e leaf =
    let sorted : sort_leaves xs ≡ sort_leaves ys =
      sym (unjoin-join_lines (sort_leaves xs) (All-sort_leaves IsLine xs (All-IsLine xs h)))
      ∙ ap unjoin e
      ∙ unjoin-join_lines (sort_leaves ys) (All-sort_leaves IsLine ys (All-IsLine ys k)) in
    sym (count-sort_leaves leaf xs) ∙ ap (count leaf) sorted ∙ count-sort_leaves leaf ys

-- The same leaves as often, or two texts with one hash.
abbrev pub SameLeaves : (List ℕ → List ℕ) → List String → List String → Type 0
SameLeaves sha256 xs ys =
    ((leaf : String) → count leaf xs ≡ count leaf ys)
    ⊎ (leaf_text xs ≢ leaf_text ys)
      × (leaf_set_commitment sha256 xs ≡ leaf_set_commitment sha256 ys)

pub same_commitment :
    (sha256 : List ℕ → List ℕ) (xs ys : List String)
    → all_of is_canonical_field xs ≡ true
    → all_of is_canonical_field ys ≡ true
    → leaf_set_commitment sha256 xs ≡ leaf_set_commitment sha256 ys
    → SameLeaves sha256 xs ys
same_commitment sha256 xs ys h k e = elim (Bool-cases (leaf_text xs == leaf_text ys)) [
  | inl same ↦ inl (leaf_text-counts xs ys h k (eq_of_== (leaf_text xs) (leaf_text ys) same))
  | inr other ↦ inr (
    λ same.
        true_not_false
          (sym (ap (λ y. leaf_text xs == y) (sym same) ∙ ==_self (leaf_text xs)) ∙ other),
    e,
  )
]
