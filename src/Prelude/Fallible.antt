-- ===== src/Prelude/Fallible.antt =====
-- Code that may throw: the value, or what was thrown.
use mathlib.Core.Logic.{◌⊎◌, inl, inr}
use mathlib.Core.Path.{◌≡◌, refl, ap}
use mathlib.Core.Bool.{Bool, true, false}
use mathlib.Core.Option.{Option, none, some}
use native.Mathlib.Omega.{arith}
use dash_mno_verify.Prelude.Lists.{length}
use mathlib.Core.List.{List, [], ◌∷◌, ◌++◌}

pub data Result {ℓ κ} (E : Type ℓ) (A : Type κ) : Type (ℓ ⊔ κ) where
  ok : A → Result E A
  err : E → Result E A

infixl 5 ◌>>=◌ ◌>>◌
abbrev pub ◌>>=◌ {ℓ κ μ} :
    {E : Type ℓ} {A : Type κ} {B : Type μ} → Result E A → (A → Result E B) → Result E B
err e >>= f = err e
ok a >>= f = f a

abbrev pub ◌>>◌ {ℓ μ} : {E : Type ℓ} {B : Type μ} → Result E (Unit {0}) → Result E B → Result E B
test >> rest = test >>= λ done. rest

-- `if (test) throw e`.
abbrev pub throw_if {ℓ} : {E : Type ℓ} → Bool → E → Result E (Unit {0})
throw_if true e = err e
throw_if false e = ok tt

abbrev pub or_throw {ℓ κ} : {E : Type ℓ} {A : Type κ} → Option A → E → Result E A
or_throw none e = err e
or_throw (some a) e = ok a

-- `xs.map(f)` where `f` may throw.
abbrev pub map_result {ℓ κ μ} :
    {E : Type ℓ} {A : Type κ} {B : Type μ} → (A → Result E B) → List A → Result E (List B)
map_result f [] = ok []
map_result f (x ∷ xs) = do y ← f x; ys ← map_result f xs; ok (y ∷ ys)

pub >>=-eq-ok {ℓ κ μ} :
    {E : Type ℓ} {A : Type κ} {B : Type μ} (first : Result E A) (after : A → Result E B) {b : B}
    → (first >>= after) ≡ ok b
    → (a : A) × (first ≡ ok a) × (after a ≡ ok b)
>>=-eq-ok (err e) after h = cc
>>=-eq-ok (ok a) after h = (a, refl, h)

module _ {ℓ κ μ} {E : Type ℓ} {A : Type κ} {B : Type μ} (f : A → Result E B) where
  -- A conversion of a list that does not throw has converted each element.
  pub map_result-cons :
      (x : A) (xs : List A) (zs : List B)
      → map_result f (x ∷ xs) ≡ ok zs
      → (y : B) × (ys : List B) × (f x ≡ ok y) × (map_result f xs ≡ ok ys) × (zs ≡ y ∷ ys)
  map_result-cons x xs zs h =
      let (y, e, rest) = >>=-eq-ok (f x) _ h in
      let (ys, e', last) = >>=-eq-ok (map_result f xs) _ rest in (y, ys, e, e', cc (last))

  pub length-map_result :
      (xs : List A) (ys : List B) → map_result f xs ≡ ok ys → length ys ≡ length xs
  length-map_result [] ys h = ground arith
  length-map_result (x ∷ xs) ys h =
      let (y, ys', _, rest, e) = map_result-cons x xs ys h in
      omega (arith, ap length e, length-map_result xs ys' rest)

  pub map_result-snoc :
      (xs : List A) (ys : List B) (x : A) (y : B)
      → map_result f xs ≡ ok ys
      → f x ≡ ok y
      → map_result f (xs ++ x ∷ []) ≡ ok (ys ++ y ∷ [])
  map_result-snoc [] ys x y h e = rw e (ground arith)
  map_result-snoc (w ∷ xs) ys x y h e =
      let (v, ys', first, rest, same) = map_result-cons w xs ys h in
      rw (first, map_result-snoc xs ys' x y rest e, same)

-- What is thrown, if anything.
abbrev pub error_of {ℓ κ} : {E : Type ℓ} {A : Type κ} → Result E A → Option E
error_of (ok a) = none
error_of (err e) = some e

pub Result-cases {ℓ κ} :
    {E : Type ℓ} {A : Type κ} (r : Result E A) → ((e : E) × (r ≡ err e)) ⊎ ((a : A) × (r ≡ ok a))
Result-cases (ok a) = inr (a, refl)
Result-cases (err e) = inl (e, refl)
