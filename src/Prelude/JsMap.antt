-- ===== src/Prelude/JsMap.antt =====
-- A JavaScript `Map`: its entries in insertion order. A `set` on a key that is there keeps the
-- entry's position, and a new key goes to the end.
use Prim.Native.Nat.{◌+◌, ◌≤◌}
use mathlib.Core.Path.{◌≡◌, refl, ap, ◌∙◌}
use mathlib.Core.Bool.{Bool, false}
use mathlib.Core.Option.{Option, none, some}
use mathlib.Core.List.{List, [], ◌∷◌, ◌++◌}
use native.Mathlib.Omega.{arith}
use dash_mno_verify.Prelude.Tests.{if◌then◌else◌, is_some}
use dash_mno_verify.Prelude.Lists.{length}
use dash_mno_verify.Prelude.Equality.{Eq, ◌==◌, ==_self}

abbrev pub JsMap {ℓ} : Type ℓ → Type ℓ → Type ℓ
JsMap K V = List (K × V)

module _ {ℓ} {K V : Type ℓ} ⦃e : Eq K⦄ where
  unfoldable pub get : K → JsMap K V → Option V
  get k [] = none
  get k ((j, v) ∷ m) = if j == k then some v else get k m

  abbrev pub has : K → JsMap K V → Bool
  has k m = is_some (get k m)

  unfoldable pub put : K → V → JsMap K V → JsMap K V
  put k v [] = (k, v) ∷ []
  put k v ((j, w) ∷ m) = let rest = put k v m in if j == k then (j, v) ∷ m else (j, w) ∷ rest

  -- Every entry of the key goes; a map that the program builds holds at most one.
  unfoldable pub delete : K → JsMap K V → JsMap K V
  delete k [] = []
  delete k ((j, w) ∷ m) = let rest = delete k m in if j == k then rest else (j, w) ∷ rest

  pub get-put :
      (k j : K) (v : V) (m : JsMap K V) → get j (put k v m) ≡ (if k == j then some v else get j m)
  unfolding get put
  get-put k j v [] = refl
  get-put k j v ((i, w) ∷ m) =
      ground (arith, e.test_iff k j, e.test_iff i k, e.test_iff i j, get-put k j v m)

  pub get-put_self : (k : K) (v : V) (m : JsMap K V) → get k (put k v m) ≡ some v
  get-put_self k v m = get-put k k v m ∙ ap (λ t. if t then some v else get k m) (==_self k)

  pub get-delete :
      (k j : K) (m : JsMap K V) → get j (delete k m) ≡ (if k == j then none else get j m)
  unfolding get delete
  get-delete k j [] = ground arith
  get-delete k j ((i, w) ∷ m) =
      ground (arith, e.test_iff k j, e.test_iff i k, e.test_iff i j, get-delete k j m)

  pub get-put_other :
      (k j : K) (v : V) (m : JsMap K V) → (k == j) ≡ false → get j (put k v m) ≡ get j m
  get-put_other k j v m ne = get-put k j v m ∙ ap (λ t. if t then some v else get j m) ne

  pub get-delete_self : (k : K) (m : JsMap K V) → get k (delete k m) ≡ none
  get-delete_self k m = get-delete k k m ∙ ap (λ t. if t then none else get k m) (==_self k)

  pub get-delete_other : (k j : K) (m : JsMap K V) → (k == j) ≡ false → get j (delete k m) ≡ get j m
  get-delete_other k j m ne = get-delete k j m ∙ ap (λ t. if t then none else get j m) ne

  pub length-put :
      (k : K) (v : V) (m : JsMap K V)
      → length (put k v m) ≡ (if has k m then length m else length m + 1)
  unfolding get put
  length-put k v [] = omega arith
  length-put k v ((i, w) ∷ m) = ground (arith, length-put k v m)

  pub length-delete-le : (k : K) (m : JsMap K V) → length (delete k m) ≤ length m
  unfolding delete
  length-delete-le k [] = omega arith
  length-delete-le k ((i, w) ∷ m) = ground (arith, length-delete-le k m)

  -- A new key goes to the end.
  pub put_absent : (k : K) (v : V) (m : JsMap K V) → get k m ≡ none → put k v m ≡ m ++ (k, v) ∷ []
  unfolding get put
  put_absent k v [] h = refl
  put_absent k v ((j, w) ∷ m) h = ground (arith, put_absent k v m)
