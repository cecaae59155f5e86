-- ===== src/Merkle/MembersTree/FullBuild.antt =====
-- `levels()` and `rootFromFullBuild()` of core/members_tree.js against the padded tree.
use native.Mathlib.Nat.{pow-suc}
use dash_mno_verify.Prelude.{
  ℕ, zero, suc, ◌-◌, ◌^◌, ◌<◌, ◌≤◌, ◌≡◌, refl, ap, List, [], ◌∷◌, ◌++◌, length, get_or, get_elem?,
  replicate, last?, some, ok, arith, ◌>>=◌, lt→ltb,
}
use dash_mno_verify.Merkle.Hash.{Poseidon}
use dash_mno_verify.Merkle.Padded.{tree_root, leaves_then, double, double-eq-add}
use dash_mno_verify.Merkle.Levels.{pair_pad, tree_root-pair_pad}
use dash_mno_verify.Merkle.MembersTree.{pair_level, build_levels}

module _ {F : Type 0} (z : F) where
  -- The list, filled up with `z` to `n` elements.
  abbrev pub pad_list : ℕ → List F → List F
  pad_list zero xs = xs
  pad_list (suc n) [] = z ∷ pad_list n []
  pad_list (suc n) (x ∷ xs) = x ∷ pad_list n xs

  pub append-replicate :
      (n : ℕ) (xs : List F) → length xs ≤ n → xs ++ replicate (n - length xs) z ≡ pad_list n xs
  append-replicate zero [] h = refl
  append-replicate zero (x ∷ xs) h = absurd (omega arith)
  append-replicate (suc n) [] h =
      let e : suc n - 0 ≡ suc (n - 0) = omega arith in
      rw e (ap (◌∷◌ z) (append-replicate n [] (omega arith)))
  append-replicate (suc n) (x ∷ xs) h =
      let e : suc n - suc (length xs) ≡ n - length xs = omega arith in
      rw e (ap (◌∷◌ x) (append-replicate n xs (omega arith)))

  pub length-pad_list : (n : ℕ) (xs : List F) → length xs ≤ n → length (pad_list n xs) ≡ n
  length-pad_list zero [] h = refl
  length-pad_list zero (x ∷ xs) h = absurd (omega arith)
  length-pad_list (suc n) [] h = omega (arith, length-pad_list n [] (omega arith))
  length-pad_list (suc n) (x ∷ xs) h = omega (arith, length-pad_list n xs (omega arith))

  pub get_elem?-pad_list :
      (n i : ℕ) (xs : List F) → i < n → get_elem? (pad_list n xs) i ≡ some (get_or xs i z)
  get_elem?-pad_list zero i xs h = absurd (omega arith)
  get_elem?-pad_list (suc n) zero [] h = refl
  get_elem?-pad_list (suc n) (suc i) [] h = get_elem?-pad_list n i [] (omega arith)
  get_elem?-pad_list (suc n) zero (x ∷ xs) h = refl
  get_elem?-pad_list (suc n) (suc i) (x ∷ xs) h = get_elem?-pad_list n i xs (omega arith)

pub pow-pos : (d : ℕ) → 0 < 2 ^ d
pow-pos zero = omega arith
pow-pos (suc d) = omega (arith, pow-suc 2 d, pow-pos d)

pub pow-double : (d : ℕ) → 2 ^ suc d ≡ double (2 ^ d)
pow-double d = omega (arith, pow-suc 2 d, double-eq-add (2 ^ d))

module _ {F : Type 0} (p : Poseidon F) where
  pair_level-pad_list :
      (m : ℕ) (z : F) (xs : List F)
      → length xs ≤ double m
      → pair_level p (pad_list z (double m) xs) ≡ ok (pad_list (p.hash z z) m (pair_pad p z xs))
  unfolding pair_level pair_pad
  pair_level-pad_list zero z [] h = refl
  pair_level-pad_list zero z (x ∷ xs) h = absurd (omega arith)
  pair_level-pad_list (suc m) z [] h = rw (pair_level-pad_list m z [] (omega arith))
  pair_level-pad_list (suc m) z (a ∷ []) h = rw (pair_level-pad_list m z [] (omega arith))
  pair_level-pad_list (suc m) z (a ∷ b ∷ rest) h = rw (pair_level-pad_list m z rest (omega arith))

  -- The levels that a full build gives, leaves first.
  abbrev pub padded_levels : ℕ → F → List F → List (List F)
  padded_levels zero z xs = pad_list z 1 xs ∷ []
  padded_levels (suc d) z xs =
      pad_list z (2 ^ suc d) xs ∷ padded_levels d (p.hash z z) (pair_pad p z xs)

  pub length-pair_pad-le :
      (z : F) (xs : List F) (m : ℕ) → length xs ≤ double m → length (pair_pad p z xs) ≤ m
  unfolding pair_pad
  length-pair_pad-le z [] m h = omega arith
  length-pair_pad-le z (a ∷ xs) zero h = absurd (omega arith)
  length-pair_pad-le z (a ∷ []) (suc m) h = omega arith
  length-pair_pad-le z (a ∷ b ∷ rest) (suc m) h =
      omega (arith, length-pair_pad-le z rest m (omega arith))

  build_levels_step :
      (fuel : ℕ) (level next : List F)
      → 1 < length level
      → pair_level p level ≡ ok next
      → build_levels p (suc fuel) level
        ≡ (do levels ← build_levels p fuel next; ok (level ∷ levels))
  unfolding build_levels
  build_levels_step fuel level next long e = rw (lt→ltb 1 (length level) long, e)

  -- The fuel of `levels()` is enough: a level of 2 ^ d nodes is built up to its root.
  pub build_levels-padded_levels :
      (d : ℕ) (z : F) (xs : List F)
      → length xs ≤ 2 ^ d
      → build_levels p (suc d) (pad_list z (2 ^ d) xs) ≡ ok (padded_levels d z xs)
  build_levels-padded_levels zero z xs h = unfold build_levels in rw (length-pad_list z 1 xs h)
  build_levels-padded_levels (suc d) z xs h =
      let below = length-pair_pad-le z xs (2 ^ d) (omega (arith, pow-double d)) in
      let e = pair_level-pad_list (2 ^ d) z xs (omega (arith, pow-double d)) in
      rw (
        build_levels_step (suc d) (pad_list z (2 ^ suc d) xs)
            (pad_list (p.hash z z) (2 ^ d) (pair_pad p z xs))
            (omega (arith, length-pad_list z (2 ^ suc d) xs h, pow-suc 2 d, pow-pos d))
            (rw pow-double e),
        build_levels-padded_levels d (p.hash z z) (pair_pad p z xs) below,
      )

  pub last?-padded_levels :
      (d : ℕ) (z : F) (xs : List F)
      → length xs ≤ 2 ^ d
      → last? (padded_levels d z xs) ≡ some (tree_root p d (leaves_then z xs) ∷ [])
  last?-padded_levels zero z [] h = unfold tree_root in refl
  last?-padded_levels zero z (x ∷ []) h = unfold tree_root in refl
  last?-padded_levels zero z (x ∷ y ∷ xs) h = absurd (omega arith)
  last?-padded_levels (suc zero) z xs h =
      rw tree_root-pair_pad
        (last?-padded_levels zero (p.hash z z) (pair_pad p z xs) (length-pair_pad-le z xs 1 h))
  last?-padded_levels (suc (suc d)) z xs h = rw tree_root-pair_pad (
      last?-padded_levels (suc d) (p.hash z z) (pair_pad p z xs)
        (length-pair_pad-le z xs (2 ^ suc d) (omega (arith, pow-double (suc d)))))
