-- ===== src/Registration/Loader/Malformed.antt =====
-- Malformed lines in the file of core/registration_store.js.
use dash_mno_verify.Prelude.{
  ◌≡◌, refl, List, [], ◌∷◌, ◌++◌, all_of, Bool, true, false, not, ◌&&◌, String, Option, Result, ok,
  err, ◌>>=◌, arith,
}
use dash_mno_verify.Registration.Loader.{
  Line, blank, malformed, not_object, header, object, LoadError, Loading, is_blank, load_line,
  load_lines, start, load,
}

abbrev pub Refuses {ℓ} : {A : Type ℓ} → Result LoadError A → Type ℓ
Refuses {A = A} res = (e : LoadError) × (res ≡ err e)

not_all_blank : (before after : List Line) → all_of is_blank (before ++ malformed ∷ after) ≡ false
not_all_blank [] after = refl
not_all_blank (line ∷ before) after = ground (arith, not_all_blank before after)

and_false_of : (x y : Bool) → y ≡ false → (x && y) ≡ false
and_false_of true y h = h
and_false_of false y h = refl

then_Refuses :
    {A B : Type 0} (first : Result LoadError A) (after : A → Result LoadError B)
    → ((a : A) → Refuses (after a))
    → Refuses (first >>= after)
then_Refuses (err e) after h = (e, refl)
then_Refuses (ok a) after h = h a

of_Refuses :
    {A B : Type 0} (first : Result LoadError A) (after : A → Result LoadError B)
    → Refuses first
    → Refuses (first >>= after)
of_Refuses (err e) after h = (e, refl)
of_Refuses (ok a) after h = absurd cc

module _ (schedule : Option String) (ends_newline : Bool) (after : List Line)
    (not_torn : (not ends_newline && all_of is_blank after) ≡ false) where
  load_lines-Refuses :
      (before : List Line) (l : Loading)
      → Refuses (load_lines schedule ends_newline (before ++ malformed ∷ after) l)
  unfolding load_lines
  load_lines-Refuses [] l = (LoadError.not_json, rw not_torn refl)
  load_lines-Refuses (blank ∷ before) l = load_lines-Refuses before l
  load_lines-Refuses (malformed ∷ before) l =
      (LoadError.not_json, rw (and_false_of (not ends_newline) _ (not_all_blank before after)) refl)
  load_lines-Refuses (not_object ∷ before) l =
      then_Refuses (load_line schedule not_object l) _ (load_lines-Refuses before)
  load_lines-Refuses (header s ∷ before) l =
      then_Refuses (load_line schedule (header s) l) _ (load_lines-Refuses before)
  load_lines-Refuses (object rec ∷ before) l =
      then_Refuses (load_line schedule (object rec) l) _ (load_lines-Refuses before)

  -- A file with a malformed line, after any lines, is refused, unless only blank lines follow it and the
  -- file does not end with a newline.
  pub load-Refuses :
      (assume : Bool) (before : List Line)
      → Refuses (load schedule assume ends_newline (before ++ malformed ∷ after))
  unfolding load
  load-Refuses assume before =
      of_Refuses (load_lines schedule ends_newline (before ++ malformed ∷ after) start) _
        (load_lines-Refuses before start)
