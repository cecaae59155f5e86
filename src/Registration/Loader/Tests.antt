-- ===== src/Registration/Loader/Tests.antt =====
-- The loader of core/registration_store.js at a concrete file.
use dash_mno_verify.Prelude.{refl, List, [], ◌∷◌, ◌++◌, false, some}
use dash_mno_verify.Registration.Loader.{Line, blank, malformed, header, load}
use dash_mno_verify.Registration.Loader.Malformed.{Refuses, load-Refuses}

abbrev before_it : List Line
before_it = header "e1s2" ∷ blank ∷ []

abbrev after_it : List Line
after_it = header "e1s2" ∷ []

load-Refuses_example : Refuses (load (some "e1s2") false false (before_it ++ malformed ∷ after_it))
load-Refuses_example = load-Refuses (some "e1s2") false after_it refl false before_it
