-- ===== src/Grants/Covered.antt =====
-- Runs of adapters/common/grant_ledger.js: the rows and the access of all members.
use dash_mno_verify.Prelude.{
  List, [], ◌∷◌, Bool, true, false, String, string_eq, Option, none, some, ◌≡◌, refl, sym, subst,
  ◌==◌, eq_of_==, is_some, if◌then◌else◌,
}
use dash_mno_verify.Prelude.JsMap
use dash_mno_verify.Grants.Ledger.{Adapter, row_of}
use dash_mno_verify.Grants.Machine
use dash_mno_verify.Grants.Machine.{
  Phase, World, Answer, Event, partly, step, run_events, first_world, with_ledger, resume,
  resume_if, if_free, in_flight, fallen, die, give, take, migrating, grants, applying, compensating,
  sweeps, sweeping, admitting, admits, lives, answers, dies,
}
use dash_mno_verify.Grants.Others.{Kept, Same}
use dash_mno_verify.Grants.Tracked.{
  Laws, Within, Tracked, Tracks, Waiting, named, Good, Tracks-Within, give-Within, take-Within,
  trans-Within,
}
use dash_mno_verify.Grants.Resumes.{resume-Good}
use dash_mno_verify.Grants.Begins.{
  begin_grant-Good, begin_sweep-Good, begin_admit-Good, with_ledger-Good, rows-observe_clock,
}

module _ {R O : Type 0} (a : Adapter R O) (laws : Laws a) where
  abbrev pub AllTracked : World R O → Type 0
  AllTracked w = (user : String) → Tracked a user w

  other-Tracked :
      (other : String) (w w' : World R O) → Same other w w' → Tracked a other w → Tracked a other w'
  unfolding Same Tracked
  other-Tracked other w w' (p, r, acc) h =
      subst (λ f. Tracks a (JsMap.get other w'.phases) (named a (row_of other w'.ledger)) f)
        (λ i t. sym (acc t) i)
        (subst (λ q. Tracks a (JsMap.get other w'.phases) (named a q) (w.access other)) (sym r)
          (subst (λ q. Tracks a q (named a (row_of other w.ledger)) (w.access other)) (sym p) h))

  all_of_Good : (user : String) (w w' : World R O) → AllTracked w → Good a user w w' → AllTracked w'
  unfolding Kept
  all_of_Good user w w' h (k, t) other = go (user == other) refl
    where
      go : (b : Bool) → (user == other) ≡ b → Tracked a other w'
      go true e = subst (λ u. Tracked a u w') (eq_of_== user other e) t
      go false e = other-Tracked other w w' (k other e) (h other)

  free-All :
      (user : String) (w w' : World R O)
      → AllTracked w
      → (JsMap.get user w.phases ≡ none → Good a user w w')
      → AllTracked (if_free user w w')
  free-All user w w' h k = go (JsMap.get user w.phases) refl
    where
      go :
          (p : Option (Phase R O))
          → JsMap.get user w.phases ≡ p
          → AllTracked (if is_some p then w else w')
      go none e = all_of_Good user w w' h (k e)
      go (some phase) e = h

  resume_if-All :
      (user : String) (answer : Answer) (writes : Bool) (w : World R O)
      → AllTracked w
      → (p : Option (Phase R O)) → JsMap.get user w.phases ≡ p
      → AllTracked (resume_if a user answer writes p w)
  unfolding Tracked Tracks
  resume_if-All user answer writes w h none e = h
  resume_if-All user answer writes w h (some phase) e = all_of_Good user w _ h (
      resume-Good a laws user answer writes phase w
        (subst (λ p. Tracks a p (named a (row_of user w.ledger)) (w.access user)) e (h user)))

  in_flight-Within :
      (phase : Phase R O) (part : String → Bool) (user : String) (w : World R O)
      → Waiting a phase (named a (row_of user w.ledger)) (w.access user)
      → Within ((in_flight a phase part user w).access user) (named a (row_of user w.ledger))
  unfolding Waiting
  in_flight-Within (migrating prev r o covered) part user w (h, k, e) =
      take-Within a user w _ _ (partly part) (trans-Within a _ _ _ h k)
  in_flight-Within (applying r first rev) part user w (h, k, e) =
      give-Within a user w _ _ (partly part) (trans-Within a _ _ _ h k) k
  in_flight-Within (compensating r rev) part user w (h, k) =
      take-Within a user w _ _ (partly part) (trans-Within a _ _ _ h k)
  in_flight-Within (sweeping r rev) part user w (h, k) =
      take-Within a user w _ _ (partly part) (trans-Within a _ _ _ h k)
  in_flight-Within (admitting r) part user w (h, k) = give-Within a user w _ _ (partly part) h k

  fallen-Within :
      (p : Option (Phase R O)) (part : String → Bool) (user : String) (w : World R O)
      → Tracks a p (named a (row_of user w.ledger)) (w.access user)
      → Within ((fallen a p part user w).access user) (named a (row_of user w.ledger))
  unfolding Tracks
  fallen-Within none part user w h = h
  fallen-Within (some phase) part user w h = in_flight-Within phase part user w h

  die-All :
      (parts : String → String → Bool) (w : World R O) → AllTracked w → AllTracked (die a parts w)
  unfolding Tracked Tracks die JsMap.get
  die-All parts w h user = fallen-Within (JsMap.get user w.phases) (parts user) user w (h user)

  step-All : (e : Event R) (w : World R O) → AllTracked w → AllTracked (step a e w)
  unfolding step Machine.live
  step-All (grants user r now writes) w h =
      free-All user w _ h (λ e. begin_grant-Good a laws user w e (h user) r now writes)
  step-All (sweeps user now) w h =
      free-All user w _ h (λ e. begin_sweep-Good a laws user w e (h user) now)
  step-All (admits user now) w h =
      free-All user w _ h (λ e. begin_admit-Good a laws user w e (h user) now)
  step-All (lives user now) w h =
      all_of_Good user w _ h
        (with_ledger-Good a laws user w _ (rows-observe_clock now w.ledger) (h user))
  step-All (answers user answer writes) w h =
      resume_if-All user answer writes w h (JsMap.get user w.phases) refl
  step-All (dies parts) w h = die-All parts w h

  pub run_events-All :
      (es : List (Event R)) (w : World R O) → AllTracked w → AllTracked (run_events a es w)
  unfolding run_events
  run_events-All [] w h = h
  run_events-All (e ∷ es) w h = run_events-All es (step a e w) (step-All e w h)

  pub first_world-All : AllTracked first_world
  unfolding Tracked Tracks JsMap.get
  first_world-All user t e = e

  -- For an adapter that compares records as `Laws` says, after any run of events (operations on any members,
  -- interleaved at their awaits, with any times, writes that fail, calls that fail before or after some of
  -- their targets are done, and ends of the process amid calls): every target that a member has access to is
  -- named by the member's row.
  pub access-is_named :
      (es : List (Event R)) (user target : String)
      → (run_events a es first_world).access user target ≡ true
      → named a (row_of user (run_events a es first_world).ledger) target ≡ true
  unfolding Tracked
  access-is_named es user target =
      Tracks-Within a _ _ _ (run_events-All es first_world first_world-All user) target
