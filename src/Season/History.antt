-- ===== src/Season/History.antt =====
-- The season of core/season.js over any history of its operations, the durable writes failing or not.
use dash_mno_verify.Merkle.MembersTree.Consistent.{IsConsistent}
use dash_mno_verify.Prelude.{
  true_not_false, subst, ℕ, suc, ◌≡◌, refl, ap, sym, ◌∙◌, List, [], ◌∷◌, ◌++◌, length, Bool, true,
  String, Option, some, ok, err, arith, inl, inr, Bool-cases, Option-cases, string_eq, ◌≢◌, is_some,
}
use dash_mno_verify.Prelude.JsMap
use dash_mno_verify.Prelude.JsMap.{JsMap}
use dash_mno_verify.Field.{is_canonical_field}
use dash_mno_verify.Merkle.Hash.{TreeError, Poseidon, element}
use dash_mno_verify.Merkle.MembersTree
use dash_mno_verify.Merkle.MembersTree.{MembersTree, from_commitments, full}
use dash_mno_verify.Registration
use dash_mno_verify.Registration.{
  Registration, Request, Backend, bucket_of, key_of, records_of, empty,
}
use dash_mno_verify.Season.State
use dash_mno_verify.Season.State.{
  Context, SeasonMembers, SeasonError, is_season, list_or, members, roll,
}
use dash_mno_verify.Season.Trees.{commitments_of, recover_member, ensure_context}
use dash_mno_verify.Season.Commit.{Fate, Commit, committed, refusal, write_record, is_live, commit}
use dash_mno_verify.Season.Synced.{IsSynced}
use dash_mno_verify.Season.Reconcile.{materialize-IsSynced, reconcile-IsSynced}
use dash_mno_verify.Season.Ensure.{
  is_season-eq, roll-IsSynced, ensure_context-IsSynced, recover_member-IsSynced,
}
use dash_mno_verify.Season.Publish.{IsSound, IsPublished, write-IsSound}

pub data Event : Type 0 where
  rolls : ℕ → Event
  ensures recovers : ℕ → ℕ → String → Event
  commits : ℕ → Option ℕ → Bool → Fate → Request → Event

module _ {F : Type 0} (p : Poseidon F) where
  unfoldable pub step : Event → SeasonMembers F × Backend → SeasonMembers F × Backend
  step (rolls season) (s, b) = ((roll season s).1, b)
  step (ensures now season c) (s, b) = ((ensure_context p now season c b s).1, b)
  step (recovers now season c) (s, b) = ((recover_member p now season c b s).1, b)
  step (commits now live regressed fate d) (s, b) =
      let (r, s', b') = commit p now live regressed fate d s b in (s', b')

  unfoldable pub run_events : List Event → SeasonMembers F × Backend → SeasonMembers F × Backend
  run_events [] w = w
  run_events (e ∷ es) w = run_events es (step e w)

module _ {F : Type 0} (p : Poseidon F)
    (reads : (v : String) → is_canonical_field v ≡ true → (x : F) × (element p v ≡ ok x)) where
  write_record-IsSound :
      {s : SeasonMembers F} {b : Backend} (now : ℕ) (live : Option ℕ) (regressed : Bool)
      (fate : Fate) (d : Request) (k : Context F)
      → IsSynced p s b
      → JsMap.get d.context_hash s.ctx ≡ some k
      → s.current ≡ some d.season
      → k.tree.commitments ≡ commitments_of (records_of (bucket_of d) b)
      → IsSound p reads d b (write_record p now live regressed fate d k s b)
  unfolding write_record refusal
  write_record-IsSound {s} {b} now live regressed fate d k h there now_current whole =
      elim (Bool-cases (Registration.has (key_of d) b)) [
        | inl seen ↦ rw seen (h, tt)
        | inr fresh ↦ elim (Bool-cases (full k.tree)) [
          | inl is_full ↦ rw (fresh, is_full) (h, tt)
          | inr room ↦ elim (Bool-cases (is_live p d.season live)) [
            | inr gone ↦ rw (fresh, room, gone) (h, tt)
            | inl still ↦ elim (Bool-cases regressed) [
              | inl back ↦ rw (fresh, room, still, back) (h, tt)
              | inr forth ↦
                  rw (fresh, room, still, forth)
                    (write-IsSound p reads now d k h there now_current whole room fate)
            ]
          ]
        ]
      ]

  pub commit-IsSound :
      {s : SeasonMembers F} {b : Backend} (now : ℕ) (live : Option ℕ) (regressed : Bool)
      (fate : Fate) (d : Request)
      → IsSynced p s b
      → IsSound p reads d b (commit p now live regressed fate d s b)
  unfolding commit
  commit-IsSound {s} {b} now live regressed fate d h =
      elim (Bool-cases (is_season d.season s.current)) [
        | inr other ↦ rw other (h, tt)
        | inl same ↦
            let now_current = is_season-eq p d.season s.current same in
            let (k1, m1, e1, h1, there1) =
              materialize-IsSynced p now d.season d.context_hash h now_current in
            let (done, m2, e2, h2, all, kept) =
              reconcile-IsSynced p now d.season d.context_hash h1 now_current in
            elim (Option-cases (JsMap.get d.context_hash m2)) [
              | inl gone ↦
                  absurd (true_not_false (sym (kept (ap is_some there1)) ∙ ap is_some gone))
              | inr (k2, there2) ↦
                  rw (same, e1, e2, there2)
                    (write_record-IsSound now live regressed fate d k2 h2 there2 now_current
                      (sym (ap list_or there2) ∙ all))
            ]
      ]

  -- From a season whose trees are true to the registrations, a commit that answers ok has written its
  -- record at the end of the bucket, with the answered index as its place; the answered size counts
  -- the bucket, the context lists its commitments in order, and the answered root is that of the tree
  -- which a restart rebuilds from them.
  pub commit-publishes :
      {s : SeasonMembers F} {b : Backend} (now : ℕ) (live : Option ℕ) (regressed : Bool)
      (fate : Fate) (d : Request) (index size : ℕ) (root : String) (s' : SeasonMembers F)
      (b' : Backend)
      → IsSynced p s b
      → commit p now live regressed fate d s b ≡ (ok (committed index root size), s', b')
      → (records_of (bucket_of d) b'
          ≡ records_of (bucket_of d) b ++ record { request = d; index = index } ∷ [])
        × (index ≡ length (records_of (bucket_of d) b))
        × (size ≡ suc index)
        × (members d.context_hash s' ≡ commitments_of (records_of (bucket_of d) b'))
        × ((t : MembersTree F) × (from_commitments p
                (commitments_of (records_of (bucket_of d) b'))
                s'.depth
              ≡ ok t)
            × (root ≡ MembersTree.root p t))
  commit-publishes {s} {b} now live regressed fate d index size root s' b' h e =
      (subst (IsSound p reads d b) e (commit-IsSound now live regressed fate d h)).1

  -- From such a season no commit answers that the index and the tree disagree, and none throws because
  -- of the tree.
  pub commit-never_mismatches :
      {s : SeasonMembers F} {b : Backend} (now : ℕ) (live : Option ℕ) (regressed : Bool)
      (fate : Fate) (d : Request)
      → IsSynced p s b
      → ((commit p now live regressed fate d s b).0 ≢ ok Commit.index_tree_mismatch)
        × ((e : TreeError) → (commit p now live regressed fate d s b).0 ≢ err (SeasonError.tree e))
  commit-never_mismatches {s} {b} now live regressed fate d h =
      let sound = commit-IsSound now live regressed fate d h in
      let (r, s', b') = commit p now live regressed fate d s b in
      (
        λ same. subst (λ x. IsPublished p reads d b x s' b') same sound.1,
        λ e same. subst (λ x. IsPublished p reads d b x s' b') same sound.1,
      )

  step-IsSynced :
      (e : Event) (w : SeasonMembers F × Backend)
      → IsSynced p w.0 w.1
      → let (s', b') = step p e w in IsSynced p s' b'
  unfolding step
  step-IsSynced (rolls season) (s, b) h = elim (roll-IsSynced p season h) [
    | inl refused ↦ rw refused h
    | inr (s', e, now_current, h') ↦ rw e h'
  ]
  step-IsSynced (ensures now season c) (s, b) h = ensure_context-IsSynced p now season c h
  step-IsSynced (recovers now season c) (s, b) h = (recover_member-IsSynced p now season c h).0
  step-IsSynced (commits now live regressed fate d) (s, b) h =
      (commit-IsSound now live regressed fate d h).0

  pub run_events-IsSynced :
      (es : List Event) (w : SeasonMembers F × Backend)
      → IsSynced p w.0 w.1
      → let (s', b') = run_events p es w in IsSynced p s' b'
  unfolding run_events
  run_events-IsSynced [] w h = h
  run_events-IsSynced (e ∷ es) w h = run_events-IsSynced es (step p e w) (step-IsSynced e w h)

  pub new-IsSynced :
      (monotonic : Bool) (depth root_window now : ℕ) (empty_root : String)
      → IsSynced p (State.new monotonic depth root_window empty_root now) empty
  unfolding State.new records_of JsMap.get
  new-IsSynced monotonic depth root_window now empty_root = record {
    fits = λ bucket. omega arith;
    readable = λ bucket. ([], refl);
    cached = λ c k e. cc;
  }

  -- Over any history of rolls, reads, recoveries and commits of a new season manager with an empty
  -- store, whatever becomes of each durable write, every cached tree is of the current season, is
  -- consistent, and has the first of its bucket's commitments, in order.
  pub run_events-cached :
      (es : List Event) (monotonic : Bool) (depth root_window now : ℕ) (empty_root c : String)
      (k : Context F)
      → JsMap.get c
          (run_events p es (State.new monotonic depth root_window empty_root now, empty)).0.ctx
        ≡ some k
      → let (s, b) =
          run_events p es (State.new monotonic depth root_window empty_root now, empty) in
        (season : ℕ) × (rest : List String) × (s.current ≡ some season)
        × IsConsistent p k.tree
        × (commitments_of (records_of (season, c) b) ≡ k.tree.commitments ++ rest)
  run_events-cached es monotonic depth root_window now empty_root c k there =
      let h =
        run_events-IsSynced es (State.new monotonic depth root_window empty_root now, empty)
          (new-IsSynced monotonic depth root_window now empty_root) in
      let old = h.cached c k there in
      (old.season, old.rest, old.is_current, old.consistent, old.prefix)
