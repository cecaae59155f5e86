-- ===== src/Season/Publish.antt =====
-- What a commit of core/season.js publishes: the root and the size of the tree that a restart would
-- rebuild from the durable registrations, and nothing where the write was refused.
use mathlib.Core.List.{append-nil}
use dash_mno_verify.Prelude.{
  ℕ, suc, ◌^◌, ◌<◌, ◌≡◌, refl, ap, sym, ◌∙◌, subst, List, [], ◌∷◌, ◌++◌, length, length-append,
  true, false, String, some, Result, ok, err, ◌⊎◌, arith, inl, inr, string_eq, nat_eq, pair_eq,
  nat_beq, nat_beq_iff,
}
use dash_mno_verify.Prelude.JsMap
use dash_mno_verify.Prelude.JsMap.{JsMap, get-put_self}
use dash_mno_verify.Field.{is_canonical_field}
use dash_mno_verify.Merkle.Hash.{Poseidon, element}
use dash_mno_verify.Merkle.MembersTree
use dash_mno_verify.Merkle.MembersTree.{MembersTree, from_commitments, full, capacity}
use dash_mno_verify.Merkle.MembersTree.Consistent.{append-IsConsistent}
use dash_mno_verify.Merkle.MembersTree.Roots.{root-rebuild}
use dash_mno_verify.Registration.{
  Registration, Request, Appended, Backend, bucket_of, records_of, push, append_checked, is_valid,
}
use dash_mno_verify.Registration.Outcomes.{is_refused, append_checked-outcomes}
use dash_mno_verify.Registration.Buckets.{records_of-push}
use dash_mno_verify.Season.State.{Context, SeasonMembers, SeasonError, list_or, members}
use dash_mno_verify.Season.Trees.{commitments_of, context_of}
use dash_mno_verify.Season.Commit.{with_store, Fate, answered, Commit, committed, write, mirror}
use dash_mno_verify.Season.Synced.{
  IsCached, IsSynced, push-IsSynced, put-IsSynced, commitments_of-snoc, length-commitments_of,
}

-- The durable append is refused and writes nothing, or it appends a canonical commitment at the end of
is_valid-commitment : (d : Request) → is_valid d ≡ true → is_canonical_field d.commitment ≡ true
is_valid-commitment d h = ground arith

-- its bucket.
pub append_checked-cases :
    (d : Request) (b : Backend)
    → ((res : Appended) × (append_checked d b ≡ (res, b)) × (is_refused res ≡ true))
      ⊎ ((append_checked d b ≡ (Appended.appended (length (records_of (bucket_of d) b)), push d b))
          × (is_canonical_field d.commitment ≡ true))
append_checked-cases d b = elim (append_checked-outcomes d b) [
  | inl refused ↦ inl refused
  | inr (e, good, fresh, agrees) ↦ inr (e, is_valid-commitment d good)
]

module _ {F : Type 0} (p : Poseidon F)
    (reads : (v : String) → is_canonical_field v ≡ true → (x : F) × (element p v ≡ ok x)) where
  -- The answer of a commit is sound: a commitment is published only with its record, at the record's
  -- place, under the root that a rebuild from the records has.
  abbrev pub IsPublished :
      Request → Backend → Result SeasonError Commit → SeasonMembers F → Backend → Type 0
  IsPublished d b (ok (committed index root size)) s' b' =
      (records_of (bucket_of d) b'
        ≡ records_of (bucket_of d) b ++ record { request = d; index = index } ∷ [])
      × (index ≡ length (records_of (bucket_of d) b))
      × (size ≡ suc index)
      × (members d.context_hash s' ≡ commitments_of (records_of (bucket_of d) b'))
      × ((t : MembersTree F) × (from_commitments p (commitments_of (records_of (bucket_of d) b'))
              s'.depth
            ≡ ok t)
          × (root ≡ MembersTree.root p t))
  IsPublished d b (ok Commit.index_tree_mismatch) s' b' = ⊥
  IsPublished d b (ok _) s' b' = Unit {0}
  IsPublished d b (err SeasonError.write_threw) s' b' = Unit {0}
  IsPublished d b (err _) s' b' = ⊥

  abbrev pub IsSound :
      Request → Backend → Result SeasonError Commit × SeasonMembers F × Backend → Type 0
  IsSound d b (r, s', b') = IsSynced p s' b' × IsPublished d b r s' b'

  mirror-refused :
      {s : SeasonMembers F} {b : Backend} (now : ℕ) (d : Request) (k : Context F) (res : Appended)
      → IsSynced p s b
      → is_refused res ≡ true
      → IsSound d b (with_store p b (mirror p now d k (answered res) s))
  unfolding mirror
  mirror-refused now d k Appended.invalid h refused = (h, tt)
  mirror-refused now d k Appended.duplicate h refused = (h, tt)
  mirror-refused now d k (Appended.conflict declared) h refused = (h, tt)
  mirror-refused now d k (Appended.appended index) h refused = cc

  -- The context's tree lists every record of the bucket and has room for one more.
  module _ {s : SeasonMembers F} {b : Backend} (now : ℕ) (d : Request) (k : Context F)
      (h : IsSynced p s b) (there : JsMap.get d.context_hash s.ctx ≡ some k)
      (now_current : s.current ≡ some d.season)
      (whole : k.tree.commitments ≡ commitments_of (records_of (bucket_of d) b))
      (room : full k.tree ≡ false) where
    abbrev recs : List Registration
    recs = records_of (bucket_of d) b

    size_whole : length k.tree.commitments ≡ length recs
    size_whole = ap length whole ∙ length-commitments_of recs

    slots_left : length k.tree.commitments < 2 ^ k.tree.depth
    unfolding full capacity
    slots_left = ground (arith, room)

    records_room : length recs < 2 ^ s.depth
    records_room =
        let old = h.cached d.context_hash k there in
        subst (λ n. length recs < 2 ^ n) old.deep
          (subst (λ n. n < 2 ^ k.tree.depth) size_whole slots_left)

    module _ (x : F) (converts : element p d.commitment ≡ ok x) where
      mirrored :
          {t' : MembersTree F}
          → MembersTree.append p d.commitment k.tree ≡ ok (length k.tree.commitments, t')
          → mirror p now d k (answered (Appended.appended (length recs))) s ≡ (
            ok (committed (length recs) (MembersTree.root p t') (length t'.commitments)),
            record s { ctx = JsMap.put d.context_hash (context_of p now k.roots t') s.ctx },
          )
      unfolding mirror
      mirrored e =
          let same : nat_beq (length recs) (length k.tree.commitments) ≡ true =
            (nat_beq_iff (length recs) (length k.tree.commitments)).1 (sym size_whole) in
          rw (same, e) refl

      mirror-appended : IsSound d b (
          with_store p (push d b) (mirror p now d k (answered (Appended.appended (length recs))) s))
      unfolding members
      mirror-appended =
          let old = h.cached d.context_hash k there in
          let (t', e, consistent', grown, deep') =
            append-IsConsistent p d.commitment x old.consistent slots_left converts in
          let listed : t'.commitments ≡ commitments_of (records_of (bucket_of d) (push d b)) =
            grown
            ∙ ap (λ xs. xs ++ d.commitment ∷ []) whole
            ∙ sym (ap commitments_of (records_of-push d b) ∙ commitments_of-snoc recs _) in
          let (t2, again, consistent2, same_root) = root-rebuild p consistent' in
          let k' = context_of p now k.roots t' in
          let cached : IsCached p s.depth s.current (push d b) d.context_hash k' = record {
            season = d.season;
            is_current = now_current;
            consistent = consistent';
            deep = deep' ∙ old.deep;
            rest = [];
            prefix = sym (append-nil t'.commitments ∙ listed);
          } in
          rw (mirrored e) (
            put-IsSynced p d.context_hash k' (push-IsSynced p d x h converts records_room) cached,
            (
              records_of-push d b,
              refl,
              omega (
                arith,
                ap length grown,
                length-append k.tree.commitments (d.commitment ∷ []),
                size_whole,
              ),
              ap list_or (get-put_self d.context_hash k' s.ctx) ∙ listed,
              (
                t2,
                subst
                    (λ n.
                      from_commitments p (commitments_of (records_of (bucket_of d) (push d b))) n
                      ≡ ok t2)
                    (deep' ∙ old.deep)
                    (subst (λ cs. from_commitments p cs t'.depth ≡ ok t2) listed again),
                sym same_root,
              ),
            ),
          )

    throws_after-IsSynced : IsSynced p s (append_checked d b).1
    throws_after-IsSynced = elim (append_checked-cases d b) [
      | inl (res, e, refused) ↦ rw e h
      | inr (e, canonical) ↦
          let (x, converts) = reads d.commitment canonical in
          rw e (push-IsSynced p d x h converts records_room)
    ]

    pub write-IsSound :
        (fate : Fate)
        → IsSound d b
            (let (written, b') = write fate d b in with_store p b' (mirror p now d k written s))
    unfolding write mirror
    write-IsSound Fate.throws_before = (h, tt)
    write-IsSound Fate.anchor_stale = (h, tt)
    write-IsSound Fate.throws_after = (throws_after-IsSynced, tt)
    write-IsSound Fate.runs = elim (append_checked-cases d b) [
      | inl (res, e, refused) ↦ rw e (mirror-refused now d k res h refused)
      | inr (e, canonical) ↦
          let (x, converts) = reads d.commitment canonical in rw e (mirror-appended x converts)
    ]
