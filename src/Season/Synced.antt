-- ===== src/Season/Synced.antt =====
-- What keeps the season's trees true to the durable registrations: each cached tree holds the first
-- of its context's commitments, in their order.
use mathlib.Core.List.{append-nil, append_assoc}
use dash_mno_verify.Prelude.{
  some-injective, ℕ, ◌^◌, ◌≤◌, ◌<◌, ◌≡◌, refl, ap, sym, ◌∙◌, subst, List, [], ◌∷◌, ◌++◌, length,
  String, Option, some, ok, map_result, map_result-snoc, length-append, arith, inl, inr, Bool-cases,
  ◌==◌, string_eq, nat_eq, pair_eq, eq_of_==, if◌then◌else◌,
}
use dash_mno_verify.Prelude.JsMap
use dash_mno_verify.Prelude.JsMap.{JsMap, get-put}
use dash_mno_verify.Merkle.Hash.{Poseidon, element}
use dash_mno_verify.Merkle.MembersTree.Consistent.{IsConsistent, from_commitments-IsConsistent}
use dash_mno_verify.Stores.RootStore.{RootStore}
use dash_mno_verify.Registration.{
  Request, Registration, Bucket, Backend, bucket_of, records_of, push,
}
use dash_mno_verify.Registration.Buckets.{records_of-push, records_of-push_other}
use dash_mno_verify.Season.State.{Context, SeasonMembers}
use dash_mno_verify.Season.Trees.{commitments_of, context_of, build_context}

pub length-commitments_of : (recs : List Registration) → length (commitments_of recs) ≡ length recs
length-commitments_of [] = refl
length-commitments_of (r ∷ recs) = omega (arith, length-commitments_of recs)

pub commitments_of-snoc :
    (recs : List Registration) (r : Registration)
    → commitments_of (recs ++ r ∷ []) ≡ commitments_of recs ++ r.request.commitment ∷ []
commitments_of-snoc [] r = refl
commitments_of-snoc (x ∷ recs) r = ap (λ xs. x.request.commitment ∷ xs) (commitments_of-snoc recs r)

-- What a push adds to a bucket's commitments.
new_commitments :
    (d : Request) (bucket : Bucket) (b : Backend)
    → (more : List String) × (commitments_of (records_of bucket (push d b))
        ≡ commitments_of (records_of bucket b) ++ more)
new_commitments d bucket b = elim (Bool-cases (bucket_of d == bucket)) [
  | inl same ↦ (
    d.commitment ∷ [],
    subst
        (λ k.
          commitments_of (records_of k (push d b))
          ≡ commitments_of (records_of k b) ++ d.commitment ∷ [])
        (eq_of_== (bucket_of d) bucket same)
        (ap commitments_of (records_of-push d b)
          ∙ commitments_of-snoc (records_of (bucket_of d) b) _),
  )
  | inr other ↦
      ([], ap commitments_of (records_of-push_other d bucket b other) ∙ sym (append-nil _))
]

module _ {F : Type 0} (p : Poseidon F) where
  -- A context over the records of its bucket: a consistent tree over the first of their commitments.
  pub record IsCached (depth : ℕ) (current : Option ℕ) (b : Backend) (c : String) (k : Context F)
      : Type 0 where
    pub season : ℕ
    pub is_current : current ≡ some season
    pub consistent : IsConsistent p k.tree
    pub deep : k.tree.depth ≡ depth
    pub rest : List String
    pub prefix : commitments_of (records_of (season, c) b) ≡ k.tree.commitments ++ rest

  abbrev pub IsReadable : List String → Type 0
  IsReadable cs = (leaves : List F) × (map_result (element p) cs ≡ ok leaves)

  -- Every bucket fits a tree and converts, and every cached context is one over its records.
  pub record IsSynced (s : SeasonMembers F) (b : Backend) : Type 0 where
    pub fits : (bucket : Bucket) → length (records_of bucket b) ≤ 2 ^ s.depth
    pub readable : (bucket : Bucket) → IsReadable (commitments_of (records_of bucket b))
    pub cached :
        (c : String) (k : Context F) → JsMap.get c s.ctx ≡ some k → IsCached s.depth s.current b c k

  pub put-IsSynced :
      {s : SeasonMembers F} {b : Backend} (c : String) (k : Context F)
      → IsSynced s b
      → IsCached s.depth s.current b c k
      → IsSynced (record s { ctx = JsMap.put c k s.ctx }) b
  put-IsSynced {s} {b} c k h new = record {
    fits = h.fits;
    readable = h.readable;
    cached = λ c' k' e. elim (Bool-cases (c == c')) [
      | inl same ↦
          let q : some k ≡ some k' =
            sym (get-put c c' k s.ctx ∙ ap (λ t. if t then some k else JsMap.get c' s.ctx) same)
            ∙ e in
          subst (λ x. IsCached s.depth s.current b x k') (eq_of_== c c' same)
            (subst (IsCached s.depth s.current b c) (some-injective k k' q) new)
      | inr other ↦ h.cached c' k' (
          sym (get-put c c' k s.ctx ∙ ap (λ t. if t then some k else JsMap.get c' s.ctx) other) ∙ e)
    ];
  }

  -- A build from the records of a bucket of the current season succeeds, and caches them all.
  pub build_context-IsSynced :
      {s : SeasonMembers F} {b : Backend} (now season : ℕ) (c : String) (roots : RootStore)
      → IsSynced s b
      → s.current ≡ some season
      → (k : Context F) × (build_context p now c roots (records_of (season, c) b) s
          ≡ (ok k, record s { ctx = JsMap.put c k s.ctx }))
        × IsSynced (record s { ctx = JsMap.put c k s.ctx }) b
        × (k.tree.commitments ≡ commitments_of (records_of (season, c) b))
  unfolding build_context
  build_context-IsSynced {s} {b} now season c roots h now_current =
      let recs = records_of (season, c) b in
      let (leaves, read) = h.readable (season, c) in
      let (t, e, consistent, same, deep, rooted) =
        from_commitments-IsConsistent p (commitments_of recs) leaves s.depth
          (omega (arith, length-commitments_of recs, h.fits (season, c))) read in
      let k = context_of p now roots t in
      (
        k,
        rw e refl,
        put-IsSynced c k h (record {
          season = season;
          is_current = now_current;
          consistent = consistent;
          deep = deep;
          rest = [];
          prefix = sym (append-nil t.commitments ∙ same);
        }),
        same,
      )

  -- A registration whose commitment converts keeps the trees true, wherever there is room for it.
  pub push-IsSynced :
      {s : SeasonMembers F} {b : Backend} (d : Request) (x : F)
      → IsSynced s b
      → element p d.commitment ≡ ok x
      → length (records_of (bucket_of d) b) < 2 ^ s.depth
      → IsSynced s (push d b)
  push-IsSynced {s} {b} d x h converts room = record {
    fits = λ bucket. elim (Bool-cases (bucket_of d == bucket)) [
      | inl same ↦
          subst (λ k. length (records_of k (push d b)) ≤ 2 ^ s.depth)
            (eq_of_== (bucket_of d) bucket same)
            (rw (records_of-push d b) (
              omega (
                arith,
                length-append (records_of (bucket_of d) b)
                    (record { request = d; index = length (records_of (bucket_of d) b) } ∷ []),
              )))
      | inr other ↦ rw (records_of-push_other d bucket b other) (h.fits bucket)
    ];
    readable = λ bucket. elim (Bool-cases (bucket_of d == bucket)) [
      | inl same ↦
          let (leaves, read) = h.readable (bucket_of d) in
          subst (λ k. IsReadable (commitments_of (records_of k (push d b))))
            (eq_of_== (bucket_of d) bucket same)
            (
              leaves ++ x ∷ [],
              rw (records_of-push d b, commitments_of-snoc)
                  (map_result-snoc (element p) _ leaves d.commitment x read converts),
            )
      | inr other ↦ rw (records_of-push_other d bucket b other) (h.readable bucket)
    ];
    cached = λ c k e.
        let old = h.cached c k e in
        let more = new_commitments d (old.season, c) b in
        record {
          season = old.season;
          is_current = old.is_current;
          consistent = old.consistent;
          deep = old.deep;
          rest = old.rest ++ more.0;
          prefix =
              more.1
              ∙ ap (λ xs. xs ++ more.0) old.prefix
              ∙ append_assoc k.tree.commitments old.rest more.0;
        };
  }
