-- ===== src/Oracle/Quorum.antt =====
-- What `oracleSignaturesOk` of core/gateway.js has counted.
use dash_mno_verify.Prelude.{
  ◌≤◌, ◌<◌, ◌≡◌, refl, sym, ap, List, [], ◌∷◌, Bool, true, false, ◌&&◌, leb→le, any_of, ◌==◌,
  string_eq, length, String, Option, some, none, if◌then◌else◌, keep_if, arith, ◌⊎◌, inl, inr,
  subst, some-injective,
}
use dash_mno_verify.Prelude.JsMap
use dash_mno_verify.Prelude.JsMap.{JsMap}
use dash_mno_verify.Oracle.Snapshot.{Published, Settings}
use dash_mno_verify.Oracle.Signatures.{
  Crypto, index_one, index_rest, index_sigs, verifies_under, count_met, quorum_met,
  oracle_signatures_ok,
}

module _ (k : Crypto) (o : Published) where
  abbrev pub is_key : Option String → String → Bool
  is_key none key = false
  is_key (some id) key = id == key

  -- Whether a key has a signature among those of a snapshot: an entry with one of its labels that verifies.
  abbrev pub signed_in : List (String × String) → String → Bool
  signed_in sigs key = any_of (λ e. is_key (k.key_of_label e.0) key && k.verifies o e.1 key) sigs

  found_in : JsMap String String → String → Bool
  found_in by_key key = verifies_under k o key (JsMap.get key by_key)

  index_one-found :
      (id : Option String) (sig : String) (held held' : JsMap String String) (key : String)
      → index_one k id sig held ≡ some held'
      → found_in held' key ≡ true
      → (found_in held key ≡ true) ⊎ ((is_key id key && k.verifies o sig key) ≡ true)
  unfolding found_in
  index_one-found none sig held held' key e v =
      inl (subst (λ m. found_in m key ≡ true) (sym (some-injective held held' e)) v)
  index_one-found (some id) sig held held' key e v = go (JsMap.has id held) (id == key) e refl
    where
      go :
          (taken same : Bool)
          → (if taken then none else some (JsMap.put id sig held)) ≡ some held'
          → (id == key) ≡ same
          → (found_in held key ≡ true) ⊎ (((id == key) && k.verifies o sig key) ≡ true)
      go true same h at = absurd (ground arith)
      go false false h at = inl (
          subst (λ p. verifies_under k o key p ≡ true) (JsMap.get-put_other id key sig held at)
            (subst (λ m. found_in m key ≡ true) (sym (some-injective _ held' h)) v))
      go false true h at = inr (
          ground (
            arith,
            at,
            ap (verifies_under k o key) (JsMap.get-put id key sig held),
            subst (λ m. found_in m key ≡ true) (sym (some-injective _ held' h)) v,
          ))

  index_rest-some :
      (next : JsMap String String → Option (JsMap String String)) (p : Option (JsMap String String))
      (by_key : JsMap String String)
      → index_rest k next p ≡ some by_key
      → (held : JsMap String String) × (p ≡ some held) × (next held ≡ some by_key)
  index_rest-some next none by_key h = absurd (ground arith)
  index_rest-some next (some held) by_key h = (held, refl, h)

  -- A signature that is found by its key was among those that were indexed, or was held before.
  index_sigs-found :
      (sigs : List (String × String)) (held by_key : JsMap String String) (key : String)
      → index_sigs k sigs held ≡ some by_key
      → found_in by_key key ≡ true
      → (found_in held key ≡ true) ⊎ (signed_in sigs key ≡ true)
  unfolding index_sigs
  index_sigs-found [] held by_key key e v =
      inl (subst (λ m. found_in m key ≡ true) (sym (some-injective held by_key e)) v)
  index_sigs-found ((label, sig) ∷ rest) held by_key key e v =
      let (held', e1, e2) =
        index_rest-some (index_sigs k rest) (index_one k (k.key_of_label label) sig held) by_key
          e in
      elim (index_sigs-found rest held' by_key key e2 v) [
        | inl v' ↦ elim (index_one-found (k.key_of_label label) sig held held' key e1 v') [
          | inl h ↦ inl h
          | inr h ↦ inr (ground (arith, h))
        ]
        | inr h ↦ inr (ground (arith, h))
      ]

  signed_of_found :
      (by_key : JsMap String String) (key : String)
      → index_sigs k o.sigs [] ≡ some by_key
      → found_in by_key key ≡ true
      → signed_in o.sigs key ≡ true
  unfolding found_in JsMap.get
  signed_of_found by_key key e v = elim (index_sigs-found o.sigs [] by_key key e v) [
    | inl h ↦ absurd (ground arith)
    | inr h ↦ h
  ]

  count_met-le :
      (by_key : JsMap String String) (keys : List String)
      → index_sigs k o.sigs [] ≡ some by_key
      → count_met k o by_key keys ≤ length (keep_if (signed_in o.sigs) keys)
  unfolding count_met found_in
  count_met-le by_key [] e = omega arith
  count_met-le by_key (key ∷ keys) e =
      ground (arith, count_met-le by_key keys e, signed_of_found by_key key e)

  -- Where keys are configured, a snapshot that passes has signatures of at least as many of them as the
  -- quorum: each of these keys has an entry under one of its labels that verifies over the snapshot.
  pub oracle_signatures_ok-quorum :
      (c : Settings)
      → 0 < length c.keys
      → oracle_signatures_ok k c o ≡ true
      → c.quorum ≤ length (keep_if (signed_in o.sigs) c.keys)
  unfolding oracle_signatures_ok
  oracle_signatures_ok-quorum c keys e = go (index_sigs k o.sigs []) refl (ground (arith, keys, e))
    where
      go :
          (p : Option (JsMap String String))
          → index_sigs k o.sigs [] ≡ p
          → quorum_met k c o p ≡ true
          → c.quorum ≤ length (keep_if (signed_in o.sigs) c.keys)
      go none h met = absurd (ground arith)
      go (some by_key) h met = omega (
        arith,
        count_met-le by_key c.keys h,
        leb→le c.quorum (count_met k o by_key c.keys) (ground (arith, met)),
      )
