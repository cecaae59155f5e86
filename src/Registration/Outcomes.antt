-- ===== src/Registration/Outcomes.antt =====
-- The two ends of an append in core/registration_store.js.
use dash_mno_verify.Prelude.{
  ◌≡◌, refl, ◌⊎◌, inl, inr, length, Bool, true, false, none, Bool-cases, Option-cases,
}
use dash_mno_verify.Registration
use dash_mno_verify.Registration.{
  Request, Appended, Backend, bucket_of, key_of, records_of, declaration_of, conflict_with, push,
  append, append_checked, is_valid,
}

abbrev pub is_refused : Appended → Bool
is_refused (Appended.appended index) = false
is_refused _ = true

-- An append is refused and writes nothing, or it passed every check and its record is pushed.
pub append_checked-outcomes :
    (d : Request) (b : Backend)
    → ((res : Appended) × (append_checked d b ≡ (res, b)) × (is_refused res ≡ true))
      ⊎ ((append_checked d b ≡ (Appended.appended (length (records_of (bucket_of d) b)), push d b))
          × (is_valid d ≡ true)
          × (Registration.has (key_of d) b ≡ false)
          × (conflict_with (declaration_of d) (records_of (bucket_of d) b) ≡ none))
unfolding append_checked append
append_checked-outcomes d b = elim (Bool-cases (is_valid d)) [
  | inr bad ↦ inl (Appended.invalid, rw bad refl, refl)
  | inl good ↦ elim (Bool-cases (Registration.has (key_of d) b)) [
    | inl seen ↦ inl (Appended.duplicate, rw (good, seen) refl, refl)
    | inr fresh ↦
        elim (Option-cases (conflict_with (declaration_of d) (records_of (bucket_of d) b))) [
          | inl agrees ↦ inr (rw (good, fresh, agrees) refl, good, fresh, agrees)
          | inr (declared, c) ↦ inl (Appended.conflict declared, rw (good, fresh, c) refl, refl)
        ]
  ]
]
