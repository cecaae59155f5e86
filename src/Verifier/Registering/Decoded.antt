-- ===== src/Verifier/Registering/Decoded.antt =====
-- The decoders of core/verifier.js and the two entries to the registration check. `BigInt` of a slice
-- of bytes is the number they write, and `toString` its decimal digits: 78 are enough for 32 bytes.
use dash_mno_verify.Prelude.{
  hex_digit, hex, ℕ, zero, suc, ◌+◌, ◌*◌, ◌/◌, ◌%◌, List, [], ◌∷◌, Bool, true, false, not, ◌&&◌,
  ltb, nat_beq, all_of, length, drop, String, string_eq, ◌==◌, Option, some, none, Result, ok, err,
  throw_if, ◌>>◌, if◌then◌else◌,
}
use dash_mno_verify.Field.{is_canonical_field}
use dash_mno_verify.Verifier.Registering.{RegistrationClaims, Terms, Phase, refused, begin}

-- The digits of a number, before those of a string; the fuel bounds how many.
unfoldable pub spell_before : ℕ → ℕ → String → String
spell_before zero n s = s
spell_before (suc fuel) n s =
    let rest = spell_before fuel (n / 10) (String.◌∷◌ (hex_digit (n % 10)) s) in
    if ltb n 10 then String.◌∷◌ (hex_digit n) s else rest

unfoldable pub spell : ℕ → String
spell n = spell_before 78 n ""

-- `BigInt("0x" + …)`, the first byte the highest.
unfoldable pub big_endian : ℕ → List ℕ → ℕ
big_endian acc [] = acc
big_endian acc (b ∷ bs) = big_endian (256 * acc + b) bs

abbrev pub first_of : ℕ → List ℕ → List ℕ
first_of zero bs = []
first_of (suc n) [] = []
first_of (suc n) (b ∷ bs) = b ∷ first_of n bs

-- `bytes.subarray(from, from + n)`
abbrev pub slice : ℕ → ℕ → List ℕ → List ℕ
slice from n bytes = first_of n (drop from bytes)

-- `decodePlonkRegistrationClaims`
unfoldable pub registration_signals : List String → Option RegistrationClaims
registration_signals (commitment ∷ reg_nullifier ∷ root ∷ season ∷ context_hash ∷ []) =
    some (record {
      commitment = commitment;
      reg_nullifier = reg_nullifier;
      root = root;
      season = season;
      context_hash = context_hash;
    })
registration_signals other = none

unfoldable pub decode_plonk : List String → Result String RegistrationClaims
decode_plonk signals =
    if all_of is_canonical_field signals
    then (elim (registration_signals signals) [ none ↦ err "non-canonical-signal" | some c ↦ ok c ])
    else err "non-canonical-signal"

abbrev pub journal_bytes : ℕ
journal_bytes = 136

-- The claims of a journal, whatever its length.
unfoldable pub journal_claims : List ℕ → RegistrationClaims
journal_claims bytes = record {
  commitment = spell (big_endian 0 (slice 0 32 bytes));
  reg_nullifier = spell (big_endian 0 (slice 32 32 bytes));
  root = hex (slice 64 32 bytes);
  season = spell (big_endian 0 (slice 96 8 bytes));
  context_hash = spell (big_endian 0 (slice 104 32 bytes));
}

abbrev pub has_canonical_fields : RegistrationClaims → Bool
has_canonical_fields c =
    is_canonical_field c.commitment
    && is_canonical_field c.reg_nullifier
    && is_canonical_field c.context_hash

-- `decodeZkvmRegistrationClaims`, of what is a buffer.
unfoldable pub decode_zkvm : List ℕ → Result String RegistrationClaims
decode_zkvm bytes = do
  throw_if (not (nat_beq (length bytes) journal_bytes)) "bad-journal-length"
  throw_if (not (has_canonical_fields (journal_claims bytes))) "non-canonical-signal"
  ok (journal_claims bytes)

abbrev pub declares : String → Option String → Bool
declares engine none = false
declares engine (some declared) = declared == engine

abbrev pub begin_decoded : Terms → Result String RegistrationClaims → Phase
begin_decoded t (err reason) = Phase.done (refused reason)
begin_decoded t (ok c) = begin spell t c

-- `verifyRegistration`, up to its first await.
unfoldable pub begin_groth16 : Terms → List String → Phase
begin_groth16 t signals =
    if declares "groth16" t.engine
    then begin_decoded t (decode_plonk signals)
    else Phase.done (refused "engine-mismatch")

abbrev pub with_verifier :
    Bool → Result String RegistrationClaims → Result String RegistrationClaims
with_verifier has_verifier (err reason) = err reason
with_verifier true (ok c) = ok c
with_verifier false (ok c) = err "zkvm-verifier-not-configured"

-- `verifyZkvmRegistration`, up to its first await; `has_verifier` where `verifyReceipt` is a function.
unfoldable pub begin_zkvm : Bool → Terms → List ℕ → Phase
begin_zkvm has_verifier t bytes =
    if declares "zkvm" t.engine
    then begin_decoded t (with_verifier has_verifier (decode_zkvm bytes))
    else Phase.done (refused "engine-mismatch")
