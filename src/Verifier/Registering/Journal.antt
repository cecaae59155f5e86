-- ===== src/Verifier/Registering/Journal.antt =====
-- What the decoder of a zkVM journal in core/verifier.js makes of its 136 bytes.
use Prim.Native.Char.{code}
use dash_mno_verify.Prelude.{
  hex_digit, ℕ, zero, suc, ◌+◌, ◌-◌, ◌*◌, ◌/◌, ◌%◌, ◌<◌, ◌≤◌, ◌≡◌, subst, refl, ap, ◌∙◌, List, [],
  ◌∷◌, Bool, true, false, not, ◌&&◌, ltb, nat_beq, all_of, length, drop, length-drop, String, ok,
  throw_if, ◌>>◌, arith, inl, inr, Bool-cases, ltb→lt, nat_beq_iff,
}
use dash_mno_verify.Field.{is_canonical_field, codes, decimal_value, field_prime}
use dash_mno_verify.Verifier.Registering.{RegistrationClaims}
use dash_mno_verify.Verifier.Registering.Decoded.{
  spell_before, spell, big_endian, first_of, slice, journal_bytes, journal_claims,
  has_canonical_fields, decode_zkvm,
}

code-digit : (d : ℕ) → d < 10 → code (hex_digit d) ≡ 48 + d
code-digit zero h = refl
code-digit (suc zero) h = refl
code-digit (suc (suc zero)) h = refl
code-digit (suc (suc (suc zero))) h = refl
code-digit (suc (suc (suc (suc zero)))) h = refl
code-digit (suc (suc (suc (suc (suc zero))))) h = refl
code-digit (suc (suc (suc (suc (suc (suc zero)))))) h = refl
code-digit (suc (suc (suc (suc (suc (suc (suc zero))))))) h = refl
code-digit (suc (suc (suc (suc (suc (suc (suc (suc zero)))))))) h = refl
code-digit (suc (suc (suc (suc (suc (suc (suc (suc (suc zero))))))))) h = refl
code-digit (suc (suc (suc (suc (suc (suc (suc (suc (suc (suc n)))))))))) h = absurd (omega arith)

-- A power of ten, and of 256 with a factor.
abbrev tens : ℕ → ℕ
tens zero = 1
tens (suc n) = 10 * tens n

abbrev scaled : ℕ → ℕ → ℕ
scaled zero m = m
scaled (suc n) m = scaled n (256 * m)

decimal_value-spell_before :
    (fuel n : ℕ) (s : String)
    → n < tens fuel
    → decimal_value 0 (codes (spell_before fuel n s)) ≡ decimal_value n (codes s)
unfolding spell_before decimal_value
decimal_value-spell_before zero n s h =
    ap (λ m. decimal_value m (codes s)) (let zero_n : 0 ≡ n = omega arith in zero_n)
decimal_value-spell_before (suc fuel) n s h = elim (Bool-cases (ltb n 10)) [
  | inl small ↦ rw small (
      ap (λ m. decimal_value m (codes s))
        (let digit : 10 * 0 + (code (hex_digit n) - 48) ≡ n =
            omega (arith, code-digit n (ltb→lt n 10 small)) in
          digit))
  | inr big ↦
      let digit : 10 * (n / 10) + (code (hex_digit (n % 10)) - 48) ≡ n =
        omega (arith, code-digit (n % 10) (omega arith)) in
      rw big (
        decimal_value-spell_before fuel (n / 10) (String.◌∷◌ (hex_digit (n % 10)) s) (omega arith)
        ∙ ap (λ m. decimal_value m (codes s)) digit)
]

big_endian-lt :
    (bs : List ℕ) (acc m : ℕ)
    → all_of (λ b. ltb b 256) bs ≡ true
    → acc < m
    → big_endian acc bs < scaled (length bs) m
unfolding big_endian
big_endian-lt [] acc m bytes h = h
big_endian-lt (b ∷ bs) acc m bytes h =
    big_endian-lt bs (256 * acc + b) (256 * m) (ground arith) (ground arith)

module _ (ok_byte : ℕ → Bool) where
  all_of-drop : (n : ℕ) (bs : List ℕ) → all_of ok_byte bs ≡ true → all_of ok_byte (drop n bs) ≡ true
  all_of-drop zero bs h = h
  all_of-drop (suc n) [] h = h
  all_of-drop (suc n) (b ∷ bs) h = all_of-drop n bs (ground arith)

  all_of-first_of :
      (n : ℕ) (bs : List ℕ) → all_of ok_byte bs ≡ true → all_of ok_byte (first_of n bs) ≡ true
  all_of-first_of zero bs h = refl
  all_of-first_of (suc n) [] h = refl
  all_of-first_of (suc n) (b ∷ bs) h =
      let rest = all_of-first_of n bs (ground arith) in ground arith

length-first_of : (n : ℕ) (bs : List ℕ) → n ≤ length bs → length (first_of n bs) ≡ n
length-first_of zero bs h = refl
length-first_of (suc n) [] h = omega arith
length-first_of (suc n) (b ∷ bs) h = omega (arith, length-first_of n bs (omega arith))

abbrev pub is_byte : ℕ → Bool
is_byte b = ltb b 256

-- A string that writes the number of the bytes.
abbrev pub IsNumber : String → List ℕ → Type 0
IsNumber s bs = decimal_value 0 (codes s) ≡ big_endian 0 bs

abbrev pub IsFieldNumber : String → List ℕ → Type 0
IsFieldNumber s bs = IsNumber s bs × (big_endian 0 bs < field_prime)

-- Up to 32 bytes have a number that 78 digits spell.
slice-IsNumber :
    (from n : ℕ) (bytes : List ℕ)
    → all_of is_byte bytes ≡ true
    → from + n ≤ length bytes
    → scaled n 1 ≤ tens 78
    → IsNumber (spell (big_endian 0 (slice from n bytes))) (slice from n bytes)
unfolding spell decimal_value
slice-IsNumber from n bytes h long enough =
    let part = slice from n bytes in
    let whole : length part ≡ n =
      length-first_of n (drop from bytes) (omega (arith, length-drop from bytes)) in
    let small : big_endian 0 part < scaled (length part) 1 =
      big_endian-lt part 0 1
        (all_of-first_of is_byte n (drop from bytes) (all_of-drop is_byte from bytes h))
        (omega arith) in
    decimal_value-spell_before 78 (big_endian 0 part) ""
      (omega (arith, small, ap (λ k. scaled k 1) whole, enough))

canonical-lt :
    (s : String) (bs : List ℕ) → IsNumber s bs → is_canonical_field s ≡ true → IsFieldNumber s bs
unfolding is_canonical_field
canonical-lt s bs e h = (e, ground arith)

passed :
    (long good : Bool) (too_short not_canonical : String) (x c : RegistrationClaims)
    → (throw_if (not long) too_short >> (throw_if (not good) not_canonical >> ok x)) ≡ ok c
    → (long ≡ true) × (good ≡ true) × (x ≡ c)
passed true true too_short not_canonical x c e = (refl, refl, cc)
passed true false too_short not_canonical x c e = cc
passed false good too_short not_canonical x c e = cc

three : (x y z : Bool) → (x && y && z) ≡ true → (x ≡ true) × (y ≡ true) × (z ≡ true)
three x y z h = (ground arith, ground arith, ground arith)

-- A journal of bytes that decodes is 136 bytes long; the claims of commitment, registration nullifier
-- and context are decimal strings of the numbers below the field prime that its bytes 0 to 31, 32 to 63
-- and 104 to 135 write, and the season is one of the number that its bytes 96 to 103 write.
pub decode_zkvm-reads :
    (bytes : List ℕ) (c : RegistrationClaims)
    → all_of is_byte bytes ≡ true
    → decode_zkvm bytes ≡ ok c
    → (length bytes ≡ journal_bytes)
      × IsFieldNumber c.commitment (slice 0 32 bytes)
      × IsFieldNumber c.reg_nullifier (slice 32 32 bytes)
      × IsFieldNumber c.context_hash (slice 104 32 bytes)
      × IsNumber c.season (slice 96 8 bytes)
unfolding decode_zkvm journal_claims
decode_zkvm-reads bytes c h e =
    let claims = journal_claims bytes in
    let (long, good, same) =
      passed (nat_beq (length bytes) journal_bytes) (has_canonical_fields claims)
        "bad-journal-length" "non-canonical-signal" claims c e in
    let size : length bytes ≡ journal_bytes = (nat_beq_iff (length bytes) journal_bytes).0 long in
    let (x, y, z) =
      three (is_canonical_field claims.commitment) (is_canonical_field claims.reg_nullifier)
        (is_canonical_field claims.context_hash) good in
    subst
      (λ k.
        (length bytes ≡ journal_bytes)
        × IsFieldNumber k.commitment (slice 0 32 bytes)
        × IsFieldNumber k.reg_nullifier (slice 32 32 bytes)
        × IsFieldNumber k.context_hash (slice 104 32 bytes)
        × IsNumber k.season (slice 96 8 bytes))
      same
      (
        size,
        canonical-lt _ _ (slice-IsNumber 0 32 bytes h (omega arith) (omega arith)) x,
        canonical-lt _ _ (slice-IsNumber 32 32 bytes h (omega arith) (omega arith)) y,
        canonical-lt _ _ (slice-IsNumber 104 32 bytes h (omega arith) (omega arith)) z,
        slice-IsNumber 96 8 bytes h (omega arith) (omega arith),
      )
