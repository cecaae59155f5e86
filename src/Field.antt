-- ===== src/Field.antt =====
-- common/field.js: the canonical spelling of a field element.
use Prim.Native.Char.{code}
use dash_mno_verify.Prelude.{
  ℕ, ◌+◌, ◌-◌, ◌*◌, List, [], ◌∷◌, Bool, false, ◌&&◌, leb, ltb, nat_beq, all_of, length, String,
  if◌then◌else◌,
}

-- `FIELD_PRIME`, and the number of digits of the greatest element.
abbrev pub field_prime : ℕ
field_prime = 21888242871839275222246405745257275088548364400416034343698204186575808495617

abbrev pub max_field_digits : ℕ
max_field_digits = 77

abbrev pub codes : String → List ℕ
codes String.[] = []
codes (String.◌∷◌ c s) = code c ∷ codes s

abbrev pub is_digit : ℕ → Bool
is_digit c = leb b'0' c && leb c b'9'

-- `/^(0|[1-9]\d*)$/`
unfoldable pub spelled_decimal : List ℕ → Bool
spelled_decimal [] = false
spelled_decimal (c ∷ cs) =
    if nat_beq c b'0' then nat_beq (length cs) 0 else is_digit c && all_of is_digit cs

-- `BigInt(v)` of a string of digits.
unfoldable pub decimal_value : ℕ → List ℕ → ℕ
decimal_value acc [] = acc
decimal_value acc (c ∷ cs) = decimal_value (10 * acc + (c - b'0')) cs

unfoldable pub is_canonical_field : String → Bool
unfolding spelled_decimal decimal_value
is_canonical_field v =
    let cs = codes v in
    spelled_decimal cs && leb (length cs) max_field_digits && ltb (decimal_value 0 cs) field_prime
