-- ===== src/Prelude/Hex.antt =====
-- `toString("hex")` of bytes.
use Prim.Native.Nat.{ℕ, ◌/◌, ◌%◌}
use Prim.Native.Char.{Char}
use Prim.Native.String.{String}
use mathlib.Core.List.{List, [], ◌∷◌}
use dash_mno_verify.Prelude.Lists.{get_or}

abbrev pub hex_digit : ℕ → Char
hex_digit n =
    get_or
      ("0" ∷ "1" ∷ "2" ∷ "3" ∷ "4" ∷ "5" ∷ "6" ∷ "7" ∷ "8" ∷ "9" ∷ "a" ∷ "b" ∷ "c" ∷ "d" ∷ "e" ∷ "f"
        ∷ [])
      n "0"

unfoldable pub hex : List ℕ → String
hex [] = ""
hex (b ∷ bs) = String.◌∷◌ (hex_digit (b / 16)) (String.◌∷◌ (hex_digit (b % 16)) (hex bs))
