-- ===== src/Merkle/Hash.antt =====
-- What the trees take from circomlibjs and from the language: the two-input Poseidon hash, the
-- field's zero, and the conversions of a decimal string. None of it is defined here.
use dash_mno_verify.Prelude.{Option, String, Result, or_throw}

pub record Poseidon (F : Type 0) : Type 0 where
  -- `poseidon([a, b])`
  pub hash : F → F → F
  -- `F.e(0n)`
  pub zero_leaf : F
  -- `F.e(BigInt(c))`; `none` where `BigInt` throws
  pub to_element : String → Option F
  -- `F.toObject(x).toString()`
  pub to_decimal : F → String

-- What the trees throw.
pub data TreeError : Type 0 where
  over_capacity tree_full not_an_integer undefined_input not_a_leaf no_leaves : TreeError

abbrev pub element : {F : Type 0} → Poseidon F → String → Result TreeError F
element p c = or_throw (p.to_element c) TreeError.not_an_integer
