-- ===== src/Field.antt =====
-- packages/sdk/src/field.ts: BN254 scalar field elements. A field element crosses modules as a text
-- `0x` and 64 hex digits, and is a number below the modulus inside the note tree.
pub mod Encoding
pub mod Bytes
mod Tests
use mathlib.Core.Option
use stellar_mosaic.Prelude.{
  ℕ, zero, suc, ◌+◌, ◌*◌, Option, none, some, List, [], ◌∷◌, ◌++◌, if◌then◌else◌, take, drop,
}
use stellar_mosaic.Prelude.Int.{ℤ, pos, pos_part, trem, ltb_ℤ, ◌+ℤ◌}
use stellar_mosaic.Text.{Text, pad_start, to_digits, big_int, digit_value}

abbrev pub field_modulus : ℕ
field_modulus = 21888242871839275222246405745257275088548364400416034343698204186575808495617

-- `toBigInt` of a `bigint`: the result is never negative (`canonical_lem`).
unfoldable pub canonical : ℤ → ℕ
unfolding trem ◌+ℤ◌
canonical n =
    let r = trem n field_modulus in pos_part (if ltb_ℤ r (pos 0) then r +ℤ pos field_modulus else r)

-- `toBigInt` of a text; `none` is the SyntaxError of `BigInt`.
unfoldable pub to_big_int : Text → Option ℕ
to_big_int v = Option.map canonical (big_int v)

-- The text of a canonical value.
unfoldable pub field_text : ℕ → Text
field_text n = b'0' ∷ b'x' ∷ pad_start 64 (to_digits 16 n)

-- `toFieldHex` of a `bigint` and of a text.
unfoldable pub to_field_hex : ℤ → Text
to_field_hex n = field_text (canonical n)

unfoldable pub text_field_hex : Text → Option Text
text_field_hex v = Option.map field_text (to_big_int v)

-- `b.toString(16).padStart(2, "0")` of each byte, joined.
unfoldable pub hex_of_bytes : List ℕ → Text
hex_of_bytes [] = []
hex_of_bytes (b ∷ bs) = pad_start 2 (to_digits 16 b) ++ hex_of_bytes bs

-- `randomField` on the 31 bytes that the random generator gave.
unfoldable pub random_field : List ℕ → Text
unfolding hex_of_bytes
random_field bytes = b'0' ∷ b'x' ∷ hex_of_bytes bytes

-- `parseInt(s, 16)`: the digits up to the first character that is none; NaN is stored as 0.
pub parse_hex : ℕ → Text → ℕ
parse_hex acc [] = acc
parse_hex acc (c ∷ s) = elim (digit_value 16 c) [ none ↦ acc | some d ↦ parse_hex (acc * 16 + d) s ]

-- The loop of `fieldToBytes32`, over the bytes that are left.
pub hex_bytes : ℕ → Text → List ℕ
hex_bytes zero hex = []
hex_bytes (suc n) hex = parse_hex 0 (take 2 hex) ∷ hex_bytes n (drop 2 hex)

unfoldable pub field_to_bytes32 : ℤ → List ℕ
field_to_bytes32 v = hex_bytes 32 (drop 2 (to_field_hex v))
