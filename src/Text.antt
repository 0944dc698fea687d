-- ===== src/Text.antt =====
-- JavaScript strings as lists of UTF-16 code units, and the methods of `String` and `BigInt` that
-- packages/sdk/src/amount.ts and field.ts call: `trim`, `padStart`, `padEnd`, `toLowerCase` on
-- ASCII, `BigInt(text)` and `toString(radix)`.
pub mod Digits
pub mod Padding
pub mod Comparing
use Prim.Native.Char.{code}
use Prim.Native.String
use mathlib.Core.List.{reverse}
use stellar_mosaic.Prelude.{
  ℕ, zero, suc, ◌+◌, ◌-◌, ◌*◌, ◌/◌, ◌%◌, String, Bool, true, false, ◌&&◌, ◌||◌, Option, none, some,
  List, [], ◌∷◌, ◌++◌, leb, ltb, ◌==◌, if◌then◌else◌, length, replicate,
}
use stellar_mosaic.Prelude.Int.{ℤ, pos, sub_ℕ}

abbrev pub Text : Type 0
Text = List ℕ

abbrev pub codes : String → Text
codes String.[] = []
codes (String.◌∷◌ c s) = code c ∷ codes s

abbrev pub is_digit : ℕ → Bool
is_digit c = leb b'0' c && leb c b'9'

-- s === t
unfoldable pub text_eq : Text → Text → Bool
text_eq [] [] = true
text_eq (c ∷ s) (d ∷ t) = c == d && text_eq s t
text_eq _ _ = false

-- `toLowerCase` on the characters whose lower case is an ASCII letter: the ASCII capitals and the
-- Kelvin sign. Other characters are left alone.
unfoldable pub lower_case : Text → Text
lower_case [] = []
lower_case (c ∷ s) =
    (if leb b'A' c && leb c b'Z' then c + 32 else if c == 0x212a then b'k' else c) ∷ lower_case s

-- The white space and line terminators that `trim` and `BigInt` strip.
pub is_space : ℕ → Bool
is_space c =
    (leb 9 c && leb c 13)
    || c == 32
    || c == 0xa0
    || c == 0x1680
    || (leb 0x2000 c && leb c 0x200a)
    || c == 0x2028
    || c == 0x2029
    || c == 0x202f
    || c == 0x205f
    || c == 0x3000
    || c == 0xfeff

pub trim_start : Text → Text
trim_start [] = []
trim_start (c ∷ s) = let rest = trim_start s in if is_space c then rest else c ∷ s

unfoldable pub trim : Text → Text
unfolding trim_start is_space
trim s = reverse (trim_start (reverse (trim_start s)))

-- s.padStart(n, "0") and s.padEnd(n, "0")
abbrev pub pad_start : ℕ → Text → Text
pad_start n s = replicate (n - length s) b'0' ++ s

abbrev pub pad_end : ℕ → Text → Text
pad_end n s = s ++ replicate (n - length s) b'0'

-- The character of a digit in a radix up to 16, and the value of a character.
unfoldable pub digit_char : ℕ → ℕ
digit_char d = if ltb d 10 then b'0' + d else 87 + d

unfoldable pub char_value : ℕ → Option ℕ
char_value c =
    if leb b'0' c && leb c b'9'
    then some (c - b'0')
    else if leb b'a' c && leb c b'f'
    then some (c - 87)
    else if leb b'A' c && leb c b'F'
    then some (c - 55)
    else none

unfoldable pub digit_value : ℕ → ℕ → Option ℕ
unfolding char_value
digit_value radix c = elim (char_value c) [
  | none ↦ none
  | some d ↦ if ltb d radix then some d else none
]

-- n.toString(radix) of a number n ≥ 0; the fuel is a bound on n.
unfoldable pub digits_fuel : ℕ → ℕ → ℕ → Text
unfolding digit_char
digits_fuel radix zero n = []
digits_fuel radix (suc f) n =
    let more = digits_fuel radix f (n / radix) ++ digit_char (n % radix) ∷ [] in
    if ltb n radix then digit_char n ∷ [] else more

unfoldable pub to_digits : ℕ → ℕ → Text
unfolding digits_fuel
to_digits radix n = digits_fuel radix (suc n) n

-- A text of digits alone, read from the left.
unfoldable pub read_digits : ℕ → ℕ → Text → Option ℕ
unfolding digit_value
read_digits radix acc [] = some acc
read_digits radix acc (c ∷ s) = elim (digit_value radix c) [
  | none ↦ none
  | some d ↦ read_digits radix (acc * radix + d) s
]

-- At least one digit.
abbrev read_some : ℕ → Text → Option ℕ
read_some radix [] = none
read_some radix (c ∷ s) = read_digits radix 0 (c ∷ s)

abbrev pub as_pos : Option ℕ → Option ℤ
as_pos none = none
as_pos (some n) = some (pos n)

abbrev as_neg : Option ℕ → Option ℤ
as_neg none = none
as_neg (some n) = some (sub_ℕ 0 n)

abbrev read_signed : Text → Option ℤ
read_signed [] = some (pos 0)
read_signed (c ∷ s) =
    if c == b'-'
    then as_neg (read_some 10 s)
    else if c == b'+'
    then as_pos (read_some 10 s)
    else as_pos (read_digits 10 0 (c ∷ s))

-- The prefixes 0x, 0o and 0b, in either case, take no sign.
abbrev read_literal : Text → Option ℤ
read_literal (z ∷ x ∷ s) =
    if z == b'0' && (x == b'x' || x == b'X')
    then as_pos (read_some 16 s)
    else if z == b'0' && (x == b'o' || x == b'O')
    then as_pos (read_some 8 s)
    else if z == b'0' && (x == b'b' || x == b'B')
    then as_pos (read_some 2 s)
    else read_signed (z ∷ x ∷ s)
read_literal s = read_signed s

-- BigInt(text); `none` is the SyntaxError.
unfoldable pub big_int : Text → Option ℤ
unfolding trim
big_int s = read_literal (trim s)
