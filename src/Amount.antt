-- ===== src/Amount.antt =====
-- packages/sdk/src/amount.ts: human decimal texts and raw integer amounts. A `bigint` is a `ℤ`, a
-- count of decimals is a number n ≥ 0, and a call that throws returns `throw`.
pub mod Reading
pub mod RoundTrip
pub mod Prices
pub mod Printing
mod Tests
use stellar_mosaic.Prelude.{
  zero, ◌/◌, ◌%◌, ℕ, suc, ◌+◌, ◌^◌, String, Bool, true, false, not, ◌&&◌, ◌||◌, Option, none, some,
  List, [], ◌∷◌, ◌++◌, ltb, ◌==◌, if◌then◌else◌, length, Result, ok, throw, ◌>>=◌, or_throw,
}
use stellar_mosaic.Prelude.Int.{ℤ, pos, negsuc, pos_part, neg_part, ◌*ℤ◌, ◌+ℤ◌, quot, ltb_ℤ, leb_ℤ}
use stellar_mosaic.Text.{Text, is_digit, trim, pad_start, pad_end, big_int, to_digits}

pub data AmountError : Type 0 where
  invalid_amount : Text → AmountError
  too_many_decimals : ℕ → AmountError
  invalid_ratio : Text → AmountError
  -- the SyntaxError of `BigInt(text)` and the RangeError of a division by zero
  syntax_error range_error : AmountError

pub is_empty : Text → Bool
is_empty [] = true
is_empty (c ∷ s) = false

abbrev is_dot : Text → Bool
is_dot (c ∷ []) = c == b'.'
is_dot _ = false

pub skip_digits : Text → Text
skip_digits [] = []
skip_digits (c ∷ s) = let rest = skip_digits s in if is_digit c then rest else c ∷ s

-- What stands behind the digits: nothing, or a dot and more digits to the end.
abbrev ends_decimal : Text → Bool
ends_decimal [] = true
ends_decimal (c ∷ s) = c == b'.' && is_empty (skip_digits s)

-- /^\d*\.?\d*$/
unfoldable pub is_decimal : Text → Bool
unfolding skip_digits is_empty
is_decimal s = ends_decimal (skip_digits s)

-- `const [intPart, fracPart = ""] = s.split(".")`
unfoldable pub int_part : Text → Text
int_part [] = []
int_part (c ∷ s) = let rest = c ∷ int_part s in if c == b'.' then [] else rest

unfoldable pub frac_part : Text → Text
unfolding int_part
frac_part [] = []
frac_part (c ∷ s) = let rest = frac_part s in if c == b'.' then int_part s else rest

-- s || "0"
unfoldable pub or_zero : Text → Text
or_zero [] = b'0' ∷ []
or_zero (c ∷ s) = c ∷ s

-- The test that `parseAmount` and `parseRatio` share.
unfoldable pub is_malformed : Text → Bool
unfolding is_decimal is_empty
is_malformed s = is_empty s || is_dot s || not (is_decimal s)

abbrev pub pow10 : ℕ → ℤ
pow10 d = pos (10 ^ d)

abbrev read_big : Text → Result AmountError ℤ
read_big s = or_throw syntax_error (big_int s)

pub parse_trimmed : Text → Text → ℕ → Result AmountError ℤ
parse_trimmed human s decimals =
    if is_malformed s
    then throw (invalid_amount human)
    else if ltb decimals (length (frac_part s))
    then throw (too_many_decimals decimals)
    else do
      whole ← read_big (or_zero (int_part s))
      frac ← read_big (or_zero (pad_end decimals (frac_part s)))
      ok (whole *ℤ pow10 decimals +ℤ frac)

unfoldable pub parse_amount : Text → ℕ → Result AmountError ℤ
unfolding parse_trimmed
parse_amount human decimals = parse_trimmed human (trim human) decimals

-- (n).toString() of a `bigint`
unfoldable pub to_string : ℤ → Text
to_string (pos n) = to_digits 10 n
to_string (negsuc n) = b'-' ∷ to_digits 10 (suc n)

unfoldable pub to_raw : Text → ℕ → Result AmountError Text
unfolding parse_amount to_string
to_raw human decimals = do n ← parse_amount human decimals; ok (to_string n)

pub record Ratio : Type 0 where
  pub num : ℤ
  pub den : ℤ

pub ratio_of_trimmed : Text → Text → Result AmountError Ratio
ratio_of_trimmed s t = if is_malformed t then throw (invalid_ratio s) else do
  n ← read_big (or_zero (or_zero (int_part t) ++ frac_part t))
  ok (record { num = n; den = pow10 (length (frac_part t)) })

unfoldable pub parse_ratio : Text → Result AmountError Ratio
unfolding ratio_of_trimmed
parse_ratio s = ratio_of_trimmed s (trim s)

abbrev divide : ℤ → ℤ → Result AmountError ℤ
divide a b = or_throw range_error (quot a b)

unfoldable pub compute_min_out : ℤ → Text → ℕ → ℕ → Result AmountError ℤ
compute_min_out amount_in ratio decimals_in decimals_out = do
  r ← parse_ratio ratio
  divide (amount_in *ℤ r.num *ℤ pow10 decimals_out) (r.den *ℤ pow10 decimals_in)

pub data PriceSide : Type 0 where
  sell buy : PriceSide

min_out_on : PriceSide → ℤ → Ratio → ℕ → ℕ → Result AmountError ℤ
min_out_on sell amount_in r decimals_base decimals_quote =
    divide (amount_in *ℤ r.num *ℤ pow10 decimals_quote) (r.den *ℤ pow10 decimals_base)
min_out_on buy amount_in r decimals_base decimals_quote =
    divide (amount_in *ℤ r.den *ℤ pow10 decimals_base) (r.num *ℤ pow10 decimals_quote)

unfoldable pub compute_min_out_at_price : ℤ → Text → PriceSide → ℕ → ℕ → Result AmountError ℤ
unfolding min_out_on
compute_min_out_at_price amount_in price side decimals_base decimals_quote = do
  r ← parse_ratio price
  min_out_on side amount_in r decimals_base decimals_quote

-- s.replace(/0+$/, "")
strip_cons : ℕ → Text → Text
strip_cons c [] = if c == b'0' then [] else c ∷ []
strip_cons c (d ∷ s) = c ∷ d ∷ s

unfoldable pub strip_zeros : Text → Text
unfolding strip_cons
strip_zeros [] = []
strip_zeros (c ∷ s) = strip_cons c (strip_zeros s)

-- `frac ? `${whole}.${frac}` : `${whole}``
pub join_parts : Text → Text → Text
join_parts whole [] = whole
join_parts whole (c ∷ s) = whole ++ b'.' ∷ c ∷ s

-- The text of a number n ≥ 0 of base units.
unfoldable pub format_units : ℕ → ℕ → Text
unfolding strip_zeros join_parts
format_units n decimals =
    join_parts (to_digits 10 (n / 10 ^ decimals))
      (strip_zeros (pad_start decimals (to_digits 10 (n % 10 ^ decimals))))

unfoldable pub format_amount : ℤ → ℕ → Text
unfolding format_units
format_amount (pos n) decimals = format_units n decimals
format_amount (negsuc n) decimals = b'-' ∷ format_units (suc n) decimals

-- `formatAmount` of a raw text.
unfoldable pub format_raw : Text → ℕ → Result AmountError Text
unfolding format_amount
format_raw raw decimals = do n ← read_big raw; ok (format_amount n decimals)

-- `none` is null.
unfoldable pub format_price : ℤ → ℤ → ℕ → ℕ → ℕ → Result AmountError (Option Text)
unfolding format_amount
format_price base_raw quote_raw decimals_base decimals_quote places =
    if leb_ℤ base_raw (pos 0) then ok none else do
      scaled ←
          divide (quote_raw *ℤ pow10 decimals_base *ℤ pow10 places)
            (base_raw *ℤ pow10 decimals_quote)
      ok (some (format_amount scaled places))
