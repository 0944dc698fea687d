-- ===== src/Amount/Tests.antt =====
-- Runs of the amount conversions, and the theorems at concrete amounts.
use stellar_mosaic.Prelude.{
  ℕ, ◌+◌, ◌*◌, ◌/◌, ◌^◌, ◌≤◌, ◌<◌, ◌≡◌, refl, some, none, ok, throw, arith,
}
use stellar_mosaic.Prelude.Int.{pos, negsuc, ◌*ℤ◌, ◌+ℤ◌, quot, ◌≤ℤ◌, ◌<ℤ◌}
use stellar_mosaic.Text.{Text, codes, big_int, read_digits, to_digits}
use stellar_mosaic.Amount.{
  parse_amount, to_raw, parse_ratio, compute_min_out, compute_min_out_at_price, sell, buy, Ratio,
  range_error, pow10, format_amount, format_price, int_part, frac_part, or_zero, is_malformed,
  invalid_amount, too_many_decimals,
}
use stellar_mosaic.Amount.RoundTrip.{parse_amount-format_amount}
use stellar_mosaic.Amount.Prices.{
  parse_amount-parse_ratio, compute_min_out_floor, compute_min_out_at_price_floor, sell_then_buy_le,
}

amount : Unit {0}
unfolding parse_amount to_raw parse_ratio compute_min_out compute_min_out_at_price format_amount
    format_price big_int read_digits to_digits ◌*ℤ◌ ◌+ℤ◌ quot int_part frac_part or_zero
    is_malformed
amount = tt

parse_tests :
    (parse_amount (codes "1.5") 7 ≡ ok (pos 15000000))
    × (parse_amount (codes " .25 ") 2 ≡ ok (pos 25))
    × (parse_amount (codes "7.") 0 ≡ ok (pos 7))
    × (parse_amount (codes "1.234") 2 ≡ throw (too_many_decimals 2))
    × (parse_amount (codes "1e5") 2 ≡ throw (invalid_amount (codes "1e5")))
    × (parse_amount (codes ".") 2 ≡ throw (invalid_amount (codes ".")))
    × (to_raw (codes "0.10") 3 ≡ ok (codes "100"))
unfolding amount
parse_tests = (refl, refl, refl, refl, refl, refl, refl)

format_tests :
    (format_amount (pos 15000000) 7 ≡ codes "1.5")
    × (format_amount (negsuc 0) 2 ≡ codes "-0.01")
    × (format_amount (pos 300) 2 ≡ codes "3")
    × (format_price (pos 10000000) (pos 1800000) 7 7 6 ≡ ok (some (codes "0.18")))
    × (format_price (pos 0) (pos 1800000) 7 7 6 ≡ ok none)
unfolding amount
format_tests = (refl, refl, refl, refl, refl)

price_tests :
    (compute_min_out (pos 100000000) (codes "0.18") 7 7 ≡ ok (pos 18000000))
    × (compute_min_out_at_price (pos 18000000) (codes "0.18") buy 7 7 ≡ ok (pos 100000000))
    × (compute_min_out_at_price (pos 100000000) (codes "0.18") sell 7 7 ≡ ok (pos 18000000))
unfolding amount
price_tests = (refl, refl, refl)

parse_amount-format_amount_example :
    parse_amount (format_amount (pos 15000000) 7) 7 ≡ ok (pos 15000000)
parse_amount-format_amount_example = parse_amount-format_amount 15000000 7

parse_amount-parse_ratio_example :
    (r : Ratio) × (parse_ratio (codes "1.25") ≡ ok r)
    × (pos 12500 *ℤ r.den ≡ r.num *ℤ pow10 4)
    × (pos 0 ≤ℤ pos 12500)
parse_amount-parse_ratio_example =
    parse_amount-parse_ratio (codes "1.25") 4 (pos 12500) (unfold amount in refl)

abbrev price_text : Text
price_text = codes "0.18"

abbrev price_ratio : Ratio
price_ratio = record { num = pos 18; den = pos 100 }

price_text-read : parse_ratio price_text ≡ ok price_ratio
unfolding amount
price_text-read = refl

compute_min_out_floor_example :
    (m : ℕ) × (compute_min_out (pos 50000000) price_text 7 6 ≡ ok (pos m))
    × (m * (100 * 10 ^ 7) ≤ 50000000 * 18 * 10 ^ 6)
    × (50000000 * 18 * 10 ^ 6 < (m + 1) * (100 * 10 ^ 7))
compute_min_out_floor_example =
    compute_min_out_floor 50000000 price_text 7 6 price_ratio price_text-read

compute_min_out_at_price_floor_example :
    (compute_min_out_at_price (pos 50000000) price_text sell 7 6
      ≡ ok (pos (50000000 * 18 * 10 ^ 6 / (100 * 10 ^ 7))))
    × (pos 18 ≡ pos 0
        → compute_min_out_at_price (pos 50000000) price_text buy 7 6 ≡ throw range_error)
    × (pos 0 <ℤ pos 18
        → compute_min_out_at_price (pos 50000000) price_text buy 7 6
          ≡ ok (pos (50000000 * 100 * 10 ^ 7 / (18 * 10 ^ 6))))
compute_min_out_at_price_floor_example =
    compute_min_out_at_price_floor 50000000 price_text 7 6 price_ratio price_text-read

sell_then_buy_le_example :
    (m : ℕ) × (b : ℕ) × (compute_min_out_at_price (pos 50000001) price_text sell 7 6 ≡ ok (pos m))
    × (compute_min_out_at_price (pos m) price_text buy 7 6 ≡ ok (pos b))
    × (b ≤ 50000001)
sell_then_buy_le_example =
    sell_then_buy_le 50000001 price_text 7 6 price_ratio price_text-read (omega arith)
