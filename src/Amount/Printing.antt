-- ===== src/Amount/Printing.antt =====
-- `BigInt` reads back what `toString` prints.
use stellar_mosaic.Prelude.{ℕ, suc, ◌≡◌, ap, ◌∙◌, some, [], ◌∷◌, arith, length, ◌<◌}
use stellar_mosaic.Prelude.Int.{ℤ, pos, negsuc}
use stellar_mosaic.Text.{Text, big_int, read_digits, to_digits, as_pos}
use stellar_mosaic.Text.Digits.{
  IsDecimal, to_digits-IsDecimal, read_digits-to_digits, length_pos_to_digits,
}
use stellar_mosaic.Text.Padding.{trim_id, IsDecimal-NoSpace, big_int_decimal, minus_no_space}
use stellar_mosaic.Amount.{to_string}

big_int_minus :
    (s : Text) (n : ℕ)
    → IsDecimal s
    → 0 < length s
    → read_digits 10 0 s ≡ some (suc n)
    → big_int (b'-' ∷ s) ≡ some (negsuc n)
unfolding big_int
big_int_minus [] n h l e = absurd (omega arith)
big_int_minus (c ∷ s) n h l e =
    rw (trim_id (b'-' ∷ c ∷ s) (minus_no_space, IsDecimal-NoSpace (c ∷ s) h)) (rw e (ground arith))

-- `BigInt` of the decimal text of every integer is the integer.
pub big_int-to_string : (z : ℤ) → big_int (to_string z) ≡ some z
unfolding to_string
big_int-to_string (pos n) =
    big_int_decimal (to_digits 10 n) (to_digits-IsDecimal n)
    ∙ ap as_pos (read_digits-to_digits 10 n (omega arith) (omega arith))
big_int-to_string (negsuc n) =
    big_int_minus (to_digits 10 (suc n)) n (to_digits-IsDecimal (suc n))
      (length_pos_to_digits 10 (suc n))
      (read_digits-to_digits 10 (suc n) (omega arith) (omega arith))
