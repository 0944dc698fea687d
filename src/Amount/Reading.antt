-- ===== src/Amount/Reading.antt =====
-- Splitting a decimal text at its dot, and what `parse_amount` and `parse_ratio` then compute.
use native.Mathlib.Nat.{pow-suc}
use stellar_mosaic.Prelude.{
  ℕ, ◌+◌, ◌-◌, ◌*◌, ◌^◌, ◌≤◌, ◌≡◌, refl, ap, ◌∙◌, true, false, some, [], ◌∷◌, ◌++◌, arith, length,
  All-append, ok,
}
use stellar_mosaic.Prelude.Int.{pos, pos-mul, pos-add}
use stellar_mosaic.Text.{
  Text, is_digit, pad_end, big_int, read_digits, as_pos, digit_value, char_value,
}
use stellar_mosaic.Text.Digits.{IsDecimal, read_digits-append}
use stellar_mosaic.Text.Padding.{
  NoSpace, trim_id, zeros-IsDecimal, big_int_decimal, read_decimal, read_digits-pad_end,
}
use stellar_mosaic.Amount.{
  skip_digits, is_decimal, int_part, frac_part, or_zero, is_malformed, parse_trimmed, parse_amount,
  ratio_of_trimmed, pow10,
}

skip_digits-append : (w rest : Text) → IsDecimal w → skip_digits (w ++ rest) ≡ skip_digits rest
unfolding skip_digits
skip_digits-append [] rest h = refl
skip_digits-append (c ∷ w) rest (p, h) = ground (arith, skip_digits-append w rest h)

skip_digits_all : (w : Text) → IsDecimal w → skip_digits w ≡ []
unfolding skip_digits
skip_digits_all [] h = refl
skip_digits_all (c ∷ w) (p, h) = ground (arith, skip_digits_all w h)

pub int_part_all : (w : Text) → IsDecimal w → int_part w ≡ w
unfolding int_part
int_part_all [] h = refl
int_part_all (c ∷ w) (p, h) = ground (arith, int_part_all w h)

pub frac_part_all : (w : Text) → IsDecimal w → frac_part w ≡ []
unfolding frac_part
frac_part_all [] h = refl
frac_part_all (c ∷ w) (p, h) = ground (arith, frac_part_all w h)

pub int_part-dot : (w f : Text) → IsDecimal w → int_part (w ++ b'.' ∷ f) ≡ w
unfolding int_part
int_part-dot [] f h = refl
int_part-dot (c ∷ w) f (p, h) = ground (arith, int_part-dot w f h)

pub frac_part-dot : (w f : Text) → IsDecimal w → IsDecimal f → frac_part (w ++ b'.' ∷ f) ≡ f
unfolding frac_part
frac_part-dot [] f h k = int_part_all f k
frac_part-dot (c ∷ w) f (p, h) k = ground (arith, frac_part-dot w f h k)

pub is_malformed-int : (c : ℕ) (w : Text) → IsDecimal (c ∷ w) → is_malformed (c ∷ w) ≡ false
unfolding is_malformed
is_malformed-int c [] h = ground arith
is_malformed-int c (d ∷ w) h = rw (skip_digits_all (c ∷ d ∷ w) h)

is_decimal-dot : (w f : Text) → IsDecimal w → IsDecimal f → is_decimal (w ++ b'.' ∷ f) ≡ true
unfolding is_decimal
is_decimal-dot w f h k = rw (skip_digits-append w (b'.' ∷ f) h) (rw (skip_digits_all f k))

pub is_malformed-dot :
    (c : ℕ) (w f : Text)
    → IsDecimal (c ∷ w)
    → IsDecimal f
    → is_malformed ((c ∷ w) ++ b'.' ∷ f) ≡ false
unfolding is_malformed
is_malformed-dot c [] f h k = rw (is_decimal-dot (c ∷ []) f h k)
is_malformed-dot c (d ∷ w) f h k = rw (is_decimal-dot (c ∷ d ∷ w) f h k)

IsDecimal-of_skip : (s : Text) → skip_digits s ≡ [] → IsDecimal s
unfolding skip_digits
IsDecimal-of_skip [] h = tt
IsDecimal-of_skip (c ∷ s) h = ground (arith, IsDecimal-of_skip s)

-- Both parts of a text that the test lets through are decimal.
pub parts_of_IsDecimal :
    (t : Text) → is_decimal t ≡ true → IsDecimal (int_part t) × IsDecimal (frac_part t)
unfolding is_decimal int_part frac_part
parts_of_IsDecimal [] h = (tt, tt)
parts_of_IsDecimal (c ∷ s) h =
    ground (arith, parts_of_IsDecimal s, IsDecimal-of_skip s, int_part_all s)

pub parts_of_well_formed :
    (t : Text) → is_malformed t ≡ false → IsDecimal (int_part t) × IsDecimal (frac_part t)
unfolding is_malformed
parts_of_well_formed t h = ground (arith, parts_of_IsDecimal t)

or_zero-IsDecimal : (s : Text) → IsDecimal s → IsDecimal (or_zero s)
unfolding or_zero
or_zero-IsDecimal [] h = ground arith
or_zero-IsDecimal (c ∷ s) h = h

read_digits-or_zero : (s : Text) → read_digits 10 0 (or_zero s) ≡ read_digits 10 0 s
unfolding or_zero read_digits digit_value char_value
read_digits-or_zero [] = refl
read_digits-or_zero (c ∷ s) = refl

-- `BigInt(s || "0")` of a decimal text.
pub big_int-or_zero :
    (s : Text) (n : ℕ)
    → IsDecimal s
    → read_digits 10 0 s ≡ some n
    → big_int (or_zero s) ≡ some (pos n)
big_int-or_zero s n h e =
    big_int_decimal (or_zero s) (or_zero-IsDecimal s h) ∙ ap as_pos (read_digits-or_zero s ∙ e)

-- The decimal text with value `whole` before the dot and `frac` behind it, `k` digits long.
pub record Reads (t : Text) (whole frac : ℕ) : Type 0 where
  pub well_formed : is_malformed t ≡ false
  pub whole_value : read_digits 10 0 (int_part t) ≡ some whole
  pub frac_value : read_digits 10 0 (frac_part t) ≡ some frac

pub well_formed-Reads :
    (t : Text) → is_malformed t ≡ false → (whole : ℕ) × (frac : ℕ) × Reads t whole frac
well_formed-Reads t h =
    let (p, q) = parts_of_well_formed t h in
    let (a, ea) = read_decimal 0 (int_part t) p in
    let (b, eb) = read_decimal 0 (frac_part t) q in
    (a, b, record { well_formed = h; whole_value = ea; frac_value = eb })

pad_end-IsDecimal : (n : ℕ) (s : Text) → IsDecimal s → IsDecimal (pad_end n s)
pad_end-IsDecimal n s h = All-append (λ c. is_digit c ≡ true) s _ h (zeros-IsDecimal (n - length s))

-- What `parse_amount` computes on such a text.
pub parse_trimmed-Reads :
    (human t : Text) (decimals a b : ℕ)
    → Reads t a b
    → length (frac_part t) ≤ decimals
    → parse_trimmed human t decimals
      ≡ ok (pos (a * 10 ^ decimals + b * 10 ^ (decimals - length (frac_part t))))
unfolding parse_trimmed
parse_trimmed-Reads human t decimals a b r fits =
    let (p, q) = parts_of_well_formed t r.well_formed in
    let whole = big_int-or_zero (int_part t) a p r.whole_value in
    let frac =
      big_int-or_zero (pad_end decimals (frac_part t)) (b * 10 ^ (decimals - length (frac_part t)))
        (pad_end-IsDecimal decimals (frac_part t) q)
        (read_digits-pad_end decimals b (frac_part t) r.frac_value) in
    rw (r.well_formed, whole, frac)
      (ground (
        arith,
        pos-mul a (10 ^ decimals),
        pos-add (a * 10 ^ decimals) (b * 10 ^ (decimals - length (frac_part t))),
      ))

-- Reading on from `acc` shifts it by the digits that follow.
read_decimal_from :
    (s : Text)
    → IsDecimal s
    → (v : ℕ) × ((acc : ℕ) → read_digits 10 acc s ≡ some (acc * 10 ^ length s + v))
unfolding read_digits digit_value char_value
read_decimal_from [] h = (0, λ acc. ground arith)
read_decimal_from (c ∷ s) (p, h) =
    let (v, from) = read_decimal_from s h in
    (
      (c - b'0') * 10 ^ length s + v,
      λ acc.
          ground
            (arith, from (acc * 10 + (c - b'0')), ap (λ (t : ℕ). acc * t) (pow-suc 10 (length s))),
    )

read_digits_both :
    (a b : ℕ) (xs ys : Text)
    → IsDecimal ys
    → read_digits 10 0 xs ≡ some a
    → read_digits 10 0 ys ≡ some b
    → read_digits 10 0 (xs ++ ys) ≡ some (a * 10 ^ length ys + b)
read_digits_both a b xs ys h ea eb =
    let (v, from) = read_decimal_from ys h in
    ground (arith, read_digits-append 10 0 a xs ys ea, from 0, from a)

-- What `parse_ratio` computes on such a text.
pub ratio_of_trimmed-Reads :
    (s t : Text) (a b : ℕ)
    → Reads t a b
    → ratio_of_trimmed s t
      ≡ ok (record {
        num = pos (a * 10 ^ length (frac_part t) + b);
        den = pow10 (length (frac_part t));
      })
unfolding ratio_of_trimmed
ratio_of_trimmed-Reads s t a b r =
    let (p, q) = parts_of_well_formed t r.well_formed in
    let digits =
      read_digits_both a b (or_zero (int_part t)) (frac_part t) q
        (read_digits-or_zero (int_part t) ∙ r.whole_value) r.frac_value in
    let whole =
      All-append (λ c. is_digit c ≡ true) (or_zero (int_part t)) (frac_part t)
        (or_zero-IsDecimal (int_part t) p) q in
    rw
      (
        r.well_formed,
        big_int-or_zero (or_zero (int_part t) ++ frac_part t) (a * 10 ^ length (frac_part t) + b)
            whole digits,
      )
      refl

pub parse_amount-Reads :
    (t : Text) (decimals a b : ℕ)
    → NoSpace t
    → Reads t a b
    → length (frac_part t) ≤ decimals
    → parse_amount t decimals
      ≡ ok (pos (a * 10 ^ decimals + b * 10 ^ (decimals - length (frac_part t))))
unfolding parse_amount
parse_amount-Reads t decimals a b bare r fits =
    rw (trim_id t bare) (parse_trimmed-Reads t t decimals a b r fits)
