-- ===== src/Amount/RoundTrip.antt =====
-- `parse_amount` reads back what `format_amount` prints.
use native.Mathlib.Nat.{div-add-mod', mod-lt, pow-suc}
use stellar_mosaic.Prelude.{
  ℕ, zero, suc, ◌-◌, ◌*◌, ◌/◌, ◌%◌, ◌^◌, ◌≤◌, ◌<◌, ◌≡◌, refl, ap, ◌∙◌, true, false, some, [], ◌∷◌,
  ◌++◌, arith, Bool-cases, inl, inr, length, length-append, length-replicate, replicate, All-append,
  ok, ◌==◌,
}
use stellar_mosaic.Prelude.Int.{pos}
use stellar_mosaic.Text.{
  Text, is_digit, is_space, pad_start, pad_end, read_digits, to_digits, digits_fuel, digit_char,
}
use stellar_mosaic.Text.Digits.{
  IsDecimal, read_digits-to_digits, length-to_digits, to_digits-IsDecimal, length_pos_to_digits,
}
use stellar_mosaic.Text.Padding.{
  NoSpace, IsDecimal-NoSpace, read_digits-pad_start, dot_no_space, zeros-IsDecimal, read_decimal,
  read_digits-pad_end,
}
use stellar_mosaic.Amount.{
  frac_part, parse_amount, strip_cons, strip_zeros, join_parts, format_amount,
}
use stellar_mosaic.Amount.Reading.{
  Reads, int_part_all, frac_part_all, int_part-dot, frac_part-dot, is_malformed-int,
  is_malformed-dot, parse_amount-Reads,
}

strip_zeros-IsDecimal : (s : Text) → IsDecimal s → IsDecimal (strip_zeros s)
unfolding strip_zeros
strip_zeros-IsDecimal [] h = tt
strip_zeros-IsDecimal (c ∷ s) (p, h) = ground (arith, strip_zeros-IsDecimal s h)

length-strip_zeros : (s : Text) → length (strip_zeros s) ≤ length s
unfolding strip_zeros
length-strip_zeros [] = omega arith
length-strip_zeros (c ∷ s) = ground (arith, length-strip_zeros s)

stripped_cons :
    (c n : ℕ) (r s : Text)
    → r ++ replicate n b'0' ≡ s
    → (m : ℕ) × (strip_cons c r ++ replicate m b'0' ≡ c ∷ s)
unfolding strip_cons
stripped_cons c n [] s h = elim (Bool-cases (c == b'0')) [
  | inl e ↦ (suc n, ground arith)
  | inr e ↦ (n, ground arith)
]
stripped_cons c n (d ∷ r) s h = (n, ap (◌∷◌ c) h)

-- Some zeros were stripped.
stripped : (s : Text) → (n : ℕ) × (strip_zeros s ++ replicate n b'0' ≡ s)
unfolding strip_zeros
stripped [] = (0, refl)
stripped (c ∷ s) = let (n, e) = stripped s in stripped_cons c n (strip_zeros s) s e

-- Padding behind puts them back.
pad_end-strip_zeros : (s : Text) → pad_end (length s) (strip_zeros s) ≡ s
pad_end-strip_zeros s =
    let (n, e) = stripped s in
    let count : length s - length (strip_zeros s) ≡ n = omega (
      arith,
      ap length e,
      length-append (strip_zeros s) (replicate n b'0'),
      length-replicate {A = ℕ} n b'0',
    ) in
    rw count e

-- The fraction digits of `format_units` and their value.
module _ (n d : ℕ) where
  padded : Text
  padded = pad_start d (to_digits 10 (n % 10 ^ d))

padded-IsDecimal : (n d : ℕ) → IsDecimal (padded n d)
unfolding padded
padded-IsDecimal n d =
    All-append (λ c. is_digit c ≡ true) (replicate (d - length (to_digits 10 (n % 10 ^ d))) b'0') _
      (zeros-IsDecimal (d - length (to_digits 10 (n % 10 ^ d)))) (to_digits-IsDecimal (n % 10 ^ d))

pow10_pos : (d : ℕ) → 0 < 10 ^ d
pow10_pos zero = omega arith
pow10_pos (suc d) = omega (arith, pow-suc 10 d, pow10_pos d)

length-padded : (n d : ℕ) → length (padded n (suc d)) ≡ suc d
unfolding padded
length-padded n d = omega (
  arith,
  length-append (replicate (suc d - length (to_digits 10 (n % 10 ^ suc d))) b'0')
      (to_digits 10 (n % 10 ^ suc d)),
  length-replicate {A = ℕ} (suc d - length (to_digits 10 (n % 10 ^ suc d))) b'0',
  length-to_digits 10 (n % 10 ^ suc d) d (omega arith)
      (mod-lt n {m = 10 ^ suc d} (pow10_pos (suc d))),
)

read_digits-padded : (n d : ℕ) → read_digits 10 0 (padded n d) ≡ some (n % 10 ^ d)
unfolding padded
read_digits-padded n d =
    read_digits-pad_start d (to_digits 10 (n % 10 ^ d))
    ∙ read_digits-to_digits 10 (n % 10 ^ d) (omega arith) (omega arith)

fraction : ℕ → ℕ → Text
fraction n d = strip_zeros (padded n d)

-- The fraction digits denote the remainder.
record IsFraction (n d v : ℕ) : Type 0 where
  value : read_digits 10 0 (fraction n d) ≡ some v
  scaled : v * 10 ^ (d - length (fraction n d)) ≡ n % 10 ^ d
  short : length (fraction n d) ≤ d

-- With no decimals the remainder is 0, and its one zero is stripped.
zero-fraction : (n : ℕ) → fraction n zero ≡ []
unfolding fraction padded to_digits digits_fuel digit_char strip_zeros
zero-fraction n = let e : n % 10 ^ 0 ≡ 0 = omega arith in rw e refl

fraction_lem : (n d : ℕ) → (v : ℕ) × IsFraction n d v
unfolding fraction read_digits
fraction_lem n zero = (
  0,
  record {
    value = rw (zero-fraction n) refl;
    scaled = omega arith;
    short = rw (zero-fraction n) (omega arith);
  },
)
fraction_lem n (suc d) =
    let (v, e) =
      read_decimal 0 (fraction n (suc d))
        (strip_zeros-IsDecimal (padded n (suc d)) (padded-IsDecimal n (suc d))) in
    let whole = read_digits-pad_end (suc d) v (fraction n (suc d)) e in
    let back = ap (λ k. read_digits 10 0 (pad_end k (fraction n (suc d)))) (length-padded n d) in
    let all = ap (read_digits 10 0) (pad_end-strip_zeros (padded n (suc d))) in
    (
      v,
      record {
        value = e;
        scaled = cc (whole, back, all, read_digits-padded n (suc d));
        short = omega (arith, length-strip_zeros (padded n (suc d)), length-padded n d);
      },
    )

join_parts-Reads :
    (w f : Text) (a b : ℕ)
    → IsDecimal w
    → 0 < length w
    → IsDecimal f
    → read_digits 10 0 w ≡ some a
    → read_digits 10 0 f ≡ some b
    → Reads (join_parts w f) a b × (frac_part (join_parts w f) ≡ f) × NoSpace (join_parts w f)
unfolding join_parts
join_parts-Reads [] f a b h l k ea eb = absurd (omega arith)
join_parts-Reads (c ∷ w) [] a b h l k ea eb = (
  record {
    well_formed = is_malformed-int c w h;
    whole_value = rw (int_part_all (c ∷ w) h) ea;
    frac_value = rw (frac_part_all (c ∷ w) h) eb;
  },
  frac_part_all (c ∷ w) h,
  IsDecimal-NoSpace (c ∷ w) h,
)
join_parts-Reads (c ∷ w) (d ∷ f) a b h l k ea eb = (
  record {
    well_formed = is_malformed-dot c w (d ∷ f) h k;
    whole_value = rw (int_part-dot (c ∷ w) (d ∷ f) h) ea;
    frac_value = rw (frac_part-dot (c ∷ w) (d ∷ f) h k) eb;
  },
  frac_part-dot (c ∷ w) (d ∷ f) h k,
  All-append (λ x. is_space x ≡ false) (c ∷ w) (b'.' ∷ d ∷ f) (IsDecimal-NoSpace (c ∷ w) h)
      (dot_no_space, IsDecimal-NoSpace (d ∷ f) k),
)

fraction-IsDecimal : (n d : ℕ) → IsDecimal (fraction n d)
unfolding fraction
fraction-IsDecimal n d = strip_zeros-IsDecimal (padded n d) (padded-IsDecimal n d)

format_amount-parts :
    (n d : ℕ) → format_amount (pos n) d ≡ join_parts (to_digits 10 (n / 10 ^ d)) (fraction n d)
unfolding format_amount fraction padded
format_amount-parts n d = refl

-- For every amount of base units and every count of decimals, `parse_amount` of the text that
-- `format_amount` prints returns the amount.
pub parse_amount-format_amount : (n d : ℕ) → parse_amount (format_amount (pos n) d) d ≡ ok (pos n)
parse_amount-format_amount n d =
    let (v, f) = fraction_lem n d in
    let text = join_parts (to_digits 10 (n / 10 ^ d)) (fraction n d) in
    let (r, behind, bare) =
      join_parts-Reads (to_digits 10 (n / 10 ^ d)) (fraction n d) (n / 10 ^ d) v
        (to_digits-IsDecimal (n / 10 ^ d)) (length_pos_to_digits 10 (n / 10 ^ d))
        (fraction-IsDecimal n d) (read_digits-to_digits 10 (n / 10 ^ d) (omega arith) (omega arith))
        f.value in
    let size = ap length behind in
    rw
      (
        format_amount-parts n d,
        parse_amount-Reads text d (n / 10 ^ d) v bare r (rw behind f.short),
        behind,
        f.scaled,
        div-add-mod' n (10 ^ d),
      )
      refl
