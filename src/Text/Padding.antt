-- ===== src/Text/Padding.antt =====
-- Trimming, padding, and `BigInt` on texts that hold only decimal digits.
use mathlib.Core.List.{reverse, reverse_aux, reverse-reverse}
use native.Mathlib.Nat.{pow-suc, pow-zero}
use stellar_mosaic.Prelude.{
  leb, ◌&&◌, ◌||◌, ◌^◌, ℕ, zero, suc, ◌+◌, ◌-◌, ◌*◌, ◌≡◌, refl, ap, ◌∙◌, true, false, some, [], ◌∷◌,
  ◌++◌, arith, length, replicate, All,
}
use stellar_mosaic.Text.{
  Text, is_space, is_digit, trim_start, trim, pad_start, pad_end, as_pos, read_digits, big_int,
  digit_value, char_value,
}
use stellar_mosaic.Text.Digits.{IsDecimal, read_digits-append}

abbrev pub NoSpace : Text → Type 0
NoSpace = All (λ c. is_space c ≡ false)

All-reverse_aux : (P : ℕ → Type 0) (xs ys : Text) → All P xs → All P ys → All P (reverse_aux xs ys)
All-reverse_aux P [] ys h k = k
All-reverse_aux P (x ∷ xs) ys (p, h) k = All-reverse_aux P xs (x ∷ ys) h (p, k)

trim_start_id : (s : Text) → NoSpace s → trim_start s ≡ s
unfolding trim_start
trim_start_id [] h = refl
trim_start_id (c ∷ s) h = ground arith

-- A text with no white space is its own trimmed text.
pub trim_id : (s : Text) → NoSpace s → trim s ≡ s
unfolding trim
trim_id s h =
    rw
      (
        trim_start_id s h,
        trim_start_id (reverse s) (All-reverse_aux (λ c. is_space c ≡ false) s [] h tt),
      )
      (reverse-reverse s)

digit_no_space : (c : ℕ) → is_digit c ≡ true → is_space c ≡ false
unfolding is_space
digit_no_space c h = ground arith

pub IsDecimal-NoSpace : (s : Text) → IsDecimal s → NoSpace s
IsDecimal-NoSpace [] h = tt
IsDecimal-NoSpace (c ∷ s) (p, h) = (digit_no_space c p, IsDecimal-NoSpace s h)

-- `BigInt` of a text of decimal digits reads them; of the empty text it is 0.
pub big_int_decimal : (s : Text) → IsDecimal s → big_int s ≡ as_pos (read_digits 10 0 s)
unfolding big_int
big_int_decimal [] h = unfold read_digits in refl
big_int_decimal (c ∷ []) h = rw (trim_id (c ∷ []) (IsDecimal-NoSpace (c ∷ []) h)) (ground arith)
big_int_decimal (c ∷ d ∷ s) h =
    rw (trim_id (c ∷ d ∷ s) (IsDecimal-NoSpace (c ∷ d ∷ s) h)) (ground arith)

-- A decimal text has a value.
pub read_decimal : (acc : ℕ) (s : Text) → IsDecimal s → (n : ℕ) × (read_digits 10 acc s ≡ some n)
unfolding read_digits digit_value char_value
read_decimal acc [] h = (acc, refl)
read_decimal acc (c ∷ s) (p, h) =
    let (n, e) = read_decimal (acc * 10 + (c - b'0')) s h in (n, ground arith)

read_digits_zeros : (k acc : ℕ) → read_digits 10 acc (replicate k b'0') ≡ some (acc * 10 ^ k)
unfolding read_digits digit_value char_value
read_digits_zeros zero acc = ground (arith, pow-zero 10)
read_digits_zeros (suc k) acc =
    ground (arith, read_digits_zeros k (acc * 10), ap (λ (t : ℕ). acc * t) (pow-suc 10 k))

zeros_in_front : (k : ℕ) (s : Text) → read_digits 10 0 (replicate k b'0' ++ s) ≡ read_digits 10 0 s
unfolding read_digits digit_value char_value
zeros_in_front zero s = refl
zeros_in_front (suc k) s = ground (arith, zeros_in_front k s)

-- Padding in front with zeros keeps the value.
pub read_digits-pad_start :
    (n : ℕ) (s : Text) → read_digits 10 0 (pad_start n s) ≡ read_digits 10 0 s
read_digits-pad_start n s = zeros_in_front (n - length s) s

-- Padding behind scales by a power of ten.
pub read_digits-pad_end :
    (n v : ℕ) (s : Text)
    → read_digits 10 0 s ≡ some v
    → read_digits 10 0 (pad_end n s) ≡ some (v * 10 ^ (n - length s))
read_digits-pad_end n v s h = read_digits-append 10 0 v s _ h ∙ read_digits_zeros (n - length s) v

pub zeros-IsDecimal : (k : ℕ) → IsDecimal (replicate k b'0')
zeros-IsDecimal zero = tt
zeros-IsDecimal (suc k) = (refl, zeros-IsDecimal k)

pub dot_no_space : is_space b'.' ≡ false
unfolding is_space
dot_no_space = refl

pub x_no_space : is_space b'x' ≡ false
unfolding is_space
x_no_space = refl

pub hex_char_no_space :
    (c : ℕ) → ((leb b'0' c && leb c b'9') || (leb b'a' c && leb c b'f')) ≡ true → is_space c ≡ false
unfolding is_space
hex_char_no_space c h = ground arith

pub minus_no_space : is_space b'-' ≡ false
unfolding is_space
minus_no_space = refl
