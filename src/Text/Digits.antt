-- ===== src/Text/Digits.antt =====
-- Numbers printed in a radix and read back.
use native.Mathlib.Nat.{div-add-mod', div-lt_self, mod-lt, pow-suc, pow-zero, div-lt_iff_lt-mul}
use stellar_mosaic.Prelude.{
  ℕ, zero, suc, ◌+◌, ◌*◌, ◌/◌, ◌%◌, ◌^◌, ◌≤◌, ◌<◌, ◌≡◌, some, [], ◌∷◌, ◌++◌, arith, ltb, Bool-cases,
  Option-cases, inl, inr, length, length-append, All, All-append, true,
}
use stellar_mosaic.Text.{
  Text, digit_char, char_value, digit_value, digits_fuel, to_digits, read_digits, is_digit,
}

pub digit_value-digit_char :
    (radix d : ℕ) → radix ≤ 16 → d < radix → digit_value radix (digit_char d) ≡ some d
unfolding digit_value digit_char char_value
digit_value-digit_char radix d h k = ground arith

pub read_digits-append :
    (radix acc mid : ℕ) (xs ys : Text)
    → read_digits radix acc xs ≡ some mid
    → read_digits radix acc (xs ++ ys) ≡ read_digits radix mid ys
unfolding read_digits
read_digits-append radix acc mid [] ys h = ground arith
read_digits-append radix acc mid (c ∷ xs) ys h = elim (Option-cases (digit_value radix c)) [
  | inl e ↦ ground arith
  | inr (d, e) ↦ ground (arith, read_digits-append radix (acc * radix + d) mid xs ys)
]

read_digits-digit :
    (radix acc d : ℕ)
    → radix ≤ 16
    → d < radix
    → read_digits radix acc (digit_char d ∷ []) ≡ some (acc * radix + d)
unfolding read_digits
read_digits-digit radix acc d h k = ground (arith, digit_value-digit_char radix d h k)

div_fits : (radix n f : ℕ) → 2 ≤ radix → n < suc f → radix ≤ n → n / radix < f
div_fits radix n f h k l = omega (arith, div-lt_self {n = n} {k = radix} (omega arith) h)

pub read_digits-digits_fuel :
    (radix f n : ℕ)
    → 2 ≤ radix
    → radix ≤ 16
    → n < f
    → read_digits radix 0 (digits_fuel radix f n) ≡ some n
unfolding digits_fuel
read_digits-digits_fuel radix zero n h k l = absurd (omega arith)
read_digits-digits_fuel radix (suc f) n h k l = elim (Bool-cases (ltb n radix)) [
  | inl small ↦ ground (arith, read_digits-digit radix 0 n k)
  | inr large ↦ ground (
    arith,
    div_fits radix n f h l,
    read_digits-digits_fuel radix f (n / radix) h k,
    read_digits-append radix 0 (n / radix) (digits_fuel radix f (n / radix))
        (digit_char (n % radix) ∷ []),
    read_digits-digit radix (n / radix) (n % radix) k (mod-lt n {m = radix} (omega arith)),
    div-add-mod' n radix,
  )
]

-- A number printed in a radix between 2 and 16 is read back.
pub read_digits-to_digits :
    (radix n : ℕ) → 2 ≤ radix → radix ≤ 16 → read_digits radix 0 (to_digits radix n) ≡ some n
unfolding to_digits
read_digits-to_digits radix n h k = read_digits-digits_fuel radix (suc n) n h k (omega arith)

quotient_fits : (radix n k : ℕ) → 2 ≤ radix → n < radix ^ suc (suc k) → n / radix < radix ^ suc k
quotient_fits radix n k h l =
    (div-lt_iff_lt-mul {k = radix} {x = n} {y = radix ^ suc k} (omega arith)).1
      (rw (← pow-suc radix (suc k)) l)

length-digits_fuel :
    (radix f n k : ℕ) → 2 ≤ radix → n < radix ^ suc k → length (digits_fuel radix f n) ≤ suc k
unfolding digits_fuel
length-digits_fuel radix zero n k h l = omega arith
length-digits_fuel radix (suc f) n zero h l = ground (arith, pow-suc radix zero, pow-zero radix)
length-digits_fuel radix (suc f) n (suc k) h l = ground (
  arith,
  quotient_fits radix n k h l,
  length-digits_fuel radix f (n / radix) k h,
  length-append (digits_fuel radix f (n / radix)) (digit_char (n % radix) ∷ []),
)

-- A number below radix ^ (k + 1) is printed in at most k + 1 digits.
pub length-to_digits :
    (radix n k : ℕ) → 2 ≤ radix → n < radix ^ suc k → length (to_digits radix n) ≤ suc k
unfolding to_digits
length-to_digits radix n k = length-digits_fuel radix (suc n) n k

-- The characters of a decimal number are digits.
abbrev pub IsDecimal : Text → Type 0
IsDecimal = All (λ c. is_digit c ≡ true)

digits_fuel-IsDecimal : (f n : ℕ) → IsDecimal (digits_fuel 10 f n)
unfolding digits_fuel digit_char
digits_fuel-IsDecimal zero n = tt
digits_fuel-IsDecimal (suc f) n = elim (Bool-cases (ltb n 10)) [
  | inl small ↦ ground arith
  | inr large ↦ rw large (
      All-append (λ c. is_digit c ≡ true) (digits_fuel 10 f (n / 10)) _
        (digits_fuel-IsDecimal f (n / 10)) (ground arith, tt))
]

pub to_digits-IsDecimal : (n : ℕ) → IsDecimal (to_digits 10 n)
unfolding to_digits
to_digits-IsDecimal n = digits_fuel-IsDecimal (suc n) n

length_pos_digits_fuel : (radix f n : ℕ) → 0 < length (digits_fuel radix (suc f) n)
unfolding digits_fuel
length_pos_digits_fuel radix f n =
    ground (arith, length-append (digits_fuel radix f (n / radix)) (digit_char (n % radix) ∷ []))

pub length_pos_to_digits : (radix n : ℕ) → 0 < length (to_digits radix n)
unfolding to_digits
length_pos_to_digits radix n = length_pos_digits_fuel radix n n
