-- ===== src/Field/Encoding.antt =====
-- Canonical values, and the hex text read back.
use stellar_mosaic.Prelude.{
  ℕ, zero, suc, ◌+◌, ◌-◌, ◌*◌, ◌/◌, ◌%◌, ◌^◌, ◌≤◌, ◌<◌, ◌≡◌, refl, ap, ◌∙◌, Bool, true, some, [],
  ◌∷◌, ◌++◌, arith, Bool-cases, Option-cases, inl, inr, length, length-append, length-replicate,
  replicate, All, All-append, ◌||◌, ◌&&◌, leb, ltb,
}
use stellar_mosaic.Prelude.Int.{ℤ, pos, negsuc, pos_part, neg_part}
use stellar_mosaic.Text.{Text, pad_start, big_int, read_digits, to_digits, digits_fuel, digit_char}
use stellar_mosaic.Text.Digits.{read_digits-to_digits, length-to_digits}
use stellar_mosaic.Text.Padding.{NoSpace, trim_id, hex_char_no_space, x_no_space}
use stellar_mosaic.Field.{
  field_modulus, canonical, to_big_int, field_text, to_field_hex, text_field_hex,
}

-- `toBigInt` of a bigint is below the modulus and differs from it by a multiple of the modulus.
pub canonical_lem :
    (n : ℤ)
    → (canonical n < field_modulus)
      × (k : ℕ) × (j : ℕ) × (pos_part n + k * field_modulus
          ≡ neg_part n + canonical n + j * field_modulus)
unfolding canonical
canonical_lem (pos n) = (ground arith, 0, n / field_modulus, ground arith)
canonical_lem (negsuc n) = (ground arith, (n + field_modulus) / field_modulus, 0, ground arith)

-- Lowercase hexadecimal texts.
abbrev pub is_hex : ℕ → Bool
is_hex c = (leb b'0' c && leb c b'9') || (leb b'a' c && leb c b'f')

abbrev pub IsHex : Text → Type 0
IsHex = All (λ c. is_hex c ≡ true)

digit_char-IsHex : (d : ℕ) → d < 16 → is_hex (digit_char d) ≡ true
unfolding digit_char
digit_char-IsHex d h = ground arith

digits_fuel-IsHex : (f n : ℕ) → IsHex (digits_fuel 16 f n)
unfolding digits_fuel
digits_fuel-IsHex zero n = tt
digits_fuel-IsHex (suc f) n = elim (Bool-cases (ltb n 16)) [
  | inl small ↦ ground (arith, digit_char-IsHex n)
  | inr large ↦ rw large (
      All-append (λ c. is_hex c ≡ true) (digits_fuel 16 f (n / 16)) _ (digits_fuel-IsHex f (n / 16))
        (digit_char-IsHex (n % 16) (omega arith), tt))
]

pub to_digits-IsHex : (n : ℕ) → IsHex (to_digits 16 n)
unfolding to_digits
to_digits-IsHex n = digits_fuel-IsHex (suc n) n

zeros-IsHex : (k : ℕ) → IsHex (replicate k b'0')
zeros-IsHex zero = tt
zeros-IsHex (suc k) = (refl, zeros-IsHex k)

pub pad_start-IsHex : (k : ℕ) (s : Text) → IsHex s → IsHex (pad_start k s)
pad_start-IsHex k s h =
    All-append (λ c. is_hex c ≡ true) (replicate (k - length s) b'0') s (zeros-IsHex (k - length s))
      h

hex_zeros_in_front :
    (k : ℕ) (s : Text) → read_digits 16 0 (replicate k b'0' ++ s) ≡ read_digits 16 0 s
unfolding read_digits
hex_zeros_in_front zero s = refl
hex_zeros_in_front (suc k) s = ground (arith, hex_zeros_in_front k s)

pub read_hex-pad_start : (k n : ℕ) → read_digits 16 0 (pad_start k (to_digits 16 n)) ≡ some n
read_hex-pad_start k n =
    hex_zeros_in_front (k - length (to_digits 16 n)) (to_digits 16 n)
    ∙ read_digits-to_digits 16 n (omega arith) (omega arith)

pub length-pad_start : (k : ℕ) (s : Text) → length s ≤ k → length (pad_start k s) ≡ k
length-pad_start k s h = omega (
  arith,
  length-append (replicate (k - length s) b'0') s,
  length-replicate {A = ℕ} (k - length s) b'0',
)

IsHex-NoSpace : (s : Text) → IsHex s → NoSpace s
IsHex-NoSpace [] h = tt
IsHex-NoSpace (c ∷ s) (p, h) = (hex_char_no_space c p, IsHex-NoSpace s h)

-- `BigInt` of a text `0x…` with at least one hex digit.
pub big_int_hex :
    (s : Text) (n : ℕ)
    → IsHex s
    → 0 < length s
    → read_digits 16 0 s ≡ some n
    → big_int (b'0' ∷ b'x' ∷ s) ≡ some (pos n)
unfolding big_int
big_int_hex [] n h l e = absurd (omega arith)
big_int_hex (c ∷ s) n h l e =
    rw
      (trim_id (b'0' ∷ b'x' ∷ c ∷ s)
        (hex_char_no_space b'0' refl, (x_no_space, IsHex-NoSpace (c ∷ s) h)))
      (rw e)

pub below_hex : (n : ℕ) → n < field_modulus → n < 16 ^ 64
below_hex n h = omega arith

pub length-field_text : (n : ℕ) → n < field_modulus → length (field_text n) ≡ 66
unfolding field_text
length-field_text n h = omega (
  arith,
  length-pad_start 64 (to_digits 16 n) (length-to_digits 16 n 63 (omega arith) (below_hex n h)),
)

pub canonical-lt : (n : ℤ) → canonical n < field_modulus
canonical-lt n = (canonical_lem n).0

pub canonical_id : (n : ℕ) → n < field_modulus → canonical (pos n) ≡ n
unfolding canonical
canonical_id n h = ground arith

big_int-field_text : (n : ℕ) → n < field_modulus → big_int (field_text n) ≡ some (pos n)
unfolding field_text
big_int-field_text n h =
    big_int_hex (pad_start 64 (to_digits 16 n)) n
      (pad_start-IsHex 64 (to_digits 16 n) (to_digits-IsHex n))
      (omega (
        arith,
        length-pad_start 64 (to_digits 16 n)
            (length-to_digits 16 n 63 (omega arith) (below_hex n h)),
      ))
      (read_hex-pad_start 64 n)

pub to_big_int-field_text : (n : ℕ) → n < field_modulus → to_big_int (field_text n) ≡ some n
unfolding to_big_int
to_big_int-field_text n h = rw (big_int-field_text n h) (ap some (canonical_id n h))

-- For every bigint, `toFieldHex` gives 66 characters, and `toBigInt` of them is the canonical value
-- of the bigint.
pub to_big_int-to_field_hex :
    (n : ℤ) → (length (to_field_hex n) ≡ 66) × (to_big_int (to_field_hex n) ≡ some (canonical n))
unfolding to_field_hex
to_big_int-to_field_hex n = (
  length-field_text (canonical n) (canonical-lt n),
  to_big_int-field_text (canonical n) (canonical-lt n),
)

pub to_big_int-lt : (v : Text) (n : ℕ) → to_big_int v ≡ some n → n < field_modulus
unfolding to_big_int
to_big_int-lt v n h = elim (Option-cases (big_int v)) [
  | inl e ↦ absurd (ground arith)
  | inr (z, e) ↦ ground (arith, canonical-lt z)
]

-- A text that `toFieldHex` accepts is mapped to one that it leaves alone.
pub text_field_hex_idempotent : (v w : Text) → text_field_hex v ≡ some w → text_field_hex w ≡ some w
unfolding text_field_hex
text_field_hex_idempotent v w h = elim (Option-cases (to_big_int v)) [
  | inl e ↦ absurd (ground arith)
  | inr (n, e) ↦
      let same : field_text n ≡ w = ground arith in
      rw (← same, to_big_int-field_text n (to_big_int-lt v n e)) refl
]
