-- ===== src/Field/Bytes.antt =====
-- Field elements as bytes, most significant first, and the random secrets.
use native.Mathlib.Nat.{pow-zero, pow-suc}
use stellar_mosaic.Prelude.{
  ℕ, zero, suc, ◌+◌, ◌-◌, ◌*◌, ◌^◌, ◌<◌, ◌≡◌, refl, ap, ap₂, ◌∙◌, true, some, [], ◌∷◌, arith,
  length, All, leb, if◌then◌else◌, List, drop,
}
use stellar_mosaic.Prelude.Int.{ℤ}
use stellar_mosaic.Text.{Text, pad_start, read_digits, to_digits, digit_value, char_value}
use stellar_mosaic.Text.Digits.{length-to_digits}
use stellar_mosaic.Field.{
  field_modulus, canonical, to_big_int, field_text, to_field_hex, hex_of_bytes, random_field,
  parse_hex, hex_bytes, field_to_bytes32,
}
use stellar_mosaic.Field.Encoding.{
  is_hex, IsHex, canonical-lt, length-pad_start, pad_start-IsHex, to_digits-IsHex,
  read_hex-pad_start, big_int_hex, canonical_id, below_hex,
}

-- The number that bytes denote, the most significant byte first.
pub be_value : ℕ → List ℕ → ℕ
be_value acc [] = acc
be_value acc (b ∷ bs) = be_value (acc * 256 + b) bs

abbrev pub AreBytes : List ℕ → Type 0
AreBytes = All (λ b. b < 256)

hex_value : (c : ℕ) → is_hex c ≡ true → (v : ℕ) × (digit_value 16 c ≡ some v) × (v < 16)
unfolding digit_value char_value
hex_value c h = (if leb c b'9' then c - b'0' else c - 87, ground arith, ground arith)

-- A pair of hex digits is one byte.
pair_value :
    (acc c d : ℕ) (s : Text)
    → is_hex c ≡ true
    → is_hex d ≡ true
    → (parse_hex 0 (c ∷ d ∷ []) < 256)
      × (read_digits 16 acc (c ∷ d ∷ s) ≡ read_digits 16 (acc * 256 + parse_hex 0 (c ∷ d ∷ [])) s)
unfolding parse_hex read_digits
pair_value acc c d s h k =
    let (v, ev, bv) = hex_value c h in
    let (w, ew, bw) = hex_value d k in
    let sum : (acc * 16 + v) * 16 + w ≡ acc * 256 + ((0 * 16 + v) * 16 + w) = omega arith in
    (ground arith, ground (arith, ap (λ (a : ℕ). read_digits 16 a s) sum))

-- The pairs of a hex text of 2n digits are n bytes with the value of the text.
hex_bytes_lem :
    (n acc : ℕ) (s : Text)
    → IsHex s
    → length s ≡ n + n
    → AreBytes (hex_bytes n s)
      × (length (hex_bytes n s) ≡ n)
      × (read_digits 16 acc s ≡ some (be_value acc (hex_bytes n s)))
unfolding hex_bytes be_value
hex_bytes_lem zero acc [] h l = (tt, refl, unfold read_digits in refl)
hex_bytes_lem zero acc (c ∷ s) h l = absurd (omega arith)
hex_bytes_lem (suc n) acc [] h l = absurd (omega arith)
hex_bytes_lem (suc n) acc (c ∷ []) h l = absurd (omega arith)
hex_bytes_lem (suc n) acc (c ∷ d ∷ s) (p, (q, h)) l =
    let (small, step) = pair_value acc c d s p q in
    let (bytes, size, value) =
      hex_bytes_lem n (acc * 256 + parse_hex 0 (c ∷ d ∷ [])) s h (omega arith) in
    ((small, bytes), ap suc size, step ∙ value)

length-hex64 : (n : ℕ) → n < field_modulus → length (pad_start 64 (to_digits 16 n)) ≡ 64
length-hex64 n h =
    length-pad_start 64 (to_digits 16 n) (length-to_digits 16 n 63 (omega arith) (below_hex n h))

to_field_hex_digits : (v : ℤ) → drop 2 (to_field_hex v) ≡ pad_start 64 (to_digits 16 (canonical v))
unfolding to_field_hex field_text
to_field_hex_digits v = refl

-- `fieldToBytes32` of every bigint is 32 bytes, which denote its canonical value.
pub field_to_bytes32_lem :
    (v : ℤ)
    → AreBytes (field_to_bytes32 v)
      × (length (field_to_bytes32 v) ≡ 32)
      × (be_value 0 (field_to_bytes32 v) ≡ canonical v)
unfolding field_to_bytes32
field_to_bytes32_lem v =
    let n = canonical v in
    let digits = pad_start 64 (to_digits 16 n) in
    let (bytes, size, value) =
      hex_bytes_lem 32 0 digits (pad_start-IsHex 64 (to_digits 16 n) (to_digits-IsHex n))
        (length-hex64 n (canonical-lt v)) in
    rw (to_field_hex_digits v) (bytes, size, ground (arith, value, read_hex-pad_start 64 n))

byte_digits :
    (b : ℕ)
    → b < 256
    → IsHex (pad_start 2 (to_digits 16 b))
      × (length (pad_start 2 (to_digits 16 b)) ≡ 2)
      × (read_digits 16 0 (pad_start 2 (to_digits 16 b)) ≡ some b)
byte_digits b h = (
  pad_start-IsHex 2 (to_digits 16 b) (to_digits-IsHex b),
  length-pad_start 2 (to_digits 16 b) (length-to_digits 16 b 1 (omega arith) h),
  read_hex-pad_start 2 b,
)

two_chars : (t : Text) → length t ≡ 2 → (c : ℕ) × (d : ℕ) × (t ≡ c ∷ d ∷ [])
two_chars [] h = absurd (omega arith)
two_chars (c ∷ []) h = absurd (omega arith)
two_chars (c ∷ d ∷ []) h = (c, d, refl)
two_chars (c ∷ d ∷ e ∷ t) h = absurd (omega arith)

pair_of_byte :
    (b c d : ℕ)
    → is_hex c ≡ true
    → is_hex d ≡ true
    → read_digits 16 0 (c ∷ d ∷ []) ≡ some b
    → parse_hex 0 (c ∷ d ∷ []) ≡ b
unfolding read_digits
pair_of_byte b c d h k e =
    let (v, ev, _) = hex_value c h in
    let (w, ew, _) = hex_value d k in unfold parse_hex in ground (arith, ev, ew)

-- The hex text of bytes is read back as the bytes.
hex_of_bytes_lem :
    (bs : List ℕ)
    → AreBytes bs
    → IsHex (hex_of_bytes bs)
      × (length (hex_of_bytes bs) ≡ length bs + length bs)
      × (hex_bytes (length bs) (hex_of_bytes bs) ≡ bs)
unfolding hex_of_bytes hex_bytes
hex_of_bytes_lem [] h = (tt, omega arith, refl)
hex_of_bytes_lem (b ∷ bs) (p, h) =
    let (hex, size, back) = hex_of_bytes_lem bs h in
    let (pair_hex, pair_size, value) = byte_digits b p in
    let (c, d, e) = two_chars (pad_start 2 (to_digits 16 b)) pair_size in
    let both : IsHex (c ∷ d ∷ []) = rw e at pair_hex in
    let same : parse_hex 0 (c ∷ d ∷ []) ≡ b = pair_of_byte b c d both.0 both.1.0 (rw e at value) in
    rw e ((both.0, (both.1.0, hex)), omega arith, ap₂ ◌∷◌ same back)

be_value-lt : (acc : ℕ) (bs : List ℕ) → AreBytes bs → be_value acc bs < (acc + 1) * 256 ^ length bs
unfolding be_value
be_value-lt acc [] h = omega (arith, pow-zero 256)
be_value-lt acc (b ∷ bs) (p, h) = grind (
  arith,
  be_value-lt (acc * 256 + b) bs h,
  ap (λ (t : ℕ). (acc + 1) * t) (pow-suc 256 (length bs)),
)

random_below : (bs : List ℕ) → AreBytes bs → length bs ≡ 31 → be_value 0 bs < field_modulus
random_below bs h l =
    let bound : be_value 0 bs < (0 + 1) * 256 ^ 31 = rw l at (be_value-lt 0 bs h) in omega arith

-- For all 31 random bytes, `randomField` is a text that `toBigInt` maps to the number that the
-- bytes denote, with nothing reduced.
pub to_big_int-random_field :
    (bs : List ℕ)
    → AreBytes bs
    → length bs ≡ 31
    → to_big_int (random_field bs) ≡ some (be_value 0 bs)
unfolding random_field to_big_int
to_big_int-random_field bs h l =
    let (hex, size, back) = hex_of_bytes_lem bs h in
    let (_, _, value) = hex_bytes_lem (length bs) 0 (hex_of_bytes bs) hex size in
    let reads = rw back at value in
    rw (big_int_hex (hex_of_bytes bs) (be_value 0 bs) hex (omega arith) reads)
      (ap some (canonical_id (be_value 0 bs) (random_below bs h l)))
