-- ===== src/Amount/Prices.antt =====
-- Limit prices: `compute_min_out` and `compute_min_out_at_price` round down, and a sale that is
-- bought back never gains.
use native.Mathlib.Nat.{div-mul-le_self, lt-div-mul-add, div-le_of_le-mul, pow-suc, zero-add}
use stellar_mosaic.Prelude.{
  ℕ, zero, suc, ◌+◌, ◌-◌, ◌*◌, ◌/◌, ◌^◌, ◌≤◌, ◌<◌, ◌≡◌, refl, ◌∙◌, ap, arith, Bool-cases, inl, inr,
  length, ok, throw, some,
}
use stellar_mosaic.Prelude.Int.{ℤ, pos, pos_part, ◌*ℤ◌, ◌<ℤ◌, ◌≤ℤ◌, quot, pos-mul, quot-pos}
use stellar_mosaic.Text.{Text, trim}
use stellar_mosaic.Amount.{
  Ratio, range_error, pow10, frac_part, is_malformed, parse_amount, parse_ratio, compute_min_out,
  compute_min_out_at_price, sell, buy,
}
use stellar_mosaic.Amount.Reading.{well_formed-Reads, parse_trimmed-Reads, ratio_of_trimmed-Reads}

pow10_pos : (d : ℕ) → 0 < 10 ^ d
pow10_pos zero = omega arith
pow10_pos (suc d) = omega (arith, pow-suc 10 d, pow10_pos d)

mul_pos : (a b : ℕ) → 0 < a → 0 < b → 0 < a * b
mul_pos a b h k = grind arith

pow10-add : (a b : ℕ) → 10 ^ (a + b) ≡ 10 ^ a * 10 ^ b
pow10-add zero b = rw zero-add (omega arith)
pow10-add (suc a) b =
    let e : suc a + b ≡ suc (a + b) = omega arith in
    rw (e, pow-suc 10 (a + b), pow-suc 10 a, pow10-add a b) (omega arith)

-- Every ratio that parses is a number over a power of ten.
record IsFraction (r : Ratio) (n k : ℕ) : Type 0 where
  num_eq : r.num ≡ pos n
  den_eq : r.den ≡ pow10 k

parse_ratio-IsFraction :
    (s : Text) (r : Ratio) → parse_ratio s ≡ ok r → (n : ℕ) × (k : ℕ) × IsFraction r n k
unfolding parse_ratio
parse_ratio-IsFraction s r h = elim (Bool-cases (is_malformed (trim s))) [
  | inl bad ↦ absurd (ground arith)
  | inr good ↦
      let (a, b, reads) = well_formed-Reads (trim s) good in
      let e = ratio_of_trimmed-Reads s (trim s) a b reads in
      (
        a * 10 ^ length (frac_part (trim s)) + b,
        length (frac_part (trim s)),
        record { num_eq = ground (arith, e); den_eq = ground (arith, e) },
      )
]

scaled_alike :
    (a b d j : ℕ) → j ≤ d → (a * 10 ^ d + b * 10 ^ (d - j)) * 10 ^ j ≡ (a * 10 ^ j + b) * 10 ^ d
scaled_alike a b d j h =
    let split : d ≡ d - j + j = omega arith in
    let power = ap (λ (t : ℕ). 10 ^ t) split ∙ pow10-add (d - j) j in
    omega (arith, ap (λ (t : ℕ). b * t) power)

-- Whatever text `parse_amount` accepts, `parse_ratio` accepts, and the amount is the ratio scaled
-- by the power of ten of the decimals, exactly; an accepted amount is not negative.
pub parse_amount-parse_ratio :
    (s : Text) (d : ℕ) (v : ℤ)
    → parse_amount s d ≡ ok v
    → (r : Ratio) × (parse_ratio s ≡ ok r) × (v *ℤ r.den ≡ r.num *ℤ pow10 d) × (pos 0 ≤ℤ v)
unfolding parse_amount parse_ratio
parse_amount-parse_ratio s d v h = elim (Bool-cases (is_malformed (trim s))) [
  | inl bad ↦ absurd (ground arith)
  | inr good ↦
      let (a, b, reads) = well_formed-Reads (trim s) good in
      let j = length (frac_part (trim s)) in
      let fits : j ≤ d = ground arith in
      let value : pos (a * 10 ^ d + b * 10 ^ (d - j)) ≡ v =
        ground (arith, parse_trimmed-Reads s (trim s) d a b reads fits) in
      (
        record { num = pos (a * 10 ^ j + b); den = pow10 j },
        ratio_of_trimmed-Reads s (trim s) a b reads,
        rw
            (
              ← value,
              pos-mul (a * 10 ^ d + b * 10 ^ (d - j)) (10 ^ j),
              pos-mul (a * 10 ^ j + b) (10 ^ d),
            )
            (ap pos (scaled_alike a b d j fits)),
        rw (← value) (omega arith),
      )
]

-- A quotient of natural numbers, cut down.
record IsFloor (num den q : ℕ) : Type 0 where
  below : q * den ≤ num
  above : num < (q + 1) * den

floor_lem : (num den : ℕ) → 0 < den → IsFloor num den (num / den)
floor_lem num den h = record {
  below = div-mul-le_self num den;
  above = omega (arith, lt-div-mul-add {a = num} h);
}

floor_pos :
    (a b c d e : ℕ)
    → 0 < d * e
    → quot (pos a *ℤ pos b *ℤ pos c) (pos d *ℤ pos e) ≡ some (pos (a * b * c / (d * e)))
floor_pos a b c d e h =
    rw (pos-mul a b, pos-mul (a * b) c, pos-mul d e) (quot-pos (a * b * c) (d * e) h)

-- For every price text that parses, `compute_min_out` of an amount a ≥ 0 succeeds, and its result
-- is a times the ratio, rescaled to the decimals of the second asset and rounded down.
pub compute_min_out_floor :
    (a : ℕ) (ratio : Text) (decimals_in decimals_out : ℕ) (r : Ratio)
    → parse_ratio ratio ≡ ok r
    → (m : ℕ) × (compute_min_out (pos a) ratio decimals_in decimals_out ≡ ok (pos m))
      × (m * (pos_part r.den * 10 ^ decimals_in) ≤ a * pos_part r.num * 10 ^ decimals_out)
      × (a * pos_part r.num * 10 ^ decimals_out < (m + 1) * (pos_part r.den * 10 ^ decimals_in))
unfolding compute_min_out
compute_min_out_floor a ratio din dout r h =
    let (n, k, f) = parse_ratio-IsFraction ratio r h in
    let dpos : 0 < 10 ^ k * 10 ^ din = mul_pos (10 ^ k) (10 ^ din) (pow10_pos k) (pow10_pos din) in
    let floor = floor_lem (a * n * 10 ^ dout) (10 ^ k * 10 ^ din) dpos in
    (
      a * n * 10 ^ dout / (10 ^ k * 10 ^ din),
      rw (h, f.num_eq, f.den_eq, floor_pos a n (10 ^ dout) (10 ^ k) (10 ^ din) dpos) refl,
      rw (f.num_eq, f.den_eq) floor.below,
      rw (f.num_eq, f.den_eq) floor.above,
    )

num_pos : (n quote : ℕ) → pos 0 <ℤ pos n → 0 < n * 10 ^ quote
num_pos n quote h = mul_pos n (10 ^ quote) (omega arith) (pow10_pos quote)

-- For every price that parses: a SELL gets the amount times the price, rounded down; a BUY at a
-- price of zero throws, and at any other price it gets the amount divided by the price, rounded
-- down.
pub compute_min_out_at_price_floor :
    (a : ℕ) (price : Text) (base quote : ℕ) (r : Ratio)
    → parse_ratio price ≡ ok r
    → (compute_min_out_at_price (pos a) price sell base quote
        ≡ ok (pos (a * pos_part r.num * 10 ^ quote / (pos_part r.den * 10 ^ base))))
      × (r.num ≡ pos 0 → compute_min_out_at_price (pos a) price buy base quote ≡ throw range_error)
      × (pos 0 <ℤ r.num
          → compute_min_out_at_price (pos a) price buy base quote
            ≡ ok (pos (a * pos_part r.den * 10 ^ base / (pos_part r.num * 10 ^ quote))))
unfolding compute_min_out_at_price
compute_min_out_at_price_floor a price base quote r h =
    let (n, k, f) = parse_ratio-IsFraction price r h in
    let dpos : 0 < 10 ^ k * 10 ^ base =
      mul_pos (10 ^ k) (10 ^ base) (pow10_pos k) (pow10_pos base) in
    (
      rw (h, f.num_eq, f.den_eq, floor_pos a n (10 ^ quote) (10 ^ k) (10 ^ base) dpos) refl,
      λ z.
          let none_left : 0 * 10 ^ quote ≡ 0 = omega arith in
          rw (h, f.den_eq, z, pos-mul 0 (10 ^ quote), none_left) (unfold quot in refl),
      λ p.
          let npos : 0 < n * 10 ^ quote = num_pos n quote (rw f.num_eq at p) in
          rw (h, f.num_eq, f.den_eq, floor_pos a (10 ^ k) (10 ^ base) n (10 ^ quote) npos) refl,
    )

quotients_back : (a p s d t : ℕ) → a * p * s / (d * t) * d * t / (p * s) ≤ a
quotients_back a p s d t =
    div-le_of_le-mul (p * s) (omega (arith, div-mul-le_self (a * p * s) (d * t)))

-- At a price that parses and is above zero, a SELL of a units and a BUY with its proceeds both
-- succeed, and the BUY gives back at most a units.
pub sell_then_buy_le :
    (a : ℕ) (price : Text) (base quote : ℕ) (r : Ratio)
    → parse_ratio price ≡ ok r
    → pos 0 <ℤ r.num
    → (m : ℕ) × (b : ℕ) × (compute_min_out_at_price (pos a) price sell base quote ≡ ok (pos m))
      × (compute_min_out_at_price (pos m) price buy base quote ≡ ok (pos b))
      × (b ≤ a)
sell_then_buy_le a price base quote r h p =
    let (n, k, f) = parse_ratio-IsFraction price r h in
    let m = a * pos_part r.num * 10 ^ quote / (pos_part r.den * 10 ^ base) in
    (
      m,
      m * pos_part r.den * 10 ^ base / (pos_part r.num * 10 ^ quote),
      (compute_min_out_at_price_floor a price base quote r h).0,
      (compute_min_out_at_price_floor m price base quote r h).2 p,
      quotients_back a (pos_part r.num) (10 ^ quote) (pos_part r.den) (10 ^ base),
    )
