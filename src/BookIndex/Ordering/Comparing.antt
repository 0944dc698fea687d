-- ===== src/BookIndex/Ordering/Comparing.antt =====
-- The comparison of two orders: which of them it puts first, and that it is an order.
use stellar_mosaic.Prelude.{
  ℕ, ◌⊎◌, ◌*◌, ◌<◌, ◌≤◌, ◌≡◌, false, arith, inl, inr, Bool-cases, ap, ap₂, ◌∙◌, leb, ltb, leb→le,
  ltb→lt,
}
use stellar_mosaic.Prelude.Int.{ℤ, pos, ◌*ℤ◌, ◌-ℤ◌, ◌≤ℤ◌, pos-mul}
use native.Mathlib.Nat.{mul-le-mul_right, mul-lt-mul_of_pos_right}
use stellar_mosaic.BookIndex.{IndexedOrder}
use stellar_mosaic.BookIndex.Ordering.{compare_orders, comes_after}

mul_comm_ℤ : (a b : ℤ) → a *ℤ b ≡ b *ℤ a
unfolding ◌*ℤ◌
mul_comm_ℤ a b = grind arith

-- Exchanging the two orders exchanges the sign.
pub compare_orders_swap :
    (a b : IndexedOrder) (side : ℤ) → compare_orders b a side ≡ pos 0 -ℤ compare_orders a b side
unfolding compare_orders ◌-ℤ◌
compare_orders_swap a b side = ground arith

-- Prices are fractions out / in, compared by their cross products.
cross_le :
    (ao ai bo bi co ci : ℕ) → 0 < bi → ao * bi ≤ bo * ai → bo * ci ≤ co * bi → ao * ci ≤ co * ai
cross_le ao ai bo bi co ci p h k = elim (Bool-cases (leb (ao * ci) (co * ai))) [
  | inl e ↦ leb→le (ao * ci) (co * ai) e
  | inr e ↦
      let less : co * ai < ao * ci = ground arith in
      let a : co * ai * bi < ao * ci * bi = mul-lt-mul_of_pos_right less p in
      let b : ao * bi * ci ≤ bo * ai * ci = mul-le-mul_right ci h in
      let c : bo * ci * ai ≤ co * bi * ai = mul-le-mul_right ai k in absurd (grind arith)
]

cross_lt :
    (ao ai bo bi co ci : ℕ)
    → 0 < bi
    → 0 < ci
    → ao * bi < bo * ai
    → bo * ci ≤ co * bi
    → ao * ci < co * ai
cross_lt ao ai bo bi co ci p q h k = elim (Bool-cases (ltb (ao * ci) (co * ai))) [
  | inl e ↦ ltb→lt (ao * ci) (co * ai) e
  | inr e ↦
      let more : co * ai ≤ ao * ci = ground arith in
      let a : co * ai * bi ≤ ao * ci * bi = mul-le-mul_right bi more in
      let b : ao * bi * ci < bo * ai * ci = mul-lt-mul_of_pos_right h q in
      let c : bo * ci * ai ≤ co * bi * ai = mul-le-mul_right ai k in absurd (grind arith)
]

cross_lt_behind :
    (ao ai bo bi co ci : ℕ)
    → 0 < bi
    → 0 < ai
    → ao * bi ≡ bo * ai
    → bo * ci < co * bi
    → ao * ci < co * ai
cross_lt_behind ao ai bo bi co ci p q h k = elim (Bool-cases (ltb (ao * ci) (co * ai))) [
  | inl e ↦ ltb→lt (ao * ci) (co * ai) e
  | inr e ↦
      let more : co * ai ≤ ao * ci = ground arith in
      let a : co * ai * bi ≤ ao * ci * bi = mul-le-mul_right bi more in
      let b : ao * bi * ci ≡ bo * ai * ci = ap (λ x. x * ci) h in
      let c : bo * ci * ai < co * bi * ai = mul-lt-mul_of_pos_right k q in absurd (grind arith)
]

-- An order that offers something and asks for something: its amounts as positive numbers.
abbrev pub IsPriced : IndexedOrder → Type 0
IsPriced o =
    (input : ℕ) × (output : ℕ) × (0 < input)
    × (0 < output)
    × (o.amount_in ≡ pos input)
    × (o.min_out ≡ pos output)

product : {x y : ℤ} {m n : ℕ} → x ≡ pos m → y ≡ pos n → x *ℤ y ≡ pos (m * n)
product {m = m} {n = n} h k = ap₂ ◌*ℤ◌ h k ∙ pos-mul m n

module _ (side : ℤ) (a b : IndexedOrder) {ai ao bi bo : ℕ} (p : a.amount_in ≡ pos ai)
    (q : a.min_out ≡ pos ao) (r : b.amount_in ≡ pos bi) (s : b.min_out ≡ pos bo) where
  pub products :
      (a.min_out *ℤ b.amount_in ≡ pos (ao * bi))
      × (b.min_out *ℤ a.amount_in ≡ pos (bo * ai))
      × (a.amount_in *ℤ b.min_out ≡ pos (bo * ai))
      × (b.amount_in *ℤ a.min_out ≡ pos (ao * bi))
  products =
      let e : a.min_out *ℤ b.amount_in ≡ pos (ao * bi) = product q r in
      let f : b.min_out *ℤ a.amount_in ≡ pos (bo * ai) = product s p in
      (e, f, mul_comm_ℤ a.amount_in b.min_out ∙ f, mul_comm_ℤ b.amount_in a.min_out ∙ e)

  -- What it means not to come behind: a better price, or the same price and no later place. The
  -- side has no part in it.
  pub not_after :
      comes_after side a b ≡ false
      → (ao * bi < bo * ai) ⊎ ((ao * bi ≡ bo * ai) × (a.priority_sequence ≤ℤ b.priority_sequence))
  unfolding compare_orders
  not_after h = let (e, f, g, i) = products in ground arith

  better : ao * bi < bo * ai → comes_after side a b ≡ false
  unfolding compare_orders
  better h = let (e, f, g, i) = products in ground arith

  earlier :
      ao * bi ≡ bo * ai → a.priority_sequence ≤ℤ b.priority_sequence → comes_after side a b ≡ false
  unfolding compare_orders
  earlier h k = let (e, f, g, i) = products in ground arith

-- Of three priced orders, where the second does not come behind the third, nor the first behind the
-- second, the first does not come behind the third.
pub comes_after_trans :
    (side : ℤ) (a b c : IndexedOrder)
    → IsPriced a
    → IsPriced b
    → IsPriced c
    → comes_after side a b ≡ false
    → comes_after side b c ≡ false
    → comes_after side a c ≡ false
comes_after_trans side a b c (ai, ao, ai_pos, ao_pos, p, q) (bi, bo, bi_pos, bo_pos, r, s)
      (ci, co, ci_pos, co_pos, t, u) h k =
    elim (not_after side a b p q r s h) [
      | inl x ↦ elim (not_after side b c r s t u k) [
        | inl y ↦ better side a c p q t u (cross_lt ao ai bo bi co ci bi_pos ci_pos x (omega arith))
        | inr (y, z) ↦
            better side a c p q t u (cross_lt ao ai bo bi co ci bi_pos ci_pos x (omega arith))
      ]
      | inr (x, w) ↦ elim (not_after side b c r s t u k) [
        | inl y ↦ better side a c p q t u (cross_lt_behind ao ai bo bi co ci bi_pos ai_pos x y)
        | inr (y, z) ↦
            let le = cross_le ao ai bo bi co ci bi_pos (omega arith) (omega arith) in
            let ge = cross_le co ci bo bi ao ai bi_pos (omega arith) (omega arith) in
            earlier side a c p q t u (omega arith) (omega arith)
      ]
    ]
