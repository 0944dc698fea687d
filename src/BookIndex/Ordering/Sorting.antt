-- ===== src/BookIndex/Ordering/Sorting.antt =====
-- The orders that a view of one side of a pair shows: all of them, in order.
use mathlib.Core.List.{Permᴰ}
use stellar_mosaic.Prelude.{
  ◌≡◌, ◌≢◌, ◌⊎◌, sym, ap, ◌∙◌, inl, inr, true, false, List, [], ◌∷◌, All, Bool-cases, arith,
}
use stellar_mosaic.Prelude.Int.{ℤ, pos, ltb_ℤ, eqb_ℤ, ◌*ℤ◌, ◌<ℤ◌, ◌≤ℤ◌, ◌-ℤ◌, -ℤ_parts, eq_of_parts}
use stellar_mosaic.Prelude.Sorting.{sort_by, sort_by-All}
use stellar_mosaic.Prelude.Sorted.{IsOrdered, sort_by-Permᴰ, sort_by-IsOrdered}
use stellar_mosaic.ObjectStore.{select}
use stellar_mosaic.ObjectStore.Laws.{All-select}
use stellar_mosaic.BookIndex.{IndexedOrder}
use stellar_mosaic.BookIndex.Ordering.{compare_orders, comes_after, is_of, orders_for}
use stellar_mosaic.BookIndex.Ordering.Comparing.{
  IsPriced, compare_orders_swap, comes_after_trans, not_after, products,
}

behind_negated : (c : ℤ) → ltb_ℤ (pos 0) c ≡ true → ltb_ℤ (pos 0) (pos 0 -ℤ c) ≡ false
behind_negated c h = ground (arith, -ℤ_parts (pos 0) c)

comes_after_asym :
    (side : ℤ) (a b : IndexedOrder) → comes_after side a b ≡ true → comes_after side b a ≡ false
comes_after_asym side a b h =
    ap (ltb_ℤ (pos 0)) (compare_orders_swap a b side) ∙ behind_negated (compare_orders a b side) h

-- The orders of a list that are of a pair and a side, in the order of the list.
pub data IsSideOf (pair_id side : ℤ) : List IndexedOrder → List IndexedOrder → Type 0 where
  nothing : IsSideOf pair_id side [] []
  taken :
      {o : IndexedOrder} {orders rows : List IndexedOrder}
      → o.pair_id ≡ pair_id
      → o.side ≡ side
      → IsSideOf pair_id side orders rows
      → IsSideOf pair_id side (o ∷ orders) (o ∷ rows)
  left :
      {o : IndexedOrder} {orders rows : List IndexedOrder}
      → (o.pair_id ≢ pair_id) ⊎ (o.side ≢ side)
      → IsSideOf pair_id side orders rows
      → IsSideOf pair_id side (o ∷ orders) rows

-- A lower price, as the fraction min_out / amount_in, or the same price and no later priority.
abbrev pub Precedes : IndexedOrder → IndexedOrder → Type 0
Precedes a b =
    (a.min_out *ℤ b.amount_in <ℤ b.min_out *ℤ a.amount_in)
    ⊎ ((a.min_out *ℤ b.amount_in ≡ b.min_out *ℤ a.amount_in)
        × (a.priority_sequence ≤ℤ b.priority_sequence))

abbrev pub AllPrecede : List IndexedOrder → Type 0
AllPrecede [] = Unit
AllPrecede (o ∷ rows) = All (Precedes o) rows × AllPrecede rows

eqb_ℤ-true : (a b : ℤ) → eqb_ℤ a b ≡ true → a ≡ b
eqb_ℤ-true a b h = eq_of_parts a b (ground arith)

eqb_ℤ-false : (a b : ℤ) → eqb_ℤ a b ≡ false → a ≢ b
eqb_ℤ-false a b h e = ground arith

not_after-Precedes :
    (side : ℤ) (a b : IndexedOrder)
    → IsPriced a
    → IsPriced b
    → comes_after side a b ≡ false
    → Precedes a b
not_after-Precedes side a b (ai, ao, ai_pos, ao_pos, p, q) (bi, bo, bi_pos, bo_pos, r, s) h =
    let (e, f, g, i) = products side a b p q r s in
    elim (not_after side a b p q r s h) [
      | inl l ↦ inl (ground arith)
      | inr (l, m) ↦ inr (e ∙ ap pos l ∙ sym f, m)
    ]

is_of-taken :
    (pair_id side : ℤ) (o : IndexedOrder)
    → is_of pair_id side o ≡ true
    → (o.pair_id ≡ pair_id) × (o.side ≡ side)
is_of-taken pair_id side o h =
    (eqb_ℤ-true o.pair_id pair_id (ground arith), eqb_ℤ-true o.side side (ground arith))

is_of-left :
    (pair_id side : ℤ) (o : IndexedOrder)
    → is_of pair_id side o ≡ false
    → (o.pair_id ≢ pair_id) ⊎ (o.side ≢ side)
is_of-left pair_id side o h = elim (Bool-cases (eqb_ℤ o.pair_id pair_id)) [
  | inl e ↦ inr (eqb_ℤ-false o.side side (ground arith))
  | inr e ↦ inl (eqb_ℤ-false o.pair_id pair_id e)
]

select-IsSideOf :
    (pair_id side : ℤ) (orders : List IndexedOrder)
    → IsSideOf pair_id side orders (select (is_of pair_id side) orders)
unfolding select
select-IsSideOf pair_id side [] = nothing
select-IsSideOf pair_id side (o ∷ orders) = elim (Bool-cases (is_of pair_id side o)) [
  | inl e ↦
      rw e (
        let (p, s) = is_of-taken pair_id side o e in
        taken p s (select-IsSideOf pair_id side orders))
  | inr e ↦ rw e (left (is_of-left pair_id side o e) (select-IsSideOf pair_id side orders))
]

first-All :
    (side : ℤ) (o : IndexedOrder) (rows : List IndexedOrder)
    → IsPriced o
    → All IsPriced rows
    → All (λ p. comes_after side o p ≡ false) rows
    → All (Precedes o) rows
first-All side o [] p ps h = tt
first-All side o (r ∷ rows) p (q, ps) (k, h) =
    (not_after-Precedes side o r p q k, first-All side o rows p ps h)

shown-AllPrecede :
    (side : ℤ) (rows : List IndexedOrder)
    → All IsPriced rows
    → IsOrdered (comes_after side) rows
    → AllPrecede rows
shown-AllPrecede side [] p h = tt
shown-AllPrecede side (o ∷ rows) (p, ps) (k, h) =
    (first-All side o rows p ps k, shown-AllPrecede side rows ps h)

-- For orders with positive amounts: the orders shown for a pair and a side are the orders of the
-- index with that pair and that side, each as often, and each precedes every later one: it has a
-- lower price min_out / amount_in, or the same price and a priority that is not later.
pub orders_for-AllPrecede :
    (pair_id side : ℤ) (orders : List IndexedOrder)
    → All IsPriced orders
    → ((rows : List IndexedOrder) × IsSideOf pair_id side orders rows
        × Permᴰ (orders_for pair_id side orders) rows)
      × AllPrecede (orders_for pair_id side orders)
unfolding orders_for
orders_for-AllPrecede pair_id side orders h =
    let rows = select (is_of pair_id side) orders in
    let priced = All-select IsPriced (is_of pair_id side) orders h in
    (
      (rows, select-IsSideOf pair_id side orders, sort_by-Permᴰ (comes_after side) rows),
      shown-AllPrecede side (sort_by (comes_after side) rows)
          (sort_by-All (comes_after side) IsPriced rows priced)
          (sort_by-IsOrdered (comes_after side) IsPriced (comes_after_asym side)
            (comes_after_trans side) rows priced),
    )
