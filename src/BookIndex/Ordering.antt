-- ===== src/BookIndex/Ordering.antt =====
-- `ordersFor` and `compareOrders`: the orders of one side of a pair, best price first, and of equal
-- prices the earlier one first.
pub mod Comparing
pub mod Sorting
use stellar_mosaic.Prelude.{
  ℕ, suc, zero, ◌*◌, ◌<◌, ◌≤◌, ◌≡◌, Bool, true, false, ◌&&◌, List, if◌then◌else◌, arith, refl, inl,
  inr,
}
use stellar_mosaic.Prelude.Int.{
  ℤ, pos, negsuc, eqb_ℤ, ltb_ℤ, ◌*ℤ◌, ◌<ℤ◌, ◌≤ℤ◌, pos-mul, int_laws, eq_of_parts,
}
use stellar_mosaic.Prelude.Sorting.{sort_by}
use stellar_mosaic.ObjectStore.{select}
use stellar_mosaic.BookIndex.{IndexedOrder}

-- -1 and 1 for the two orders in their places and exchanged, and 0 for equal ones.
unfoldable pub compare_orders : IndexedOrder → IndexedOrder → ℤ → ℤ
compare_orders a b side =
    let left = if eqb_ℤ side (pos 1) then a.min_out *ℤ b.amount_in else a.amount_in *ℤ b.min_out in
    let right = if eqb_ℤ side (pos 1) then b.min_out *ℤ a.amount_in else b.amount_in *ℤ a.min_out in
    if eqb_ℤ left right
    then if ltb_ℤ a.priority_sequence b.priority_sequence
      then negsuc 0
      else if ltb_ℤ b.priority_sequence a.priority_sequence
      then pos 1
      else pos 0
    else if eqb_ℤ side (pos 1)
    then if ltb_ℤ left right then negsuc 0 else pos 1
    else if ltb_ℤ right left
    then negsuc 0
    else pos 1

abbrev pub is_of : ℤ → ℤ → IndexedOrder → Bool
is_of pair_id side o = eqb_ℤ o.pair_id pair_id && eqb_ℤ o.side side

abbrev pub comes_after : ℤ → IndexedOrder → IndexedOrder → Bool
comes_after side a b = ltb_ℤ (pos 0) (compare_orders a b side)

unfoldable pub orders_for : ℤ → ℤ → List IndexedOrder → List IndexedOrder
orders_for pair_id side orders = sort_by (comes_after side) (select (is_of pair_id side) orders)
