-- ===== src/BookIndex/Changing.antt =====
-- What a handled event does to the order book: nothing, or one change.
use stellar_mosaic.Prelude.{
  ℕ, ◌≡◌, refl, sym, ap, ◌⊎◌, ◌∙◌, subst, inl, inr, true, some, List, Bool-cases, Option-cases,
  Result, ok, value_of, arith, ok_inj,
}
use stellar_mosaic.Prelude.Int.{ℤ, pos, ◌+ℤ◌, eqb_ℤ, leb_ℤ, eq_of_parts}
use stellar_mosaic.Text.{Text}
use stellar_mosaic.ChainValue.{Native, at}
use stellar_mosaic.ObjectStore.{get, put, delete}
use stellar_mosaic.BookIndex.{
  IndexedOrder, BookError, order_id_of, order_key, number, bigint, hex, fields,
}
use stellar_mosaic.BookIndex.Handlers.{
  PageState, Handler, handler, book_init, asset_reg, pair_reg, order_upsert, order_remove,
  upsert_next, put_order, drop_order, remove_next, order_row, is_side, priority_of, set_orders,
}
use stellar_mosaic.BookIndex.Dispatch.{Holds, handler-Holds}
use stellar_mosaic.BookIndex.Book.{
  HasPlace, IsRow, Change, upsert, remove, Changes, unchanged, then_change, book_of,
}

eqb_ℤ-true : (a b : ℤ) → eqb_ℤ a b ≡ true → a ≡ b
eqb_ℤ-true a b h = eq_of_parts a b (ground arith)

-- No change, or one.
abbrev pub Turns : Text → PageState → PageState → Type 0
Turns scope st next = (n : ℕ) × Changes scope n (book_of st) (book_of next)

is_side-cases : (side : ℤ) → is_side side ≡ true → (side ≡ pos 0) ⊎ (side ≡ pos 1)
is_side-cases side h = elim (Bool-cases (eqb_ℤ side (pos 0))) [
  | inl e ↦ inl (eqb_ℤ-true side (pos 0) e)
  | inr e ↦ inr (eqb_ℤ-true side (pos 1) (ground arith))
]

order_row-IsRow :
    (scope : Text) (pair side : ℤ) (order_id : Text) (priority : ℤ) (f : List Native)
    (o : IndexedOrder)
    → (side ≡ pos 0) ⊎ (side ≡ pos 1)
    → order_row scope pair side order_id priority f ≡ ok o
    → (o.id ≡ order_key scope pair side order_id) × (o.priority_sequence ≡ priority) × IsRow scope o
unfolding order_row
order_row-IsRow scope pair side order_id priority f o s h = ground arith

-- The checks that an order's event has passed when it is applied.
abbrev pub Passed : ℤ → PageState → ℤ → Type 0
Passed next st side = (next ≡ st.sequence +ℤ pos 1) × ((side ≡ pos 0) ⊎ (side ≡ pos 1))

pub upsert_next-ok :
    (scope : Text) (next : ℤ) (f : List Native) (st later : PageState)
    → upsert_next scope next f st ≡ ok later
    → (pair : ℤ) × (side : ℤ) × (order_id : Text) × Passed next st side
      × (put_order scope next pair side order_id f st ≡ ok later)
unfolding upsert_next
upsert_next-ok scope next f st later h =
    let (pair, p) = value_of (number (at f 1) "pair id") (λ e x. ground arith) in
    let (side, s) = value_of (number (at f 2) "side") (λ e x. ground arith) in
    let (order_id, i) = value_of (hex (at f 3)) (λ e x. ground arith) in
    (
      pair,
      side,
      order_id,
      (eqb_ℤ-true next (st.sequence +ℤ pos 1) (ground arith), is_side-cases side (ground arith)),
      ground arith,
    )

pub put_order-ok :
    (scope : Text) (next pair side : ℤ) (order_id : Text) (f : List Native) (st later : PageState)
    → put_order scope next pair side order_id f st ≡ ok later
    → (o : IndexedOrder) × (order_row scope pair side order_id
          (priority_of next (get order_id_of (order_key scope pair side order_id) st.stores.orders))
          f
        ≡ ok o)
      × (book_of later ≡ record { orders = put order_id_of o st.stores.orders; sequence = next })
unfolding put_order
put_order-ok scope next pair side order_id f st later h =
    let key = order_key scope pair side order_id in
    let (o, r) =
      value_of
        (order_row scope pair side order_id
          (priority_of next (get order_id_of key st.stores.orders)) f)
        (λ e x. ground arith) in
    let done : PageState = record (set_orders (put order_id_of o st.stores.orders) st) {
      sequence = next;
    } in
    let e : ◌≡◌ {A = Result BookError PageState} (ok done) (ok later) = sym (rw r refl) ∙ h in
    (o, r, ap book_of (sym (ok_inj e)))

-- The change that an event's order has made, from what the handler has checked.
upsert_next-Change :
    (scope : Text) (next : ℤ) (f : List Native) (st later : PageState)
    → upsert_next scope next f st ≡ ok later
    → Change scope (book_of st) (book_of later)
upsert_next-Change scope next f st later h =
    let (pair, side, order_id, (n, s), g) = upsert_next-ok scope next f st later h in
    let (o, r, moved) = put_order-ok scope next pair side order_id f st later g in
    let key = order_key scope pair side order_id in
    let (id, priority, row) =
      order_row-IsRow scope pair side order_id
        (priority_of next (get order_id_of key st.stores.orders)) f o s r in
    let place : HasPlace (book_of st) o = record {
      kept = λ old g.
          priority
          ∙ ap (priority_of next) (ap (λ k. get order_id_of k st.stores.orders) (sym id) ∙ g);
      at_end = λ g.
          priority
          ∙ ap (priority_of next) (ap (λ k. get order_id_of k st.stores.orders) (sym id) ∙ g)
          ∙ n;
    } in
    subst (Change scope (book_of st))
      (ap (λ m. record { orders = put order_id_of o st.stores.orders; sequence = m }) (sym n)
        ∙ sym moved)
      (upsert o row place)

pub remove_next-ok :
    (scope : Text) (next : ℤ) (f : List Native) (st later : PageState)
    → remove_next scope next f st ≡ ok later
    → (pair : ℤ) × (side : ℤ) × (order_id : Text) × (reason : ℤ) × Passed next st side
      × (drop_order scope next pair side order_id reason st ≡ ok later)
unfolding remove_next
remove_next-ok scope next f st later h =
    let (pair, p) = value_of (number (at f 1) "pair id") (λ e x. ground arith) in
    let (side, s) = value_of (number (at f 2) "side") (λ e x. ground arith) in
    let (order_id, i) = value_of (hex (at f 3)) (λ e x. ground arith) in
    let (reason, r) = value_of (number (at f 4) "removal reason") (λ e x. ground arith) in
    (
      pair,
      side,
      order_id,
      reason,
      (eqb_ℤ-true next (st.sequence +ℤ pos 1) (ground arith), is_side-cases side (ground arith)),
      ground arith,
    )

pub drop_order-ok :
    (scope : Text) (next pair side : ℤ) (order_id : Text) (reason : ℤ) (st later : PageState)
    → drop_order scope next pair side order_id reason st ≡ ok later
    → (o : IndexedOrder) × (get order_id_of (order_key scope pair side order_id) st.stores.orders
        ≡ some o)
      × (book_of later ≡ record {
        orders = delete order_id_of (order_key scope pair side order_id) st.stores.orders;
        sequence = next;
      })
unfolding drop_order
drop_order-ok scope next pair side order_id reason st later h =
    elim (Option-cases (get order_id_of (order_key scope pair side order_id) st.stores.orders)) [
      | inl e ↦ absurd (ground arith)
      | inr (o, e) ↦ (o, e, ground arith)
    ]

remove_next-Change :
    (scope : Text) (next : ℤ) (f : List Native) (st later : PageState)
    → remove_next scope next f st ≡ ok later
    → Change scope (book_of st) (book_of later)
remove_next-Change scope next f st later h =
    let (pair, side, order_id, reason, (n, s), g) = remove_next-ok scope next f st later h in
    let (o, e, moved) = drop_order-ok scope next pair side order_id reason st later g in
    let key = order_key scope pair side order_id in
    subst (Change scope (book_of st))
      (ap (λ m. record { orders = delete order_id_of key st.stores.orders; sequence = m }) (sym n)
        ∙ sym moved)
      (remove pair side order_id o s e)

abbrev pub IsRefined : Text → Handler → Type 0
IsRefined scope f = (v : Native) (st next : PageState) → f v st ≡ ok next → Turns scope st next

pub still : (scope : Text) (st next : PageState) → book_of next ≡ book_of st → Turns scope st next
still scope st next e = (0, subst (Changes scope 0 (book_of st)) (sym e) unchanged)

book_init-IsRefined : (scope : Text) → IsRefined scope book_init
unfolding book_init
book_init-IsRefined scope v st next h = still scope st next (ground arith)

asset_reg-IsRefined : (scope : Text) → IsRefined scope (asset_reg scope)
unfolding asset_reg
asset_reg-IsRefined scope v st next h = still scope st next (ground arith)

pair_reg-IsRefined : (scope : Text) → IsRefined scope (pair_reg scope)
unfolding pair_reg
pair_reg-IsRefined scope v st next h = still scope st next (ground arith)

-- An order's event either is behind the index or goes on.
order_upsert-ok :
    (scope : Text) (v : Native) (st later : PageState)
    → order_upsert scope v st ≡ ok later
    → (book_of later ≡ book_of st)
      ⊎ ((next : ℤ) × (f : List Native) × (upsert_next scope next f st ≡ ok later))
unfolding order_upsert
order_upsert-ok scope v st later h =
    let (f, e) = value_of (fields v 12) (λ e x. ground arith) in
    let (next, n) = value_of (bigint (at f 0) "book sequence") (λ e x. ground arith) in
    elim (Bool-cases (leb_ℤ next st.sequence)) [
      | inl l ↦ inl (ground arith)
      | inr l ↦ inr (next, f, ground arith)
    ]

order_remove-ok :
    (scope : Text) (v : Native) (st later : PageState)
    → order_remove scope v st ≡ ok later
    → (book_of later ≡ book_of st)
      ⊎ ((next : ℤ) × (f : List Native) × (remove_next scope next f st ≡ ok later))
unfolding order_remove
order_remove-ok scope v st later h =
    let (f, e) = value_of (fields v 5) (λ e x. ground arith) in
    let (next, n) = value_of (bigint (at f 0) "book sequence") (λ e x. ground arith) in
    elim (Bool-cases (leb_ℤ next st.sequence)) [
      | inl l ↦ inl (ground arith)
      | inr l ↦ inr (next, f, ground arith)
    ]

order_upsert-IsRefined : (scope : Text) → IsRefined scope (order_upsert scope)
order_upsert-IsRefined scope v st later h = elim (order_upsert-ok scope v st later h) [
  | inl e ↦ still scope st later e
  | inr (next, f, g) ↦ (1, then_change (upsert_next-Change scope next f st later g) unchanged)
]

order_remove-IsRefined : (scope : Text) → IsRefined scope (order_remove scope)
order_remove-IsRefined scope v st later h = elim (order_remove-ok scope v st later h) [
  | inl e ↦ still scope st later e
  | inr (next, f, g) ↦ (1, then_change (remove_next-Change scope next f st later g) unchanged)
]

pub handler-IsRefined : (scope name : Text) → Holds (IsRefined scope) (handler scope name)
handler-IsRefined scope name =
    handler-Holds (IsRefined scope) scope name (book_init-IsRefined scope)
      (asset_reg-IsRefined scope) (pair_reg-IsRefined scope) (order_upsert-IsRefined scope)
      (order_remove-IsRefined scope)
