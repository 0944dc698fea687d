-- ===== src/BookIndex/Invariant.antt =====
-- What pages of events keep of the order book: every order under its own key, and its place.
use stellar_mosaic.Prelude.{ℕ, ◌≡◌, sym, ap, ◌∙◌, subst, inl, inr, some, List, Option-cases, arith}
use stellar_mosaic.Prelude.Int.{ℤ, pos, ◌+ℤ◌, ◌≤ℤ◌, int_laws}
use stellar_mosaic.Text.{Text}
use stellar_mosaic.ObjectStore.{get, put}
use stellar_mosaic.ObjectStore.Laws.{get-put_cases, get-delete_back}
use stellar_mosaic.BookIndex.{IndexedOrder, Database, BookEvent, order_id_of, order_key}
use stellar_mosaic.BookIndex.Reduce.{apply_book_event_page}
use stellar_mosaic.BookIndex.Book.{
  Book, HasPlace, IsRow, Change, upsert, remove, Changes, unchanged, then_change,
}
use stellar_mosaic.BookIndex.Refinement.{stored_book, apply_book_event_page-Changes}

-- A key of the scope's orders, under which the book has the order.
abbrev pub HoldsOrder : Text → Book → Text → IndexedOrder → Type 0
HoldsOrder scope b k o =
    ((pair : ℤ) × (side : ℤ) × (order_id : Text) × (k ≡ order_key scope pair side order_id))
    × (get order_id_of k b.orders ≡ some o)

-- Every order of the scope stands under its own key, on a side of its book, with a priority that is
-- at most the sequence.
abbrev pub HasRows : Text → Book → Type 0
HasRows scope b =
    (k : Text) (o : IndexedOrder)
    → HoldsOrder scope b k o
    → IsRow scope o × (o.priority_sequence ≤ℤ b.sequence)

-- No two orders of the scope have the same priority.
abbrev pub HasPlaces : Text → Book → Type 0
HasPlaces scope b =
    (k l : Text) (o p : IndexedOrder)
    → HoldsOrder scope b k o
    → HoldsOrder scope b l p
    → o.priority_sequence ≡ p.priority_sequence
    → k ≡ l

abbrev pub IsBook : Text → Book → Type 0
IsBook scope b = HasRows scope b × HasPlaces scope b

next_le : (p s : ℤ) → p ≤ℤ s → p ≤ℤ s +ℤ pos 1
next_le p s h = omega int_laws

next_refl : (s : ℤ) → s +ℤ pos 1 ≤ℤ s +ℤ pos 1
next_refl s = omega arith

next_new : (s : ℤ) → ¬ (s +ℤ pos 1 ≤ℤ s)
next_new s h = omega int_laws

module _ (scope : Text) (b : Book) (holds : IsBook scope b) (o : IndexedOrder) (row : IsRow scope o)
    (place : HasPlace b o) where
  own_key : (e : IndexedOrder) → get order_id_of o.id b.orders ≡ some e → HoldsOrder scope b o.id e
  own_key e g = let (in_scope, id, book, side) = row in ((o.pair_id, o.side, o.order_id, id), g)

  -- The priority of a put order, from the order that was there.
  bounded_place : o.priority_sequence ≤ℤ b.sequence +ℤ pos 1
  bounded_place = elim (Option-cases (get order_id_of o.id b.orders)) [
    | inl e ↦
        let p : o.priority_sequence ≡ b.sequence +ℤ pos 1 = place.at_end e in
        subst (λ x. x ≤ℤ b.sequence +ℤ pos 1) (sym p) (next_refl b.sequence)
    | inr (e, g) ↦
        let p : o.priority_sequence ≡ e.priority_sequence = place.kept e g in
        let (rows, places) = holds in
        let (r, le) = rows o.id e (own_key e g) in
        subst (λ x. x ≤ℤ b.sequence +ℤ pos 1) (sym p) (next_le e.priority_sequence b.sequence le)
  ]

  own_place :
      (l : Text) (p : IndexedOrder)
      → HoldsOrder scope b l p
      → o.priority_sequence ≡ p.priority_sequence
      → o.id ≡ l
  own_place l p h e =
      let (rows, places) = holds in
      elim (Option-cases (get order_id_of o.id b.orders)) [
        | inl n ↦
            let q : o.priority_sequence ≡ b.sequence +ℤ pos 1 = place.at_end n in
            let (r, le) = rows l p h in
            absurd (next_new b.sequence (subst (λ x. x ≤ℤ b.sequence) (sym e ∙ q) le))
        | inr (x, g) ↦
            let q : o.priority_sequence ≡ x.priority_sequence = place.kept x g in
            places o.id l x p (own_key x g) h (sym q ∙ e)
      ]

  upsert-IsBook :
      IsBook scope (record { orders = put order_id_of o b.orders; sequence = b.sequence +ℤ pos 1 })
  upsert-IsBook = (
    λ k x (key, g). elim (get-put_cases order_id_of k o b.orders g) [
      | inl (_, e) ↦
          subst (λ y. IsRow scope y × (y.priority_sequence ≤ℤ b.sequence +ℤ pos 1)) (sym e)
            (row, bounded_place)
      | inr old ↦
          let (rows, places) = holds in
          let (r, le) = rows k x (key, old) in (r, next_le x.priority_sequence b.sequence le)
    ],
    λ k l x y (key, g) (key', g') e. elim (get-put_cases order_id_of k o b.orders g) [
      | inl (k_o, x_o) ↦ elim (get-put_cases order_id_of l o b.orders g') [
        | inl (l_o, y_o) ↦ k_o ∙ sym l_o
        | inr old ↦ k_o ∙ own_place l y (key', old) (ap (λ z. z.priority_sequence) (sym x_o) ∙ e)
      ]
      | inr old ↦ elim (get-put_cases order_id_of l o b.orders g') [
        | inl (l_o, y_o) ↦
            sym (l_o ∙ own_place k x (key, old) (ap (λ z. z.priority_sequence) (sym y_o) ∙ sym e))
        | inr old' ↦ let (rows, places) = holds in places k l x y (key, old) (key', old') e
      ]
    ],
  )

Change-IsBook : (scope : Text) {b c : Book} → Change scope b c → IsBook scope b → IsBook scope c
Change-IsBook scope {b = b} (upsert o row place) h = upsert-IsBook scope b h o row place
Change-IsBook scope {b = b} (remove pair side order_id o s g) (rows, places) =
    let back = λ (k : Text) (x : IndexedOrder).
      get-delete_back order_id_of k (order_key scope pair side order_id) b.orders {b = x} in
    (
      λ k x (key, e).
          let (r, le) = rows k x (key, back k x e) in
          (r, next_le x.priority_sequence b.sequence le),
      λ k l x y (key, e) (key', e') p. places k l x y (key, back k x e) (key', back l y e') p,
    )

Changes-IsBook :
    (scope : Text) {n : ℕ} {b c : Book} → Changes scope n b c → IsBook scope b → IsBook scope c
Changes-IsBook scope unchanged h = h
Changes-IsBook scope (then_change g gs) h = Changes-IsBook scope gs (Change-IsBook scope g h)

-- Whatever the outcome of the call of a page: if in the database every order of the scope stands
-- under its own key in its book, on side 0 or 1, with a priority of at most the stored sequence, and
-- no two of them have the same priority, then this is so after the call.
pub apply_book_event_page-IsBook :
    (scope cursor : Text) (events : List BookEvent) (latest_ledger : ℕ) (db : Database)
    → IsBook scope (stored_book scope db)
    → IsBook scope
        (stored_book scope (apply_book_event_page scope events cursor latest_ledger db).0)
apply_book_event_page-IsBook scope cursor events latest_ledger db h =
    let (n, c, s) = apply_book_event_page-Changes scope cursor events latest_ledger db in
    Changes-IsBook scope c h
