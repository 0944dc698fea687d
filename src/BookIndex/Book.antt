-- ===== src/BookIndex/Book.antt =====
-- The order book that the index stands for: its orders and the sequence number of the last change.
-- A desk's contract numbers its changes from 1; each puts one order or removes one.
use stellar_mosaic.Prelude.{ℕ, zero, suc, ◌≡◌, ◌⊎◌, none, some, List}
use stellar_mosaic.Prelude.Int.{ℤ, pos, ◌+ℤ◌}
use stellar_mosaic.Text.{Text}
use stellar_mosaic.ObjectStore.{get, put, delete}
use stellar_mosaic.BookIndex.{IndexedOrder, order_id_of, book_key, order_key}
use stellar_mosaic.BookIndex.Handlers.{PageState}

pub record Book : Type 0 where
  pub orders : List IndexedOrder
  pub sequence : ℤ

-- An order that stands under its own key in a book of the scope.
abbrev pub IsRow : Text → IndexedOrder → Type 0
IsRow scope o =
    (o.scope ≡ scope)
    × (o.id ≡ order_key scope o.pair_id o.side o.order_id)
    × (o.book ≡ book_key scope o.pair_id o.side)
    × ((o.side ≡ pos 0) ⊎ (o.side ≡ pos 1))

-- The place of an order that is put in the book: the one it has there, or the number of the change.
pub record HasPlace (b : Book) (o : IndexedOrder) : Type 0 where
  pub kept :
      (old : IndexedOrder)
      → get order_id_of o.id b.orders ≡ some old
      → o.priority_sequence ≡ old.priority_sequence
  pub at_end : get order_id_of o.id b.orders ≡ none → o.priority_sequence ≡ b.sequence +ℤ pos 1

-- One change: a new order gets the number of the change as its priority, an order of the book keeps
-- its own; and only an order of the book is removed.
pub data Change (scope : Text) : Book → Book → Type 0 where
  upsert :
      {b : Book} (o : IndexedOrder)
      → IsRow scope o
      → HasPlace b o
      → Change scope b
          (record { orders = put order_id_of o b.orders; sequence = b.sequence +ℤ pos 1 })
  remove :
      {b : Book} (pair side : ℤ) (order_id : Text) (o : IndexedOrder)
      → (side ≡ pos 0) ⊎ (side ≡ pos 1)
      → get order_id_of (order_key scope pair side order_id) b.orders ≡ some o
      → Change scope b (record {
        orders = delete order_id_of (order_key scope pair side order_id) b.orders;
        sequence = b.sequence +ℤ pos 1;
      })

-- A run of changes, with their number.
pub data Changes (scope : Text) : ℕ → Book → Book → Type 0 where
  unchanged : {b : Book} → Changes scope zero b b
  then_change :
      {n : ℕ} {b c d : Book} → Change scope b c → Changes scope n c d → Changes scope (suc n) b d

abbrev pub book_of : PageState → Book
book_of st = record { orders = st.stores.orders; sequence = st.sequence }
