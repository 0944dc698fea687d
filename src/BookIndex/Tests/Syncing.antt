-- ===== src/BookIndex/Tests/Syncing.antt =====
-- Synchronisations of a desk, and the view of its book.
use stellar_mosaic.Prelude.{ℕ, arith, ◌≡◌, ◌≢◌, refl, none, some, List, [], ◌∷◌, ok, true}
use mathlib.Core.List.{Permᴰ}
use stellar_mosaic.Prelude.Int.{pos, ◌+ℤ◌, ◌*ℤ◌}
use stellar_mosaic.Prelude.Sorting.{sort_by, insert_by}
use stellar_mosaic.Text.{Text, codes, text_eq, to_digits, digits_fuel, digit_char, lower_case}
use stellar_mosaic.Text.Comparing.{text_before}
use stellar_mosaic.Amount.{to_string}
use stellar_mosaic.Field.{hex_of_bytes}
use stellar_mosaic.ChainValue.{bigint_value, is_truthy, join_texts, join_rest}
use stellar_mosaic.ObjectStore.{get, put, delete, select}
use stellar_mosaic.BookIndex.{
  Database, BookEvent, IndexedOrder, hex, number, bigint, fields, topic, meta_of, sequence_gap,
}
use stellar_mosaic.BookIndex.Handlers.{
  hex_all, book_init, asset_reg, pair_reg, order_row, put_order, upsert_next, drop_order,
  remove_next, order_upsert, order_remove, handler,
}
use stellar_mosaic.BookIndex.Reduce.{apply_event, apply_events, apply_book_event_page}
use stellar_mosaic.BookIndex.Ordering.{compare_orders, orders_for}
use stellar_mosaic.BookIndex.Ordering.Sorting.{IsSideOf, AllPrecede, orders_for-AllPrecede}
use stellar_mosaic.BookIndex.Snapshot.{snapshot, put_meta, set_fatal, clear_book_index}
use stellar_mosaic.BookIndex.Release.{wasm, normalized_hash, check_meta, check_code, verify_release}
use stellar_mosaic.BookIndex.Live.{Desk, read_book_sequence}
use stellar_mosaic.BookIndex.Messages.{message_of}
use stellar_mosaic.BookIndex.Sync.{Server, sync_book_index, fatal}
use stellar_mosaic.BookIndex.Synced.{sync_book_index-synced}
use stellar_mosaic.BookIndex.Returning.{sync_book_index-returns}
use stellar_mosaic.BookIndex.Fatal.{sync_book_index_fatal}
use stellar_mosaic.BookIndex.Clearing.{rows_of, no_rows, new_index, clear_book_index_lem}
use stellar_mosaic.BookIndex.Tests.{scope, no_database, page, indexed, init, placed}

abbrev order_of : ℕ → ℕ → ℕ → ℕ → IndexedOrder
order_of id amount min priority = record {
  id = id ∷ [];
  scope = scope;
  book = [];
  pair_id = pos 0;
  side = pos 0;
  order_id = id ∷ [];
  amount_in = pos amount;
  min_out = pos min;
  remaining_in = pos amount;
  output_owner_tag = [];
  cancel_owner_tag = [];
  order_leaf = [];
  expiry = pos 100;
  partial_allowed = true;
  priority_sequence = pos priority;
}

abbrev two_orders : List IndexedOrder
two_orders = order_of 1 5 10 1 ∷ order_of 2 5 9 2 ∷ order_of 3 10 20 3 ∷ []

-- The better price first, and of equal prices the earlier order.
shown_orders :
    orders_for (pos 0) (pos 0) two_orders
    ≡ order_of 2 5 9 2 ∷ order_of 1 5 10 1 ∷ order_of 3 10 20 3 ∷ []
unfolding orders_for sort_by insert_by select compare_orders ◌*ℤ◌
shown_orders = refl

orders_for-AllPrecede_example :
    ((rows : List IndexedOrder) × IsSideOf (pos 0) (pos 0) two_orders rows
      × Permᴰ (orders_for (pos 0) (pos 0) two_orders) rows)
    × AllPrecede (orders_for (pos 0) (pos 0) two_orders)
orders_for-AllPrecede_example = orders_for-AllPrecede (pos 0) (pos 0) two_orders (
  (5, 10, omega arith, omega arith, refl, refl),
  (
    (5, 9, omega arith, omega arith, refl, refl),
    ((10, 20, omega arith, omega arith, refl, refl), tt),
  ),
)

abbrev desk : Desk
desk = record { contract_id = codes "C1"; assets = []; pairs = [] }

abbrev server_of : List BookEvent → Server
server_of events = record {
  get_events = λ n start. ok (record { events = events; cursor = codes "c"; latest_ledger = 50 });
  view = λ name arguments. ok (bigint_value (pos 2));
  contract_code = ok (wasm (9 ∷ []));
  manifest = ok (record {
    schema_version = pos 1;
    wasm_hash = codes "0x09";
    lift = codes "0x01";
    unshield = codes "0x02";
    cancel = codes "0x03";
    join = codes "0x04";
  });
}

sync_book_index-returns_example :
    sync_book_index (server_of page) (codes "trustless") (codes "test") desk (some 10) 1 no_database
    ≢ none
sync_book_index-returns_example =
    sync_book_index-returns (server_of page) (codes "trustless") (codes "test") desk (some 10) 0
      no_database (λ start. refl)

abbrev broken : List BookEvent
broken = init ∷ placed "2" 3 20 5 10 ∷ []

abbrev failed_database : Database
failed_database = set_fatal scope (message_of (sequence_gap (pos 1) (pos 3))) no_database

sync_book_index_fatal_example :
    sync_book_index (server_of page) (codes "trustless") (codes "test") desk none 3 failed_database
    ≡ some (failed_database, snapshot scope failed_database)
unfolding hex_all book_init asset_reg pair_reg order_row put_order upsert_next drop_order
    remove_next order_upsert order_remove handler apply_event apply_events apply_book_event_page hex
    number bigint fields topic get put delete select text_eq text_before to_string to_digits
    digits_fuel digit_char hex_of_bytes join_texts join_rest is_truthy ◌+ℤ◌ sync_book_index snapshot
    set_fatal message_of fatal
sync_book_index_fatal_example =
    sync_book_index_fatal (server_of broken) (server_of page) (codes "trustless") (codes "test")
      desk (some 10) none 1 3 no_database failed_database (snapshot scope failed_database) refl refl

clear_book_index_lem_example :
    (rows_of scope (clear_book_index scope indexed) ≡ no_rows)
    × (snapshot scope (clear_book_index scope indexed) ≡ new_index)
    × ((other : Text)
        → other ≢ scope
        → (rows_of other (clear_book_index scope indexed) ≡ rows_of other indexed)
          × (snapshot other (clear_book_index scope indexed) ≡ snapshot other indexed))
clear_book_index_lem_example = clear_book_index_lem scope indexed

abbrev synced_database : Database
synced_database =
    put_meta
      (record (meta_of scope indexed.meta) {
        target_sequence = pos 2;
        release_verified = some true;
      })
      indexed

sync_book_index-synced_example : read_book_sequence (server_of page).view ≡ ok (pos 2)
unfolding hex_all book_init asset_reg pair_reg order_row put_order upsert_next drop_order
    remove_next order_upsert order_remove handler apply_event apply_events apply_book_event_page hex
    number bigint fields topic get put delete select text_eq text_before to_string to_digits
    digits_fuel digit_char hex_of_bytes join_texts join_rest is_truthy ◌+ℤ◌ sync_book_index snapshot
    read_book_sequence verify_release check_meta check_code normalized_hash lower_case
sync_book_index-synced_example =
    sync_book_index-synced (server_of page) (codes "trustless") (codes "test") desk (some 10) 1
      no_database synced_database (snapshot scope synced_database) refl refl
