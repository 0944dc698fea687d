-- ===== src/BookIndex/Tests.antt =====
-- A desk with two orders, and the theorems at it.
mod Syncing
use stellar_mosaic.Prelude.{
  ℕ, suc, ◌≡◌, ◌≢◌, refl, sym, ap, ◌∙◌, Option, none, some, List, [], ◌∷◌, ◌++◌, String, Result, ok,
  throw, Bool, true, false, none_ne_some, true_ne_false, str_eq, if◌then◌else◌,
}
use stellar_mosaic.Prelude.Int.{ℤ, pos, negsuc, ◌+ℤ◌, ◌*ℤ◌}
use stellar_mosaic.Text.{Text, codes, text_eq, to_digits}
use stellar_mosaic.Text.Comparing.{text_before}
use stellar_mosaic.ChainValue.{
  Native, number_value, bigint_value, text_value, bytes_value, vector, flag, Natives, no_natives,
  native, object, Members, member, no_members, member_of,
}
use stellar_mosaic.BookIndex.{Database, BookEvent, IndexedOrder, BookMeta}
use stellar_mosaic.ChainValue.{is_truthy, join_texts, join_rest}
use stellar_mosaic.Text.{digits_fuel, digit_char}
use stellar_mosaic.Amount.{to_string}
use stellar_mosaic.Field.{hex_of_bytes}
use stellar_mosaic.ObjectStore.{get, put, delete, select}
use stellar_mosaic.BookIndex.{sequence_gap, unknown_order, hex, number, bigint, fields, topic}
use stellar_mosaic.BookIndex.Handlers.{
  hex_all, book_init, asset_reg, pair_reg, order_row, put_order, upsert_next, drop_order,
  remove_next, order_upsert, order_remove, handler,
}
use stellar_mosaic.BookIndex.Reduce.{apply_event, apply_events, apply_book_event_page}
use stellar_mosaic.BookIndex.Book.{Changes}
use stellar_mosaic.BookIndex.Refinement.{stored_book, apply_book_event_page-Changes}
use stellar_mosaic.BookIndex.Invariant.{IsBook, HasPlaces, HoldsOrder, apply_book_event_page-IsBook}
use stellar_mosaic.BookIndex.Replay.{apply_book_event_page_again}

abbrev pub scope : Text
scope = codes "trustless" ++ (0 ∷ codes "test" ++ (0 ∷ codes "C1"))

abbrev pub no_database : Database
no_database = record { meta = []; orders = []; assets = []; pairs = []; processed = [] }

abbrev event_of : String → String → Natives → BookEvent
event_of id name vs = record {
  id = codes id;
  topic = text_value (codes name) ∷ [];
  value = vector vs;
}

abbrev byte : ℕ → Native
byte n = bytes_value (n ∷ [])

abbrev pub init : BookEvent
init = event_of "1" "bookinit" (
    native (number_value (pos 1))
      (native (byte 1) (native (byte 2) (native (byte 3) (native (byte 4) no_natives)))))

abbrev placed_values : ℕ → ℕ → ℕ → ℕ → Natives
placed_values sequence order amount min = native (bigint_value (pos sequence)) (
    native (number_value (pos 0)) (
      native (number_value (pos 0)) (
        native (byte order) (
          native (bigint_value (pos amount)) (
            native (bigint_value (pos min)) (
              native (bigint_value (pos amount)) (
                native (byte 7) (
                  native (byte 8) (
                    native (byte 9)
                      (native (bigint_value (pos 100)) (native (flag true) no_natives)))))))))))

abbrev pub placed : String → ℕ → ℕ → ℕ → ℕ → BookEvent
placed id sequence order amount min =
    event_of id "ordupsert" (placed_values sequence order amount min)

abbrev removed : String → ℕ → ℕ → BookEvent
removed id sequence order = event_of id "ordremove" (
    native (bigint_value (pos sequence)) (
      native (number_value (pos 0)) (
        native (number_value (pos 0))
          (native (byte order) (native (number_value (pos 0)) no_natives)))))

abbrev pub page : List BookEvent
page = init ∷ placed "2" 1 20 5 10 ∷ placed "3" 2 21 5 9 ∷ []

abbrev pub indexed : Database
indexed = (apply_book_event_page scope page (codes "c") 50 no_database).0

-- A new order, the same order later, and a number that is passed over.
page_kinds :
    ((apply_book_event_page scope page (codes "c") 50 no_database).1 ≡ ok tt)
    × ((apply_book_event_page scope (placed "9" 4 22 1 1 ∷ []) (codes "d") 51 indexed)
        ≡ (indexed, throw (sequence_gap (pos 3) (pos 4))))
    × ((apply_book_event_page scope (removed "9" 3 30 ∷ []) (codes "d") 51 indexed)
        ≡ (indexed, throw (unknown_order (codes "0x1e"))))
unfolding hex_all book_init asset_reg pair_reg order_row put_order upsert_next drop_order
    remove_next order_upsert order_remove handler apply_event apply_events apply_book_event_page hex
    number bigint fields topic get put delete select text_eq text_before to_string to_digits
    digits_fuel digit_char hex_of_bytes join_texts join_rest is_truthy ◌+ℤ◌
page_kinds = (refl, refl, refl)

apply_book_event_page_again_example :
    apply_book_event_page scope page (codes "c") 50 indexed ≡ (indexed, ok tt)
unfolding hex_all book_init asset_reg pair_reg order_row put_order upsert_next drop_order
    remove_next order_upsert order_remove handler apply_event apply_events apply_book_event_page hex
    number bigint fields topic get put delete select text_eq text_before to_string to_digits
    digits_fuel digit_char hex_of_bytes join_texts join_rest is_truthy ◌+ℤ◌
apply_book_event_page_again_example =
    apply_book_event_page_again scope (codes "c") page 50 no_database indexed refl

apply_book_event_page-Changes_example :
    (n : ℕ) × Changes scope n (stored_book scope no_database) (stored_book scope indexed)
    × ((stored_book scope indexed).sequence ≡ (stored_book scope no_database).sequence +ℤ pos n)
apply_book_event_page-Changes_example =
    apply_book_event_page-Changes scope (codes "c") page 50 no_database

-- A scope without orders.
pub empty_IsBook : IsBook scope (stored_book scope no_database)
unfolding get
empty_IsBook =
    (λ k o (key, g). absurd (none_ne_some g), λ k l o p (key, g) h e. absurd (none_ne_some g))

apply_book_event_page-IsBook_example : IsBook scope (stored_book scope indexed)
apply_book_event_page-IsBook_example =
    apply_book_event_page-IsBook scope (codes "c") page 50 no_database empty_IsBook
