-- ===== src/BookIndex/Handlers.antt =====
-- `applyBookEventPage`: what each kind of book event does. The state within the transaction is the
-- stores, the row of the scope and the sequence, of which the last two are variables until the end.
use stellar_mosaic.Prelude.{
  Bool, true, false, not, ◌&&◌, ◌||◌, Option, none, some, List, [], ◌∷◌, if◌then◌else◌, drop,
  Result, ok, ◌>>=◌, ◌>>◌, guard,
}
use stellar_mosaic.Prelude.Int.{ℤ, pos, eqb_ℤ, leb_ℤ, ltb_ℤ, ◌+ℤ◌}
use stellar_mosaic.Text.{Text, codes, text_eq}
use stellar_mosaic.ChainValue.{Native, at, string_of, is_truthy, join_texts}
use stellar_mosaic.ObjectStore.{get, put, delete}
use stellar_mosaic.BookIndex.{
  IndexedOrder, IndexedAsset, IndexedPair, BookMeta, Database, BookError, unsupported_schema,
  conflicting_bookinit, before_bookinit, conflicting_asset, conflicting_pair, sequence_gap,
  invalid_side, invalid_reason, unknown_order, book_schema_version, order_id_of, asset_id_of,
  pair_id_of, asset_kind_from_u32, book_key, order_key, numbered_key, hex, number, bigint, fields,
}

pub record PageState : Type 0 where
  pub stores : Database
  pub meta : BookMeta
  pub sequence : ℤ

abbrev pub Handler : Type 0
Handler = Native → PageState → Result BookError PageState

abbrev pub set_orders : List IndexedOrder → PageState → PageState
set_orders orders st = record st { stores = record st.stores { orders = orders } }

-- f.slice(1).map(hex)
unfoldable pub hex_all : List Native → Result BookError (List Text)
hex_all [] = ok []
hex_all (v ∷ vs) = do t ← hex v; ts ← hex_all vs; ok (t ∷ ts)

abbrev same_schema : ℤ → Option ℤ → Bool
same_schema schema none = false
same_schema schema (some s) = eqb_ℤ s schema

abbrev pub same_hashes : List Text → Option (List Text) → Bool
same_hashes hashes none = false
same_hashes hashes (some hs) = text_eq (join_texts hs) (join_texts hashes)

unfoldable pub book_init : Native → PageState → Result BookError PageState
book_init native st = do
  f ← fields native 5
  schema ← number (at f 0) "schema version"
  guard (eqb_ℤ schema book_schema_version) (unsupported_schema schema)
  hashes ← hex_all (drop 1 f)
  guard
      (not (
        st.meta.initialized
        && (not (same_schema schema st.meta.schema_version)
            || not (same_hashes hashes st.meta.vk_hashes))))
      conflicting_bookinit
  ok (record st {
    meta = record st.meta {
      initialized = true;
      schema_version = some schema;
      vk_hashes = some hashes;
    };
  })

abbrev pub same_token : Text → Option IndexedAsset → Bool
same_token token none = true
same_token token (some existing) = text_eq existing.token token

unfoldable pub asset_reg : Text → Native → PageState → Result BookError PageState
asset_reg scope native st = do
  guard st.meta.initialized (before_bookinit "assetreg")
  f ← fields native 3
  asset_id ← number (at f 0) "asset id"
  kind ← number (at f 2) "asset kind"
  guard
      (same_token (string_of (at f 1))
        (get asset_id_of (numbered_key scope asset_id) st.stores.assets))
      (conflicting_asset asset_id)
  ok (record st {
    stores = record st.stores {
      assets =
          put asset_id_of
            (record {
              id = numbered_key scope asset_id;
              scope = scope;
              asset_id = asset_id;
              token = string_of (at f 1);
              kind = asset_kind_from_u32 kind;
            })
            st.stores.assets;
    };
  })

abbrev pub same_pair : IndexedPair → Option IndexedPair → Bool
same_pair pair none = true
same_pair pair (some existing) =
    eqb_ℤ existing.base_asset pair.base_asset && eqb_ℤ existing.quote_asset pair.quote_asset

unfoldable pub pair_reg : Text → Native → PageState → Result BookError PageState
pair_reg scope native st = do
  guard st.meta.initialized (before_bookinit "pairreg")
  f ← fields native 3
  pair_id ← number (at f 0) "pair id"
  base ← number (at f 1) "base asset"
  quote ← number (at f 2) "quote asset"
  let pair : IndexedPair = record {
    id = numbered_key scope pair_id;
    scope = scope;
    pair_id = pair_id;
    base_asset = base;
    quote_asset = quote;
  }
  guard (same_pair pair (get pair_id_of pair.id st.stores.pairs)) (conflicting_pair pair_id)
  ok (record st { stores = record st.stores { pairs = put pair_id_of pair st.stores.pairs } })

abbrev pub is_side : ℤ → Bool
is_side side = eqb_ℤ side (pos 0) || eqb_ℤ side (pos 1)

-- The place of an order in the book it has, or the end of the book.
abbrev pub priority_of : ℤ → Option IndexedOrder → ℤ
priority_of next none = next
priority_of next (some existing) = existing.priority_sequence

-- The row of the order in the fields of an `ordupsert`.
unfoldable pub order_row :
    Text → (pair side : ℤ) → Text → ℤ → List Native → Result BookError IndexedOrder
order_row scope pair side order_id priority f = do
  amount_in ← bigint (at f 4) "amount_in"
  min_out ← bigint (at f 5) "min_out"
  remaining_in ← bigint (at f 6) "remaining_in"
  output_owner_tag ← hex (at f 7)
  cancel_owner_tag ← hex (at f 8)
  order_leaf ← hex (at f 9)
  expiry ← bigint (at f 10) "expiry"
  ok (record {
    id = order_key scope pair side order_id;
    scope = scope;
    book = book_key scope pair side;
    pair_id = pair;
    side = side;
    order_id = order_id;
    amount_in = amount_in;
    min_out = min_out;
    remaining_in = remaining_in;
    output_owner_tag = output_owner_tag;
    cancel_owner_tag = cancel_owner_tag;
    order_leaf = order_leaf;
    expiry = expiry;
    partial_allowed = is_truthy (at f 11);
    priority_sequence = priority;
  })

abbrev pub check_next : ℤ → PageState → Result BookError (Unit {0})
check_next next st =
    guard (eqb_ℤ next (st.sequence +ℤ pos 1)) (sequence_gap (st.sequence +ℤ pos 1) next)

-- The row of an order put with the next sequence.
unfoldable pub put_order :
    Text → ℤ → (pair side : ℤ) → Text → List Native → PageState → Result BookError PageState
put_order scope next pair side order_id f st = do
  let existing = get order_id_of (order_key scope pair side order_id) st.stores.orders
  order ← order_row scope pair side order_id (priority_of next existing) f
  ok (record (set_orders (put order_id_of order st.stores.orders) st) { sequence = next })

-- An `ordupsert` and an `ordremove` whose sequence is not behind the index.
unfoldable pub upsert_next : Text → ℤ → List Native → PageState → Result BookError PageState
upsert_next scope next f st = do
  check_next next st
  pair ← number (at f 1) "pair id"
  side ← number (at f 2) "side"
  guard (is_side side) (invalid_side side)
  order_id ← hex (at f 3)
  put_order scope next pair side order_id f st

abbrev pub is_present : Option IndexedOrder → Bool
is_present none = false
is_present (some o) = true

unfoldable pub drop_order :
    Text → ℤ → (pair side : ℤ) → Text → ℤ → PageState → Result BookError PageState
drop_order scope next pair side order_id reason st = do
  guard (not (ltb_ℤ reason (pos 0) || ltb_ℤ (pos 2) reason)) (invalid_reason reason)
  let id = order_key scope pair side order_id
  guard (is_present (get order_id_of id st.stores.orders)) (unknown_order order_id)
  ok (record (set_orders (delete order_id_of id st.stores.orders) st) { sequence = next })

unfoldable pub remove_next : Text → ℤ → List Native → PageState → Result BookError PageState
remove_next scope next f st = do
  check_next next st
  pair ← number (at f 1) "pair id"
  side ← number (at f 2) "side"
  guard (is_side side) (invalid_side side)
  order_id ← hex (at f 3)
  reason ← number (at f 4) "removal reason"
  drop_order scope next pair side order_id reason st

unfoldable pub order_upsert : Text → Native → PageState → Result BookError PageState
order_upsert scope native st = do
  guard st.meta.initialized (before_bookinit "ordupsert")
  f ← fields native 12
  next ← bigint (at f 0) "book sequence"
  if leb_ℤ next st.sequence then ok st else upsert_next scope next f st

unfoldable pub order_remove : Text → Native → PageState → Result BookError PageState
order_remove scope native st = do
  guard st.meta.initialized (before_bookinit "ordremove")
  f ← fields native 5
  next ← bigint (at f 0) "book sequence"
  if leb_ℤ next st.sequence then ok st else remove_next scope next f st

-- The handler of a topic; other topics have none.
unfoldable pub handler : Text → Text → Option Handler
handler scope name =
    if text_eq name (codes "bookinit")
    then some book_init
    else if text_eq name (codes "assetreg")
    then some (asset_reg scope)
    else if text_eq name (codes "pairreg")
    then some (pair_reg scope)
    else if text_eq name (codes "ordupsert")
    then some (order_upsert scope)
    else if text_eq name (codes "ordremove")
    then some (order_remove scope)
    else none
