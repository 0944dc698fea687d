-- ===== src/BookIndex/Live.antt =====
-- The index read from the contract's views instead of its events: `liveAsset`, `livePairCount`,
-- `liveBook`, `readBookSequence` and `syncTrustedBookIndex`. A view is a function from its name and
-- its arguments to the outcome of its simulation. Calls that the source makes at the same time are
-- made here in the order of their list, and of several errors the first one in it is thrown.
use stellar_mosaic.Prelude.{
  ℕ, suc, Bool, true, false, not, ◌||◌, Option, none, some, List, [], ◌∷◌, ◌++◌, String,
  if◌then◌else◌, map, Result, ok, throw, ◌>>=◌, ◌>>◌, guard, or_value, or_else,
}
use stellar_mosaic.Prelude.Int.{ℤ, pos}
use stellar_mosaic.Text.{Text, codes, text_eq, lower_case}
use stellar_mosaic.Amount.{to_string}
use stellar_mosaic.ChainValue.{
  Native, undefined, null_value, text_value, vector, natives, member_of, is_truthy,
}
use stellar_mosaic.ChainValue.Json.{has_part, json_text}
use stellar_mosaic.BookIndex.{
  AssetKind, stellar, dual, base_represented, IndexedOrder, IndexedAsset, IndexedPair, SyncError,
  book_error, invalid_asset_kind, integrity_error, unregistered_asset, kind_mismatch,
  token_mismatch, scope_of, book_key, order_key, numbered_key, number, bigint,
}
use stellar_mosaic.BookIndex.Snapshot.{BookIndexSnapshot, synced, is_nonempty}
use stellar_mosaic.BookIndex.Release.{Response, requested, checked, bytes_hex, record_of}

pub record DeskAsset : Type 0 where
  pub asset_id : ℤ
  pub kind : AssetKind
  pub token : Option Text

pub record DeskPair : Type 0 where
  pub pair_id : ℤ
  pub base_asset : ℤ
  pub quote_asset : ℤ

pub record Desk : Type 0 where
  pub contract_id : Text
  pub assets : List DeskAsset
  pub pairs : List DeskPair

abbrev pub View : Type 0
View = String → List ℤ → Response Native

abbrev kind_in : Text → Result SyncError AssetKind
kind_in text =
    if has_part (codes "BaseRepresented") text
    then ok base_represented
    else if has_part (codes "Dual") text
    then ok dual
    else if has_part (codes "Stellar") text
    then ok stellar
    else throw (book_error invalid_asset_kind)

-- A value without a JSON text ends in a TypeError, which has the same effect as the error here.
abbrev kind_in_json : Option Text → Result SyncError AssetKind
kind_in_json none = throw (book_error invalid_asset_kind)
kind_in_json (some text) = kind_in text

unfoldable pub kind_from_native : Native → Result SyncError AssetKind
kind_from_native (text_value text) = kind_in text
kind_from_native v = kind_in_json (json_text v)

abbrev pub same_kind : AssetKind → AssetKind → Bool
same_kind stellar stellar = true
same_kind dual dual = true
same_kind base_represented base_represented = true
same_kind _ _ = false

abbrev pub is_base : AssetKind → Bool
is_base base_represented = true
is_base _ = false

abbrev text_of : Native → Option Text
text_of (text_value t) = some t
text_of _ = none

-- An address is compared in lower case, and an empty one is null.
unfoldable pub normalize_address : Option Text → Option Text
normalize_address none = none
normalize_address (some []) = none
normalize_address (some (c ∷ s)) = some (lower_case (c ∷ s))

abbrev pub same_address : Option Text → Option Text → Bool
same_address none none = true
same_address (some s) (some t) = text_eq s t
same_address _ _ = false

abbrev is_missing : Native → Bool
is_missing undefined = true
is_missing null_value = true
is_missing _ = false

-- A registered asset of the desk, checked against the contract's answer.
unfoldable pub live_asset : View → Text → DeskAsset → Result SyncError IndexedAsset
live_asset view scope asset = do
  answer ← requested (view "asset" (asset.asset_id ∷ []))
  guard (not (is_missing answer)) (integrity_error (unregistered_asset asset.asset_id))
  ms ← record_of answer (codes "asset " ++ to_string asset.asset_id)
  kind ← kind_from_native (member_of (codes "kind") ms)
  guard (same_kind kind asset.kind) (integrity_error (kind_mismatch asset.asset_id))
  let native_token = text_of (member_of (codes "token") ms)
  let token =
      if is_base kind
      then or_value asset.token []
      else or_value (or_else native_token asset.token) []
  guard
      (is_base kind
        || not (is_nonempty native_token)
        || same_address (normalize_address native_token) (normalize_address asset.token))
      (integrity_error (token_mismatch asset.asset_id))
  ok (record {
    id = numbered_key scope asset.asset_id;
    scope = scope;
    asset_id = asset.asset_id;
    token = token;
    kind = kind;
  })

unfoldable pub live_assets : View → Text → List DeskAsset → Result SyncError (List IndexedAsset)
live_assets view scope [] = ok []
live_assets view scope (asset ∷ assets) = do
  row ← live_asset view scope asset
  rows ← live_assets view scope assets
  ok (row ∷ rows)

unfoldable pub live_pair_count : View → Result SyncError ℤ
live_pair_count view = do
  answer ← requested (view "pair_count" [])
  checked (number answer "pair count")

unfoldable pub read_book_sequence : View → Result SyncError ℤ
read_book_sequence view = do
  answer ← requested (view "book_sequence" [])
  checked (bigint answer "book_sequence")

-- One entry of a book; its place is its priority.
unfoldable pub live_order : Text → ℤ → ℤ → ℕ → Native → Result SyncError IndexedOrder
live_order scope pair_id side index entry = do
  ms ← record_of entry (codes "book entry")
  order_id ← bytes_hex (member_of (codes "order_id") ms)
  amount_in ← checked (bigint (member_of (codes "amount_in") ms) "amount_in")
  min_out ← checked (bigint (member_of (codes "min_out") ms) "min_out")
  remaining_in ← checked (bigint (member_of (codes "remaining_in") ms) "remaining_in")
  output_owner_tag ← bytes_hex (member_of (codes "output_owner_tag") ms)
  cancel_owner_tag ← bytes_hex (member_of (codes "cancel_owner_tag") ms)
  order_leaf ← bytes_hex (member_of (codes "order_leaf") ms)
  expiry ← checked (bigint (member_of (codes "expiry") ms) "expiry")
  ok (record {
    id = order_key scope pair_id side order_id;
    scope = scope;
    book = book_key scope pair_id side;
    pair_id = pair_id;
    side = side;
    order_id = order_id;
    amount_in = amount_in;
    min_out = min_out;
    remaining_in = remaining_in;
    output_owner_tag = output_owner_tag;
    cancel_owner_tag = cancel_owner_tag;
    order_leaf = order_leaf;
    expiry = expiry;
    partial_allowed = is_truthy (member_of (codes "partial_allowed") ms);
    priority_sequence = pos (suc index);
  })

unfoldable pub live_orders : Text → ℤ → ℤ → ℕ → List Native → Result SyncError (List IndexedOrder)
live_orders scope pair_id side index [] = ok []
live_orders scope pair_id side index (entry ∷ entries) = do
  o ← live_order scope pair_id side index entry
  os ← live_orders scope pair_id side (suc index) entries
  ok (o ∷ os)

abbrev entries_of : Native → List Native
entries_of (vector vs) = natives vs
entries_of _ = []

unfoldable pub live_book : View → Text → ℤ → ℤ → Result SyncError (List IndexedOrder)
live_book view scope pair_id side = do
  answer ← requested (view "book" (pair_id ∷ side ∷ []))
  live_orders scope pair_id side 0 (entries_of answer)

unfoldable pub live_books : View → Text → List IndexedPair → Result SyncError (List IndexedOrder)
live_books view scope [] = ok []
live_books view scope (pair ∷ pairs) = do
  offers ← live_book view scope pair.pair_id (pos 0)
  bids ← live_book view scope pair.pair_id (pos 1)
  rest ← live_books view scope pairs
  ok (offers ++ (bids ++ rest))

abbrev pub pair_row : Text → DeskPair → IndexedPair
pair_row scope pair = record {
  id = numbered_key scope pair.pair_id;
  scope = scope;
  pair_id = pair.pair_id;
  base_asset = pair.base_asset;
  quote_asset = pair.quote_asset;
}

abbrev pub asset_row : Text → DeskAsset → IndexedAsset
asset_row scope asset = record {
  id = numbered_key scope asset.asset_id;
  scope = scope;
  asset_id = asset.asset_id;
  token = or_value asset.token [];
  kind = asset.kind;
}

-- The trusted mode keeps no index: it shows the contract's book as it is.
unfoldable pub sync_trusted_book_index :
    View → (network_passphrase : Text) → Desk → Result SyncError BookIndexSnapshot
sync_trusted_book_index view network_passphrase desk = do
  let scope = scope_of (codes "trusted") network_passphrase desk.contract_id
  orders ← live_books view scope (map (pair_row scope) desk.pairs)
  ok (record {
    status = synced;
    error = none;
    last_ledger = 0;
    last_sequence = pos 0;
    target_sequence = pos 0;
    orders = orders;
    assets = map (asset_row scope) desk.assets;
    pairs = map (pair_row scope) desk.pairs;
  })
