-- ===== src/BookIndex.antt =====
-- frontend/src/bookIndexer.ts: the index of a desk's order book that the browser keeps in
-- IndexedDB and brings forward by pages of contract events. Here are its rows, its keys and the
-- checks on decoded values; a `bigint` that is kept as its decimal text is the integer itself.
pub mod Handlers
pub mod Reduce
pub mod Dispatch
pub mod Marks
pub mod Reached
pub mod Replay
pub mod Book
pub mod Changing
pub mod Refinement
pub mod Invariant
pub mod Ordering
pub mod Snapshot
pub mod Release
pub mod Live
pub mod Messages
pub mod Sync
pub mod Reporting
pub mod Synced
pub mod Clearing
pub mod Returning
pub mod Fatal
mod Tests
use stellar_mosaic.Prelude.{
  ℕ, zero, suc, Bool, true, false, not, Option, none, some, List, [], ◌∷◌, ◌++◌, String, str_eq,
  ◌==◌, if◌then◌else◌, length, Result, ok, throw, ◌>>=◌, or_value,
}
use stellar_mosaic.Prelude.Int.{ℤ, pos, eqb_ℤ}
use stellar_mosaic.Text.{Text, codes, lower_case}
use stellar_mosaic.Amount.{to_string}
use stellar_mosaic.ChainValue.{
  Native, number_value, bigint_value, text_value, bytes_value, vector, natives, is_safe_integer,
  hex_text,
}
use stellar_mosaic.ObjectStore.{get}

-- BOOK_SCHEMA_VERSION
abbrev pub book_schema_version : ℤ
book_schema_version = pos 1

pub data AssetKind : Type 0 where
  stellar dual base_represented : AssetKind

pub record IndexedOrder : Type 0 where
  pub id : Text
  pub scope : Text
  pub book : Text
  pub pair_id : ℤ
  pub side : ℤ
  pub order_id : Text
  pub amount_in : ℤ
  pub min_out : ℤ
  pub remaining_in : ℤ
  pub output_owner_tag : Text
  pub cancel_owner_tag : Text
  pub order_leaf : Text
  pub expiry : ℤ
  pub partial_allowed : Bool
  pub priority_sequence : ℤ

pub record IndexedAsset : Type 0 where
  pub id : Text
  pub scope : Text
  pub asset_id : ℤ
  pub token : Text
  pub kind : AssetKind

pub record IndexedPair : Type 0 where
  pub id : Text
  pub scope : Text
  pub pair_id : ℤ
  pub base_asset : ℤ
  pub quote_asset : ℤ

pub record BookMeta : Type 0 where
  pub scope : Text
  pub initialized : Bool
  pub schema_version : Option ℤ
  pub cursor : Option Text
  pub last_sequence : ℤ
  pub latest_ledger : ℕ
  pub target_sequence : ℤ
  pub fatal_error : Option Text
  pub vk_hashes : Option (List Text)
  pub release_verified : Option Bool

pub record ProcessedEvent : Type 0 where
  pub id : Text
  pub scope : Text

-- The object stores, each by the key path of its rows.
pub record Database : Type 0 where
  pub meta : List BookMeta
  pub orders : List IndexedOrder
  pub assets : List IndexedAsset
  pub pairs : List IndexedPair
  pub processed : List ProcessedEvent

abbrev pub meta_key : BookMeta → Text
meta_key m = m.scope

abbrev pub order_id_of : IndexedOrder → Text
order_id_of o = o.id

abbrev pub asset_id_of : IndexedAsset → Text
asset_id_of a = a.id

abbrev pub pair_id_of : IndexedPair → Text
pair_id_of p = p.id

abbrev pub processed_id_of : ProcessedEvent → Text
processed_id_of p = p.id

-- A contract event of the RPC server, with its topics and its value decoded.
pub record BookEvent : Type 0 where
  pub id : Text
  pub topic : List Native
  pub value : Native

-- The errors of decoded values, by their messages.
pub data BookError : Type 0 where
  expected_bytes expected_view_bytes : BookError
  invalid : (label : Text) → BookError
  field_count : (count : Option ℕ) (expected : ℕ) → BookError
  unexpected_topic_count non_symbol_topic : (event_id : Text) → BookError
  unsupported_schema : ℤ → BookError
  conflicting_bookinit : BookError
  before_bookinit : (topic : String) → BookError
  conflicting_asset conflicting_pair : ℤ → BookError
  sequence_gap : (expected found : ℤ) → BookError
  invalid_side invalid_reason : ℤ → BookError
  unknown_order : (order_id : Text) → BookError
  invalid_asset_kind : BookError

-- What a BookIntegrityError is about.
pub data IntegrityFault : Type 0 where
  schema_mismatch vk_mismatch missing_instance not_wasm wasm_mismatch : IntegrityFault
  pair_count_mismatch : IntegrityFault
  unregistered_asset kind_mismatch token_mismatch : (asset_id : ℤ) → IntegrityFault

-- The errors of a synchronisation: of a decoded value, of the contract against the release or the
-- desk, and of a request, which has a message of its own.
pub data SyncError : Type 0 where
  book_error : BookError → SyncError
  integrity_error : IntegrityFault → SyncError
  request_failed : (message : Text) → SyncError

abbrev pub asset_kind_from_u32 : ℤ → AssetKind
asset_kind_from_u32 n =
    if eqb_ℤ n (pos 2) then base_represented else if eqb_ℤ n (pos 1) then dual else stellar

-- Keys are parts joined by the character 0; the mode is `trusted` or `trustless`.
abbrev pub scope_of : (mode network_passphrase contract_id : Text) → Text
scope_of mode network_passphrase contract_id = mode ++ 0 ∷ network_passphrase ++ 0 ∷ contract_id

abbrev pub book_key : Text → (pair side : ℤ) → Text
book_key scope pair side = scope ++ 0 ∷ to_string pair ++ 0 ∷ to_string side

abbrev pub order_key : Text → (pair side : ℤ) → Text → Text
order_key scope pair side order_id = book_key scope pair side ++ 0 ∷ order_id

-- `${scope}\u0000${n}`, the key of an asset or a pair, and `${scope}\u0000${event.id}`
abbrev pub numbered_key : Text → ℤ → Text
numbered_key scope n = scope ++ 0 ∷ to_string n

abbrev pub processed_key : Text → BookEvent → Text
processed_key scope event = scope ++ 0 ∷ event.id

unfoldable pub hex : Native → Result BookError Text
hex (bytes_value bytes) = ok (hex_text bytes)
hex _ = throw expected_bytes

abbrev pub safe_number : ℤ → String → Result BookError ℤ
safe_number n label = if is_safe_integer n then ok n else throw (invalid (codes label))

unfoldable pub number : Native → String → Result BookError ℤ
number (bigint_value n) label = safe_number n label
number (number_value n) label = safe_number n label
number _ label = throw (invalid (codes label))

unfoldable pub bigint : Native → String → Result BookError ℤ
bigint (bigint_value n) label = ok n
bigint _ label = throw (invalid (codes label))

abbrev pub checked_count : List Native → ℕ → Result BookError (List Native)
checked_count vs expected =
    if length vs == expected then ok vs else throw (field_count (some (length vs)) expected)

unfoldable pub fields : Native → ℕ → Result BookError (List Native)
fields (vector vs) expected = checked_count (natives vs) expected
fields _ expected = throw (field_count none expected)

abbrev symbol_text : Text → Native → Result BookError Text
symbol_text event_id (text_value s) = ok s
symbol_text event_id _ = throw (non_symbol_topic event_id)

abbrev single : Text → List Native → Result BookError Text
single event_id (v ∷ []) = symbol_text event_id v
single event_id _ = throw (unexpected_topic_count event_id)

unfoldable pub topic : BookEvent → Result BookError Text
topic event = single event.id event.topic

abbrev pub initial_meta : Text → BookMeta
initial_meta scope = record {
  scope = scope;
  initialized = false;
  schema_version = none;
  cursor = none;
  last_sequence = pos 0;
  latest_ledger = 0;
  target_sequence = pos 0;
  fatal_error = none;
  vk_hashes = none;
  release_verified = none;
}

-- `(await db.get('meta', scope)) ?? initialMeta(scope)`
abbrev pub meta_of : Text → List BookMeta → BookMeta
meta_of scope metas = or_value (get meta_key scope metas) (initial_meta scope)
