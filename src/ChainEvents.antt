-- ===== src/ChainEvents.antt =====
-- packages/sdk/src/chainEvents.ts: the reader of a desk's note events. Here are the events of the
-- RPC server and their parsing. Topics and values are decoded; what does not decode is not modelled.
pub mod Reader
pub mod Source
pub mod Appending
pub mod Paging
pub mod Reading
pub mod Recovering
mod Tests
use stellar_mosaic.Prelude.{
  ℕ, Bool, true, false, not, ◌&&◌, ◌||◌, Option, none, some, List, [], ◌∷◌, ◌++◌, String, ◌==◌, map,
  if◌then◌else◌, length, Result, ok, throw, ◌>>=◌, or_value, or_else,
}
use stellar_mosaic.Prelude.Int.{ℤ, pos}
use stellar_mosaic.Text.{Text, codes, text_eq, big_int}
use stellar_mosaic.Amount.{to_string}
use stellar_mosaic.ChainValue.{
  Native, undefined, null_value, number_value, bigint_value, text_value, bytes_value, vector,
  natives, at, is_safe_integer, hex_text,
}

-- A ledger as a number, or as a text in older responses.
pub data LedgerValue : Type 0 where
  ledger_number : ℤ → LedgerValue
  ledger_text : Text → LedgerValue

pub record ChainEvent : Type 0 where
  pub id : Option Text
  pub ledger : Option LedgerValue
  pub camel_tx_hash : Option Text
  pub snake_tx_hash : Option Text
  pub topic : List Native
  pub value : Native

-- The errors by their messages; a rejected call of the server has a message of its own.
pub data ChainError : Type 0 where
  expected_bytes invalid_u32 invalid_i128 missing_topic type_error : ChainError
  needs_start_ledger : ChainError
  server_failed : (message : Text) → ChainError
  unavailable : (message : Text) → ChainError
  cached_fatal : (message : Text) → ChainError

-- The note events as they are parsed, with integers for the numbers.
pub data ParsedEvent : Type 0 where
  parsed_shielded parsed_noteins : (asset : ℤ) (amount owner_tag : Text) → ParsedEvent
  parsed_settled :
      (a_asset_out : ℤ) (b_amount_in a_output_owner_tag : Text) (b_asset_out : ℤ)
      (a_amount_in b_output_owner_tag : Text)
      → ParsedEvent

pub record ParsedFill : Type 0 where
  pub id : Text
  pub ledger : ℤ
  pub tx_hash : Text
  pub asset_in : ℤ
  pub amount_in : Text
  pub asset_out : ℤ
  pub amount_out : Text
  pub owner_tag : Text

unfoldable pub hex : Native → Result ChainError Text
hex (bytes_value bytes) = ok (hex_text bytes)
hex _ = throw expected_bytes

abbrev pub safe_u32 : ℤ → Result ChainError ℤ
safe_u32 n = if is_safe_integer n then ok n else throw invalid_u32

unfoldable pub num : Native → Result ChainError ℤ
num (bigint_value n) = safe_u32 n
num (number_value n) = safe_u32 n
num _ = throw invalid_u32

unfoldable pub amt : Native → Result ChainError Text
amt (bigint_value n) = ok (to_string n)
amt _ = throw invalid_i128

abbrev ledger_string : LedgerValue → Text
ledger_string (ledger_number n) = to_string n
ledger_string (ledger_text s) = s

-- `raw.id ?? `${raw.ledger ?? 0}:${raw.txHash ?? ""}``
unfoldable pub event_id : ChainEvent → Text
event_id e = or_value e.id (
    ledger_string (or_value e.ledger (ledger_number (pos 0)))
    ++ (b':' ∷ or_value e.camel_tx_hash []))

abbrev zero_if_none : Option ℤ → ℤ
zero_if_none none = pos 0
zero_if_none (some n) = n

-- `Number(text)` is taken on the texts of integers; others count as 0, as NaN does.
abbrev ledger_of : Option LedgerValue → ℤ
ledger_of none = pos 0
ledger_of (some (ledger_number n)) = n
ledger_of (some (ledger_text s)) = zero_if_none (big_int s)

unfoldable pub event_ledger : ChainEvent → ℤ
event_ledger e = ledger_of e.ledger

unfoldable pub event_tx_hash : ChainEvent → Text
event_tx_hash e = or_value (or_else e.camel_tx_hash e.snake_tx_hash) []

abbrev first_topic : List Native → Result ChainError Native
first_topic [] = throw missing_topic
first_topic (v ∷ vs) = ok v

abbrev is_topic : String → Native → Bool
is_topic name (text_value s) = text_eq s (codes name)
is_topic name _ = false

abbrev text_or_empty : Native → Text
text_or_empty (text_value s) = s
text_or_empty _ = []

-- The topic for the activity history; an event without one has the empty topic.
abbrev topic_text : Result ChainError Native → Text
topic_text (throw e) = []
topic_text (ok v) = text_or_empty v

unfoldable pub event_topic : ChainEvent → Text
event_topic e = topic_text (first_topic e.topic)

abbrev byte_values : List ℕ → List Native
byte_values [] = []
byte_values (b ∷ bs) = number_value (pos b) ∷ byte_values bs

-- The value as a list of fields, which are undefined where it has none.
abbrev field_values : Native → Result ChainError (List Native)
field_values undefined = throw type_error
field_values null_value = throw type_error
field_values (vector vs) = ok (natives vs)
field_values (bytes_value bs) = ok (byte_values bs)
field_values _ = ok []

abbrev asset_note : Bool → ℤ → Text → Text → ParsedEvent
asset_note true asset amount tag = parsed_shielded asset amount tag
asset_note false asset amount tag = parsed_noteins asset amount tag

unfoldable pub parse_asset_note : Bool → Native → Result ChainError (Option ParsedEvent)
parse_asset_note shielded value = do
  f ← field_values value
  asset ← num (at f 0)
  amount ← amt (at f 1)
  tag ← hex (at f 2)
  ok (some (asset_note shielded asset amount tag))

unfoldable pub parse_settled : Native → Result ChainError (Option ParsedEvent)
parse_settled value = do
  f ← field_values value
  a_asset_out ← num (at f 0)
  b_amount_in ← amt (at f 1)
  a_tag ← hex (at f 2)
  b_asset_out ← num (at f 3)
  a_amount_in ← amt (at f 4)
  b_tag ← hex (at f 5)
  ok (some (parsed_settled a_asset_out b_amount_in a_tag b_asset_out a_amount_in b_tag))

abbrev tree_event_of : ChainEvent → Native → Result ChainError (Option ParsedEvent)
tree_event_of e topic =
    if is_topic "shielded" topic
    then parse_asset_note true e.value
    else if is_topic "noteins" topic
    then parse_asset_note false e.value
    else if is_topic "settled" topic
    then parse_settled e.value
    else ok none

unfoldable pub parse_tree_event : ChainEvent → Result ChainError (Option ParsedEvent)
parse_tree_event e = do topic ← first_topic e.topic; tree_event_of e topic

unfoldable pub parse_filled : ChainEvent → Result ChainError (Option ParsedFill)
parse_filled e = do
  f ← field_values e.value
  asset_in ← num (at f 0)
  amount_in ← amt (at f 1)
  asset_out ← num (at f 2)
  amount_out ← amt (at f 3)
  tag ← hex (at f 4)
  ok (
      some (record {
        id = event_id e;
        ledger = event_ledger e;
        tx_hash = event_tx_hash e;
        asset_in = asset_in;
        amount_in = amount_in;
        asset_out = asset_out;
        amount_out = amount_out;
        owner_tag = tag;
      }))

unfoldable pub parse_fill_event : ChainEvent → Result ChainError (Option ParsedFill)
parse_fill_event e = do
  topic ← first_topic e.topic
  if is_topic "filled" topic then parse_filled e else ok none
