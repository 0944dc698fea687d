-- ===== src/Activity.antt =====
-- packages/sdk/src/activity.ts and the event log of packages/sdk/src/memoryStore.ts: the wallet's
-- activity history, whose metadata is stripped of secrets. An empty text is what `if (text)` takes
-- for absent; the clock and the generator of ids are arguments.
pub mod Sanitizing
pub mod Log
mod Tests
use stellar_mosaic.Prelude.{
  ℕ, suc, ◌+◌, Bool, true, false, not, ◌&&◌, ◌||◌, Option, none, some, List, [], ◌∷◌, ◌++◌, ltb,
  leb, ◌==◌, if◌then◌else◌, take, or_else,
}
use stellar_mosaic.Prelude.Int.{ℤ, pos}
use stellar_mosaic.Prelude.Sorting.{sort_by}
use stellar_mosaic.Text.{Text, codes, text_eq, lower_case}
use stellar_mosaic.Amount.{to_string}

-- A value of a metadata record; a number stands for every `number`.
mutual
  pub data Value : Type 0 where
    nothing absent : Value
    boolean : Bool → Value
    number : ℤ → Value
    bigint : ℤ → Value
    text : Text → Value
    bytes : (byte_length : ℕ) → Value
    error : (name message : Text) → Value
    array : Values → Value
    object : Fields → Value

  pub data Values : Type 0 where
    no_values : Values
    item : Value → Values → Values

  pub data Fields : Type 0 where
    no_fields : Fields
    field : (key : Text) → Value → Fields → Fields

-- BLOCKED_METADATA_KEYS
abbrev pub blocked_metadata_keys : List Text
blocked_metadata_keys =
    codes "sk"
    ∷ codes "rho"
    ∷ codes "proof"
    ∷ codes "proof_b64"
    ∷ codes "proofb64"
    ∷ codes "witness"
    ∷ codes "private"
    ∷ codes "privatekey"
    ∷ codes "private_key"
    ∷ codes "secret"
    ∷ codes "secretkey"
    ∷ codes "secret_key"
    ∷ codes "signedxdr"
    ∷ codes "signed_xdr"
    ∷ codes "xdr"
    ∷ codes "tx_xdr"
    ∷ codes "ciphertext"
    ∷ codes "ciphertext_b64"
    ∷ codes "nonce"
    ∷ codes "nonce_b64"
    ∷ []

unfoldable pub has_text : List Text → Text → Bool
has_text [] key = false
has_text (t ∷ ts) key = text_eq t key || has_text ts key

unfoldable pub is_blocked : Text → Bool
unfolding has_text
is_blocked key = has_text blocked_metadata_keys (lower_case key)

-- The loop over the entries of an object drops those with a blocked key.
unfoldable mutual
  pub sanitize_value : Value → Value
  sanitize_value (bigint n) = text (to_string n)
  sanitize_value (bytes n) = object (
      field (codes "type") (text (codes "bytes"))
        (field (codes "length") (number (pos n)) no_fields))
  sanitize_value (error name message) =
      object (field (codes "name") (text name) (field (codes "message") (text message) no_fields))
  sanitize_value (array vs) = array (sanitize_values vs)
  sanitize_value (object fs) = object (sanitize_fields fs)
  sanitize_value nothing = nothing
  sanitize_value absent = absent
  sanitize_value (boolean b) = boolean b
  sanitize_value (number n) = number n
  sanitize_value (text t) = text t

  pub sanitize_values : Values → Values
  sanitize_values no_values = no_values
  sanitize_values (item v vs) = item (sanitize_value v) (sanitize_values vs)

  pub sanitize_fields : Fields → Fields
  sanitize_fields no_fields = no_fields
  sanitize_fields (field key v fs) =
      let rest = sanitize_fields fs in
      let kept = field key (sanitize_value v) rest in if is_blocked key then rest else kept

pub data ActivityEventKind : Type 0 where
  user_action transaction backend_operation contract_event fill note_indexed error_event :
      ActivityEventKind

-- `id` and `created_at` are filled in and the metadata are clean once an event is stored.
pub record ActivityEvent : Type 0 where
  pub cursor : Option ℕ
  pub id : Option Text
  pub idempotency_key : Option Text
  pub kind : ActivityEventKind
  pub status : Option Text
  pub message : Option Text
  pub wallet_address : Option Text
  pub network : Option Text
  pub desk_id : Option Text
  pub operation_id : Option Text
  pub action : Option Text
  pub contract_id : Option Text
  pub method : Option Text
  pub tx_hash : Option Text
  pub note_id : Option Text
  pub owner_tag : Option Text
  pub created_at : Option ℕ
  pub metadata : Option Fields

pub record ActivityQuery : Type 0 where
  pub kinds : Option (List ActivityEventKind)
  pub wallet_address : Option Text
  pub desk_id : Option Text
  pub operation_id : Option Text
  pub tx_hash : Option Text
  pub note_id : Option Text
  pub from : Option ℕ
  pub to : Option ℕ
  pub limit : Option ℕ

abbrev pub get_or_zero : Option ℕ → ℕ
get_or_zero none = 0
get_or_zero (some n) = n

unfoldable pub sanitize_activity_metadata : Option Fields → Option Fields
sanitize_activity_metadata none = none
sanitize_activity_metadata (some fs) = some (sanitize_fields fs)

unfoldable pub normalize_activity_event :
    (event_id : Text) (now : ℕ) → ActivityEvent → ActivityEvent
normalize_activity_event event_id now e = record e {
  id = or_else e.id (or_else e.idempotency_key (some event_id));
  created_at = or_else e.created_at (some now);
  metadata = sanitize_activity_metadata e.metadata;
}

kind_number : ActivityEventKind → ℕ
kind_number user_action = 0
kind_number transaction = 1
kind_number backend_operation = 2
kind_number contract_event = 3
kind_number fill = 4
kind_number note_indexed = 5
kind_number error_event = 6

unfoldable pub includes : List ActivityEventKind → ActivityEventKind → Bool
unfolding kind_number
includes [] k = false
includes (k' ∷ ks) k = kind_number k' == kind_number k || includes ks k

abbrev kind_matches : Option (List ActivityEventKind) → ActivityEventKind → Bool
kind_matches none k = true
kind_matches (some ks) k = includes ks k

-- `!query.f || event.f === query.f`
abbrev text_matches : Option Text → Option Text → Bool
text_matches (some (c ∷ wanted)) (some found) = text_eq found (c ∷ wanted)
text_matches (some (c ∷ wanted)) none = false
text_matches _ _ = true

abbrev not_before : Option ℕ → ℕ → Bool
not_before none t = true
not_before (some from) t = leb from t

abbrev not_after : Option ℕ → ℕ → Bool
not_after none t = true
not_after (some to) t = leb t to

unfoldable pub matches_activity_query : ActivityEvent → ActivityQuery → Bool
matches_activity_query e q =
    kind_matches q.kinds e.kind
    && text_matches q.wallet_address e.wallet_address
    && text_matches q.desk_id e.desk_id
    && text_matches q.operation_id e.operation_id
    && text_matches q.tx_hash e.tx_hash
    && text_matches q.note_id e.note_id
    && not_before q.from (get_or_zero e.created_at)
    && not_after q.to (get_or_zero e.created_at)

unfoldable pub is_activity_time_cursor : ℕ → Bool
is_activity_time_cursor value = leb 1000000000000 value

-- The event log of `MemoryStore`.
pub record EventLog : Type 0 where
  pub events : List ActivityEvent
  pub next_cursor : ℕ

abbrev key_matches : Text → Option Text → Bool
key_matches key none = false
key_matches key (some k) = text_eq k key

unfoldable pub find_key : Text → List ActivityEvent → Option ActivityEvent
find_key key [] = none
find_key key (e ∷ es) =
    let rest = find_key key es in if key_matches key e.idempotency_key then some e else rest

-- The recorded event that stands for a key; an absent or empty key finds none.
unfoldable pub existing : Option Text → List ActivityEvent → Option ActivityEvent
existing none es = none
existing (some []) es = none
existing (some (c ∷ key)) es = find_key (c ∷ key) es

-- An event that was found is returned; otherwise the normalized event is appended.
unfoldable pub found_or_appended :
    (event_id : Text) (now : ℕ)
    → ActivityEvent
    → EventLog
    → Option ActivityEvent
    → EventLog × ActivityEvent
found_or_appended event_id now e log (some found) = (log, found)
found_or_appended event_id now e log none =
    let stored =
      normalize_activity_event event_id now (record e { cursor = some log.next_cursor }) in
    (record { events = log.events ++ stored ∷ []; next_cursor = suc log.next_cursor }, stored)

unfoldable pub record_event :
    (event_id : Text) (now : ℕ) → ActivityEvent → EventLog → EventLog × ActivityEvent
unfolding found_or_appended
record_event event_id now e log =
    found_or_appended event_id now e log (existing e.idempotency_key log.events)

unfoldable pub filter_events : (ActivityEvent → Bool) → List ActivityEvent → List ActivityEvent
filter_events keep [] = []
filter_events keep (e ∷ es) = let rest = filter_events keep es in if keep e then e ∷ rest else rest

abbrev pub cursor_of : ActivityEvent → ℕ
cursor_of e = get_or_zero e.cursor

abbrev pub has_larger_cursor : ActivityEvent → ActivityEvent → Bool
has_larger_cursor a b = ltb (cursor_of b) (cursor_of a)

abbrev pub limited : Option ℕ → List ActivityEvent → List ActivityEvent
limited none es = es
limited (some n) es = take n es

unfoldable pub list_events : ActivityQuery → EventLog → List ActivityEvent
list_events q log =
    limited q.limit
      (sort_by has_larger_cursor (filter_events (λ e. matches_activity_query e q) log.events))

abbrev pub is_since : ℕ → ActivityEvent → Bool
is_since from e =
    if is_activity_time_cursor from
    then ltb from (get_or_zero e.created_at)
    else ltb from (cursor_of e)

unfoldable pub events_since : ℕ → ActivityQuery → EventLog → List ActivityEvent
events_since from q log = filter_events (is_since from) (list_events q log)
