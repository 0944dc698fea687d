-- ===== src/ChainEvents/Source.antt =====
-- `ChainEventSource.events`, `fills` and `snapshot`: the reading of new events with the recovery from
-- an error about the range of ledgers, and the fatal marker in the cache.
use stellar_mosaic.Prelude.{
  ℕ, Bool, true, false, not, ◌&&◌, ◌||◌, Option, none, some, List, [], ◌∷◌, ◌++◌, ltb,
  if◌then◌else◌, Result, ok, throw, or_value, or_else,
}
use stellar_mosaic.Text.{Text, codes}
use stellar_mosaic.LedgerRange.{LedgerRange, parse_ledger_range}
use stellar_mosaic.Activity.{EventLog}
use stellar_mosaic.ChainEvents.{
  ChainError, expected_bytes, invalid_u32, invalid_i128, missing_topic, type_error,
  needs_start_ledger, server_failed, unavailable, cached_fatal, ParsedEvent, ParsedFill,
}
use stellar_mosaic.ChainEvents.Reader.{
  ContractState, CacheSnapshot, Reader, Setup, Done, done_then, persist, has_cursor, is_filled,
  set_state, fetch_pages,
}

-- The source between two calls: it has no state until the first of them has loaded one.
pub record Source : Type 0 where
  pub state : Option ContractState
  pub cache : Option CacheSnapshot
  pub log : EventLog

-- `recovery.validateReplay`, if there is one; it rejects with a message.
abbrev pub Validator : Type 0
Validator = Option (List ParsedEvent → Result Text (Unit {0}))

-- The messages of a TypeError are the platform's, and hold no range of ledgers.
unfoldable pub chain_message : ChainError → Text
chain_message expected_bytes = codes "expected bytes (BytesN<32>) in note-tree event"
chain_message invalid_u32 = codes "invalid u32 in note-tree event"
chain_message invalid_i128 = codes "invalid i128 in note-tree event"
chain_message missing_topic = []
chain_message type_error = []
chain_message needs_start_ledger =
    codes "ChainEventSource needs a startLedger for the first read of a contract"
chain_message (server_failed message) = message
chain_message (unavailable message) = message
chain_message (cached_fatal message) = message

abbrev pub empty_state : ContractState
empty_state = record { cursor = none; acc = []; fills = []; latest_ledger = none; seen = [] }

abbrev pub cached_state : CacheSnapshot → ContractState
cached_state c = record {
  cursor = c.cursor;
  acc = c.tree_events;
  fills = c.fills;
  latest_ledger = c.latest_ledger;
  seen = [];
}

abbrev reader_of : Source → ContractState → Reader
reader_of s st = record { st = st; cache = s.cache; log = s.log }

-- An empty message counts as none.
abbrev from_cache : Source → Option CacheSnapshot → Result ChainError Reader
from_cache s none = ok (reader_of s empty_state)
from_cache s (some c) =
    if has_cursor c.fatal_error
    then throw (cached_fatal (or_value c.fatal_error []))
    else ok (reader_of s (cached_state c))

abbrev loaded : Setup → Source → Option ContractState → Result ChainError Reader
loaded setup s (some st) = ok (reader_of s st)
loaded setup s none = from_cache s (if setup.has_cache then s.cache else none)

unfoldable pub load_state : Setup → Source → Result ChainError Reader
load_state setup s = loaded setup s s.state

abbrev pub unavailable_history : Text
unavailable_history =
    codes
      "trustless note history unavailable: RPC no longer retains the desk's full note-event history"

abbrev pub because : Text → Text
because reason = unavailable_history ++ (codes "; " ++ reason)

-- The marker is kept in the cache, and thrown.
abbrev pub fatal_done : Setup → Text → Reader → Done
fatal_done setup message r = (persist setup (some message) r, throw (unavailable message))

abbrev pub validated : Setup → Reader → Result Text (Unit {0}) → Done
validated setup r (ok u) = (r, ok tt)
validated setup r (throw message) = fatal_done setup (because message) r

unfoldable pub validate_or_fatal :
    Setup → (List ParsedEvent → Result Text (Unit {0})) → Reader → Done
validate_or_fatal setup validate r = validated setup r (validate r.st.acc)

abbrev pub then_done : Option Done → (Reader → Done) → Option Done
then_done none next = none
then_done (some d) next = some (done_then d next)

abbrev pub is_some {ℓ} : {A : Type ℓ} → Option A → Bool
is_some none = false
is_some (some a) = true

abbrev pub has_fills : List ParsedFill → Bool
has_fills [] = false
has_fills (f ∷ fs) = true

abbrev pub had_history : ContractState → Bool
had_history st = is_some st.cursor || is_filled st.acc || has_fills st.fills

-- The events of the retained ledgers, on a clean state.
abbrev pub retained_replay : Setup → ℕ → ℕ → Reader → Option Done
retained_replay setup fuel oldest r =
    fetch_pages setup 1 fuel (some oldest) (set_state empty_state r)

unfoldable pub recover_from_retained_range : Setup → ℕ → ℕ → Validator → Reader → Option Done
recover_from_retained_range setup fuel oldest none r =
    let rest = retained_replay setup fuel oldest r in
    if had_history r.st
    then rest
    else some (
        fatal_done setup (because (codes "no replay validator was configured"))
          (set_state empty_state r))
recover_from_retained_range setup fuel oldest (some validate) r =
    then_done (retained_replay setup fuel oldest r) (validate_or_fatal setup validate)

abbrev pub is_ahead : Option ℕ → Option Text → ℕ → Bool
is_ahead none cursor latest = false
is_ahead (some requested) cursor latest = not (has_cursor cursor) && ltb latest requested

abbrev pub range_found :
    Setup → ℕ → Option ℕ → Validator → Reader → ChainError → Option LedgerRange → Option Done
range_found setup fuel requested validate r error none = some (r, throw error)
range_found setup fuel requested validate r error (some range) =
    if is_ahead requested r.st.cursor range.latest
    then fetch_pages setup 1 fuel (some range.latest) r
    else recover_from_retained_range setup fuel range.oldest validate r

abbrev pub caught : Setup → ℕ → Option ℕ → Validator → Option Done → Option Done
caught setup fuel requested validate none = none
caught setup fuel requested validate (some (r, ok u)) = some (r, ok tt)
caught setup fuel requested validate (some (r, throw error)) =
    range_found setup fuel requested validate r error (parse_ledger_range (chain_message error))

abbrev pub Answer {ℓ} : Type ℓ → Type ℓ
Answer A = Source × Result ChainError A

abbrev pub source_of : Reader → Source
source_of r = record { state = some r.st; cache = r.cache; log = r.log }

abbrev pub answered {ℓ} : {A : Type ℓ} → (ContractState → A) → Option Done → Option (Answer A)
answered view none = none
answered view (some (r, throw error)) = some (source_of r, throw error)
answered view (some (r, ok u)) = some (source_of r, ok (view r.st))

abbrev pub fetched {ℓ} :
    {A : Type ℓ}
    → Setup
    → ℕ
    → Option ℕ
    → Validator
    → (ContractState → A)
    → Source
    → Result ChainError Reader
    → Option (Answer A)
fetched setup fuel requested validate view s (throw error) = some (s, throw error)
fetched setup fuel requested validate view s (ok r) =
    answered view (caught setup fuel requested validate (fetch_pages setup 0 fuel requested r))

-- A read of new events, and a view of the state they leave; the fuel bounds the calls of a reading.
unfoldable pub read_events {ℓ} :
    {A : Type ℓ}
    → Setup
    → ℕ
    → (start_ledger default_start : Option ℕ) → Validator
    → (ContractState → A)
    → Source
    → Option (Answer A)
read_events setup fuel start_ledger default_start validate view s =
    fetched setup fuel (or_else start_ledger default_start) validate view s (load_state setup s)

abbrev pub read_tree_events :
    Setup
    → ℕ
    → (start_ledger default_start : Option ℕ) → Validator
    → Source
    → Option (Answer (List ParsedEvent))
read_tree_events setup fuel start_ledger default_start validate s =
    read_events setup fuel start_ledger default_start validate (λ st. st.acc) s

abbrev pub read_fills :
    Setup
    → ℕ
    → (start_ledger default_start : Option ℕ) → Validator
    → Source
    → Option (Answer (List ParsedFill))
read_fills setup fuel start_ledger default_start validate s =
    read_events setup fuel start_ledger default_start validate (λ st. st.fills) s

pub record EventSnapshot : Type 0 where
  pub cursor : Option Text
  pub tree_events : List ParsedEvent
  pub fill_events : List ParsedFill
  pub latest_ledger : Option ℕ

abbrev pub snapshot_of : ContractState → EventSnapshot
snapshot_of st = record {
  cursor = st.cursor;
  tree_events = st.acc;
  fill_events = st.fills;
  latest_ledger = st.latest_ledger;
}

abbrev pub event_snapshot :
    Setup
    → ℕ
    → (start_ledger default_start : Option ℕ) → Validator
    → Source
    → Option (Answer EventSnapshot)
event_snapshot setup fuel start_ledger default_start validate s =
    read_events setup fuel start_ledger default_start validate snapshot_of s
