-- ===== src/ChainEvents/Tests.antt =====
-- A contract with overlapping pages and a server that has dropped its first ledgers.
use stellar_mosaic.Prelude.{
  ℕ, ◌≡◌, refl, ◌==◌, if◌then◌else◌, Option, none, some, List, [], ◌∷◌, String, Result, ok, throw,
  Bool, true, false, not, ◌&&◌,
}
use stellar_mosaic.Prelude.Int.{pos}
use stellar_mosaic.Text.{Text, codes, text_eq, to_digits, digits_fuel, digit_char}
use stellar_mosaic.Amount.{to_string}
use stellar_mosaic.Field.{hex_of_bytes}
use stellar_mosaic.LedgerRange.{
  parse_ledger_range, after_needle, before_needle, numbers_from, safe_numbers,
}
use stellar_mosaic.Activity.{
  EventLog, record_event, existing, find_key, normalize_activity_event, sanitize_activity_metadata,
  found_or_appended,
}
use stellar_mosaic.ChainValue.{
  number_value, bigint_value, text_value, bytes_value, vector, native, no_natives,
}
use stellar_mosaic.ChainEvents.{
  ChainEvent, ChainError, ParsedEvent, parsed_shielded, unavailable, cached_fatal, hex, num, amt,
  event_id, event_ledger, event_tx_hash, event_topic, parse_asset_note, parse_tree_event,
  parse_fill_event,
}
use stellar_mosaic.ChainEvents.Reader.{
  CacheSnapshot, ContractState, Reader, Setup, Page, ChainStart, from_cursor, from_ledger, is_seen,
  add_chain_event, add_events, persist, add_page, rebuilt, fetch_loop, fetch_pages,
  record_chain_event, saved, event_activity, tree_event_value, fill_activity, has_cursor, is_filled,
}
use stellar_mosaic.ChainEvents.Source.{
  Source, empty_state, because, recover_from_retained_range, validate_or_fatal, read_events,
  read_tree_events, load_state, chain_message, Validator,
}
use stellar_mosaic.ChainEvents.Appending.{Grows}
use stellar_mosaic.ChainEvents.Paging.{Reads, add_page_lem}
use stellar_mosaic.ChainEvents.Reading.{IsBegun, HasRead, fetch_pages_lem}
use stellar_mosaic.ChainEvents.Recovering.{
  recover_from_retained_range-validated, recover_from_retained_range-rejected,
}

abbrev shielded_event : String → ℕ → ChainEvent
shielded_event id amount = record {
  id = some (codes id);
  ledger = none;
  camel_tx_hash = none;
  snake_tx_hash = none;
  topic = text_value (codes "shielded") ∷ [];
  value = vector (
      native (number_value (pos 1))
        (native (bigint_value (pos amount)) (native (bytes_value (7 ∷ [])) no_natives)));
}

abbrev no_log : EventLog
no_log = record { events = []; next_cursor = 1 }

abbrev fresh : Reader
fresh = record { st = empty_state; cache = none; log = no_log }

abbrev page_of : List ChainEvent → Page
page_of events = record { events = events; cursor = codes "c"; latest_ledger = 9 }

-- The first reading is refused, and the retained ledgers have one event.
abbrev answer : ℕ → ℕ → ChainStart → Result Text Page
answer attempt call (from_cursor c) = ok (page_of (shielded_event "2" 6 ∷ []))
answer attempt call (from_ledger l) =
    if l == 3
    then throw (codes "ledger range: 5 - 9")
    else ok (page_of (shielded_event "1" 5 ∷ shielded_event "1" 5 ∷ []))

abbrev setup : Setup
setup = record { contract_id = codes "C"; has_cache = true; now = 1; get_events = answer }

abbrev after_page : Reader
after_page =
    (add_page setup
      (page_of (shielded_event "1" 5 ∷ shielded_event "2" 6 ∷ shielded_event "1" 5 ∷ [])) fresh).0

appended_once :
    after_page.st.acc
    ≡ parsed_shielded (pos 1) (codes "5") (codes "0x07")
      ∷ parsed_shielded (pos 1) (codes "6") (codes "0x07")
      ∷ []
unfolding add_page add_events add_chain_event is_seen event_id parse_tree_event parse_fill_event
    parse_asset_note num amt hex hex_of_bytes to_string to_digits digits_fuel digit_char text_eq
    persist
appended_once = refl

add_page_lem_example :
    Reads fresh.st
      (shielded_event "1" 5 ∷ shielded_event "2" 6 ∷ shielded_event "1" 5 ∷ [])
      after_page.st
    × (after_page.st.cursor ≡ some (codes "c"))
    × (after_page.st.latest_ledger ≡ some 9)
unfolding add_page add_events add_chain_event is_seen event_id parse_tree_event parse_fill_event
    parse_asset_note num amt hex hex_of_bytes to_string to_digits digits_fuel digit_char text_eq
    persist fetch_pages fetch_loop rebuilt recover_from_retained_range validate_or_fatal read_events
    load_state record_chain_event record_event existing found_or_appended find_key event_activity
    event_ledger event_tx_hash event_topic tree_event_value fill_activity parse_ledger_range
    after_needle before_needle numbers_from safe_numbers chain_message normalize_activity_event
    sanitize_activity_metadata
add_page_lem_example =
    add_page_lem setup
      (page_of (shielded_event "1" 5 ∷ shielded_event "2" 6 ∷ shielded_event "1" 5 ∷ [])) fresh
      after_page refl

-- The reading of the retained ledgers, from a reader that already has an event.
abbrev reread : Reader
reread = (add_page setup (page_of (shielded_event "1" 5 ∷ shielded_event "1" 5 ∷ [])) fresh).0

-- What a cache without a cursor has left: a note event without its id.
abbrev cached : Reader
cached = record fresh {
  st = record empty_state { acc = parsed_shielded (pos 1) (codes "5") (codes "0x07") ∷ [] };
}

abbrev stale : Reader
stale = record { st = reread.st; cache = none; log = no_log }

fetch_pages_lem_example :
    (st : ContractState) × IsBegun cached.st st × HasRead setup 1 (some 5) 0 st reread.st
unfolding add_page add_events add_chain_event is_seen event_id parse_tree_event parse_fill_event
    parse_asset_note num amt hex hex_of_bytes to_string to_digits digits_fuel digit_char text_eq
    persist fetch_pages fetch_loop rebuilt recover_from_retained_range validate_or_fatal read_events
    load_state record_chain_event record_event existing found_or_appended find_key event_activity
    event_ledger event_tx_hash event_topic tree_event_value fill_activity parse_ledger_range
    after_needle before_needle numbers_from safe_numbers chain_message normalize_activity_event
    sanitize_activity_metadata
fetch_pages_lem_example = fetch_pages_lem setup 1 1 (some 5) cached reread refl

recover_from_retained_range-validated_example :
    Grows empty_state reread.st × (◌≡◌ {A = Result Text (Unit {0})} (ok tt) (ok tt))
unfolding add_page add_events add_chain_event is_seen event_id parse_tree_event parse_fill_event
    parse_asset_note num amt hex hex_of_bytes to_string to_digits digits_fuel digit_char text_eq
    persist fetch_pages fetch_loop rebuilt recover_from_retained_range validate_or_fatal read_events
    load_state record_chain_event record_event existing found_or_appended find_key event_activity
    event_ledger event_tx_hash event_topic tree_event_value fill_activity parse_ledger_range
    after_needle before_needle numbers_from safe_numbers chain_message normalize_activity_event
    sanitize_activity_metadata
recover_from_retained_range-validated_example =
    recover_from_retained_range-validated setup 1 5 (λ acc. ok tt) stale reread refl

abbrev rejecting : List ParsedEvent → Result Text (Unit {0})
rejecting acc = throw (codes "root mismatch")

recover_from_retained_range-rejected_example :
    (next : Reader) × (recover_from_retained_range setup 1 5 (some rejecting) stale
      ≡ some (next, throw (unavailable (because (codes "root mismatch")))))
    × ((later : Setup) (log : EventLog) (later_fuel : ℕ) (start_ledger default_start : Option ℕ)
          (other : Validator)
        → later.has_cache ≡ true
        → read_tree_events later later_fuel start_ledger default_start other
            (record { state = none; cache = next.cache; log = log })
          ≡ some (
            record { state = none; cache = next.cache; log = log },
            throw (cached_fatal (because (codes "root mismatch"))),
          ))
unfolding add_page add_events add_chain_event is_seen event_id parse_tree_event parse_fill_event
    parse_asset_note num amt hex hex_of_bytes to_string to_digits digits_fuel digit_char text_eq
    persist fetch_pages fetch_loop rebuilt recover_from_retained_range validate_or_fatal read_events
    load_state record_chain_event record_event existing found_or_appended find_key event_activity
    event_ledger event_tx_hash event_topic tree_event_value fill_activity parse_ledger_range
    after_needle before_needle numbers_from safe_numbers chain_message normalize_activity_event
    sanitize_activity_metadata
recover_from_retained_range-rejected_example =
    recover_from_retained_range-rejected setup 1 5 rejecting stale reread (codes "root mismatch")
      refl refl refl

-- In the session that has rejected a replay, the next call gives its events without an error, and
-- takes the marker out of the cache.
abbrev rejected : Source
rejected = record {
  state = some reread.st;
  cache = some (saved reread.st (some (because (codes "root mismatch"))));
  log = no_log;
}

abbrev has_no_marker : Option CacheSnapshot → Bool
has_no_marker none = false
has_no_marker (some c) = not (has_cursor c.fatal_error)

abbrev is_unmarked : Option (Source × Result ChainError (List ParsedEvent)) → Bool
is_unmarked (some (s, ok acc)) = has_no_marker s.cache && is_filled acc
is_unmarked _ = false

rejected_replay_returned :
    is_unmarked (read_tree_events setup 2 (some 3) none (some rejecting) rejected) ≡ true
unfolding add_page add_events add_chain_event is_seen event_id parse_tree_event parse_fill_event
    parse_asset_note num amt hex hex_of_bytes to_string to_digits digits_fuel digit_char text_eq
    persist fetch_pages fetch_loop rebuilt recover_from_retained_range validate_or_fatal read_events
    load_state record_chain_event record_event existing found_or_appended find_key event_activity
    event_ledger event_tx_hash event_topic tree_event_value fill_activity parse_ledger_range
    after_needle before_needle numbers_from safe_numbers chain_message normalize_activity_event
    sanitize_activity_metadata
rejected_replay_returned = refl
