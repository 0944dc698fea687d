-- ===== src/ChainEvents/Reader.antt =====
-- `ChainEventSource` for one contract: its state and the loop over the pages of the server. A method
-- keeps what it has written when it throws. The calls of a contract run one after the other, by the
-- lock that the source keeps for it. The cache keeps what it is given, and its calls do not fail.
use stellar_mosaic.Prelude.{
  ℕ, zero, suc, Bool, true, false, not, ◌&&◌, ◌||◌, Option, none, some, List, [], ◌∷◌, ◌++◌, ltb,
  if◌then◌else◌, length, Result, ok, throw, or_value,
}
use stellar_mosaic.Text.{Text, codes, text_eq}
use stellar_mosaic.Activity.{
  Value, field, no_fields, object, text, number, absent, ActivityEvent, ActivityEventKind,
  contract_event, fill, EventLog, record_event,
}
use stellar_mosaic.ChainEvents.{
  ChainEvent, ChainError, needs_start_ledger, server_failed, ParsedEvent, parsed_shielded,
  parsed_noteins, parsed_settled, ParsedFill, event_id, event_ledger, event_tx_hash, event_topic,
  parse_tree_event, parse_fill_event,
}

pub record ContractState : Type 0 where
  pub cursor : Option Text
  pub acc : List ParsedEvent
  pub fills : List ParsedFill
  pub latest_ledger : Option ℕ
  pub seen : List Text

pub record CacheSnapshot : Type 0 where
  pub cursor : Option Text
  pub tree_events : List ParsedEvent
  pub fills : List ParsedFill
  pub latest_ledger : Option ℕ
  pub fatal_error : Option Text

-- The cache and the activity log stand beside the state of the contract.
pub record Reader : Type 0 where
  pub st : ContractState
  pub cache : Option CacheSnapshot
  pub log : EventLog

-- Where a call of `getEvents` starts, and its answer.
pub data ChainStart : Type 0 where
  from_cursor : Text → ChainStart
  from_ledger : ℕ → ChainStart

pub record Page : Type 0 where
  pub events : List ChainEvent
  pub cursor : Text
  pub latest_ledger : ℕ

-- The settings of a source, and the clock of a call. The server answers a call by its number within
-- one reading of pages, and a reading by its number within one call of `events`.
pub record Setup : Type 0 where
  pub contract_id : Text
  pub has_cache : Bool
  pub now : ℕ
  pub get_events : (attempt call : ℕ) → ChainStart → Result Text Page

-- `seen.has(id)`
unfoldable pub is_seen : Text → List Text → Bool
is_seen id [] = false
is_seen id (s ∷ ss) = text_eq s id || is_seen id ss

abbrev pub pushed {ℓ} : {A : Type ℓ} → Option A → List A → List A
pushed none xs = xs
pushed (some x) xs = xs ++ x ∷ []

unfoldable pub tree_event_value : ParsedEvent → Value
tree_event_value (parsed_shielded asset amount tag) = object (
    field (codes "kind") (text (codes "shielded")) (
      field (codes "asset") (number asset)
        (field (codes "amount") (text amount) (field (codes "owner_tag") (text tag) no_fields))))
tree_event_value (parsed_noteins asset amount tag) = object (
    field (codes "kind") (text (codes "noteins")) (
      field (codes "asset") (number asset)
        (field (codes "amount") (text amount) (field (codes "owner_tag") (text tag) no_fields))))
tree_event_value (parsed_settled a_asset b_amount a_tag b_asset a_amount b_tag) = object (
    field (codes "kind") (text (codes "settled")) (
      field (codes "a_asset_out") (number a_asset) (
        field (codes "b_amount_in") (text b_amount) (
          field (codes "a_output_owner_tag") (text a_tag) (
            field (codes "b_asset_out") (number b_asset) (
              field (codes "a_amount_in") (text a_amount)
                (field (codes "b_output_owner_tag") (text b_tag) no_fields)))))))

abbrev optional_value : Option ParsedEvent → Value
optional_value none = absent
optional_value (some e) = tree_event_value e

abbrev nonempty : Text → Option Text
nonempty [] = none
nonempty (c ∷ s) = some (c ∷ s)

abbrev new_activity : ActivityEventKind → Text → Text → Text → ActivityEvent
new_activity kind key contract status = record {
  cursor = none;
  id = none;
  idempotency_key = some key;
  kind = kind;
  status = some status;
  message = none;
  wallet_address = none;
  network = none;
  desk_id = none;
  operation_id = none;
  action = none;
  contract_id = some contract;
  method = none;
  tx_hash = none;
  note_id = none;
  owner_tag = none;
  created_at = none;
  metadata = none;
}

unfoldable pub event_activity : Text → ChainEvent → Option ParsedEvent → ActivityEvent
event_activity contract e t =
    record (new_activity contract_event
      (codes "contract-event:" ++ (contract ++ (b':' ∷ event_id e))) contract (event_topic e)) {
        tx_hash = nonempty (event_tx_hash e);
        metadata = some (
            field (codes "event_id") (text (event_id e)) (
              field (codes "ledger") (number (event_ledger e)) (
                field (codes "topic") (text (event_topic e))
                  (field (codes "tree_event") (optional_value t) no_fields))));
      }

unfoldable pub fill_activity : Text → ParsedFill → ActivityEvent
fill_activity contract f =
    record (new_activity fill (codes "fill:" ++ (contract ++ (b':' ∷ f.id))) contract
      (codes "filled")) {
        tx_hash = some f.tx_hash;
        owner_tag = some f.owner_tag;
        metadata = some (
            field (codes "id") (text f.id) (
              field (codes "ledger") (number f.ledger) (
                field (codes "tx_hash") (text f.tx_hash) (
                  field (codes "asset_in") (number f.asset_in) (
                    field (codes "amount_in") (text f.amount_in) (
                      field (codes "asset_out") (number f.asset_out) (
                        field (codes "amount_out") (text f.amount_out)
                          (field (codes "owner_tag") (text f.owner_tag) no_fields))))))));
      }

abbrev fill_recorded : Setup → Option ParsedFill → EventLog → EventLog
fill_recorded setup none log = log
fill_recorded setup (some f) log =
    (record_event [] setup.now (fill_activity setup.contract_id f) log).0

-- The log is the store's; a record that fails is dropped by the source, and does not occur here.
unfoldable pub record_chain_event :
    Setup → ChainEvent → Option ParsedEvent → Option ParsedFill → EventLog → EventLog
record_chain_event setup e t f log =
    fill_recorded setup f (record_event [] setup.now (event_activity setup.contract_id e t) log).0

abbrev pub Done : Type 0
Done = Reader × Result ChainError (Unit {0})

abbrev pub set_state : ContractState → Reader → Reader
set_state st r = record r { st = st }

-- The turn of the loop for an event: it is marked as seen before it is parsed.
abbrev pub fill_parsed :
    Setup → ChainEvent → Option ParsedEvent → Reader → Result ChainError (Option ParsedFill) → Done
fill_parsed setup e t r (throw error) = (r, throw error)
fill_parsed setup e t r (ok f) = (
  record r {
    st = record r.st { fills = pushed f r.st.fills };
    log = record_chain_event setup e t f r.log;
  },
  ok tt,
)

abbrev pub tree_parsed : Setup → ChainEvent → Reader → Result ChainError (Option ParsedEvent) → Done
tree_parsed setup e r (throw error) = (r, throw error)
tree_parsed setup e r (ok t) =
    fill_parsed setup e t (set_state (record r.st { acc = pushed t r.st.acc }) r)
      (parse_fill_event e)

unfoldable pub add_chain_event : Setup → ChainEvent → Reader → Done
add_chain_event setup e r =
    if is_seen (event_id e) r.st.seen
    then (r, ok tt)
    else tree_parsed setup e (set_state (record r.st { seen = r.st.seen ++ event_id e ∷ [] }) r)
        (parse_tree_event e)

abbrev pub done_then : Done → (Reader → Done) → Done
done_then (r, throw error) next = (r, throw error)
done_then (r, ok u) next = next r

unfoldable pub add_events : Setup → List ChainEvent → Reader → Done
add_events setup [] r = (r, ok tt)
add_events setup (e ∷ es) r = done_then (add_chain_event setup e r) (add_events setup es)

abbrev pub saved : ContractState → Option Text → CacheSnapshot
saved st fatal = record {
  cursor = st.cursor;
  tree_events = st.acc;
  fills = st.fills;
  latest_ledger = st.latest_ledger;
  fatal_error = fatal;
}

unfoldable pub persist : Setup → Option Text → Reader → Reader
persist setup fatal r = if setup.has_cache then record r { cache = some (saved r.st fatal) } else r

-- The end of a page: the cursor moves on, and the state is kept.
abbrev pub page_ended : Setup → Page → Reader → Reader
page_ended setup page r = persist setup none (
    set_state (record r.st { cursor = some page.cursor; latest_ledger = some page.latest_ledger })
      r)

unfoldable pub add_page : Setup → Page → Reader → Done
add_page setup page r =
    done_then (add_events setup page.events r) (λ r'. (page_ended setup page r', ok tt))

abbrev pub has_cursor : Option Text → Bool
has_cursor none = false
has_cursor (some []) = false
has_cursor (some (c ∷ s)) = true

-- Without a cursor, what a cache has left is dropped: its events have no ids to compare.
abbrev pub is_filled : List ParsedEvent → Bool
is_filled [] = false
is_filled (e ∷ es) = true

unfoldable pub rebuilt : Reader → Reader
rebuilt r =
    if not (has_cursor r.st.cursor) && is_filled r.st.acc
    then set_state (record r.st { acc = []; fills = []; seen = [] }) r
    else r

abbrev pub page_added : (Reader → Option Done) → Page → Done → Option Done
page_added more page (r, throw error) = some (r, throw error)
page_added more page (r, ok u) =
    let rest = more r in if ltb (length page.events) 1000 then some (r, ok tt) else rest

abbrev pub chain_page_fetched :
    Setup → (Reader → Option Done) → Reader → Result Text Page → Option Done
chain_page_fetched setup more r (throw message) = some (r, throw (server_failed message))
chain_page_fetched setup more r (ok page) = page_added more page (add_page setup page r)

abbrev pub start_at : ContractState → Option ℕ → Option ChainStart
start_at st none = if has_cursor st.cursor then some (from_cursor (or_value st.cursor [])) else none
start_at st (some ledger) =
    if has_cursor st.cursor
    then some (from_cursor (or_value st.cursor []))
    else some (from_ledger ledger)

abbrev pub page_asked :
    Setup → (attempt call : ℕ) → (Reader → Option Done) → Reader → Option ChainStart → Option Done
page_asked setup attempt call more r none = some (r, throw needs_start_ledger)
page_asked setup attempt call more r (some start) =
    chain_page_fetched setup more r (setup.get_events attempt call start)

-- `none` where the loop is still running after as many calls as the fuel.
unfoldable pub fetch_loop : Setup → (attempt fuel call : ℕ) → Option ℕ → Reader → Option Done
fetch_loop setup attempt zero call start_ledger r = none
fetch_loop setup attempt (suc fuel) call start_ledger r =
    page_asked setup attempt call (fetch_loop setup attempt fuel (suc call) start_ledger) r
      (start_at r.st start_ledger)

unfoldable pub fetch_pages : Setup → (attempt fuel : ℕ) → Option ℕ → Reader → Option Done
fetch_pages setup attempt fuel start_ledger r =
    fetch_loop setup attempt fuel 0 start_ledger (rebuilt r)
