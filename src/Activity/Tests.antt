-- ===== src/Activity/Tests.antt =====
-- A log with a keyed event, and the theorems at it.
use stellar_mosaic.Prelude.{ℕ, ◌≡◌, refl, some, none, [], ◌∷◌, arith}
use stellar_mosaic.Prelude.Int.{pos}
use stellar_mosaic.Text.{Text, codes, text_eq, lower_case}
use stellar_mosaic.Activity.{
  Value, object, field, number, bytes, text, no_fields, ActivityEvent, ActivityQuery, EventLog,
  backend_operation, sanitize_value, is_blocked, has_text, record_event,
}
use stellar_mosaic.Activity.Sanitizing.{IsClean, sanitize_value-IsClean}
use stellar_mosaic.Activity.Log.{IsOrdered, record_event-IsOrdered, record_event_once}

abbrev secret_value : Value
secret_value = object (
    field (codes "SecretKey") (number (pos 7)) (
      field (codes "nested") (object (field (codes "xdr") (number (pos 1)) no_fields))
        (field (codes "raw") (bytes 3) no_fields)))

sanitize_test :
    sanitize_value secret_value
    ≡ object (
        field (codes "nested") (object no_fields) (
          field
            (codes "raw")
            (object (
              field
                (codes "type")
                (text (codes "bytes"))
                (field (codes "length") (number (pos 3)) no_fields)))
            no_fields))
unfolding sanitize_value is_blocked has_text text_eq lower_case
sanitize_test = refl

sanitize_value-IsClean_example : IsClean (sanitize_value secret_value)
sanitize_value-IsClean_example = sanitize_value-IsClean secret_value

abbrev event_with : ℕ → Text → ActivityEvent
event_with cursor key = record {
  cursor = some cursor;
  id = none;
  idempotency_key = some key;
  kind = backend_operation;
  status = none;
  message = none;
  wallet_address = none;
  network = none;
  desk_id = none;
  operation_id = none;
  action = none;
  contract_id = none;
  method = none;
  tx_hash = none;
  note_id = none;
  owner_tag = none;
  created_at = none;
  metadata = none;
}

abbrev log : EventLog
log = record { events = event_with 1 (codes "a") ∷ event_with 2 (codes "b") ∷ []; next_cursor = 3 }

abbrev every : ActivityQuery
every = record {
  kinds = none;
  wallet_address = none;
  desk_id = none;
  operation_id = none;
  tx_hash = none;
  note_id = none;
  from = none;
  to = none;
  limit = none;
}

log-IsOrdered : IsOrdered log
log-IsOrdered = (omega arith, (omega arith, omega arith))

record_event-IsOrdered_example :
    IsOrdered (record_event (codes "id") 5 (event_with 0 (codes "c")) log).0
record_event-IsOrdered_example =
    record_event-IsOrdered (codes "id") 5 (event_with 0 (codes "c")) log log-IsOrdered

record_event_once_example :
    record_event
      (codes "y")
      6
      (event_with 0 (codes "c"))
      (record_event (codes "x") 5 (event_with 0 (codes "c")) log).0
    ≡ record_event (codes "x") 5 (event_with 0 (codes "c")) log
record_event_once_example =
    record_event_once (codes "x") (codes "y") 5 6 (event_with 0 (codes "c"))
      (event_with 0 (codes "c")) log b'c' [] refl refl
