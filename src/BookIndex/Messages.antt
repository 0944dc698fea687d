-- ===== src/BookIndex/Messages.antt =====
-- The message of an error, as `errorMessage` gives it; a failed request has the message of its own.
use stellar_mosaic.Prelude.{ℕ, Option, none, some, ◌++◌}
use stellar_mosaic.Text.{Text, codes, to_digits}
use stellar_mosaic.Amount.{to_string}
use stellar_mosaic.BookIndex.{
  BookError, expected_bytes, expected_view_bytes, invalid, field_count, unexpected_topic_count,
  non_symbol_topic, unsupported_schema, conflicting_bookinit, before_bookinit, conflicting_asset,
  conflicting_pair, sequence_gap, invalid_side, invalid_reason, unknown_order, invalid_asset_kind,
  SyncError, book_error, integrity_error, request_failed, IntegrityFault, schema_mismatch,
  vk_mismatch, missing_instance, not_wasm, wasm_mismatch, pair_count_mismatch, unregistered_asset,
  kind_mismatch, token_mismatch,
}

abbrev count_text : Option ℕ → Text
count_text none = codes "non-vector"
count_text (some n) = to_digits 10 n

unfoldable pub message_of : BookError → Text
message_of expected_bytes = codes "expected bytes in contract event"
message_of expected_view_bytes = codes "expected bytes from contract view"
message_of (invalid label) = codes "invalid " ++ label
message_of (field_count count expected) =
    codes "book event has "
    ++ (count_text count ++ (codes " fields; expected " ++ to_digits 10 expected))
message_of (unexpected_topic_count id) = codes "unexpected topic count for event " ++ id
message_of (non_symbol_topic id) = codes "non-symbol topic for event " ++ id
message_of (unsupported_schema schema) = codes "unsupported book event schema " ++ to_string schema
message_of conflicting_bookinit = codes "conflicting bookinit event"
message_of (before_bookinit topic) = codes topic ++ codes " before bookinit"
message_of (conflicting_asset id) = codes "conflicting asset " ++ to_string id
message_of (conflicting_pair id) = codes "conflicting pair " ++ to_string id
message_of (sequence_gap expected found) =
    codes "book sequence gap: expected "
    ++ (to_string expected ++ (codes ", got " ++ to_string found))
message_of (invalid_side side) = codes "invalid book side " ++ to_string side
message_of (invalid_reason reason) = codes "invalid removal reason " ++ to_string reason
message_of (unknown_order id) = codes "removal of unknown order " ++ id
message_of invalid_asset_kind = codes "invalid asset kind from contract"

unfoldable pub fault_message : IntegrityFault → Text
fault_message schema_mismatch = codes "contract schema does not match release manifest"
fault_message vk_mismatch = codes "contract verification-key hashes do not match release manifest"
fault_message missing_instance = codes "contract instance ledger entry is missing"
fault_message not_wasm = codes "desk is not a WASM contract"
fault_message wasm_mismatch = codes "contract WASM hash does not match release manifest"
fault_message pair_count_mismatch =
    codes "contract pair count does not match the local desk definition"
fault_message (unregistered_asset id) =
    codes "asset " ++ (to_string id ++ codes " is not registered on-chain")
fault_message (kind_mismatch id) =
    codes "asset " ++ (to_string id ++ codes " kind does not match the contract")
fault_message (token_mismatch id) =
    codes "asset " ++ (to_string id ++ codes " token does not match the contract")

abbrev pub sync_message : SyncError → Text
sync_message (book_error e) = message_of e
sync_message (integrity_error fault) = fault_message fault
sync_message (request_failed message) = message
