-- ===== src/BookIndex/Release.antt =====
-- The checks of a contract against the protocol release: `verifyRelease`, `verifyLiveRelease` and
-- what they read. The calls of the network are arguments, by their outcomes: a value, or the message
-- of the error.
use stellar_mosaic.Prelude.{
  ℕ, Bool, false, ◌&&◌, ◌||◌, Option, none, some, List, [], ◌∷◌, ◌==◌, if◌then◌else◌, map, Result,
  ok, throw, ◌>>=◌, ◌>>◌, guard,
}
use stellar_mosaic.Prelude.Int.{ℤ, eqb_ℤ}
use stellar_mosaic.Text.{Text, codes, text_eq, lower_case}
use stellar_mosaic.Field.{hex_of_bytes}
use stellar_mosaic.ChainValue.{
  Native, bytes_value, object, Members, no_members, hex_text, member_of, join_texts,
}
use stellar_mosaic.BookIndex.{
  BookError, SyncError, book_error, invalid, expected_view_bytes, integrity_error, request_failed,
  schema_mismatch, vk_mismatch, missing_instance, not_wasm, wasm_mismatch, number,
}
use stellar_mosaic.BookIndex.Snapshot.{Protocol}

pub record ReleaseManifest : Type 0 where
  pub schema_version : ℤ
  pub wasm_hash : Text
  pub lift : Text
  pub unshield : Text
  pub cancel : Text
  pub join : Text

-- What the ledger has under the contract's key.
pub data ContractCode : Type 0 where
  no_instance other_executable : ContractCode
  wasm : (hash : List ℕ) → ContractCode

-- The outcome of a call of the network.
abbrev pub Response {ℓ} : Type ℓ → Type ℓ
Response A = Result Text A

abbrev pub requested {ℓ} : {A : Type ℓ} → Response A → Result SyncError A
requested (ok a) = ok a
requested (throw message) = throw (request_failed message)

abbrev pub checked {ℓ} : {A : Type ℓ} → Result BookError A → Result SyncError A
checked (ok a) = ok a
checked (throw e) = throw (book_error e)

-- `replace(/^0x/i, '').toLowerCase()`
unfoldable pub normalized_hash : Text → Text
normalized_hash (z ∷ x ∷ s) =
    if z == b'0' && (x == b'x' || x == b'X') then lower_case s else lower_case (z ∷ x ∷ s)
normalized_hash s = lower_case s

unfoldable pub bytes_hex : Native → Result SyncError Text
bytes_hex (bytes_value bytes) = ok (hex_text bytes)
bytes_hex _ = throw (book_error expected_view_bytes)

-- `record(value, label)`: bytes are an object too, without the members that are read.
unfoldable pub record_of : Native → Text → Result SyncError Members
record_of (object ms) label = ok ms
record_of (bytes_value bytes) label = ok no_members
record_of _ label = throw (book_error (invalid label))

abbrev pub expected_vks : ReleaseManifest → List Text
expected_vks r = map normalized_hash (r.lift ∷ r.unshield ∷ r.cancel ∷ r.join ∷ [])

abbrev pub same_version : ReleaseManifest → Option ℤ → Bool
same_version r none = false
same_version r (some v) = eqb_ℤ v r.schema_version

abbrev pub same_vks : ReleaseManifest → Option (List Text) → Bool
same_vks r none = false
same_vks r (some hashes) =
    text_eq (join_texts (map normalized_hash hashes)) (join_texts (expected_vks r))

unfoldable pub check_meta :
    ReleaseManifest → Option ℤ → Option (List Text) → Result SyncError (Unit {0})
check_meta r version hashes = do
  guard (same_version r version) (integrity_error schema_mismatch)
  guard (same_vks r hashes) (integrity_error vk_mismatch)

abbrev pub check_hash : ReleaseManifest → ContractCode → Result SyncError (Unit {0})
check_hash r no_instance = throw (integrity_error missing_instance)
check_hash r other_executable = throw (integrity_error not_wasm)
check_hash r (wasm hash) =
    guard (text_eq (normalized_hash (hex_of_bytes hash)) (normalized_hash r.wasm_hash))
      (integrity_error wasm_mismatch)

unfoldable pub check_code : ReleaseManifest → Response ContractCode → Result SyncError (Unit {0})
check_code r entries = do code ← requested entries; check_hash r code

unfoldable pub verify_release :
    Response ReleaseManifest
    → Response ContractCode
    → Option ℤ
    → Option (List Text)
    → Result SyncError (Unit {0})
verify_release manifest entries version hashes = do
  release ← requested manifest
  check_meta release version hashes
  check_code release entries

-- The answer of `protocol_config`.
unfoldable pub live_protocol_meta : Response Native → Result SyncError Protocol
live_protocol_meta config = do
  answer ← requested config
  ms ← record_of answer (codes "protocol_config")
  version ← checked (number (member_of (codes "schema_version") ms) "schema version")
  lift ← bytes_hex (member_of (codes "lift_vk_hash") ms)
  unshield ← bytes_hex (member_of (codes "unshield_vk_hash") ms)
  cancel ← bytes_hex (member_of (codes "cancel_vk_hash") ms)
  join ← bytes_hex (member_of (codes "join_vk_hash") ms)
  ok (record { schema_version = version; vk_hashes = lift ∷ unshield ∷ cancel ∷ join ∷ [] })

unfoldable pub verify_live_release :
    Response Native → Response ReleaseManifest → Response ContractCode → Result SyncError Protocol
verify_live_release config manifest entries = do
  protocol ← live_protocol_meta config
  release ← requested manifest
  check_meta release (some protocol.schema_version) (some protocol.vk_hashes)
  check_code release entries
  ok protocol
