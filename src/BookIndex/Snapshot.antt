-- ===== src/BookIndex/Snapshot.antt =====
-- The view of the index for a scope, and the writes to the database other than a page: `setFatal`,
-- `snapshot`, `writeLiveSnapshot` and `clearBookIndex`.
use stellar_mosaic.Prelude.{
  ℕ, Bool, true, false, not, ◌&&◌, Option, none, some, List, [], ◌∷◌, ◌==◌, if◌then◌else◌, length,
}
use stellar_mosaic.Prelude.Int.{ℤ, eqb_ℤ}
use stellar_mosaic.Text.{Text, text_eq}
use stellar_mosaic.ObjectStore.{put, delete, select}
use stellar_mosaic.BookIndex.{
  IndexedOrder, IndexedAsset, IndexedPair, BookMeta, Database, meta_key, order_id_of, asset_id_of,
  pair_id_of, meta_of,
}

-- A text under `if`: the empty one counts as absent.
abbrev pub is_nonempty : Option Text → Bool
is_nonempty none = false
is_nonempty (some s) = not (length s == 0)

abbrev pub is_true : Option Bool → Bool
is_true none = false
is_true (some b) = b

abbrev pub put_meta : BookMeta → Database → Database
put_meta m db = record db { meta = put meta_key m db.meta }

unfoldable pub set_fatal : Text → Text → Database → Database
set_fatal scope message db =
    put_meta (record (meta_of scope db.meta) { fatal_error = some message }) db

pub data SyncStatus : Type 0 where
  syncing synced error : SyncStatus

pub record BookIndexSnapshot : Type 0 where
  pub status : SyncStatus
  pub error : Option Text
  pub last_ledger : ℕ
  pub last_sequence : ℤ
  pub target_sequence : ℤ
  pub orders : List IndexedOrder
  pub assets : List IndexedAsset
  pub pairs : List IndexedPair

abbrev pub index_status : BookMeta → SyncStatus
index_status m =
    if is_nonempty m.fatal_error
    then error
    else if m.initialized && is_true m.release_verified && eqb_ℤ m.last_sequence m.target_sequence
    then synced
    else syncing

unfoldable pub snapshot : Text → Database → BookIndexSnapshot
snapshot scope db = record {
  status = index_status (meta_of scope db.meta);
  error = (meta_of scope db.meta).fatal_error;
  last_ledger = (meta_of scope db.meta).latest_ledger;
  last_sequence = (meta_of scope db.meta).last_sequence;
  target_sequence = (meta_of scope db.meta).target_sequence;
  orders = select (λ o. text_eq o.scope scope) db.orders;
  assets = select (λ a. text_eq a.scope scope) db.assets;
  pairs = select (λ p. text_eq p.scope scope) db.pairs;
}

-- What `clearBookIndex` and `writeLiveSnapshot` delete: the row and the rows of a scope.
unfoldable pub clear_scope : Text → Database → Database
clear_scope scope db = record {
  meta = delete meta_key scope db.meta;
  orders = select (λ o. not (text_eq o.scope scope)) db.orders;
  assets = select (λ a. not (text_eq a.scope scope)) db.assets;
  pairs = select (λ p. not (text_eq p.scope scope)) db.pairs;
  processed = select (λ p. not (text_eq p.scope scope)) db.processed;
}

unfoldable pub put_all {ℓ} : {A : Type ℓ} → (A → Text) → List A → List A → List A
put_all key [] rows = rows
put_all key (a ∷ as_rows) rows = put_all key as_rows (put key a rows)

pub record Protocol : Type 0 where
  pub schema_version : ℤ
  pub vk_hashes : List Text

abbrev pub live_meta : Text → Protocol → ℤ → BookMeta
live_meta scope protocol sequence = record {
  scope = scope;
  initialized = true;
  schema_version = some protocol.schema_version;
  cursor = none;
  last_sequence = sequence;
  latest_ledger = 0;
  target_sequence = sequence;
  fatal_error = none;
  vk_hashes = some protocol.vk_hashes;
  release_verified = some true;
}

unfoldable pub write_live_snapshot :
    Text
    → Protocol
    → List IndexedAsset
    → List IndexedPair
    → List IndexedOrder
    → ℤ
    → Database
    → Database
write_live_snapshot scope protocol assets pairs orders sequence db =
    let cleared = clear_scope scope db in
    record {
      meta = put meta_key (live_meta scope protocol sequence) cleared.meta;
      orders = put_all order_id_of orders cleared.orders;
      assets = put_all asset_id_of assets cleared.assets;
      pairs = put_all pair_id_of pairs cleared.pairs;
      processed = cleared.processed;
    }

unfoldable pub clear_book_index : Text → Database → Database
clear_book_index scope db = clear_scope scope db
