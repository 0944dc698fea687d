-- ===== src/BookIndex/Sync.antt =====
-- `syncBookIndex` and `recoverLiveBookIndex`: one synchronisation of the index with the chain.
use stellar_mosaic.Prelude.{
  ℕ, zero, suc, Bool, true, not, ◌&&◌, Option, none, some, List, [], ◌∷◌, ◌==◌, leb, if◌then◌else◌,
  map, length, Result, ok, throw, ◌>>=◌, ◌>>◌, guard,
}
use stellar_mosaic.Prelude.Int.{ℤ, pos, eqb_ℤ, ltb_ℤ}
use stellar_mosaic.Prelude.Sorting.{sort_by}
use stellar_mosaic.Text.{Text, codes}
use stellar_mosaic.LedgerRange.{LedgerRange, parse_ledger_range}
use stellar_mosaic.BookIndex.{
  IndexedOrder, IndexedAsset, IndexedPair, BookMeta, Database, BookEvent, BookError, SyncError,
  book_error, integrity_error, pair_count_mismatch, request_failed, scope_of, meta_of,
}
use stellar_mosaic.BookIndex.Reduce.{apply_book_event_page}
use stellar_mosaic.BookIndex.Snapshot.{
  BookIndexSnapshot, Protocol, syncing, snapshot, set_fatal, put_meta, is_nonempty,
  write_live_snapshot,
}
use stellar_mosaic.BookIndex.Release.{
  Response, ReleaseManifest, ContractCode, verify_release, verify_live_release,
}
use stellar_mosaic.BookIndex.Live.{
  View, Desk, live_assets, live_books, live_pair_count, read_book_sequence, pair_row,
}
use stellar_mosaic.BookIndex.Messages.{message_of, fault_message, sync_message}

-- Where a call of `getEvents` starts.
pub data Start : Type 0 where
  from_cursor : Text → Start
  from_ledger : ℕ → Start

pub record EventsResponse : Type 0 where
  pub events : List BookEvent
  pub cursor : Text
  pub latest_ledger : ℕ

-- The RPC server and the release manifest, by the outcomes of their calls; a call of `getEvents` has
-- its number in the synchronisation too, since the chain moves on between two calls.
pub record Server : Type 0 where
  pub get_events : ℕ → Start → Response EventsResponse
  pub view : View
  pub contract_code : Response ContractCode
  pub manifest : Response ReleaseManifest

abbrev pub start_of : Option Text → ℕ → Start
start_of none ledger = from_ledger ledger
start_of (some []) ledger = from_ledger ledger
start_of (some (c ∷ s)) ledger = from_cursor (c ∷ s)

abbrev pub Outcome {ℓ} : Type ℓ → Type ℓ
Outcome A = Database × Result SyncError A

-- The pages of the retained ledgers: a page of 1000 events is followed by another one.
abbrev pub page_applied :
    (EventsResponse → Database → Option (Outcome (Unit {0})))
    → EventsResponse
    → Database × Result BookError (Unit {0})
    → Option (Outcome (Unit {0}))
page_applied more response (db, throw e) = some (db, throw (book_error e))
page_applied more response (db, ok u) =
    let rest = more response db in if length response.events == 1000 then rest else some (db, ok tt)

abbrev pub page_fetched :
    Text
    → (EventsResponse → Database → Option (Outcome (Unit {0})))
    → Database
    → Response EventsResponse
    → Option (Outcome (Unit {0}))
page_fetched scope more db (throw message) = some (db, throw (request_failed message))
page_fetched scope more db (ok response) =
    page_applied more response
      (apply_book_event_page scope response.events response.cursor response.latest_ledger db)

-- `none` where the loop is still running after as many calls as the fuel.
unfoldable pub recover_pages :
    Server → Text → (oldest fuel call : ℕ) → Option Text → Database → Option (Outcome (Unit {0}))
recover_pages server scope oldest zero call cursor db = none
recover_pages server scope oldest (suc fuel) call cursor db =
    page_fetched scope
      (λ response. recover_pages server scope oldest fuel (suc call) (some response.cursor)) db
      (server.get_events call (start_of cursor oldest))

abbrev pub has_larger_pair : IndexedPair → IndexedPair → Bool
has_larger_pair a b = ltb_ℤ b.pair_id a.pair_id

pub record LiveIndex : Type 0 where
  pub protocol : Protocol
  pub assets : List IndexedAsset
  pub pairs : List IndexedPair
  pub orders : List IndexedOrder
  pub sequence : ℤ

-- What the recovery reads before it writes.
unfoldable pub read_live_index : Server → Text → Desk → Result SyncError LiveIndex
read_live_index server scope desk = do
  protocol ←
      verify_live_release (server.view "protocol_config" []) server.manifest server.contract_code
  assets ← live_assets server.view scope desk.assets
  count ← live_pair_count server.view
  guard (eqb_ℤ count (pos (length desk.pairs))) (integrity_error pair_count_mismatch)
  let pairs = sort_by has_larger_pair (map (pair_row scope) desk.pairs)
  sequence ← read_book_sequence server.view
  orders ← live_books server.view scope pairs
  ok (record {
    protocol = protocol;
    assets = assets;
    pairs = pairs;
    orders = orders;
    sequence = sequence;
  })

abbrev pub write_live : Text → LiveIndex → Database → Database
write_live scope live db =
    write_live_snapshot scope live.protocol live.assets live.pairs live.orders live.sequence db

abbrev pub recovered :
    Server → Text → ℕ → ℕ → Database → Result SyncError LiveIndex → Option (Outcome (Unit {0}))
recovered server scope oldest fuel db (throw e) = some (db, throw e)
recovered server scope oldest fuel db (ok live) =
    recover_pages server scope oldest fuel 1 none (write_live scope live db)

unfoldable pub recover_live_book_index :
    Server → Text → Desk → ℕ → ℕ → Database → Option (Outcome (Unit {0}))
recover_live_book_index server scope desk oldest fuel db =
    recovered server scope oldest fuel db (read_live_index server scope desk)

abbrev pub Synced : Type 0
Synced = Database × BookIndexSnapshot

abbrev pub shown : Text → Database → Synced
shown scope db = (db, snapshot scope db)

-- A passing failure is shown as syncing, and is not written.
unfoldable pub transient : Text → Text → Database → Synced
transient scope message db =
    (db, record (snapshot scope db) { status = syncing; error = some message })

unfoldable pub fatal : Text → Text → Database → Synced
fatal scope message db = shown scope (set_fatal scope message db)

abbrev pub failed : Text → SyncError → Database → Synced
failed scope (integrity_error fault) db = fatal scope (fault_message fault) db
failed scope e db = transient scope (sync_message e) db

abbrev pub recovery_shown : Text → Outcome (Unit {0}) → Synced
recovery_shown scope (db, throw e) = failed scope e db
recovery_shown scope (db, ok u) = shown scope db

abbrev pub recovery_outcome : Text → Option (Outcome (Unit {0})) → Option Synced
recovery_outcome scope none = none
recovery_outcome scope (some o) = some (recovery_shown scope o)

-- After a page: the target, and the check of the release.
abbrev pub release_checked : Text → BookMeta → Database → Result SyncError (Unit {0}) → Synced
release_checked scope updated db (throw e) = failed scope e db
release_checked scope updated db (ok u) =
    shown scope (put_meta (record updated { release_verified = some true }) db)

abbrev pub target_read : Server → Text → EventsResponse → Database → Result SyncError ℤ → Synced
target_read server scope response db (throw e) = transient scope (sync_message e) db
target_read server scope response db (ok target) =
    let updated : BookMeta = record (meta_of scope db.meta) { target_sequence = target } in
    if not updated.initialized && leb response.latest_ledger updated.latest_ledger
    then fatal scope (codes "bookinit event not found in archival history") db
    else release_checked scope updated db (
        verify_release server.manifest server.contract_code updated.schema_version
          updated.vk_hashes)

abbrev pub first_page :
    Server → Text → EventsResponse → Database × Result BookError (Unit {0}) → Synced
first_page server scope response (db, throw e) = fatal scope (message_of e) db
first_page server scope response (db, ok u) =
    target_read server scope response db (read_book_sequence server.view)

abbrev pub range_error :
    Server → Text → Desk → ℕ → BookMeta → Text → Database → Option LedgerRange → Option Synced
range_error server scope desk fuel meta message db none = some (transient scope message db)
range_error server scope desk fuel meta message db (some range) =
    if is_nonempty meta.cursor
    then some (transient scope message db)
    else recovery_outcome scope (recover_live_book_index server scope desk range.oldest fuel db)

abbrev pub events_fetched :
    Server → Text → Desk → ℕ → BookMeta → Database → Response EventsResponse → Option Synced
events_fetched server scope desk fuel meta db (throw message) =
    range_error server scope desk fuel meta message db (parse_ledger_range message)
events_fetched server scope desk fuel meta db (ok response) = some (
    first_page server scope response
      (apply_book_event_page scope response.events response.cursor response.latest_ledger db))

-- `meta.cursor`, or the start ledger of the desk, of which 0 counts as absent.
abbrev pub first_fetch : Server → BookMeta → Option ℕ → Response EventsResponse
first_fetch server meta none =
    if is_nonempty meta.cursor
    then server.get_events 0 (start_of meta.cursor 0)
    else throw (codes "desk event start ledger is unavailable; re-import the contract")
first_fetch server meta (some ledger) =
    if not (is_nonempty meta.cursor) && ledger == 0
    then throw (codes "desk event start ledger is unavailable; re-import the contract")
    else server.get_events 0 (start_of meta.cursor ledger)

-- The fuel bounds the calls of a recovery, as in `recover_pages`.
unfoldable pub sync_book_index :
    Server → (mode network_passphrase : Text) → Desk → Option ℕ → ℕ → Database → Option Synced
sync_book_index server mode network_passphrase desk event_start_ledger fuel db =
    let scope = scope_of mode network_passphrase desk.contract_id in
    let meta = meta_of scope db.meta in
    if is_nonempty meta.fatal_error
    then some (shown scope db)
    else events_fetched server scope desk fuel meta db (first_fetch server meta event_start_ledger)
