-- ===== src/BookIndex/Reporting.antt =====
-- The sync status that a synchronisation reports, and the fatal error that it stores.
use stellar_mosaic.Prelude.{
  ◌≡◌, ◌≢◌, ◌<◌, refl, sym, ap, ◌∙◌, subst, inl, inr, true, not, ◌&&◌, some, List, ◌++◌, Bool-cases,
  Result, ok, throw, arith, or_value, length, length-append, leb,
}
use stellar_mosaic.Prelude.Int.{ℤ, eq_of_parts}
use stellar_mosaic.Text.{Text, codes}
use stellar_mosaic.ObjectStore.{put}
use stellar_mosaic.ObjectStore.Laws.{get-put}
use stellar_mosaic.BookIndex.{
  BookMeta, Database, BookError, before_bookinit, SyncError, book_error, integrity_error,
  request_failed, IntegrityFault, meta_key, meta_of, initial_meta,
}
use stellar_mosaic.BookIndex.Marks.{meta_of-scope}
use stellar_mosaic.BookIndex.Snapshot.{
  SyncStatus, syncing, synced, error, index_status, snapshot, set_fatal, put_meta, is_nonempty,
}
use stellar_mosaic.BookIndex.Live.{View, read_book_sequence}
use stellar_mosaic.BookIndex.Release.{verify_release}
use stellar_mosaic.BookIndex.Messages.{message_of, fault_message, sync_message}
use stellar_mosaic.BookIndex.Sync.{
  Server, EventsResponse, Synced, transient, fatal, failed, release_checked, target_read,
  first_page,
}

pub meta_of-put :
    (scope : Text) (m : BookMeta) (metas : List BookMeta)
    → m.scope ≡ scope
    → meta_of scope (put meta_key m metas) ≡ m
meta_of-put scope m metas e =
    subst (λ s. meta_of s (put meta_key m metas) ≡ m) e
      (ap (λ o. or_value o (initial_meta m.scope)) (get-put meta_key m metas))

text_behind : (s t : Text) → 0 < length t → is_nonempty (some (s ++ t)) ≡ true
text_behind s t h = ground (arith, length-append s t)

pub has_message : (e : BookError) → is_nonempty (some (message_of e)) ≡ true
unfolding message_of
has_message (before_bookinit topic) =
    text_behind (codes topic) (codes " before bookinit") (ground arith)
has_message e = ground arith

pub has_fault_message : (f : IntegrityFault) → is_nonempty (some (fault_message f)) ≡ true
unfolding fault_message
has_fault_message f = ground arith

-- A row that is put, as the snapshot then shows it.
pub snapshot-put_meta :
    (scope : Text) (m : BookMeta) (db : Database)
    → m.scope ≡ scope
    → ((snapshot scope (put_meta m db)).status ≡ index_status m)
      × ((snapshot scope (put_meta m db)).last_sequence ≡ m.last_sequence)
unfolding snapshot
snapshot-put_meta scope m db e =
    let row = meta_of-put scope m db.meta e in (ap index_status row, ap (λ r. r.last_sequence) row)

pub fatal_status : (m : BookMeta) → is_nonempty m.fatal_error ≡ true → index_status m ≡ error
fatal_status m h = rw h refl

pub syncing_ne_synced : ◌≢◌ {A = SyncStatus} syncing synced
syncing_ne_synced h = cc

pub error_ne_synced : ◌≢◌ {A = SyncStatus} error synced
error_ne_synced h = cc

status-set_fatal :
    (scope message : Text) (db : Database)
    → is_nonempty (some message) ≡ true
    → (snapshot scope (set_fatal scope message db)).status ≡ error
unfolding set_fatal
status-set_fatal scope message db h =
    let row : BookMeta = record (meta_of scope db.meta) { fatal_error = some message } in
    let (s, l) = snapshot-put_meta scope row db (meta_of-scope scope db.meta) in
    s ∙ fatal_status row h

-- What a synced status says of a row.
pub synced_row : (m : BookMeta) → index_status m ≡ synced → m.last_sequence ≡ m.target_sequence
synced_row m h = eq_of_parts m.last_sequence m.target_sequence (ground arith)

-- A report of synced says that the sequence of the index is the one that the contract gave.
abbrev pub IsReport : View → Synced → Type 0
IsReport view (db, shown_index) =
    shown_index.status ≡ synced → read_book_sequence view ≡ ok shown_index.last_sequence

pub transient-IsReport :
    (view : View) (scope message : Text) (db : Database)
    → IsReport view (transient scope message db)
unfolding transient
transient-IsReport view scope message db h = absurd (syncing_ne_synced h)

pub fatal-IsReport :
    (view : View) (scope message : Text) (db : Database)
    → is_nonempty (some message) ≡ true
    → IsReport view (fatal scope message db)
unfolding fatal
fatal-IsReport view scope message db e h =
    absurd (error_ne_synced (sym (status-set_fatal scope message db e) ∙ h))

pub failed-IsReport :
    (view : View) (scope : Text) (e : SyncError) (db : Database) → IsReport view (failed scope e db)
failed-IsReport view scope (book_error e) db = transient-IsReport view scope (message_of e) db
failed-IsReport view scope (integrity_error f) db =
    fatal-IsReport view scope (fault_message f) db (has_fault_message f)
failed-IsReport view scope (request_failed message) db = transient-IsReport view scope message db

release_checked-IsReport :
    (view : View) (scope : Text) (updated : BookMeta) (db : Database)
    (r : Result SyncError (Unit {0}))
    → updated.scope ≡ scope
    → read_book_sequence view ≡ ok updated.target_sequence
    → IsReport view (release_checked scope updated db r)
release_checked-IsReport view scope updated db (throw e) s h k = failed-IsReport view scope e db k
release_checked-IsReport view scope updated db (ok u) s h k =
    let row : BookMeta = record updated { release_verified = some true } in
    let (status, last) = snapshot-put_meta scope row db s in
    let same = synced_row row (sym status ∙ k) in h ∙ ap ok (sym same ∙ sym last)

target_read-IsReport :
    (server : Server) (scope : Text) (response : EventsResponse) (db : Database)
    (r : Result SyncError ℤ)
    → read_book_sequence server.view ≡ r
    → IsReport server.view (target_read server scope response db r)
target_read-IsReport server scope response db (throw e) h =
    transient-IsReport server.view scope (sync_message e) db
target_read-IsReport server scope response db (ok target) h =
    let updated : BookMeta = record (meta_of scope db.meta) { target_sequence = target } in
    elim (Bool-cases
      (not updated.initialized && leb response.latest_ledger updated.latest_ledger)) [
        | inl e ↦ rw e (
            fatal-IsReport server.view scope (codes "bookinit event not found in archival history")
              db refl)
        | inr e ↦ rw e (
            release_checked-IsReport server.view scope updated db
              (verify_release server.manifest server.contract_code updated.schema_version
                updated.vk_hashes)
              (meta_of-scope scope db.meta) h)
      ]

pub first_page-IsReport :
    (server : Server) (scope : Text) (response : EventsResponse)
    (o : Database × Result BookError (Unit {0}))
    → IsReport server.view (first_page server scope response o)
first_page-IsReport server scope response (db, throw e) =
    fatal-IsReport server.view scope (message_of e) db (has_message e)
first_page-IsReport server scope response (db, ok u) =
    target_read-IsReport server scope response db (read_book_sequence server.view) refl
