-- ===== src/BookIndex/Fatal.antt =====
-- Lemmas on a stored fatal error and the later synchronisations.
use stellar_mosaic.Prelude.{
  ℕ, ◌≡◌, ◌≢◌, ◌⊎◌, refl, sym, ap, ◌∙◌, subst, inl, inr, true, not, ◌&&◌, Option, none, some,
  Bool-cases, Result, ok, throw, arith, leb, some_inj, none_ne_some,
}
use stellar_mosaic.Prelude.Int.{ℤ}
use stellar_mosaic.Text.{Text, codes}
use stellar_mosaic.LedgerRange.{LedgerRange, parse_ledger_range}
use stellar_mosaic.BookIndex.{
  BookMeta, Database, BookError, SyncError, book_error, integrity_error, request_failed, meta_of,
  scope_of,
}
use stellar_mosaic.BookIndex.Reduce.{apply_book_event_page}
use stellar_mosaic.BookIndex.Snapshot.{
  BookIndexSnapshot, SyncStatus, syncing, error, index_status, snapshot, is_nonempty,
}
use stellar_mosaic.BookIndex.Live.{read_book_sequence, Desk}
use stellar_mosaic.BookIndex.Release.{Response, verify_release}
use stellar_mosaic.BookIndex.Messages.{message_of, fault_message, sync_message}
use stellar_mosaic.BookIndex.Sync.{
  Server, EventsResponse, Synced, Outcome, transient, fatal, failed, release_checked, target_read,
  first_page, recovery_outcome, recover_live_book_index, range_error, events_fetched, first_fetch,
  sync_book_index, shown,
}

-- What is reported is the index as it is stored, or a passing failure.
abbrev IsShown : Text → Synced → Type 0
IsShown scope (db, index) = (index ≡ snapshot scope db) ⊎ (index.status ≡ syncing)

transient-IsShown :
    (scope message : Text) (db : Database) → IsShown scope (transient scope message db)
unfolding transient
transient-IsShown scope message db = inr refl

fatal-IsShown : (scope message : Text) (db : Database) → IsShown scope (fatal scope message db)
unfolding fatal
fatal-IsShown scope message db = inl refl

failed-IsShown : (scope : Text) (e : SyncError) (db : Database) → IsShown scope (failed scope e db)
failed-IsShown scope (book_error e) db = transient-IsShown scope (message_of e) db
failed-IsShown scope (integrity_error f) db = fatal-IsShown scope (fault_message f) db
failed-IsShown scope (request_failed message) db = transient-IsShown scope message db

release_checked-IsShown :
    (scope : Text) (updated : BookMeta) (db : Database) (r : Result SyncError (Unit {0}))
    → IsShown scope (release_checked scope updated db r)
release_checked-IsShown scope updated db (throw e) = failed-IsShown scope e db
release_checked-IsShown scope updated db (ok u) = inl refl

target_read-IsShown :
    (server : Server) (scope : Text) (response : EventsResponse) (db : Database)
    (r : Result SyncError ℤ)
    → IsShown scope (target_read server scope response db r)
target_read-IsShown server scope response db (throw e) = transient-IsShown scope (sync_message e) db
target_read-IsShown server scope response db (ok target) =
    let updated : BookMeta = record (meta_of scope db.meta) { target_sequence = target } in
    elim (Bool-cases
      (not updated.initialized && leb response.latest_ledger updated.latest_ledger)) [
        | inl e ↦
            rw e (fatal-IsShown scope (codes "bookinit event not found in archival history") db)
        | inr e ↦ rw e (
            release_checked-IsShown scope updated db (
              verify_release server.manifest server.contract_code updated.schema_version
                updated.vk_hashes))
      ]

first_page-IsShown :
    (server : Server) (scope : Text) (response : EventsResponse)
    (o : Database × Result BookError (Unit {0}))
    → IsShown scope (first_page server scope response o)
first_page-IsShown server scope response (db, throw e) = fatal-IsShown scope (message_of e) db
first_page-IsShown server scope response (db, ok u) =
    target_read-IsShown server scope response db (read_book_sequence server.view)

outcome_IsShown :
    (scope : Text) (o : Option (Outcome (Unit {0}))) (s : Synced)
    → recovery_outcome scope o ≡ some s
    → IsShown scope s
outcome_IsShown scope none s h = absurd (none_ne_some h)
outcome_IsShown scope (some (db, throw e)) s h =
    subst (IsShown scope) (some_inj h) (failed-IsShown scope e db)
outcome_IsShown scope (some (db, ok u)) s h = subst (IsShown scope) (some_inj h) (inl refl)

range_error-IsShown :
    (server : Server) (scope : Text) (desk : Desk) (fuel : ℕ) (meta : BookMeta) (message : Text)
    (db : Database) (range : Option LedgerRange) (s : Synced)
    → range_error server scope desk fuel meta message db range ≡ some s
    → IsShown scope s
range_error-IsShown server scope desk fuel meta message db none s h =
    subst (IsShown scope) (some_inj h) (transient-IsShown scope message db)
range_error-IsShown server scope desk fuel meta message db (some range) s h =
    elim (Bool-cases (is_nonempty meta.cursor)) [
      | inl e ↦
          let x : ◌≡◌ {A = Option Synced} (some (transient scope message db)) (some s) =
            sym (rw e refl) ∙ h in
          subst (IsShown scope) (some_inj x) (transient-IsShown scope message db)
      | inr e ↦
          outcome_IsShown scope (recover_live_book_index server scope desk range.oldest fuel db) s
            (sym (rw e refl) ∙ h)
    ]

events_fetched-IsShown :
    (server : Server) (scope : Text) (desk : Desk) (fuel : ℕ) (meta : BookMeta) (db : Database)
    (r : Response EventsResponse) (s : Synced)
    → events_fetched server scope desk fuel meta db r ≡ some s
    → IsShown scope s
events_fetched-IsShown server scope desk fuel meta db (throw message) s h =
    range_error-IsShown server scope desk fuel meta message db (parse_ledger_range message) s h
events_fetched-IsShown server scope desk fuel meta db (ok response) s h =
    subst (IsShown scope) (some_inj h) (
      first_page-IsShown server scope response
        (apply_book_event_page scope response.events response.cursor response.latest_ledger db))

sync_book_index-IsShown :
    (server : Server) (mode network_passphrase : Text) (desk : Desk) (event_start_ledger : Option ℕ)
    (fuel : ℕ) (db : Database) (s : Synced)
    → sync_book_index server mode network_passphrase desk event_start_ledger fuel db ≡ some s
    → IsShown (scope_of mode network_passphrase desk.contract_id) s
unfolding sync_book_index
sync_book_index-IsShown server mode network_passphrase desk event_start_ledger fuel db s h =
    let scope = scope_of mode network_passphrase desk.contract_id in
    let meta = meta_of scope db.meta in
    elim (Bool-cases (is_nonempty meta.fatal_error)) [
      | inl e ↦
          let x : ◌≡◌ {A = Option Synced} (some (shown scope db)) (some s) = sym (rw e refl) ∙ h in
          subst (IsShown scope) (some_inj x) (inl refl)
      | inr e ↦
          events_fetched-IsShown server scope desk fuel meta db
            (first_fetch server meta event_start_ledger) s (sym (rw e refl) ∙ h)
    ]

error_row : (m : BookMeta) → index_status m ≡ error → is_nonempty m.fatal_error ≡ true
error_row m h = ground arith

stored_error :
    (scope : Text) (db : Database)
    → (snapshot scope db).status ≡ error
    → is_nonempty (meta_of scope db.meta).fatal_error ≡ true
unfolding snapshot
stored_error scope db h = error_row (meta_of scope db.meta) h

syncing_ne_error : ◌≢◌ {A = SyncStatus} syncing error
syncing_ne_error h = cc

-- After a synchronisation that reports the status error, every later one of the same desk, whatever
-- the server answers and with any fuel, reports the same index and leaves the database as it is.
pub sync_book_index_fatal :
    (server next : Server) (mode network_passphrase : Text) (desk : Desk)
    (event_start_ledger next_start_ledger : Option ℕ) (fuel next_fuel : ℕ) (db later : Database)
    (index : BookIndexSnapshot)
    → sync_book_index server mode network_passphrase desk event_start_ledger fuel db
      ≡ some (later, index)
    → index.status ≡ error
    → sync_book_index next mode network_passphrase desk next_start_ledger next_fuel later
      ≡ some (later, index)
unfolding sync_book_index
sync_book_index_fatal server next mode network_passphrase desk event_start_ledger next_start_ledger
      fuel next_fuel db later index h k =
    let scope = scope_of mode network_passphrase desk.contract_id in
    elim (sync_book_index-IsShown server mode network_passphrase desk event_start_ledger fuel db
      (later, index) h) [
        | inl e ↦
            let stored = stored_error scope later (ap (λ i. i.status) (sym e) ∙ k) in
            rw stored (ap (λ i. some (later, i)) (sym e))
        | inr e ↦ absurd (syncing_ne_error (sym e ∙ k))
      ]
