-- ===== src/BookIndex/Synced.antt =====
-- The sequence of the index and that of the contract after a synchronisation.
use stellar_mosaic.Prelude.{
  ℕ, zero, suc, ◌≡◌, refl, sym, ap, ◌∙◌, subst, inl, inr, Option, none, some, List, ◌==◌,
  Bool-cases, Result, ok, throw, arith, length, some_inj, none_ne_some,
}
use stellar_mosaic.Prelude.Int.{ℤ}
use stellar_mosaic.Text.{Text}
use stellar_mosaic.LedgerRange.{LedgerRange, parse_ledger_range}
use stellar_mosaic.BookIndex.{
  BookMeta, Database, BookEvent, BookError, SyncError, meta_of, scope_of,
}
use stellar_mosaic.BookIndex.Handlers.{PageState}
use stellar_mosaic.BookIndex.Reduce.{apply_events, start, commit, apply_book_event_page}
use stellar_mosaic.BookIndex.Marks.{apply_events-Advances, meta_of-scope, started}
use stellar_mosaic.BookIndex.Snapshot.{
  BookIndexSnapshot, synced, index_status, snapshot, is_nonempty, write_live_snapshot, live_meta,
  clear_scope,
}
use stellar_mosaic.BookIndex.Live.{View, read_book_sequence, Desk}
use stellar_mosaic.BookIndex.Release.{Response}
use stellar_mosaic.BookIndex.Sync.{
  Server, EventsResponse, Synced, Outcome, transient, recovery_outcome, recovered,
  recover_live_book_index, recover_pages, page_applied, page_fetched, range_error, events_fetched,
  first_fetch, sync_book_index, LiveIndex, read_live_index, write_live, start_of, shown,
}
use stellar_mosaic.BookIndex.Reporting.{
  IsReport, meta_of-put, synced_row, failed-IsReport, transient-IsReport, first_page-IsReport,
  error_ne_synced, fatal_status,
}

-- A page keeps the target.
abbrev target_in : Text → Database → ℤ
target_in scope db = (meta_of scope db.meta).target_sequence

commit_target :
    (scope cursor : Text) (events : List BookEvent) (latest_ledger : ℕ) (db : Database)
    (r : Result BookError PageState)
    → apply_events scope events (start scope db) ≡ r
    → target_in scope (commit db cursor latest_ledger r).0 ≡ target_in scope db
commit_target scope cursor events latest_ledger db (throw e) h = refl
commit_target scope cursor events latest_ledger db (ok st) h =
    let (m, s, d) = apply_events-Advances scope events (start scope db) st h in
    let e : st.meta.scope ≡ scope = ap (λ k. k.0) s ∙ meta_of-scope scope db.meta in
    let row = meta_of-put scope (started cursor latest_ledger st) st.stores.meta e in
    ap (λ r. r.target_sequence) row ∙ ap (λ k. k.1) s

page_target :
    (scope : Text) (response : EventsResponse) (db : Database)
    → target_in scope
        (apply_book_event_page scope response.events response.cursor response.latest_ledger db).0
      ≡ target_in scope db
unfolding apply_book_event_page
page_target scope response db =
    commit_target scope response.cursor response.events response.latest_ledger db
      (apply_events scope response.events (start scope db)) refl

live_sequence :
    (server : Server) (scope : Text) (desk : Desk) (live : LiveIndex)
    → read_live_index server scope desk ≡ ok live
    → read_book_sequence server.view ≡ ok live.sequence
unfolding read_live_index
live_sequence server scope desk live h = ground arith

live_target :
    (scope : Text) (live : LiveIndex) (db : Database)
    → target_in scope (write_live scope live db) ≡ live.sequence
unfolding write_live_snapshot
live_target scope live db =
    ap (λ r. r.target_sequence)
      (meta_of-put scope (live_meta scope live.protocol live.sequence) (clear_scope scope db).meta
        refl)

module _ (scope : Text) (more : EventsResponse → Database → Option (Outcome (Unit {0})))
    (keeps : (response : EventsResponse) (db : Database) (o : Outcome (Unit {0}))
      → more response db ≡ some o
      → target_in scope o.0 ≡ target_in scope db) where
  page_applied_target :
      (response : EventsResponse) (p : Database × Result BookError (Unit {0}))
      (o : Outcome (Unit {0}))
      → page_applied more response p ≡ some o
      → target_in scope o.0 ≡ target_in scope p.0
  page_applied_target response (db, throw e) o h = ap (λ x. target_in scope x.0) (sym (some_inj h))
  page_applied_target response (db, ok u) o h = elim (Bool-cases (length response.events == 1000)) [
    | inl e ↦ keeps response db o (sym (rw e refl) ∙ h)
    | inr e ↦
        let x : ◌≡◌ {A = Option (Outcome (Unit {0}))} (some (db, ok tt)) (some o) =
          sym (rw e refl) ∙ h in
        ap (λ x. target_in scope x.0) (sym (some_inj x))
  ]

  page_fetched_target :
      (db : Database) (r : Response EventsResponse) (o : Outcome (Unit {0}))
      → page_fetched scope more db r ≡ some o
      → target_in scope o.0 ≡ target_in scope db
  page_fetched_target db (throw e) o h = ap (λ x. target_in scope x.0) (sym (some_inj h))
  page_fetched_target db (ok response) o h =
      page_applied_target response
        (apply_book_event_page scope response.events response.cursor response.latest_ledger db) o h
      ∙ page_target scope response db

recover_pages_target :
    (server : Server) (scope : Text) (oldest fuel call : ℕ) (cursor : Option Text) (db : Database)
    (o : Outcome (Unit {0}))
    → recover_pages server scope oldest fuel call cursor db ≡ some o
    → target_in scope o.0 ≡ target_in scope db
unfolding recover_pages
recover_pages_target server scope oldest zero call cursor db o h = absurd (none_ne_some h)
recover_pages_target server scope oldest (suc fuel) call cursor db o h =
    page_fetched_target scope
      (λ response. recover_pages server scope oldest fuel (suc call) (some response.cursor))
      (λ response. recover_pages_target server scope oldest fuel (suc call) (some response.cursor))
      db (server.get_events call (start_of cursor oldest)) o h

-- A recovery that ends without an error leaves the sequence of the contract as the target.
recovered_target :
    (server : Server) (scope : Text) (desk : Desk) (oldest fuel : ℕ) (db : Database)
    (r : Result SyncError LiveIndex)
    → read_live_index server scope desk ≡ r
    → (later : Database) → recovered server scope oldest fuel db r ≡ some (later, ok tt)
    → read_book_sequence server.view ≡ ok (target_in scope later)
recovered_target server scope desk oldest fuel db (throw e) g later h = absurd (cc)
recovered_target server scope desk oldest fuel db (ok live) g later h =
    live_sequence server scope desk live g
    ∙ ap ok (
        sym (
          recover_pages_target server scope oldest fuel 1 none (write_live scope live db)
            (later, ok tt) h
          ∙ live_target scope live db))

shown_status :
    (scope : Text) (db : Database)
    → (snapshot scope db).status ≡ synced
    → index_status (meta_of scope db.meta) ≡ synced
unfolding snapshot
shown_status scope db h = h

shown-IsReport :
    (view : View) (scope : Text) (db : Database)
    → read_book_sequence view ≡ ok (target_in scope db)
    → IsReport view (shown scope db)
unfolding snapshot
shown-IsReport view scope db h k = h ∙ ap ok (sym (synced_row (meta_of scope db.meta) k))

-- The report of a recovery, from its outcome.
recovery_IsReport :
    (server : Server) (scope : Text) (desk : Desk) (oldest fuel : ℕ) (db : Database)
    (o : Option (Outcome (Unit {0}))) (s : Synced)
    → recover_live_book_index server scope desk oldest fuel db ≡ o
    → recovery_outcome scope o ≡ some s
    → IsReport server.view s
unfolding recover_live_book_index
recovery_IsReport server scope desk oldest fuel db none s g h = absurd (none_ne_some h)
recovery_IsReport server scope desk oldest fuel db (some (later, throw e)) s g h =
    subst (IsReport server.view) (some_inj h) (failed-IsReport server.view scope e later)
recovery_IsReport server scope desk oldest fuel db (some (later, ok u)) s g h =
    subst (IsReport server.view) (some_inj h) (λ k.
      shown-IsReport server.view scope later
        (recovered_target server scope desk oldest fuel db (read_live_index server scope desk) refl
          later g)
        k)

range_error-IsReport :
    (server : Server) (scope : Text) (desk : Desk) (fuel : ℕ) (meta : BookMeta) (message : Text)
    (db : Database) (range : Option LedgerRange) (s : Synced)
    → range_error server scope desk fuel meta message db range ≡ some s
    → IsReport server.view s
range_error-IsReport server scope desk fuel meta message db none s h =
    subst (IsReport server.view) (some_inj h) (transient-IsReport server.view scope message db)
range_error-IsReport server scope desk fuel meta message db (some range) s h =
    elim (Bool-cases (is_nonempty meta.cursor)) [
      | inl e ↦
          let x : ◌≡◌ {A = Option Synced} (some (transient scope message db)) (some s) =
            sym (rw e refl) ∙ h in
          subst (IsReport server.view) (some_inj x)
            (transient-IsReport server.view scope message db)
      | inr e ↦
          recovery_IsReport server scope desk range.oldest fuel db
            (recover_live_book_index server scope desk range.oldest fuel db) s refl
            (sym (rw e refl) ∙ h)
    ]

events_fetched-IsReport :
    (server : Server) (scope : Text) (desk : Desk) (fuel : ℕ) (meta : BookMeta) (db : Database)
    (r : Response EventsResponse) (s : Synced)
    → events_fetched server scope desk fuel meta db r ≡ some s
    → IsReport server.view s
events_fetched-IsReport server scope desk fuel meta db (throw message) s h =
    range_error-IsReport server scope desk fuel meta message db (parse_ledger_range message) s h
events_fetched-IsReport server scope desk fuel meta db (ok response) s h =
    subst (IsReport server.view) (some_inj h) (
      first_page-IsReport server scope response
        (apply_book_event_page scope response.events response.cursor response.latest_ledger db))

-- A synchronisation that returns with the status synced shows the sequence number that the contract
-- gave for its book in that call; it returns none otherwise, whatever the server answered.
pub sync_book_index-synced :
    (server : Server) (mode network_passphrase : Text) (desk : Desk) (event_start_ledger : Option ℕ)
    (fuel : ℕ) (db later : Database) (index : BookIndexSnapshot)
    → sync_book_index server mode network_passphrase desk event_start_ledger fuel db
      ≡ some (later, index)
    → index.status ≡ synced
    → read_book_sequence server.view ≡ ok index.last_sequence
unfolding sync_book_index
sync_book_index-synced server mode network_passphrase desk event_start_ledger fuel db later index
      h =
    let scope = scope_of mode network_passphrase desk.contract_id in
    let meta = meta_of scope db.meta in
    elim (Bool-cases (is_nonempty meta.fatal_error)) [
      | inl e ↦
          let x : ◌≡◌ {A = Option Synced} (some (shown scope db)) (some (later, index)) =
            sym (rw e refl) ∙ h in
          subst (IsReport server.view) (some_inj x)
            (λ k. absurd (error_ne_synced (sym (fatal_status meta e) ∙ shown_status scope db k)))
      | inr e ↦
          events_fetched-IsReport server scope desk fuel meta db
            (first_fetch server meta event_start_ledger) (later, index) (sym (rw e refl) ∙ h)
    ]
