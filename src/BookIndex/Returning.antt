-- ===== src/BookIndex/Returning.antt =====
-- The return of a recovery: the pages of the server, the fuel and the results.
use stellar_mosaic.Prelude.{
  ℕ, zero, suc, ◌+◌, ◌≡◌, ◌≢◌, refl, sym, ◌∙◌, subst, inl, inr, false, Option, none, some, ◌==◌,
  Bool-cases, Result, ok, throw, arith, length, some_ne_none,
}
use stellar_mosaic.Text.{Text}
use stellar_mosaic.LedgerRange.{LedgerRange, parse_ledger_range}
use stellar_mosaic.BookIndex.{
  BookMeta, Database, BookError, SyncError, book_error, request_failed, meta_of, scope_of,
}
use stellar_mosaic.BookIndex.Reduce.{apply_book_event_page}
use stellar_mosaic.BookIndex.Snapshot.{is_nonempty}
use stellar_mosaic.BookIndex.Live.{Desk}
use stellar_mosaic.BookIndex.Release.{Response}
use stellar_mosaic.BookIndex.Sync.{
  Server, Start, EventsResponse, Outcome, transient, first_page, recovery_shown, recovery_outcome,
  recovered, recover_live_book_index, recover_pages, page_applied, page_fetched, range_error,
  events_fetched, first_fetch, sync_book_index, LiveIndex, read_live_index, write_live, start_of,
  shown,
}

-- The answer of a call that the loop ends with: an error, or a page that is not full.
abbrev pub IsLast : Response EventsResponse → Type 0
IsLast (throw message) = Unit
IsLast (ok response) = (length response.events == 1000) ≡ false

page_applied_returns :
    (more : EventsResponse → Database → Option (Outcome (Unit {0}))) (response : EventsResponse)
    (p : Database × Result BookError (Unit {0}))
    → (length response.events == 1000) ≡ false
    → page_applied more response p ≢ none
page_applied_returns more response (db, throw e) h k = some_ne_none (db, throw (book_error e)) k
page_applied_returns more response (db, ok u) h k = some_ne_none (db, ok tt) (sym (rw h refl) ∙ k)

page_fetched_returns :
    (scope : Text) (more : EventsResponse → Database → Option (Outcome (Unit {0}))) (db : Database)
    (r : Response EventsResponse)
    → IsLast r
    → page_fetched scope more db r ≢ none
page_fetched_returns scope more db (throw e) h k = some_ne_none (db, throw (request_failed e)) k
page_fetched_returns scope more db (ok response) h k =
    page_applied_returns more response
      (apply_book_event_page scope response.events response.cursor response.latest_ledger db) h k

module _ (more : EventsResponse → Database → Option (Outcome (Unit {0})))
    (returns : (response : EventsResponse) (db : Database) → more response db ≢ none) where
  page_applied_continues :
      (response : EventsResponse) (p : Database × Result BookError (Unit {0}))
      → page_applied more response p ≢ none
  page_applied_continues response (db, throw e) k = some_ne_none (db, throw (book_error e)) k
  page_applied_continues response (db, ok u) k =
      elim (Bool-cases (length response.events == 1000)) [
        | inl e ↦ returns response db (sym (rw e refl) ∙ k)
        | inr e ↦ page_applied_returns more response (db, ok u) e k
      ]

  page_fetched_continues :
      (scope : Text) (db : Database) (r : Response EventsResponse)
      → page_fetched scope more db r ≢ none
  page_fetched_continues scope db (throw e) k = some_ne_none (db, throw (request_failed e)) k
  page_fetched_continues scope db (ok response) k =
      page_applied_continues response
        (apply_book_event_page scope response.events response.cursor response.latest_ledger db) k

-- The fuel counts the calls up to the last one.
recover_pages-returns :
    (server : Server) (scope : Text) (oldest rest call : ℕ) (cursor : Option Text) (db : Database)
    → ((start : Start) → IsLast (server.get_events (call + rest) start))
    → recover_pages server scope oldest (suc rest) call cursor db ≢ none
unfolding recover_pages
recover_pages-returns server scope oldest zero call cursor db h =
    page_fetched_returns scope
      (λ response. recover_pages server scope oldest zero (suc call) (some response.cursor)) db
      (server.get_events call (start_of cursor oldest))
      (subst (λ n. IsLast (server.get_events n (start_of cursor oldest))) (omega arith)
        (h (start_of cursor oldest)))
recover_pages-returns server scope oldest (suc rest) call cursor db h =
    page_fetched_continues
      (λ response. recover_pages server scope oldest (suc rest) (suc call) (some response.cursor))
      (λ response later.
        recover_pages-returns server scope oldest rest (suc call) (some response.cursor) later
          (λ start. subst (λ n. IsLast (server.get_events n start)) (omega arith) (h start)))
      scope db (server.get_events call (start_of cursor oldest))

recovered_returns :
    (server : Server) (scope : Text) (oldest rest : ℕ) (db : Database)
    (r : Result SyncError LiveIndex)
    → ((start : Start) → IsLast (server.get_events (suc rest) start))
    → recovered server scope oldest (suc rest) db r ≢ none
recovered_returns server scope oldest rest db (throw e) h k = some_ne_none (db, throw e) k
recovered_returns server scope oldest rest db (ok live) h k =
    recover_pages-returns server scope oldest rest 1 none (write_live scope live db)
      (λ start. subst (λ n. IsLast (server.get_events n start)) (omega arith) (h start)) k

outcome_returns :
    (scope : Text) (o : Option (Outcome (Unit {0}))) → o ≢ none → recovery_outcome scope o ≢ none
outcome_returns scope none h k = h refl
outcome_returns scope (some o) h k = some_ne_none (recovery_shown scope o) k

recovery_returns :
    (server : Server) (scope : Text) (desk : Desk) (oldest rest : ℕ) (db : Database)
    → ((start : Start) → IsLast (server.get_events (suc rest) start))
    → recovery_outcome scope (recover_live_book_index server scope desk oldest (suc rest) db) ≢ none
unfolding recover_live_book_index
recovery_returns server scope desk oldest rest db h =
    outcome_returns scope
      (recovered server scope oldest (suc rest) db (read_live_index server scope desk))
      (recovered_returns server scope oldest rest db (read_live_index server scope desk) h)

range_error_returns :
    (server : Server) (scope : Text) (desk : Desk) (rest : ℕ) (meta : BookMeta) (message : Text)
    (db : Database) (range : Option LedgerRange)
    → ((start : Start) → IsLast (server.get_events (suc rest) start))
    → range_error server scope desk (suc rest) meta message db range ≢ none
range_error_returns server scope desk rest meta message db none h k =
    some_ne_none (transient scope message db) k
range_error_returns server scope desk rest meta message db (some range) h k =
    elim (Bool-cases (is_nonempty meta.cursor)) [
      | inl e ↦ some_ne_none (transient scope message db) (sym (rw e refl) ∙ k)
      | inr e ↦ recovery_returns server scope desk range.oldest rest db h (sym (rw e refl) ∙ k)
    ]

events_fetched_returns :
    (server : Server) (scope : Text) (desk : Desk) (rest : ℕ) (meta : BookMeta) (db : Database)
    (r : Response EventsResponse)
    → ((start : Start) → IsLast (server.get_events (suc rest) start))
    → events_fetched server scope desk (suc rest) meta db r ≢ none
events_fetched_returns server scope desk rest meta db (throw message) h k =
    range_error_returns server scope desk rest meta message db (parse_ledger_range message) h k
events_fetched_returns server scope desk rest meta db (ok response) h k =
    some_ne_none
      (first_page server scope response
        (apply_book_event_page scope response.events response.cursor response.latest_ledger db))
      k

-- A synchronisation returns, with fuel n + 1, if call n + 1 of `getEvents` would give an error or a
-- page that does not hold 1000 events, wherever it starts.
pub sync_book_index-returns :
    (server : Server) (mode network_passphrase : Text) (desk : Desk) (event_start_ledger : Option ℕ)
    (n : ℕ) (db : Database)
    → ((start : Start) → IsLast (server.get_events (suc n) start))
    → sync_book_index server mode network_passphrase desk event_start_ledger (suc n) db ≢ none
unfolding sync_book_index
sync_book_index-returns server mode network_passphrase desk event_start_ledger n db h k =
    let scope = scope_of mode network_passphrase desk.contract_id in
    let meta = meta_of scope db.meta in
    elim (Bool-cases (is_nonempty meta.fatal_error)) [
      | inl e ↦ some_ne_none (shown scope db) (sym (rw e refl) ∙ k)
      | inr e ↦
          events_fetched_returns server scope desk n meta db
            (first_fetch server meta event_start_ledger) h (sym (rw e refl) ∙ k)
    ]
