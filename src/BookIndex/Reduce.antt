-- ===== src/BookIndex/Reduce.antt =====
-- `applyBookEventPage`: one page of events and its cursor, as one transaction.
use stellar_mosaic.Prelude.{
  ℕ, Bool, true, false, Option, none, some, List, [], ◌∷◌, if◌then◌else◌, Result, ok, throw, ◌>>=◌,
}
use stellar_mosaic.Text.{Text}
use stellar_mosaic.ObjectStore.{get, put}
use stellar_mosaic.BookIndex.{
  ProcessedEvent, Database, BookEvent, BookError, meta_key, processed_id_of, processed_key, topic,
  meta_of,
}
use stellar_mosaic.BookIndex.Handlers.{PageState, Handler, handler}

abbrev pub mark : Text → BookEvent → PageState → PageState
mark scope event st = record st {
  stores = record st.stores {
    processed =
        put processed_id_of (record { id = processed_key scope event; scope = scope })
          st.stores.processed;
  };
}

-- An event that has been handled is marked; the `continue` of an unknown topic leaves no mark.
abbrev pub handle : Text → BookEvent → Option Handler → PageState → Result BookError PageState
handle scope event none st = ok st
handle scope event (some f) st = do next ← f event.value st; ok (mark scope event next)

abbrev pub is_marked : Option ProcessedEvent → Bool
is_marked none = false
is_marked (some p) = true

-- One turn of the loop.
unfoldable pub apply_event : Text → BookEvent → PageState → Result BookError PageState
apply_event scope event st =
    if is_marked (get processed_id_of (processed_key scope event) st.stores.processed)
    then ok st
    else do name ← topic event; handle scope event (handler scope name) st

unfoldable pub apply_events : Text → List BookEvent → PageState → Result BookError PageState
apply_events scope [] st = ok st
apply_events scope (event ∷ events) st = do
  next ← apply_event scope event st
  apply_events scope events next

abbrev pub start : Text → Database → PageState
start scope db = record {
  stores = db;
  meta = meta_of scope db.meta;
  sequence = (meta_of scope db.meta).last_sequence;
}

-- The row of the scope is written at the end.
abbrev pub finish : Text → ℕ → PageState → Database
finish cursor latest_ledger st = record st.stores {
  meta =
      put meta_key
        (record st.meta {
          cursor = some cursor;
          last_sequence = st.sequence;
          latest_ledger = latest_ledger;
          fatal_error = none;
        })
        st.stores.meta;
}

-- A transaction that throws is aborted: the database is as it was, and the error is thrown again.
abbrev pub commit :
    Database → Text → ℕ → Result BookError PageState → Database × Result BookError (Unit {0})
commit db cursor latest_ledger (throw e) = (db, throw e)
commit db cursor latest_ledger (ok st) = (finish cursor latest_ledger st, ok tt)

unfoldable pub apply_book_event_page :
    Text → List BookEvent → Text → ℕ → Database → Database × Result BookError (Unit {0})
apply_book_event_page scope events cursor latest_ledger db =
    commit db cursor latest_ledger (apply_events scope events (start scope db))
