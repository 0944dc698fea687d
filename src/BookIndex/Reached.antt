-- ===== src/BookIndex/Reached.antt =====
-- The sequence numbers of the order events of a page, and the sequence of the index after it.
use stellar_mosaic.Prelude.{◌≡◌, false, List, All, ok, ◌≢◌}
use stellar_mosaic.Prelude.Int.{ℤ}
use stellar_mosaic.Text.{Text, codes}
use stellar_mosaic.ChainValue.{Native, at}
use stellar_mosaic.ObjectStore.{get}
use stellar_mosaic.BookIndex.{BookEvent, processed_id_of, processed_key, topic, fields, bigint}
use stellar_mosaic.BookIndex.Handlers.{PageState}
use stellar_mosaic.BookIndex.Reduce.{is_marked}
use stellar_mosaic.BookIndex.Book.{Book}

-- An event that puts or removes an order, with its sequence number.
pub data IsOrderEvent (event : BookEvent) (sequence : ℤ) : Type 0 where
  upserts :
      (f : List Native)
      → topic event ≡ ok (codes "ordupsert")
      → fields event.value 12 ≡ ok f
      → bigint (at f 0) "book sequence" ≡ ok sequence
      → IsOrderEvent event sequence
  removes :
      (f : List Native)
      → topic event ≡ ok (codes "ordremove")
      → fields event.value 5 ≡ ok f
      → bigint (at f 0) "book sequence" ≡ ok sequence
      → IsOrderEvent event sequence

-- No mark under a key.
abbrev pub IsUnmarked : Text → PageState → Type 0
IsUnmarked k st = is_marked (get processed_id_of k st.stores.processed) ≡ false

-- None of the events has the key of this one.
abbrev pub AreOthers : Text → BookEvent → List BookEvent → Type 0
AreOthers scope event events = All (λ e. processed_key scope e ≢ processed_key scope event) events
