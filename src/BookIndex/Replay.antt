-- ===== src/BookIndex/Replay.antt =====
-- A page that has been applied, applied again.
use stellar_mosaic.Prelude.{
  ℕ, ◌≡◌, refl, ap, ◌∙◌, subst, inl, inr, List, [], ◌∷◌, Bool-cases, Result, ok, throw, All,
}
use stellar_mosaic.Text.{Text}
use stellar_mosaic.ObjectStore.{get}
use stellar_mosaic.ObjectStore.Laws.{put-put}
use stellar_mosaic.BookIndex.{
  Database, BookEvent, BookError, meta_key, processed_id_of, processed_key,
}
use stellar_mosaic.BookIndex.Handlers.{PageState}
use stellar_mosaic.BookIndex.Reduce.{
  is_marked, apply_event, apply_events, start, finish, commit, apply_book_event_page,
}
use stellar_mosaic.BookIndex.Marks.{
  IsSettled, apply_events-Advances, meta_of-scope, started, meta_of-finish,
}

apply_event-IsSettled :
    (scope : Text) (event : BookEvent) (st : PageState)
    → IsSettled scope st.stores.processed event
    → apply_event scope event st ≡ ok st
unfolding apply_event
apply_event-IsSettled scope event st (inl m) = rw m refl
apply_event-IsSettled scope event st (inr (name, t, h)) =
    elim (Bool-cases
      (is_marked (get processed_id_of (processed_key scope event) st.stores.processed))) [
        | inl e ↦ rw e refl
        | inr e ↦ rw (e, t, h) refl
      ]

apply_events-IsSettled :
    (scope : Text) (events : List BookEvent) (st : PageState)
    → All (IsSettled scope st.stores.processed) events
    → apply_events scope events st ≡ ok st
unfolding apply_events
apply_events-IsSettled scope [] st d = refl
apply_events-IsSettled scope (event ∷ events) st (d, ds) =
    rw (apply_event-IsSettled scope event st d) (apply_events-IsSettled scope events st ds)

start-finish :
    (cursor : Text) (latest_ledger : ℕ) (st : PageState)
    → finish cursor latest_ledger (start st.meta.scope (finish cursor latest_ledger st))
      ≡ finish cursor latest_ledger st
start-finish cursor latest_ledger st =
    let row = started cursor latest_ledger st in
    let db = finish cursor latest_ledger st in
    ap
      (λ m.
        finish cursor latest_ledger (record { stores = db; meta = m; sequence = m.last_sequence }))
      (meta_of-finish cursor latest_ledger st)
    ∙ ap (λ metas. record st.stores { meta = metas }) (put-put meta_key row st.stores.meta)

committed :
    (db : Database) (cursor : Text) (latest_ledger : ℕ) (r : Result BookError PageState)
    {later : Database}
    → commit db cursor latest_ledger r ≡ (later, ok tt)
    → (st : PageState) × (r ≡ ok st) × (finish cursor latest_ledger st ≡ later)
committed db cursor latest_ledger (throw e) h = absurd (cc)
committed db cursor latest_ledger (ok st) h = (st, refl, ap (λ p. p.0) h)

again :
    (scope cursor : Text) (events : List BookEvent) (latest_ledger : ℕ) (st : PageState)
    → st.meta.scope ≡ scope
    → All (IsSettled scope st.stores.processed) events
    → commit
        (finish cursor latest_ledger st)
        cursor
        latest_ledger
        (apply_events scope events (start scope (finish cursor latest_ledger st)))
      ≡ (finish cursor latest_ledger st, ok tt)
again scope cursor events latest_ledger st e d =
    let db = finish cursor latest_ledger st in
    ap (commit db cursor latest_ledger) (apply_events-IsSettled scope events (start scope db) d)
    ∙ ap (λ x. (x, ok tt))
        (subst (λ s. finish cursor latest_ledger (start s db) ≡ db) e
          (start-finish cursor latest_ledger st))

-- A page that has been applied is applied again with the same cursor and ledger: the call does not
-- throw, and it leaves the database as it is.
pub apply_book_event_page_again :
    (scope cursor : Text) (events : List BookEvent) (latest_ledger : ℕ) (db later : Database)
    → apply_book_event_page scope events cursor latest_ledger db ≡ (later, ok tt)
    → apply_book_event_page scope events cursor latest_ledger later ≡ (later, ok tt)
unfolding apply_book_event_page
apply_book_event_page_again scope cursor events latest_ledger db later h =
    let (st, e, f) =
      committed db cursor latest_ledger (apply_events scope events (start scope db)) h in
    let (m, s, d) = apply_events-Advances scope events (start scope db) st e in
    subst
      (λ x. commit x cursor latest_ledger (apply_events scope events (start scope x)) ≡ (x, ok tt))
      f
      (again scope cursor events latest_ledger st (ap (λ k. k.0) s ∙ meta_of-scope scope db.meta) d)
