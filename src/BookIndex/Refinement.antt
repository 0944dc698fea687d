-- ===== src/BookIndex/Refinement.antt =====
-- Pages of events and runs of changes of the order book.
use stellar_mosaic.Prelude.{
  ℕ, suc, ◌+◌, ◌≡◌, refl, sym, ap, ◌∙◌, subst, inl, inr, Option, none, some, List, [], ◌∷◌,
  Bool-cases, Result, ok, throw, >>=-ok, arith, ok_inj,
}
use stellar_mosaic.Prelude.Int.{pos, ◌+ℤ◌, int_laws, eq_of_parts}
use stellar_mosaic.Text.{Text}
use stellar_mosaic.ObjectStore.{get}
use stellar_mosaic.BookIndex.{
  Database, BookEvent, BookError, processed_id_of, processed_key, topic, meta_of,
}
use stellar_mosaic.BookIndex.Handlers.{PageState, Handler, handler}
use stellar_mosaic.BookIndex.Reduce.{
  mark, handle, is_marked, apply_event, apply_events, start, finish, commit, apply_book_event_page,
}
use stellar_mosaic.BookIndex.Marks.{apply_events-Advances, meta_of-scope, started, meta_of-finish}
use stellar_mosaic.BookIndex.Dispatch.{Holds}
use stellar_mosaic.BookIndex.Changing.{Turns, IsRefined, handler-IsRefined, still}
use stellar_mosaic.BookIndex.Book.{
  Book, Change, upsert, remove, Changes, unchanged, then_change, book_of,
}

Changes-append :
    (scope : Text) {m n : ℕ} {b c d : Book}
    → Changes scope m b c
    → Changes scope n c d
    → Changes scope (m + n) b d
Changes-append scope {n = n} {b = b} {d = d} unchanged h =
    subst (λ k. Changes scope k b d) (omega arith) h
Changes-append scope {n = n} {b = b} {d = d} (then_change {n = m} g gs) h =
    subst (λ k. Changes scope k b d) (omega arith) (then_change g (Changes-append scope gs h))

Change-sequence : (scope : Text) {b c : Book} → Change scope b c → c.sequence ≡ b.sequence +ℤ pos 1
Change-sequence scope (upsert o row p) = refl
Change-sequence scope (remove pair side order_id o s g) = refl

-- A run of changes moves the sequence by their number.
pub Changes-sequence :
    (scope : Text) {n : ℕ} {b c : Book} → Changes scope n b c → c.sequence ≡ b.sequence +ℤ pos n
Changes-sequence scope {b = b} unchanged =
    eq_of_parts b.sequence (b.sequence +ℤ pos 0) (omega int_laws)
Changes-sequence scope {b = b} {c = d} (then_change {n = n} {c = c} g gs) =
    let one = Change-sequence scope g in
    let more = Changes-sequence scope gs in
    more
    ∙ ap (λ s. s +ℤ pos n) one
    ∙ eq_of_parts (b.sequence +ℤ pos 1 +ℤ pos n) (b.sequence +ℤ pos (suc n)) (omega int_laws)

handled-Turns :
    (scope : Text) (event : BookEvent) (st next : PageState) (f : Option Handler)
    → Holds (IsRefined scope) f
    → handle scope event f st ≡ ok next
    → Turns scope st next
handled-Turns scope event st next none k h = still scope st next (ap book_of (sym (ok_inj h)))
handled-Turns scope event st next (some f) k h =
    let (mid, g, i) = >>=-ok (f event.value st) (λ n. ok (mark scope event n)) h in
    let (n, c) = k event.value st mid g in
    (n, subst (Changes scope n (book_of st)) (ap book_of (ok_inj i)) c)

apply_event-Turns :
    (scope : Text) (event : BookEvent) (st next : PageState)
    → apply_event scope event st ≡ ok next
    → Turns scope st next
unfolding apply_event
apply_event-Turns scope event st next h =
    elim (Bool-cases
      (is_marked (get processed_id_of (processed_key scope event) st.stores.processed))) [
        | inl e ↦
            let x : ◌≡◌ {A = Result BookError PageState} (ok st) (ok next) = sym (rw e refl) ∙ h in
            still scope st next (ap book_of (sym (ok_inj x)))
        | inr e ↦
            let (name, t, i) =
              >>=-ok (topic event) (λ name. handle scope event (handler scope name) st)
                (sym (rw e refl) ∙ h) in
            handled-Turns scope event st next (handler scope name) (handler-IsRefined scope name) i
      ]

pub apply_events-Turns :
    (scope : Text) (events : List BookEvent) (st next : PageState)
    → apply_events scope events st ≡ ok next
    → Turns scope st next
unfolding apply_events
apply_events-Turns scope [] st next h = still scope st next (ap book_of (sym (ok_inj h)))
apply_events-Turns scope (event ∷ events) st next h =
    let (mid, g, i) = >>=-ok (apply_event scope event st) (apply_events scope events) h in
    let (m, c) = apply_event-Turns scope event st mid g in
    let (n, d) = apply_events-Turns scope events mid next i in (m + n, Changes-append scope c d)

-- The order book in the database.
abbrev pub stored_book : Text → Database → Book
stored_book scope db = record {
  orders = db.orders;
  sequence = (meta_of scope db.meta).last_sequence;
}

pub finished_book :
    (scope cursor : Text) (latest_ledger : ℕ) (st : PageState)
    → st.meta.scope ≡ scope
    → book_of st ≡ stored_book scope (finish cursor latest_ledger st)
finished_book scope cursor latest_ledger st e =
    let found : meta_of scope (finish cursor latest_ledger st).meta
        ≡ started cursor latest_ledger st =
      subst (λ s. meta_of s (finish cursor latest_ledger st).meta ≡ started cursor latest_ledger st)
        e (meta_of-finish cursor latest_ledger st) in
    ap (λ m. record { orders = st.stores.orders; sequence = m.last_sequence }) (sym found)

page_turns :
    (scope cursor : Text) (events : List BookEvent) (latest_ledger : ℕ) (db : Database)
    (r : Result BookError PageState)
    → apply_events scope events (start scope db) ≡ r
    → (n : ℕ) × Changes scope n
        (stored_book scope db)
        (stored_book scope (commit db cursor latest_ledger r).0)
page_turns scope cursor events latest_ledger db (throw e) h = (0, unchanged)
page_turns scope cursor events latest_ledger db (ok st) h =
    let (m, s, d) = apply_events-Advances scope events (start scope db) st h in
    let (n, c) = apply_events-Turns scope events (start scope db) st h in
    let same =
      finished_book scope cursor latest_ledger st (ap (λ k. k.0) s ∙ meta_of-scope scope db.meta) in
    (n, subst (Changes scope n (stored_book scope db)) same c)

-- The call of a page, whatever its outcome, takes the order book of the scope in the database
-- through a run of changes: each puts one order of the scope, whose priority is kept if it was
-- present and the number of the change otherwise, or removes one that is present. The stored
-- sequence grows by their number, so no number is passed over.
pub apply_book_event_page-Changes :
    (scope cursor : Text) (events : List BookEvent) (latest_ledger : ℕ) (db : Database)
    → let later = (apply_book_event_page scope events cursor latest_ledger db).0 in
      (n : ℕ) × Changes scope n (stored_book scope db) (stored_book scope later)
      × ((stored_book scope later).sequence ≡ (stored_book scope db).sequence +ℤ pos n)
unfolding apply_book_event_page
apply_book_event_page-Changes scope cursor events latest_ledger db =
    let (n, c) =
      page_turns scope cursor events latest_ledger db (apply_events scope events (start scope db))
        refl in
    (n, c, Changes-sequence scope c)
