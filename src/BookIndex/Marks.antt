-- ===== src/BookIndex/Marks.antt =====
-- The marks of a page and the row of its scope, event by event.
use stellar_mosaic.Prelude.{
  ℕ, ◌≡◌, refl, sym, ap, ◌∙◌, subst, ◌⊎◌, inl, inr, true, Option, none, some, List, [], ◌∷◌,
  Bool-cases, Option-cases, Result, ok, >>=-ok, All, or_value, ok_inj,
}
use stellar_mosaic.Text.{Text, text_eq}
use stellar_mosaic.Text.Comparing.{text_eq-true}
use stellar_mosaic.ObjectStore.{get, put}
use stellar_mosaic.ObjectStore.Laws.{get-put, get-put_other, get-key}
use stellar_mosaic.BookIndex.{
  BookMeta, ProcessedEvent, BookEvent, BookError, meta_key, processed_id_of, processed_key, topic,
  meta_of, initial_meta,
}
use stellar_mosaic.BookIndex.Handlers.{PageState, Handler, handler}
use stellar_mosaic.BookIndex.Reduce.{mark, handle, is_marked, apply_event, apply_events, finish}
use stellar_mosaic.BookIndex.Dispatch.{kept, kept, Holds, IsKeeper, handler-IsKeeper}

-- An event that the next turn of the loop passes over: one that is marked, or has no handler.
abbrev pub IsSettled : Text → List ProcessedEvent → BookEvent → Type 0
IsSettled scope processed event =
    (is_marked (get processed_id_of (processed_key scope event) processed) ≡ true)
    ⊎ ((name : Text) × (topic event ≡ ok name) × (handler scope name ≡ none))

marked_put :
    (k : Text) (p : ProcessedEvent) (ps : List ProcessedEvent)
    → is_marked (get processed_id_of k ps) ≡ true
    → is_marked (get processed_id_of k (put processed_id_of p ps)) ≡ true
marked_put k p ps h = elim (Bool-cases (text_eq p.id k)) [
  | inl e ↦
      subst (λ x. is_marked (get processed_id_of x (put processed_id_of p ps)) ≡ true)
        (text_eq-true p.id k e) (ap is_marked (get-put processed_id_of p ps))
  | inr e ↦ ap is_marked (get-put_other processed_id_of k p ps e) ∙ h
]

-- What a turn of the loop does to the marks and to the key of the row.
abbrev Advances : Text → BookEvent → PageState → PageState → Type 0
Advances scope event st next =
    ((k : Text)
      → is_marked (get processed_id_of k st.stores.processed) ≡ true
      → is_marked (get processed_id_of k next.stores.processed) ≡ true)
    × (kept next.meta ≡ kept st.meta)
    × IsSettled scope next.stores.processed event

handled-Advances :
    (scope name : Text) (event : BookEvent) (st next : PageState) (f : Option Handler)
    → topic event ≡ ok name
    → handler scope name ≡ f
    → Holds IsKeeper f
    → handle scope event f st ≡ ok next
    → Advances scope event st next
handled-Advances scope name event st next none t e k h =
    subst (Advances scope event st) (ok_inj h) (λ x m. m, refl, inr (name, t, e))
handled-Advances scope name event st next (some f) t e k h =
    let (mid, g, i) = >>=-ok (f event.value st) (λ n. ok (mark scope event n)) h in
    let (p, s) = k event.value st mid g in
    let row : ProcessedEvent = record { id = processed_key scope event; scope = scope } in
    subst (Advances scope event st) (ok_inj i) (
      λ x m.
          marked_put x row mid.stores.processed
            (ap (λ ps. is_marked (get processed_id_of x ps)) p ∙ m),
      s,
      inl (ap is_marked (get-put processed_id_of row mid.stores.processed)),
    )

apply_event-Advances :
    (scope : Text) (event : BookEvent) (st next : PageState)
    → apply_event scope event st ≡ ok next
    → Advances scope event st next
unfolding apply_event
apply_event-Advances scope event st next h =
    elim (Bool-cases
      (is_marked (get processed_id_of (processed_key scope event) st.stores.processed))) [
        | inl e ↦
            let x : ◌≡◌ {A = Result BookError PageState} (ok st) (ok next) = sym (rw e refl) ∙ h in
            subst (Advances scope event st) (ok_inj x) (λ k m. m, refl, inl e)
        | inr e ↦
            let (name, t, i) =
              >>=-ok (topic event) (λ name. handle scope event (handler scope name) st)
                (sym (rw e refl) ∙ h) in
            handled-Advances scope name event st next (handler scope name) t refl
              (handler-IsKeeper scope name) i
      ]

IsSettled-later :
    (scope : Text) (event : BookEvent) (ps qs : List ProcessedEvent)
    → ((k : Text)
        → is_marked (get processed_id_of k ps) ≡ true
        → is_marked (get processed_id_of k qs) ≡ true)
    → IsSettled scope ps event
    → IsSettled scope qs event
IsSettled-later scope event ps qs m (inl h) = inl (m (processed_key scope event) h)
IsSettled-later scope event ps qs m (inr h) = inr h

pub apply_events-Advances :
    (scope : Text) (events : List BookEvent) (st next : PageState)
    → apply_events scope events st ≡ ok next
    → ((k : Text)
        → is_marked (get processed_id_of k st.stores.processed) ≡ true
        → is_marked (get processed_id_of k next.stores.processed) ≡ true)
      × (kept next.meta ≡ kept st.meta)
      × All (IsSettled scope next.stores.processed) events
unfolding apply_events
apply_events-Advances scope [] st next h =
    let e : st ≡ next = ok_inj h in
    (
      subst
          (λ n.
            (k : Text)
            → is_marked (get processed_id_of k st.stores.processed) ≡ true
            → is_marked (get processed_id_of k n.stores.processed) ≡ true)
          e (λ k m. m),
      ap (λ n. kept n.meta) (sym e),
      tt,
    )
apply_events-Advances scope (event ∷ events) st next h =
    let (mid, g, i) = >>=-ok (apply_event scope event st) (apply_events scope events) h in
    let (m, s, d) = apply_event-Advances scope event st mid g in
    let (n, t, rest) = apply_events-Advances scope events mid next i in
    (
      λ k x. n k (m k x),
      t ∙ s,
      (IsSettled-later scope event mid.stores.processed next.stores.processed n d, rest),
    )

pub meta_of-scope : (scope : Text) (metas : List BookMeta) → (meta_of scope metas).scope ≡ scope
meta_of-scope scope metas = elim (Option-cases (get meta_key scope metas)) [
  | inl e ↦ rw e refl
  | inr (m, e) ↦ rw e (get-key meta_key scope metas m e)
]

-- The row that a finished page writes, and that the next page finds.
abbrev pub started : (cursor : Text) (latest_ledger : ℕ) (st : PageState) → BookMeta
started cursor latest_ledger st = record st.meta {
  cursor = some cursor;
  last_sequence = st.sequence;
  latest_ledger = latest_ledger;
  fatal_error = none;
}

pub meta_of-finish :
    (cursor : Text) (latest_ledger : ℕ) (st : PageState)
    → meta_of st.meta.scope (finish cursor latest_ledger st).meta ≡ started cursor latest_ledger st
meta_of-finish cursor latest_ledger st =
    ap (λ o. or_value o (initial_meta st.meta.scope))
      (get-put meta_key (started cursor latest_ledger st) st.stores.meta)
