-- ===== src/ChainEvents/Paging.antt =====
-- The pages of a reading as the server gives them, and what of them is appended.
use mathlib.Core.List.{append_assoc, append-nil}
use mathlib.Core.List.Memᴰ
use mathlib.Core.List.{Memᴰ}
use stellar_mosaic.Prelude.{
  ◌≡◌, refl, sym, ap, ◌∙◌, subst, true, none, some, List, [], ◌∷◌, ◌++◌, ok, Bool-cases, inl, inr,
  true_ne_false, arith,
}
use stellar_mosaic.Text.{Text, text_eq}
use stellar_mosaic.Text.Comparing.{text_eq-true, text_eq_refl}
use stellar_mosaic.ChainEvents.{ChainEvent, event_id}
use stellar_mosaic.ChainEvents.Reader.{
  ContractState, Reader, Setup, Page, is_seen, add_chain_event, add_events, add_page, page_ended,
  set_state,
}
use stellar_mosaic.ChainEvents.Appending.{
  ids, Appended, Appended-nothing, Appended-then, add_chain_event_cases, done_then-ok, st-persist,
}

-- Of a list of events, those whose id is not among the seen ones and not that of an earlier event,
-- in the order of the list.
pub data AreFirst : List Text → List ChainEvent → List ChainEvent → Type 0 where
  nothing : {seen : List Text} → AreFirst seen [] []
  passed :
      {seen : List Text} {e : ChainEvent} {es kept : List ChainEvent}
      → Memᴰ (event_id e) seen
      → AreFirst seen es kept
      → AreFirst seen (e ∷ es) kept
  taken :
      {seen : List Text} {e : ChainEvent} {es kept : List ChainEvent}
      → ¬ Memᴰ (event_id e) seen
      → AreFirst (seen ++ event_id e ∷ []) es kept
      → AreFirst seen (e ∷ es) (e ∷ kept)

-- The state has grown by the events of a list that are new to it.
pub record Reads (st : ContractState) (es : List ChainEvent) (next : ContractState) : Type 0 where
  pub kept : List ChainEvent
  pub first : AreFirst st.seen es kept
  pub appended : Appended st kept next

AreFirst-append :
    {seen : List Text} {es fs kept more : List ChainEvent}
    → AreFirst seen es kept
    → AreFirst (seen ++ ids kept) fs more
    → AreFirst seen (es ++ fs) (kept ++ more)
unfolding ids
AreFirst-append {fs = fs} {more = more} (nothing {seen}) k =
    subst (λ s. AreFirst s fs more) (append-nil seen) k
AreFirst-append (passed m h) k = passed m (AreFirst-append h k)
AreFirst-append {fs = fs} {more = more} (taken {seen} {e} {kept = kept} n h) k = taken n (
    AreFirst-append h
      (subst (λ s. AreFirst s fs more) (sym (append_assoc seen (event_id e ∷ []) (ids kept))) k))

pub Reads-then :
    (a b c : ContractState) (es fs : List ChainEvent)
    → Reads a es b
    → Reads b fs c
    → Reads a (es ++ fs) c
Reads-then a b c es fs r q = record {
  kept = r.kept ++ q.kept;
  first = AreFirst-append r.first (subst (λ s. AreFirst s fs q.kept) r.appended.0 q.first);
  appended = Appended-then a b c r.kept q.kept r.appended q.appended;
}

seen-Memᴰ : (id : Text) (seen : List Text) → is_seen id seen ≡ true → Memᴰ id seen
unfolding is_seen
seen-Memᴰ id [] h = absurd (true_ne_false (sym h))
seen-Memᴰ id (s ∷ seen) h = elim (Bool-cases (text_eq s id)) [
  | inl e ↦ Memᴰ.head (sym (text_eq-true s id e))
  | inr e ↦ Memᴰ.tail (seen-Memᴰ id seen (ground arith))
]

Memᴰ-is_seen : (id : Text) (seen : List Text) → Memᴰ id seen → is_seen id seen ≡ true
unfolding is_seen
Memᴰ-is_seen id [] m = absurd (Memᴰ.not-nil m)
Memᴰ-is_seen id (s ∷ seen) (Memᴰ.head e) =
    let f : text_eq s id ≡ true = subst (λ t. text_eq s t ≡ true) (sym e) (text_eq_refl s) in
    ground arith
Memᴰ-is_seen id (s ∷ seen) (Memᴰ.tail m) = let f = Memᴰ-is_seen id seen m in ground arith

add_chain_event-Reads :
    (setup : Setup) (e : ChainEvent) (r next : Reader)
    → add_chain_event setup e r ≡ (next, ok tt)
    → Reads r.st (e ∷ []) next.st
add_chain_event-Reads setup e r next h = elim (add_chain_event_cases setup e r next h) [
  | inl (s, same) ↦ record {
    kept = [];
    first = passed (seen-Memᴰ (event_id e) r.st.seen s) nothing;
    appended = subst (Appended r.st []) same (Appended-nothing r.st);
  }
  | inr (s, grown) ↦ record {
    kept = e ∷ [];
    first = taken (λ m. true_ne_false (sym (Memᴰ-is_seen (event_id e) r.st.seen m) ∙ s)) nothing;
    appended = grown;
  }
]

add_events-Reads :
    (setup : Setup) (es : List ChainEvent) (r next : Reader)
    → add_events setup es r ≡ (next, ok tt)
    → Reads r.st es next.st
unfolding add_events
add_events-Reads setup [] r next h = record {
  kept = [];
  first = nothing;
  appended = subst (Appended r.st []) (ap (λ d. d.0.st) h) (Appended-nothing r.st);
}
add_events-Reads setup (e ∷ es) r next h =
    let (mid, g, k) = done_then-ok (add_chain_event setup e r) (add_events setup es) h in
    Reads-then r.st mid.st next.st (e ∷ []) es (add_chain_event-Reads setup e r mid g)
      (add_events-Reads setup es mid next k)

-- When a page of the server is added without an error: the note events, the fills and the seen ids
-- have grown by those of exactly the page's events whose id was not seen and is not that of an
-- earlier event of the page, in the order of the page; and the cursor and the latest ledger are the
-- page's.
pub add_page_lem :
    (setup : Setup) (page : Page) (r next : Reader)
    → add_page setup page r ≡ (next, ok tt)
    → Reads r.st page.events next.st
      × (next.st.cursor ≡ some page.cursor)
      × (next.st.latest_ledger ≡ some page.latest_ledger)
unfolding add_page
add_page_lem setup page r next h =
    let (mid, g, k) =
      done_then-ok (add_events setup page.events r) (λ x. (page_ended setup page x, ok tt)) h in
    let read = add_events-Reads setup page.events r mid g in
    let moved : ContractState = record mid.st {
      cursor = some page.cursor;
      latest_ledger = some page.latest_ledger;
    } in
    let st : moved ≡ next.st =
      sym (st-persist setup none (set_state moved mid)) ∙ ap (λ d. d.0.st) k in
    subst
      (λ s.
        Reads r.st page.events s
        × (s.cursor ≡ some page.cursor)
        × (s.latest_ledger ≡ some page.latest_ledger))
      st (record { kept = read.kept; first = read.first; appended = read.appended }, refl, refl)
