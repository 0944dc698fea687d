-- ===== src/ChainEvents/Reading.antt =====
-- A reading of the server's pages to its end.
use stellar_mosaic.Prelude.{
  ℕ, zero, suc, ◌<◌, ◌≤◌, ◌≡◌, ◌≢◌, ◌⊎◌, refl, sym, ap, ◌∙◌, subst, true, false, Option, none, some,
  List, [], ◌∷◌, ◌++◌, ltb, length, Result, ok, throw, Bool-cases, inl, inr, some_inj, none_ne_some,
  arith,
}
use stellar_mosaic.Text.{Text}
use stellar_mosaic.ChainEvents.{ChainEvent, ParsedEvent}
use stellar_mosaic.ChainEvents.Reader.{
  ChainStart, from_cursor, from_ledger, ContractState, Reader, Setup, Page, Done, add_page, rebuilt,
  page_added, chain_page_fetched, page_asked, start_at, has_cursor, is_filled, fetch_loop,
  fetch_pages,
}
use stellar_mosaic.ChainEvents.Paging.{Reads, Reads-then, add_page_lem}

-- No cursor: there is none, or it is the empty text.
abbrev pub IsUnset : Option Text → Type 0
IsUnset cursor = (cursor ≡ none) ⊎ (cursor ≡ some [])

-- The start of a request: after the cursor, or at the ledger if there is no cursor.
pub data StartsAt : Option Text → Option ℕ → ChainStart → Type 0 where
  resumes :
      {cursor : Text} {ledger : Option ℕ}
      → cursor ≢ []
      → StartsAt (some cursor) ledger (from_cursor cursor)
  begins :
      {cursor : Option Text} {ledger : ℕ}
      → IsUnset cursor
      → StartsAt cursor (some ledger) (from_ledger ledger)

-- The events of the server's pages from a request on, and the last of these pages: each request
-- starts after the page before it, and the last page is the first one of fewer than 1000 events.
pub data Pages (setup : Setup) (attempt : ℕ) (ledger : Option ℕ)
    : ℕ → Option Text → List ChainEvent → Page → Type 0 where
  last :
      {call : ℕ} {cursor : Option Text} {start : ChainStart} {page : Page}
      → StartsAt cursor ledger start
      → setup.get_events attempt call start ≡ ok page
      → length page.events < 1000
      → Pages setup attempt ledger call cursor page.events page
  more :
      {call : ℕ} {cursor : Option Text} {start : ChainStart} {page final : Page}
      {events : List ChainEvent}
      → StartsAt cursor ledger start
      → setup.get_events attempt call start ≡ ok page
      → 1000 ≤ length page.events
      → Pages setup attempt ledger (suc call) (some page.cursor) events final
      → Pages setup attempt ledger call cursor (page.events ++ events) final

-- A state that has read the pages from a request on.
pub record HasRead (setup : Setup) (attempt : ℕ) (ledger : Option ℕ) (call : ℕ)
    (st next : ContractState) : Type 0 where
  pub events : List ChainEvent
  pub final : Page
  pub pages : Pages setup attempt ledger call st.cursor events final
  pub reads : Reads st events next
  pub cursor : next.cursor ≡ some final.cursor
  pub latest_ledger : next.latest_ledger ≡ some final.latest_ledger

module _ (setup : Setup) (attempt : ℕ) (ledger : Option ℕ) (call : ℕ) (loop : Reader → Option Done)
    (rest : (r next : Reader)
      → loop r ≡ some (next, ok tt)
      → HasRead setup attempt ledger (suc call) r.st next.st) where
  page_added-HasRead :
      (page : Page) (start : ChainStart) (r : Reader) (d : Done) (next : Reader)
      → StartsAt r.st.cursor ledger start
      → setup.get_events attempt call start ≡ ok page
      → ((mid : Reader)
          → d ≡ (mid, ok tt)
          → Reads r.st page.events mid.st
            × (mid.st.cursor ≡ some page.cursor)
            × (mid.st.latest_ledger ≡ some page.latest_ledger))
      → page_added loop page d ≡ some (next, ok tt)
      → HasRead setup attempt ledger call r.st next.st
  page_added-HasRead page start r (mid, throw e) next s g added h = absurd (cc)
  page_added-HasRead page start r (mid, ok tt) next s g added h =
      let (reads, cursor, latest) = added mid refl in
      elim (Bool-cases (ltb (length page.events) 1000)) [
        | inl e ↦
            let x : ◌≡◌ {A = Option Done} (some (mid, ok tt)) (some (next, ok tt)) =
              sym (rw e refl) ∙ h in
            let same : mid.st ≡ next.st = ap (λ d. d.0.st) (some_inj x) in
            record {
              events = page.events;
              final = page;
              pages = last s g (ground arith);
              reads = subst (Reads r.st page.events) same reads;
              cursor = ap (λ t. t.cursor) (sym same) ∙ cursor;
              latest_ledger = ap (λ t. t.latest_ledger) (sym same) ∙ latest;
            }
        | inr e ↦
            let others = rest mid next (sym (rw e refl) ∙ h) in
            record {
              events = page.events ++ others.events;
              final = others.final;
              pages = more s g (ground arith) (
                  subst (λ c. Pages setup attempt ledger (suc call) c others.events others.final)
                    cursor others.pages);
              reads = Reads-then r.st mid.st next.st page.events others.events reads others.reads;
              cursor = others.cursor;
              latest_ledger = others.latest_ledger;
            }
      ]

  fetched-HasRead :
      (start : ChainStart) (r : Reader) (p : Result Text Page) (next : Reader)
      → StartsAt r.st.cursor ledger start
      → setup.get_events attempt call start ≡ p
      → chain_page_fetched setup loop r p ≡ some (next, ok tt)
      → HasRead setup attempt ledger call r.st next.st
  fetched-HasRead start r (throw message) next s g h = absurd (cc)
  fetched-HasRead start r (ok page) next s g h =
      page_added-HasRead page start r (add_page setup page r) next s g
        (λ mid a. add_page_lem setup page r mid a) h

  page_asked-HasRead :
      (r : Reader) (start : Option ChainStart) (next : Reader)
      → ((s : ChainStart) → start ≡ some s → StartsAt r.st.cursor ledger s)
      → page_asked setup attempt call loop r start ≡ some (next, ok tt)
      → HasRead setup attempt ledger call r.st next.st
  page_asked-HasRead r none next s h = absurd (cc)
  page_asked-HasRead r (some start) next s h =
      fetched-HasRead start r (setup.get_events attempt call start) next (s start refl) refl h

start_at-StartsAt :
    (st : ContractState) (cursor : Option Text) (ledger : Option ℕ) (s : ChainStart)
    → st.cursor ≡ cursor
    → start_at st ledger ≡ some s
    → StartsAt cursor ledger s
start_at-StartsAt st none none s c h = absurd (ground arith)
start_at-StartsAt st none (some l) s c h =
    subst (StartsAt none (some l)) (ground arith) (begins (inl refl))
start_at-StartsAt st (some []) none s c h = absurd (ground arith)
start_at-StartsAt st (some []) (some l) s c h =
    subst (StartsAt (some []) (some l)) (ground arith) (begins (inr refl))
start_at-StartsAt st (some (x ∷ xs)) none s c h =
    subst (StartsAt (some (x ∷ xs)) none) (ground arith) (resumes (λ e. cc))
start_at-StartsAt st (some (x ∷ xs)) (some l) s c h =
    subst (StartsAt (some (x ∷ xs)) (some l)) (ground arith) (resumes (λ e. cc))

fetch_loop-HasRead :
    (setup : Setup) (attempt fuel call : ℕ) (ledger : Option ℕ) (r next : Reader)
    → fetch_loop setup attempt fuel call ledger r ≡ some (next, ok tt)
    → HasRead setup attempt ledger call r.st next.st
unfolding fetch_loop
fetch_loop-HasRead setup attempt zero call ledger r next h = absurd (none_ne_some h)
fetch_loop-HasRead setup attempt (suc fuel) call ledger r next h =
    page_asked-HasRead setup attempt ledger call (fetch_loop setup attempt fuel (suc call) ledger)
      (λ a b. fetch_loop-HasRead setup attempt fuel (suc call) ledger a b) r (start_at r.st ledger)
      next (λ s. start_at-StartsAt r.st r.st.cursor ledger s refl) h

-- What a reading starts from: the state, but with the note events, the fills and the seen ids
-- dropped if there is no cursor and there are note events.
abbrev pub IsBegun : ContractState → ContractState → Type 0
IsBegun before st =
    (IsUnset before.cursor
      × (before.acc ≢ [])
      × (st ≡ record before { acc = []; fills = []; seen = [] }))
    ⊎ ((¬ IsUnset before.cursor ⊎ (before.acc ≡ [])) × (st ≡ before))

has_cursor_cases :
    (cursor : Option Text)
    → (IsUnset cursor × (has_cursor cursor ≡ false))
      ⊎ ((¬ IsUnset cursor) × (has_cursor cursor ≡ true))
has_cursor_cases none = inl (inl refl, refl)
has_cursor_cases (some []) = inl (inr refl, refl)
has_cursor_cases (some (c ∷ s)) = inr (λ u. elim u [ inl e ↦ cc | inr e ↦ cc ], refl)

is_filled_cases :
    (xs : List ParsedEvent)
    → ((xs ≡ []) × (is_filled xs ≡ false)) ⊎ ((xs ≢ []) × (is_filled xs ≡ true))
is_filled_cases [] = inl (refl, refl)
is_filled_cases (x ∷ xs) = inr (λ e. cc, refl)

rebuilt-IsBegun : (r : Reader) → IsBegun r.st (rebuilt r).st
unfolding rebuilt
rebuilt-IsBegun r = elim (has_cursor_cases r.st.cursor) [
  | inl (u, c) ↦ elim (is_filled_cases r.st.acc) [
    | inl (e, f) ↦ inr (inr e, rw (c, f) refl)
    | inr (e, f) ↦ inl (u, e, rw (c, f) refl)
  ]
  | inr (u, c) ↦ inr (inl u, rw c refl)
]

-- A reading of pages that ends without an error has read the server's pages from its start to the
-- first one of fewer than 1000 events, each request starting after the page before it: the note
-- events, the fills and the seen ids have grown by those of exactly the events, in the server's
-- order, whose id was not seen and is not that of an earlier one; the cursor and the latest ledger
-- are those of the last page. The start is the state of the reader, of which, without a cursor and
-- with note events, the note events, the fills and the seen ids are dropped first.
pub fetch_pages_lem :
    (setup : Setup) (attempt fuel : ℕ) (start_ledger : Option ℕ) (r next : Reader)
    → fetch_pages setup attempt fuel start_ledger r ≡ some (next, ok tt)
    → (st : ContractState) × IsBegun r.st st × HasRead setup attempt start_ledger 0 st next.st
unfolding fetch_pages
fetch_pages_lem setup attempt fuel start_ledger r next h = (
  (rebuilt r).st,
  rebuilt-IsBegun r,
  fetch_loop-HasRead setup attempt fuel 0 start_ledger (rebuilt r) next h,
)
