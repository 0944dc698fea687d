-- ===== src/ChainEvents/Appending.antt =====
-- What the readings of pages append to the stored events.
use stellar_mosaic.Prelude.{
  ◌≡◌, ◌⊎◌, refl, sym, ap, ◌∙◌, subst, true, false, Option, none, some, List, [], ◌∷◌, ◌++◌, Result,
  ok, throw, Bool-cases, inl, inr, All, true_ne_false,
}
use mathlib.Core.List.{append_assoc, append-nil}
use stellar_mosaic.Text.{Text, text_eq}
use stellar_mosaic.Text.Comparing.{text_eq_refl}
use stellar_mosaic.ChainEvents.{
  ChainEvent, ChainError, ParsedEvent, ParsedFill, event_id, parse_tree_event, parse_fill_event,
}
use stellar_mosaic.ChainEvents.Reader.{
  ContractState, Reader, Setup, Page, Done, is_seen, pushed, fill_parsed, tree_parsed,
  add_chain_event, add_events, done_then, add_page, persist, page_ended, set_state,
}

abbrev parsed {ℓ} : {A : Type ℓ} → Result ChainError (Option A) → List A → List A
parsed (throw e) xs = xs
parsed (ok none) xs = xs
parsed (ok (some x)) xs = x ∷ xs

-- The note events and the fills of a list of events.
unfoldable pub tree_events : List ChainEvent → List ParsedEvent
tree_events [] = []
tree_events (e ∷ es) = parsed (parse_tree_event e) (tree_events es)

unfoldable pub fill_events : List ChainEvent → List ParsedFill
fill_events [] = []
fill_events (e ∷ es) = parsed (parse_fill_event e) (fill_events es)

unfoldable pub ids : List ChainEvent → List Text
ids [] = []
ids (e ∷ es) = event_id e ∷ ids es

-- Ids that differ from those seen and from each other.
abbrev pub AreNew : List Text → List ChainEvent → Type 0
AreNew seen [] = Unit
AreNew seen (e ∷ es) = (is_seen (event_id e) seen ≡ false) × AreNew (seen ++ event_id e ∷ []) es

-- The state has grown by a list of events.
abbrev pub Appended : ContractState → List ChainEvent → ContractState → Type 0
Appended st es next =
    (next.seen ≡ st.seen ++ ids es)
    × (next.acc ≡ st.acc ++ tree_events es)
    × (next.fills ≡ st.fills ++ fill_events es)

-- The state has grown by the events of new ids.
abbrev pub Grows : ContractState → ContractState → Type 0
Grows st next =
    (es : List ChainEvent) × AreNew st.seen es
    × (next.seen ≡ st.seen ++ ids es)
    × (next.acc ≡ st.acc ++ tree_events es)
    × (next.fills ≡ st.fills ++ fill_events es)

module _ {ℓ} {A : Type ℓ} where
  pushed_one : (o : Option A) (xs : List A) → pushed o xs ≡ xs ++ parsed (ok o) []
  pushed_one none xs = sym (append-nil xs)
  pushed_one (some x) xs = refl

  parsed-append :
      (r : Result ChainError (Option A)) (xs ys : List A) → parsed r (xs ++ ys) ≡ parsed r xs ++ ys
  parsed-append (throw e) xs ys = refl
  parsed-append (ok none) xs ys = refl
  parsed-append (ok (some x)) xs ys = refl

tree_events-append :
    (es fs : List ChainEvent) → tree_events (es ++ fs) ≡ tree_events es ++ tree_events fs
unfolding tree_events
tree_events-append [] fs = refl
tree_events-append (e ∷ es) fs =
    ap (parsed (parse_tree_event e)) (tree_events-append es fs)
    ∙ parsed-append (parse_tree_event e) (tree_events es) (tree_events fs)

fill_events-append :
    (es fs : List ChainEvent) → fill_events (es ++ fs) ≡ fill_events es ++ fill_events fs
unfolding fill_events
fill_events-append [] fs = refl
fill_events-append (e ∷ es) fs =
    ap (parsed (parse_fill_event e)) (fill_events-append es fs)
    ∙ parsed-append (parse_fill_event e) (fill_events es) (fill_events fs)

ids-append : (es fs : List ChainEvent) → ids (es ++ fs) ≡ ids es ++ ids fs
unfolding ids
ids-append [] fs = refl
ids-append (e ∷ es) fs = ap (◌∷◌ (event_id e)) (ids-append es fs)

AreNew-append :
    (seen : List Text) (es fs : List ChainEvent)
    → AreNew seen es
    → AreNew (seen ++ ids es) fs
    → AreNew seen (es ++ fs)
unfolding ids
AreNew-append seen [] fs h k = subst (λ s. AreNew s fs) (append-nil seen) k
AreNew-append seen (e ∷ es) fs (new, h) k = (
  new,
  AreNew-append (seen ++ event_id e ∷ []) es fs h
      (subst (λ s. AreNew s fs) (sym (append_assoc seen (event_id e ∷ []) (ids es))) k),
)

pub Appended-nothing : (st : ContractState) → Appended st [] st
unfolding ids tree_events fill_events
Appended-nothing st = (sym (append-nil st.seen), sym (append-nil st.acc), sym (append-nil st.fills))

pub Appended-then :
    (a b c : ContractState) (es fs : List ChainEvent)
    → Appended a es b
    → Appended b fs c
    → Appended a (es ++ fs) c
Appended-then a b c es fs (s, t, f) (s', t', f') = (
  s'
      ∙ ap (λ x. x ++ ids fs) s
      ∙ append_assoc a.seen (ids es) (ids fs)
      ∙ ap (◌++◌ a.seen) (sym (ids-append es fs)),
  t'
      ∙ ap (λ x. x ++ tree_events fs) t
      ∙ append_assoc a.acc (tree_events es) (tree_events fs)
      ∙ ap (◌++◌ a.acc) (sym (tree_events-append es fs)),
  f'
      ∙ ap (λ x. x ++ fill_events fs) f
      ∙ append_assoc a.fills (fill_events es) (fill_events fs)
      ∙ ap (◌++◌ a.fills) (sym (fill_events-append es fs)),
)

pub Grows-same : (st : ContractState) → Grows st st
Grows-same st = let (s, t, f) = Appended-nothing st in ([], tt, s, t, f)

pub Grows-then : (a b c : ContractState) → Grows a b → Grows b c → Grows a c
Grows-then a b c (es, new, s, t, f) (fs, new', s', t', f') =
    let (s'', t'', f'') = Appended-then a b c es fs (s, t, f) (s', t', f') in
    (es ++ fs, AreNew-append a.seen es fs new (subst (λ x. AreNew x fs) s new'), s'', t'', f'')

-- More ids stay seen.
is_seen-append : (k : Text) (xs ys : List Text) → is_seen k xs ≡ true → is_seen k (xs ++ ys) ≡ true
unfolding is_seen
is_seen-append k [] ys h = absurd (true_ne_false (sym h))
is_seen-append k (x ∷ xs) ys h = elim (Bool-cases (text_eq x k)) [
  | inl e ↦ rw e refl
  | inr e ↦ rw e (is_seen-append k xs ys (sym (rw e refl) ∙ h))
]

is_seen_last : (k : Text) (xs : List Text) → is_seen k (xs ++ k ∷ []) ≡ true
unfolding is_seen
is_seen_last k [] = rw (text_eq_refl k) refl
is_seen_last k (x ∷ xs) = elim (Bool-cases (text_eq x k)) [
  | inl e ↦ rw e refl
  | inr e ↦ rw e (is_seen_last k xs)
]

Grows-is_seen :
    (k : Text) (st next : ContractState)
    → Grows st next
    → is_seen k st.seen ≡ true
    → is_seen k next.seen ≡ true
Grows-is_seen k st next (es, new, s, t, f) h =
    subst (λ x. is_seen k x ≡ true) (sym s) (is_seen-append k st.seen (ids es) h)

abbrev pub Added : ChainEvent → ContractState → ContractState → Type 0
Added e st next = Grows st next × (is_seen (event_id e) next.seen ≡ true)

-- The turn of the loop for an event whose id is new, when it does not throw.
module _ (setup : Setup) (e : ChainEvent) (r next : Reader) where
  fills_grow :
      (t : Option ParsedEvent) (q : Result ChainError (Option ParsedFill))
      → parse_tree_event e ≡ ok t
      → parse_fill_event e ≡ q
      → fill_parsed setup e t
          (set_state
            (record r.st { seen = r.st.seen ++ event_id e ∷ []; acc = pushed t r.st.acc })
            r)
          q
        ≡ (next, ok tt)
      → Appended r.st (e ∷ []) next.st
  unfolding ids tree_events fill_events
  fills_grow t (throw error) g i h = absurd (cc)
  fills_grow t (ok f) g i h =
      let st = ap (λ d. d.0.st) h in
      subst (Appended r.st (e ∷ [])) st (
        refl,
        pushed_one t r.st.acc ∙ ap (λ p. r.st.acc ++ parsed p []) (sym g),
        pushed_one f r.st.fills ∙ ap (λ p. r.st.fills ++ parsed p []) (sym i),
      )

  trees_grow :
      (p : Result ChainError (Option ParsedEvent))
      → parse_tree_event e ≡ p
      → tree_parsed setup e (set_state (record r.st { seen = r.st.seen ++ event_id e ∷ [] }) r) p
        ≡ (next, ok tt)
      → Appended r.st (e ∷ []) next.st
  trees_grow (throw error) g h = absurd (cc)
  trees_grow (ok t) g h = fills_grow t (parse_fill_event e) g refl h

-- An event whose id was seen changes nothing; another one is appended.
pub add_chain_event_cases :
    (setup : Setup) (e : ChainEvent) (r next : Reader)
    → add_chain_event setup e r ≡ (next, ok tt)
    → ((is_seen (event_id e) r.st.seen ≡ true) × (r.st ≡ next.st))
      ⊎ ((is_seen (event_id e) r.st.seen ≡ false) × Appended r.st (e ∷ []) next.st)
unfolding add_chain_event
add_chain_event_cases setup e r next h = elim (Bool-cases (is_seen (event_id e) r.st.seen)) [
  | inl s ↦
      let x : ◌≡◌ {A = Done} (r, ok tt) (next, ok tt) = sym (rw s refl) ∙ h in
      inl (s, ap (λ d. d.0.st) x)
  | inr s ↦ inr (s, trees_grow setup e r next (parse_tree_event e) refl (sym (rw s refl) ∙ h))
]

add_chain_event-Added :
    (setup : Setup) (e : ChainEvent) (r next : Reader)
    → add_chain_event setup e r ≡ (next, ok tt)
    → Added e r.st next.st
unfolding ids
add_chain_event-Added setup e r next h = elim (add_chain_event_cases setup e r next h) [
  | inl (s, same) ↦ subst (Added e r.st) same (Grows-same r.st, s)
  | inr (s, (i, t, f)) ↦ (
    (e ∷ [], (s, tt), i, t, f),
    subst (λ x. is_seen (event_id e) x ≡ true) (sym i) (is_seen_last (event_id e) r.st.seen),
  )
]

pub done_then-ok :
    (d : Done) (k : Reader → Done) {next : Reader}
    → done_then d k ≡ (next, ok tt)
    → (mid : Reader) × (d ≡ (mid, ok tt)) × (k mid ≡ (next, ok tt))
done_then-ok (r, ok u) k h = (r, refl, h)
done_then-ok (r, throw e) k h = absurd (cc)

abbrev pub HasSeen : List ChainEvent → ContractState → Type 0
HasSeen es st = All (λ e. is_seen (event_id e) st.seen ≡ true) es

add_events-Grows :
    (setup : Setup) (es : List ChainEvent) (r next : Reader)
    → add_events setup es r ≡ (next, ok tt)
    → Grows r.st next.st × HasSeen es next.st
unfolding add_events
add_events-Grows setup [] r next h = (subst (Grows r.st) (ap (λ d. d.0.st) h) (Grows-same r.st), tt)
add_events-Grows setup (e ∷ es) r next h =
    let (mid, g, k) = done_then-ok (add_chain_event setup e r) (add_events setup es) h in
    let (grows, seen) = add_chain_event-Added setup e r mid g in
    let (more, rest) = add_events-Grows setup es mid next k in
    (
      Grows-then r.st mid.st next.st grows more,
      (Grows-is_seen (event_id e) mid.st next.st more seen, rest),
    )

pub st-persist :
    (setup : Setup) (fatal : Option Text) (r : Reader) → (persist setup fatal r).st ≡ r.st
unfolding persist
st-persist setup fatal r = elim (Bool-cases setup.has_cache) [
  | inl e ↦ rw e refl
  | inr e ↦ rw e refl
]

-- A page that is added without an error: the state grows by events of new ids, every id of the page
-- is seen, and the cursor is the page's.
pub add_page-Grows :
    (setup : Setup) (page : Page) (r next : Reader)
    → add_page setup page r ≡ (next, ok tt)
    → Grows r.st next.st × HasSeen page.events next.st × (next.st.cursor ≡ some page.cursor)
unfolding add_page
add_page-Grows setup page r next h =
    let (mid, g, k) =
      done_then-ok (add_events setup page.events r) (λ x. (page_ended setup page x, ok tt)) h in
    let (grows, seen) = add_events-Grows setup page.events r mid g in
    let moved : ContractState = record mid.st {
      cursor = some page.cursor;
      latest_ledger = some page.latest_ledger;
    } in
    let st : moved ≡ next.st =
      sym (st-persist setup none (set_state moved mid)) ∙ ap (λ d. d.0.st) k in
    subst (λ s. Grows r.st s × HasSeen page.events s × (s.cursor ≡ some page.cursor)) st
      (grows, seen, refl)
