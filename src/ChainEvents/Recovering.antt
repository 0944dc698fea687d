-- ===== src/ChainEvents/Recovering.antt =====
-- A reading of pages to its end, the recovery from the retained ledgers, and a replay that is
-- rejected.
use stellar_mosaic.Prelude.{
  ℕ, zero, suc, ◌≡◌, refl, sym, ap, ◌∙◌, subst, true, Option, none, some, List, ltb, length, Result,
  ok, throw, Bool-cases, inl, inr, some_inj, none_ne_some,
}
use stellar_mosaic.Text.{Text}
use stellar_mosaic.Activity.{EventLog}
use stellar_mosaic.ChainEvents.{unavailable, cached_fatal, ParsedEvent}
use stellar_mosaic.ChainEvents.Reader.{
  ChainStart, ContractState, Reader, Setup, Page, Done, add_page, persist, saved, rebuilt,
  set_state, page_added, chain_page_fetched, page_asked, start_at, fetch_loop, fetch_pages,
}
use stellar_mosaic.ChainEvents.Appending.{Grows, Grows-then, add_page-Grows, done_then-ok}
use stellar_mosaic.ChainEvents.Source.{
  empty_state, retained_replay, then_done, validated, validate_or_fatal, because, fatal_done,
  recover_from_retained_range, read_events, load_state, Validator, read_tree_events,
}

module _ (setup : Setup) (more : Reader → Option Done)
    (grows : (r next : Reader) → more r ≡ some (next, ok tt) → Grows r.st next.st) where
  page_added-Grows :
      (page : Page) (a : ContractState) (d : Done) (next : Reader)
      → ((r : Reader) → d ≡ (r, ok tt) → Grows a r.st)
      → page_added more page d ≡ some (next, ok tt)
      → Grows a next.st
  page_added-Grows page a (r, throw e) next g h = absurd (cc)
  page_added-Grows page a (r, ok u) next g h = elim (Bool-cases (ltb (length page.events) 1000)) [
    | inl e ↦
        let x : ◌≡◌ {A = Option Done} (some (r, ok tt)) (some (next, ok tt)) =
          sym (rw e refl) ∙ h in
        subst (Grows a) (ap (λ d. d.0.st) (some_inj x)) (g r refl)
    | inr e ↦ Grows-then a r.st next.st (g r refl) (grows r next (sym (rw e refl) ∙ h))
  ]

  chain_page_fetched-Grows :
      (r : Reader) (p : Result Text Page) (next : Reader)
      → chain_page_fetched setup more r p ≡ some (next, ok tt)
      → Grows r.st next.st
  chain_page_fetched-Grows r (throw message) next h = absurd (cc)
  chain_page_fetched-Grows r (ok page) next h =
      page_added-Grows page r.st (add_page setup page r) next
        (λ mid g. let (grown, seen, cursor) = add_page-Grows setup page r mid g in grown) h

  page_asked-Grows :
      (attempt call : ℕ) (r : Reader) (start : Option ChainStart) (next : Reader)
      → page_asked setup attempt call more r start ≡ some (next, ok tt)
      → Grows r.st next.st
  page_asked-Grows attempt call r none next h = absurd (cc)
  page_asked-Grows attempt call r (some start) next h =
      chain_page_fetched-Grows r (setup.get_events attempt call start) next h

fetch_loop-Grows :
    (setup : Setup) (attempt fuel call : ℕ) (start_ledger : Option ℕ) (r next : Reader)
    → fetch_loop setup attempt fuel call start_ledger r ≡ some (next, ok tt)
    → Grows r.st next.st
unfolding fetch_loop
fetch_loop-Grows setup attempt zero call start_ledger r next h = absurd (none_ne_some h)
fetch_loop-Grows setup attempt (suc fuel) call start_ledger r next h =
    page_asked-Grows setup (fetch_loop setup attempt fuel (suc call) start_ledger)
      (λ a b. fetch_loop-Grows setup attempt fuel (suc call) start_ledger a b) attempt call r
      (start_at r.st start_ledger) next h

-- A reading of pages grows the state it starts from by events of new ids.
pub fetch_pages-Grows :
    (setup : Setup) (attempt fuel : ℕ) (start_ledger : Option ℕ) (r next : Reader)
    → fetch_pages setup attempt fuel start_ledger r ≡ some (next, ok tt)
    → Grows (rebuilt r).st next.st
unfolding fetch_pages
fetch_pages-Grows setup attempt fuel start_ledger r next h =
    fetch_loop-Grows setup attempt fuel 0 start_ledger (rebuilt r) next h

module _ (setup : Setup) (fuel oldest : ℕ)
    (validate : List ParsedEvent → Result Text (Unit {0})) where
  validated-ok :
      (r : Reader) (v : Result Text (Unit {0})) (next : Reader)
      → validated setup r v ≡ (next, ok tt)
      → (r ≡ next) × (v ≡ ok tt)
  validated-ok r (ok u) next h = (ap (λ d. d.0) h, refl)
  validated-ok r (throw message) next h = absurd (cc)

  then_done-ok :
      (o : Option Done) (k : Reader → Done) (next : Reader)
      → then_done o k ≡ some (next, ok tt)
      → (mid : Reader) × (o ≡ some (mid, ok tt)) × (k mid ≡ (next, ok tt))
  then_done-ok none k next h = absurd (none_ne_some h)
  then_done-ok (some d) k next h =
      let (mid, g, i) = done_then-ok d k (some_inj h) in (mid, ap some g, i)

  clean : (r : Reader) → (rebuilt (set_state empty_state r)).st ≡ empty_state
  unfolding rebuilt
  clean r = refl

  -- A recovery with a validator that ends without an error has forgotten the history it started
  -- from: what it holds are the parsed events of ids that differ from each other, and the validator
  -- has accepted them.
  pub recover_from_retained_range-validated :
      (r next : Reader)
      → recover_from_retained_range setup fuel oldest (some validate) r ≡ some (next, ok tt)
      → Grows empty_state next.st × (validate next.st.acc ≡ ok tt)
  unfolding recover_from_retained_range validate_or_fatal
  recover_from_retained_range-validated r next h =
      let (mid, g, i) =
        then_done-ok (retained_replay setup fuel oldest r)
          (λ x. validated setup x (validate x.st.acc)) next h in
      let (same, accepted) = validated-ok mid (validate mid.st.acc) next i in
      let grown = fetch_pages-Grows setup 1 fuel (some oldest) (set_state empty_state r) mid g in
      (
        subst (Grows empty_state) (ap (λ x. x.st) same)
            (subst (λ s. Grows s mid.st) (clean r) grown),
        subst (λ x. validate x.st.acc ≡ ok tt) same accepted,
      )

  recovery_rejects :
      (r mid : Reader) (message : Text)
      → retained_replay setup fuel oldest r ≡ some (mid, ok tt)
      → validate mid.st.acc ≡ throw message
      → recover_from_retained_range setup fuel oldest (some validate) r
        ≡ some (fatal_done setup (because message) mid)
  unfolding recover_from_retained_range validate_or_fatal
  recovery_rejects r mid message h v =
      ap (λ o. then_done o (λ x. validated setup x (validate x.st.acc))) h
      ∙ ap (λ x. some (validated setup mid x)) v

  kept_marker :
      (mid : Reader) (message : Text)
      → setup.has_cache ≡ true
      → (persist setup (some message) mid).cache ≡ some (saved mid.st (some message))
  unfolding persist
  kept_marker mid message e = rw e refl

  -- A new session over a cache with the marker.
  marked_session :
      (later : Setup) (message : Text) (st : ContractState) (log : EventLog) (fuel' : ℕ)
      (start_ledger default_start : Option ℕ) (other : Validator)
      → later.has_cache ≡ true
      → read_tree_events later fuel' start_ledger default_start other
          (record { state = none; cache = some (saved st (some (because message))); log = log })
        ≡ some (
          record { state = none; cache = some (saved st (some (because message))); log = log },
          throw (cached_fatal (because message)),
        )
  unfolding read_events load_state
  marked_session later message st log fuel' start_ledger default_start other e = rw e refl

  -- With a cache, when the retained ledgers are replayed without an error and the validator rejects
  -- the replay: the recovery throws that the history is unavailable, with the validator's message,
  -- and in every later session over the same cache, whatever the server would answer, reading events
  -- throws the same message and changes nothing.
  pub recover_from_retained_range-rejected :
      (r mid : Reader) (message : Text)
      → setup.has_cache ≡ true
      → retained_replay setup fuel oldest r ≡ some (mid, ok tt)
      → validate mid.st.acc ≡ throw message
      → (next : Reader) × (recover_from_retained_range setup fuel oldest (some validate) r
          ≡ some (next, throw (unavailable (because message))))
        × ((later : Setup) (log : EventLog) (later_fuel : ℕ) (start_ledger default_start : Option ℕ)
              (other : Validator)
            → later.has_cache ≡ true
            → read_tree_events later later_fuel start_ledger default_start other
                (record { state = none; cache = next.cache; log = log })
              ≡ some (
                record { state = none; cache = next.cache; log = log },
                throw (cached_fatal (because message)),
              ))
  recover_from_retained_range-rejected r mid message e h v = (
    persist setup (some (because message)) mid,
    recovery_rejects r mid message h v,
    λ later log later_fuel start_ledger default_start other f.
        subst
          (λ c.
            read_tree_events later later_fuel start_ledger default_start other
              (record { state = none; cache = c; log = log })
            ≡ some (
              record { state = none; cache = c; log = log },
              throw (cached_fatal (because message)),
            ))
          (sym (kept_marker mid (because message) e))
          (marked_session later message mid.st log later_fuel start_ledger default_start other f),
  )
