-- ===== src/EventReplay/Caching.antt =====
-- The states that a replay gives from the cache, for sources whose arrays of events grow.
use stellar_mosaic.Prelude.{
  throw_ne_ok, ok_inj, ℕ, String, ◌≡◌, refl, sym, ap, subst, ◌∙◌, Option, some, none, List, [], ◌∷◌,
  ◌++◌, inl, inr, Bool-cases, length, Result, ok, throw, str_eq, ◌==◌, if◌then◌else◌, arith, ==_iff,
  ◌>>=◌,
}
use mathlib.Core.List.{append_assoc, append-nil}
use stellar_mosaic.Prelude.Keyed.{str_eq-true, str_eq_refl}
use stellar_mosaic.NoteTree.{root, NoteTree, TreeEvent}
use stellar_mosaic.EventReplay.{
  Heap, EventArray, FillArray, ReplayedNoteState, ReplayError, DeskCache, Cache, Fetched, cached,
  set_cached, replay_note_events, rebuild_note_tree, state_of, cache_state, rebuild, use_cached,
  replay,
}

-- The events that the source of a desk has given, from one call on.
abbrev pub then_given :
    String → List TreeEvent → (String → List TreeEvent) → String → List TreeEvent
then_given desk_id events given d = if str_eq d desk_id then events else given d

module _ (compress : ℕ → ℕ → ℕ) where
  -- The state is that of a full replay of these events, with the array of fills that it has.
  abbrev pub IsReplayOf : List TreeEvent → ReplayedNoteState → Type 0
  IsReplayOf held s = replay_note_events compress (λ array. held) s.events s.fills ≡ ok s

  -- The caches that calls leave, with the events last given for each desk. At each call the array
  -- that the source gives holds the events that it gave for the desk before, and more; what arrays
  -- hold may otherwise change from call to call.
  pub data Served : (String → List TreeEvent) → Cache → Type 0 where
    starts : Served (λ desk_id. []) []
    replays :
        {given : String → List TreeEvent} {cache : Cache}
        → Served given cache
        → (heap : Heap) (desk_id : String) (events : EventArray) (fills : Fetched FillArray)
          (more : List TreeEvent)
        → heap events ≡ given desk_id ++ more
        → Served
            (then_given desk_id (heap events) given)
            (replay compress heap desk_id (ok events) fills cache).0
    fails :
        {given : String → List TreeEvent} {cache : Cache}
        → Served given cache
        → (heap : Heap) (desk_id : String) (e : ReplayError) (fills : Fetched FillArray)
        → Served given (replay compress heap desk_id (throw e) fills cache).0

  -- A cache entry is the state of the first events of a desk, and counts them.
  pub record IsEntry (given : List TreeEvent) (c : DeskCache) : Type 0 where
    pub held : List TreeEvent
    pub more : List TreeEvent
    pub extends : given ≡ held ++ more
    pub counted : c.count ≡ length held
    pub replayed : IsReplayOf held c.state

  abbrev pub IsValid : (String → List TreeEvent) → Cache → Type 0
  IsValid given [] = Unit
  IsValid given ((d, c) ∷ cs) = IsEntry (given d) c × IsValid given cs

  cached-IsEntry :
      (given : String → List TreeEvent) (desk_id : String) (cs : Cache) (c : DeskCache)
      → IsValid given cs
      → cached desk_id cs ≡ some c
      → IsEntry (given desk_id) c
  unfolding cached
  cached-IsEntry given desk_id [] c v h = absurd cc
  cached-IsEntry given desk_id ((d, x) ∷ cs) c (e, v) h = elim (Bool-cases (str_eq d desk_id)) [
    | inl s ↦
        let found : some x ≡ some c = sym (rw s refl) ∙ h in
        let is_x : x ≡ c = cc in
        subst (λ k. IsEntry (given k) c) (str_eq-true d desk_id s)
          (subst (IsEntry (given d)) is_x e)
    | inr s ↦ cached-IsEntry given desk_id cs c v (sym (rw s refl) ∙ h)
  ]

  set_cached-IsValid :
      (given : String → List TreeEvent) (desk_id : String) (c : DeskCache) (cs : Cache)
      → IsEntry (given desk_id) c
      → IsValid given cs
      → IsValid given (set_cached desk_id c cs)
  unfolding set_cached
  set_cached-IsValid given desk_id c [] e v = (e, tt)
  set_cached-IsValid given desk_id c ((d, x) ∷ cs) e (h, v) = elim (Bool-cases (str_eq d desk_id)) [
    | inl s ↦ rw s (subst (λ k. IsEntry (given k) c) (sym (str_eq-true d desk_id s)) e, v)
    | inr s ↦ rw s (h, set_cached-IsValid given desk_id c cs e v)
  ]

  grown-IsEntry :
      (given events more : List TreeEvent) (c : DeskCache)
      → events ≡ given ++ more
      → IsEntry given c
      → IsEntry events c
  grown-IsEntry given events more c g e = record {
    held = e.held;
    more = e.more ++ more;
    extends = g ∙ ap (λ x. x ++ more) e.extends ∙ append_assoc e.held e.more more;
    counted = e.counted;
    replayed = e.replayed;
  }

  -- More events of one desk.
  grown-IsValid :
      (given : String → List TreeEvent) (desk_id : String) (events more : List TreeEvent)
      (cs : Cache)
      → events ≡ given desk_id ++ more
      → IsValid given cs
      → IsValid (then_given desk_id events given) cs
  grown-IsValid given desk_id events more [] g v = tt
  grown-IsValid given desk_id events more ((d, c) ∷ cs) g (e, v) = (
    elim (Bool-cases (str_eq d desk_id)) [
      | inl s ↦ rw s (
          grown-IsEntry (given d) events more c
            (g ∙ ap (λ k. given k ++ more) (sym (str_eq-true d desk_id s))) e)
      | inr s ↦ rw s e
    ],
    grown-IsValid given desk_id events more cs g v,
  )

  -- A state that has been rebuilt is that of the events that its array held.
  rebuilt_lem :
      (heap : Heap) (events : EventArray) (fills : FillArray) (tree : Result ReplayError NoteTree)
      (s : ReplayedNoteState)
      → (tree >>= λ t. ok (state_of compress events (heap events) fills (root compress t))) ≡ ok s
      → (s.events ≡ events) × (s.fills ≡ fills)
  rebuilt_lem heap events fills (ok t) s h =
      let is_s = ok_inj h in
      (
        ap (λ (x : ReplayedNoteState). x.events) (sym is_s),
        ap (λ (x : ReplayedNoteState). x.fills) (sym is_s),
      )
  rebuilt_lem heap events fills (throw e) s h = absurd cc

  rebuilt-IsReplayOf :
      (heap : Heap) (events : EventArray) (fills : FillArray) (s : ReplayedNoteState)
      → replay_note_events compress heap events fills ≡ ok s
      → IsReplayOf (heap events) s
  unfolding replay_note_events
  rebuilt-IsReplayOf heap events fills s h =
      let (array, same_fills) =
        rebuilt_lem heap events fills (rebuild_note_tree compress (heap events)) s h in
      subst (λ f. replay_note_events compress (λ a. heap events) s.events f ≡ ok s) (sym same_fills)
        (subst (λ a. replay_note_events compress (λ b. heap events) a fills ≡ ok s) (sym array) h)

  -- What a call leaves and gives.
  abbrev pub Outcome : Type 0
  Outcome = Cache × Result ReplayError ReplayedNoteState

  pub record IsServed (given : String → List TreeEvent) (events : List TreeEvent) (o : Outcome)
      : Type 0 where
    pub valid : IsValid given o.0
    pub current : (s : ReplayedNoteState) → o.1 ≡ ok s → IsReplayOf events s

  module _ (heap : Heap) (desk_id : String) (events : EventArray) (given : String → List TreeEvent)
      (last : given desk_id ≡ heap events) where
    cache_state-IsServed :
        (fills : FillArray) (cache : Cache) (o : Result ReplayError ReplayedNoteState)
        → IsValid given cache
        → replay_note_events compress heap events fills ≡ o
        → IsServed given (heap events) (cache_state compress desk_id (length (heap events)) cache o)
    cache_state-IsServed fills cache (throw e) v r = record {
      valid = v;
      current = λ s h. absurd (throw_ne_ok h);
    }
    cache_state-IsServed fills cache (ok new) v r =
        let now = rebuilt-IsReplayOf heap events fills new r in
        record {
          valid =
              set_cached-IsValid given desk_id
                (record { count = length (heap events); state = new }) cache
                (record {
                  held = heap events;
                  more = [];
                  extends = last ∙ sym (append-nil (heap events));
                  counted = refl;
                  replayed = now;
                })
                v;
          current = λ s h. subst (IsReplayOf (heap events)) (ok_inj h) now;
        }

    rebuild-IsServed :
        (fills : Fetched FillArray) (cache : Cache)
        → IsValid given cache
        → IsServed given (heap events) (rebuild compress heap desk_id events fills cache)
    rebuild-IsServed (throw e) cache v = record {
      valid = v;
      current = λ s h. absurd (throw_ne_ok h);
    }
    rebuild-IsServed (ok fills) cache v =
        cache_state-IsServed fills cache (replay_note_events compress heap events fills) v refl

    all_of : (xs more : List TreeEvent) → length xs ≡ length (xs ++ more) → xs ≡ xs ++ more
    all_of [] [] h = refl
    all_of [] (y ∷ ys) h = absurd (omega arith)
    all_of (x ∷ xs) more h = ap (◌∷◌ x) (all_of xs more (omega arith))

    use_cached-IsServed :
        (fills : Fetched FillArray) (cache : Cache) (found : Option DeskCache)
        → IsValid given cache
        → cached desk_id cache ≡ found
        → IsServed given (heap events) (use_cached compress heap desk_id events fills cache found)
    use_cached-IsServed fills cache none v f = rebuild-IsServed fills cache v
    use_cached-IsServed fills cache (some c) v f =
        elim (Bool-cases (c.count == length (heap events))) [
          | inl same ↦
              let entry = cached-IsEntry given desk_id cache c v f in
              let whole : heap events ≡ entry.held ++ entry.more = sym last ∙ entry.extends in
              let size : length entry.held ≡ length (entry.held ++ entry.more) =
                sym entry.counted
                ∙ (==_iff c.count (length (heap events))).0 same
                ∙ ap length whole in
              let held : entry.held ≡ heap events = all_of entry.held entry.more size ∙ sym whole in
              rw same (record {
                valid = v;
                current = λ s h.
                    subst (IsReplayOf (heap events)) (ok_inj h)
                      (subst (λ x. IsReplayOf x c.state) held entry.replayed);
              })
          | inr longer ↦ rw longer (rebuild-IsServed fills cache v)
        ]

  replay-IsServed :
      (given : String → List TreeEvent) (cache : Cache) (heap : Heap) (desk_id : String)
      (events : EventArray) (fills : Fetched FillArray) (more : List TreeEvent)
      → IsValid given cache
      → heap events ≡ given desk_id ++ more
      → IsServed
          (then_given desk_id (heap events) given)
          (heap events)
          (replay compress heap desk_id (ok events) fills cache)
  unfolding replay
  replay-IsServed given cache heap desk_id events fills more v g =
      use_cached-IsServed heap desk_id events (then_given desk_id (heap events) given)
        (rw (str_eq_refl desk_id) refl) fills cache (cached desk_id cache)
        (grown-IsValid given desk_id (heap events) more cache g v) refl

  Served-IsValid :
      (given : String → List TreeEvent) (cache : Cache) → Served given cache → IsValid given cache
  unfolding replay
  Served-IsValid _ _ starts = tt
  Served-IsValid _ _ (replays {given} {cache} served heap desk_id events fills more g) =
      let h =
        replay-IsServed given cache heap desk_id events fills more
          (Served-IsValid given cache served) g in
      h.valid
  Served-IsValid _ _ (fails {given} {cache} served heap desk_id e fills) =
      Served-IsValid given cache served

  -- After any calls, of any desks, each of which was given the events that the source of its desk had
  -- given before and more, or failed: when a call is given such events and gives a state, from the
  -- cache or not, then the state is that of a full replay of these events with the array of
  -- fills that it holds. The arrays that the cached states share with the source may have grown in between.
  pub replay-IsReplayOf :
      (given : String → List TreeEvent) (cache cache' : Cache) (heap : Heap) (desk_id : String)
      (events : EventArray) (fills : Fetched FillArray) (more : List TreeEvent)
      (s : ReplayedNoteState)
      → Served given cache
      → heap events ≡ given desk_id ++ more
      → replay compress heap desk_id (ok events) fills cache ≡ (cache', ok s)
      → IsReplayOf (heap events) s
  replay-IsReplayOf given cache cache' heap desk_id events fills more s served g h =
      let r =
        replay-IsServed given cache heap desk_id events fills more
          (Served-IsValid given cache served) g in
      r.current s (ap (λ o. o.1) h)
