-- ===== src/EventReplay.antt =====
-- packages/sdk/src/eventReplay.ts: the note state of a desk, replayed from its events and cached.
-- The sources of events and fills are code of the caller: a call of one gives an array or throws, and
-- that outcome is an argument of the step that makes the call. A state and the source share their
-- arrays of events and of fills, which the source may change between calls: an array is its address,
-- and what the arrays of events hold during a call is the argument `heap`. Fills are never read here.
pub mod Caching
mod Tests
use stellar_mosaic.Prelude.{
  ℕ, String, Option, none, some, List, [], ◌∷◌, ◌==◌, if◌then◌else◌, length, Result, ok, throw,
  str_eq, ◌>>=◌,
}
use stellar_mosaic.Text.{Text}
use stellar_mosaic.NoteTree.{
  NoteTree, TreeEvent, TreeError, ChainNote, NoteProof, empty, ingest, root, notes,
  index_of_owner_tag, note_proof_at,
}

pub data ReplayError : Type 0 where
  source_failed : ReplayError
  tree_failed : TreeError → ReplayError
  no_note : (owner_tag : Text) (desk_id : String) → ReplayError

-- The address of an array of events.
abbrev pub EventArray : Type 0
EventArray = ℕ

-- The address of an array of fills.
abbrev pub FillArray : Type 0
FillArray = ℕ

abbrev pub Heap : Type 0
Heap = EventArray → List TreeEvent

pub record ReplayedNoteState : Type 0 where
  pub event_count : ℕ
  pub events : EventArray
  pub tree : NoteTree
  pub root_text : Text
  pub chain_notes : List ChainNote
  pub fills : FillArray

pub record DeskCache : Type 0 where
  pub count : ℕ
  pub state : ReplayedNoteState

-- The cache of the replayer: the desks it has replayed.
abbrev pub Cache : Type 0
Cache = List (String × DeskCache)

unfoldable pub cached : String → Cache → Option DeskCache
cached desk_id [] = none
cached desk_id ((d, c) ∷ cs) =
    let rest = cached desk_id cs in if str_eq d desk_id then some c else rest

unfoldable pub set_cached : String → DeskCache → Cache → Cache
set_cached desk_id new [] = (desk_id, new) ∷ []
set_cached desk_id new ((d, c) ∷ cs) =
    let rest = (d, c) ∷ set_cached desk_id new cs in
    if str_eq d desk_id then (d, new) ∷ cs else rest

-- An outcome of a call to the source.
abbrev pub Fetched {ℓ} : Type ℓ → Type ℓ
Fetched A = Result ReplayError A

module _ (compress : ℕ → ℕ → ℕ) where
  -- The rest of a loop that has ingested an event.
  unfoldable pub ingest_all :
      NoteTree × Result TreeError (Unit {0}) → List TreeEvent → Result ReplayError NoteTree
  ingest_all (t, throw e) evs = throw (tree_failed e)
  ingest_all (t, ok _) [] = ok t
  ingest_all (t, ok _) (ev ∷ evs) = ingest_all (ingest compress ev t) evs

  unfoldable pub rebuild_note_tree : List TreeEvent → Result ReplayError NoteTree
  rebuild_note_tree events = ingest_all (empty, ok tt) events

  -- The state for a tree whose root has been computed.
  abbrev pub state_of :
      EventArray → List TreeEvent → FillArray → NoteTree × Text → ReplayedNoteState
  state_of events held fills (t, root_text) = record {
    event_count = length held;
    events = events;
    tree = t;
    root_text = root_text;
    chain_notes = notes t;
    fills = fills;
  }

  unfoldable pub replay_note_events :
      Heap → EventArray → FillArray → Result ReplayError ReplayedNoteState
  replay_note_events heap events fills = do
    t ← rebuild_note_tree (heap events)
    ok (state_of events (heap events) fills (root compress t))

  -- A rebuilt state is kept in the cache.
  abbrev pub cache_state :
      String
      → ℕ
      → Cache
      → Result ReplayError ReplayedNoteState
      → Cache × Result ReplayError ReplayedNoteState
  cache_state desk_id count cache (throw e) = (cache, throw e)
  cache_state desk_id count cache (ok state) =
      (set_cached desk_id (record { count = count; state = state }) cache, ok state)

  abbrev pub rebuild :
      Heap
      → String
      → EventArray
      → Fetched FillArray
      → Cache
      → Cache × Result ReplayError ReplayedNoteState
  rebuild heap desk_id events (throw e) cache = (cache, throw e)
  rebuild heap desk_id events (ok fills) cache =
      cache_state desk_id (length (heap events)) cache (replay_note_events heap events fills)

  abbrev pub use_cached :
      Heap
      → String
      → EventArray
      → Fetched FillArray
      → Cache
      → Option DeskCache
      → Cache × Result ReplayError ReplayedNoteState
  use_cached heap desk_id events fills cache none = rebuild heap desk_id events fills cache
  use_cached heap desk_id events fills cache (some c) =
      if c.count == length (heap events)
      then (cache, ok c.state)
      else rebuild heap desk_id events fills cache

  -- `replay`, with the outcomes of the two calls to the sources; without a source of fills the
  -- second is a new empty array.
  unfoldable pub replay :
      Heap
      → String
      → Fetched EventArray
      → Fetched FillArray
      → Cache
      → Cache × Result ReplayError ReplayedNoteState
  replay heap desk_id (throw e) fills cache = (cache, throw e)
  replay heap desk_id (ok events) fills cache =
      use_cached heap desk_id events fills cache (cached desk_id cache)

  -- The state that a replay gave, with the cache it left, read by a view of it.
  abbrev pub view {ℓ} :
      {A : Type ℓ}
      → (ReplayedNoteState → A)
      → Cache × Result ReplayError ReplayedNoteState
      → Cache × Result ReplayError A
  view f (cache, throw e) = (cache, throw e)
  view f (cache, ok state) = (cache, ok (f state))

  abbrev proof_result : Result TreeError NoteProof → Result ReplayError NoteProof
  proof_result (throw e) = throw (tree_failed e)
  proof_result (ok p) = ok p

  abbrev proof_at :
      Text → String → ReplayedNoteState → Result TreeError (Option ℕ) → Result ReplayError NoteProof
  proof_at owner_tag desk_id state (throw e) = throw (tree_failed e)
  proof_at owner_tag desk_id state (ok none) = throw (no_note owner_tag desk_id)
  proof_at owner_tag desk_id state (ok (some i)) =
      proof_result (note_proof_at compress i state.tree).1

  abbrev pub path_of :
      Text
      → String
      → Cache × Result ReplayError ReplayedNoteState
      → Cache × Result ReplayError NoteProof
  path_of owner_tag desk_id (cache, throw e) = (cache, throw e)
  path_of owner_tag desk_id (cache, ok state) =
      (cache, proof_at owner_tag desk_id state (index_of_owner_tag state.tree owner_tag))

  -- `notePath`; the tree of a replayed state has its ladder already, so the proof changes no state.
  unfoldable pub note_path :
      Heap
      → String
      → Text
      → Fetched EventArray
      → Fetched FillArray
      → Cache
      → Cache × Result ReplayError NoteProof
  note_path heap desk_id owner_tag events fills cache =
      path_of owner_tag desk_id (replay heap desk_id events fills cache)

  -- `root`, `notes`, `events` and `fills`; the events and the fills are the arrays themselves.
  unfoldable pub desk_root :
      Heap
      → String
      → Fetched EventArray
      → Fetched FillArray
      → Cache
      → Cache × Result ReplayError Text
  desk_root heap desk_id events fills cache =
      view (λ s. s.root_text) (replay heap desk_id events fills cache)

  unfoldable pub desk_notes :
      Heap
      → String
      → Fetched EventArray
      → Fetched FillArray
      → Cache
      → Cache × Result ReplayError (List ChainNote)
  desk_notes heap desk_id events fills cache =
      view (λ s. s.chain_notes) (replay heap desk_id events fills cache)

  unfoldable pub desk_events :
      Heap
      → String
      → Fetched EventArray
      → Fetched FillArray
      → Cache
      → Cache × Result ReplayError EventArray
  desk_events heap desk_id events fills cache =
      view (λ s. s.events) (replay heap desk_id events fills cache)

  unfoldable pub desk_fills :
      Heap
      → String
      → Fetched EventArray
      → Fetched FillArray
      → Cache
      → Cache × Result ReplayError FillArray
  desk_fills heap desk_id events fills cache =
      view (λ s. s.fills) (replay heap desk_id events fills cache)
