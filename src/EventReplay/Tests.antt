-- ===== src/EventReplay/Tests.antt =====
-- A desk whose array of events grows between two calls, and a third call that takes the cached state.
use stellar_mosaic.Prelude.{ℕ, ◌+◌, ◌*◌, ◌%◌, ◌≡◌, refl, ok, List, [], ◌∷◌, String}
use stellar_mosaic.Text.{codes, big_int, read_digits, to_digits}
use stellar_mosaic.Field.{to_big_int, canonical, text_field_hex}
use stellar_mosaic.NoteTree.{
  and_then, TreeEvent, NoteTree, shielded, empty, root, ingest, insert_asset_note, asset_note_leaf,
}
use stellar_mosaic.EventReplay.{
  Heap, ReplayedNoteState, Cache, cached, set_cached, state_of, replay, replay_note_events,
  rebuild_note_tree, ingest_all,
}
use stellar_mosaic.EventReplay.Caching.{then_given, IsReplayOf, starts, replays, replay-IsReplayOf}

abbrev mix : ℕ → ℕ → ℕ
mix a b = (7 * a + 3 * b + 1) % 1009

abbrev first : TreeEvent
first = shielded 1 (codes "5") (codes "7")

abbrev second : TreeEvent
second = shielded 1 (codes "6") (codes "8")

-- The array of the source, before and after it has grown.
abbrev before : Heap
before array = first ∷ []

abbrev after : Heap
after array = first ∷ second ∷ []

abbrev first_cache : Cache
first_cache = (replay mix before "desk" (ok 0) (ok 1) []).0

abbrev second_cache : Cache
second_cache = (replay mix after "desk" (ok 0) (ok 1) first_cache).0

abbrev tree : NoteTree
tree = (ingest mix second (ingest mix first empty).0).0

abbrev state : ReplayedNoteState
state = state_of mix 0 (after 0) 1 (root mix tree)

abbrev no_events : String → List TreeEvent
no_events desk_id = []

-- The second call replays the grown array, and the third one takes its state from the cache.
replay_tests :
    ((replay mix after "desk" (ok 0) (ok 1) first_cache).1 ≡ ok state)
    × (replay mix after "desk" (ok 0) (ok 1) second_cache ≡ (second_cache, ok state))
unfolding cached set_cached replay replay_note_events rebuild_note_tree ingest_all ingest and_then
    insert_asset_note asset_note_leaf big_int to_digits read_digits to_big_int canonical
    text_field_hex
replay_tests = (refl, refl)

replay-IsReplayOf_example : IsReplayOf mix (after 0) state
replay-IsReplayOf_example =
    replay-IsReplayOf mix (then_given "desk" (after 0) (then_given "desk" (before 0) no_events))
      second_cache second_cache after "desk" 0 (ok 1) [] state
      (replays (replays starts before "desk" 0 (ok 1) (first ∷ []) refl) after "desk" 0 (ok 1)
        (second ∷ []) refl)
      refl replay_tests.1
