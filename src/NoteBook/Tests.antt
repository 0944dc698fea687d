-- ===== src/NoteBook/Tests.antt =====
-- A wallet with an old record and a foreign note, and the theorems at it.
use stellar_mosaic.Prelude.{ℕ, String, ◌≡◌, refl, some, none, true, false, Option, [], ◌∷◌}
use stellar_mosaic.Text.{codes, text_eq, lower_case}
use stellar_mosaic.Types.{Note, NoteBody, asset, active, spent}
use stellar_mosaic.NoteTree.{ChainNote}
use stellar_mosaic.Activity.{EventLog}
use stellar_mosaic.NoteBook.{
  RawNote, NoteManager, current, confirmed, stored, normalize_note, merge_note, get_note, is_newer,
  spread, merge_recovery_notes,
}
use stellar_mosaic.NoteBook.Merging.{merge_note-absorbs}
use stellar_mosaic.NoteBook.Recovery.{merge_recovery_notes-foreign}
use stellar_mosaic.NoteBook.Indexing.{reconcile, by_tag}
use stellar_mosaic.NoteBook.Indexing.Lifecycle.{IsKept, reconcile-IsKept}

abbrev body_of : String → Option String → Option ℕ → NoteBody
body_of name wallet revision = record {
  id = name;
  desk_id = "desk";
  role = asset;
  asset_id = 1;
  symbol = "USDC";
  amount = codes "5";
  sk = codes "1";
  rho = codes "2";
  owner_tag = codes "0xab";
  leaf_index = none;
  tx_hash = none;
  created_at = 3;
  updated_at = none;
  cancel = none;
  cancelled_at = none;
  wallet_address = wallet;
  recovery_version = some 1;
  recovery_state = none;
  revision = revision;
  operation_id = none;
  operation_state = none;
}

abbrev old_record : RawNote
old_record = record { body = body_of "a" none none; raw_status = confirmed; raw_indexed = none }

abbrev foreign_record : RawNote
foreign_record = record {
  body = body_of "b" (some "you") (some 4);
  raw_status = current active;
  raw_indexed = none;
}

abbrev manager : NoteManager
manager = record { store = old_record ∷ foreign_record ∷ []; notified = 0 }

abbrev spent_note : Note
spent_note = record { body = body_of "a" (some "me") (some 1); status = spent; indexed = false }

abbrev newer_note : Note
newer_note = record { body = body_of "a" none (some 2); status = active; indexed = true }

abbrev on_chain : ChainNote
on_chain = record { leaf_index = 9; asset = 1; amount = codes "6"; owner_tag = codes "0xAB" }

abbrev no_events : EventLog
no_events = record { events = []; next_cursor = 1 }

normalize_test :
    ((normalize_note old_record).indexed ≡ true)
    × ((normalize_note old_record).revision ≡ some 0)
    × ((merge_note spent_note newer_note).status ≡ spent)
    × ((merge_note spent_note newer_note).wallet_address ≡ some "me")
    × (by_tag (codes "0xab") (on_chain ∷ []) ≡ some on_chain)
unfolding normalize_note merge_note is_newer spread by_tag lower_case text_eq
normalize_test = (refl, refl, refl, refl, refl)

merge_note-absorbs_example :
    merge_note (merge_note spent_note newer_note) newer_note ≡ merge_note spent_note newer_note
merge_note-absorbs_example = merge_note-absorbs spent_note newer_note

merge_recovery_notes-foreign_example :
    get_note "b" (merge_recovery_notes "me" (stored spent_note ∷ []) manager).store
    ≡ some foreign_record
merge_recovery_notes-foreign_example =
    merge_recovery_notes-foreign "me" (stored spent_note ∷ []) manager "b" foreign_record
      (unfold get_note in refl) refl

abbrev spend : Note → Note
spend n = record n { status = spent }

reconcile-IsKept_example :
    IsKept "a" old_record (reconcile "desk" (on_chain ∷ []) 8 manager no_events).manager.store
reconcile-IsKept_example =
    reconcile-IsKept "desk" (on_chain ∷ []) 8 manager no_events "a" old_record
      (unfold get_note in refl)
