-- ===== src/NoteBook/Indexing.antt =====
-- `reconcile` of packages/sdk/src/notes.ts: the local notes meet the notes of the chain. The record
-- of the activity is that of `MemoryStore`; an error of it is dropped.
pub mod Lifecycle
use stellar_mosaic.Prelude.{
  ℕ, String, Bool, true, false, not, ◌&&◌, ◌||◌, Option, none, some, List, [], ◌∷◌, ◌++◌, map, ◌==◌,
  if◌then◌else◌,
}
use stellar_mosaic.Prelude.Int.{pos}
use stellar_mosaic.Text.{Text, codes, text_eq, lower_case, to_digits}
use stellar_mosaic.Types.{Note, NoteRole, asset, order_output, order_cancel, NoteStatus, cancelled}
use stellar_mosaic.NoteTree.{ChainNote}
use stellar_mosaic.Activity.{
  ActivityEvent, EventLog, Fields, field, no_fields, text, number, note_indexed, record_event,
}
use stellar_mosaic.NoteBook.{NoteManager, normalize_note, by_desk, update}

-- The chain's note with a tag: of several, the last one of the list that the `Map` is made from.
unfoldable pub by_tag : Text → List ChainNote → Option ChainNote
by_tag tag [] = none
by_tag tag (c ∷ cs) = elim (by_tag tag cs) [
  | some found ↦ some found
  | none ↦ if text_eq (lower_case c.owner_tag) (lower_case tag) then some c else none
]

abbrev pub is_cancelled : NoteStatus → Bool
is_cancelled cancelled = true
is_cancelled _ = false

abbrev pub has_leaf : Option ℕ → ℕ → Bool
has_leaf none i = false
has_leaf (some j) i = j == i

-- What the patch for the note `n` writes, on the note that `update` reads.
abbrev pub index_patch : Note → ChainNote → Note → Note
index_patch n c cur = record cur {
  body = record cur.body {
    leaf_index = if has_leaf n.leaf_index c.leaf_index then cur.leaf_index else some c.leaf_index;
    amount = if n.indexed then cur.amount else c.amount;
  };
  indexed = if n.indexed then cur.indexed else true;
}

role_text : NoteRole → Text
role_text asset = codes "asset"
role_text order_output = codes "order-output"
role_text order_cancel = codes "order-cancel"

abbrev option_text : Option String → Option Text
option_text none = none
option_text (some s) = some (codes s)

unfoldable pub indexed_event : String → Note → ChainNote → ActivityEvent
unfolding role_text
indexed_event desk_id n c = record {
  cursor = none;
  id = none;
  idempotency_key = some (
      codes "note-indexed:"
      ++ codes desk_id
      ++ b':' ∷ codes n.id
      ++ b':' ∷ to_digits 10 c.leaf_index);
  kind = note_indexed;
  status = some (codes "indexed");
  message = none;
  wallet_address = none;
  network = none;
  desk_id = some (codes desk_id);
  operation_id = none;
  action = none;
  contract_id = none;
  method = none;
  tx_hash = option_text n.tx_hash;
  note_id = some (codes n.id);
  owner_tag = some n.owner_tag;
  created_at = none;
  metadata = some (
      field (codes "role") (text (role_text n.role)) (
        field (codes "asset_id") (number (pos c.asset)) (
          field (codes "amount") (text c.amount) (
            field (codes "leaf_index") (number (pos c.leaf_index))
              (field (codes "symbol") (text (codes n.symbol)) no_fields)))));
}

-- The manager, the activity log and whether anything changed.
pub record Reconciling : Type 0 where
  pub manager : NoteManager
  pub log : EventLog
  pub changed : Bool

abbrev pub index_note : String → Note → ChainNote → ℕ → Reconciling → Reconciling
index_note desk_id n c now s =
    if has_leaf n.leaf_index c.leaf_index && n.indexed then s else record {
      manager = update n.id (index_patch n c) now s.manager;
      log = if n.indexed then s.log else (record_event [] now (indexed_event desk_id n c) s.log).0;
      changed = true;
    }

abbrev pub index_found : String → Note → ℕ → Reconciling → Option ChainNote → Reconciling
index_found desk_id n now s none = s
index_found desk_id n now s (some c) = index_note desk_id n c now s

unfoldable pub reconcile_note : String → List ChainNote → ℕ → Note → Reconciling → Reconciling
reconcile_note desk_id chain now n s =
    if is_cancelled n.status then s else index_found desk_id n now s (by_tag n.owner_tag chain)

unfoldable pub reconcile_notes : String → List ChainNote → ℕ → List Note → Reconciling → Reconciling
reconcile_notes desk_id chain now [] s = s
reconcile_notes desk_id chain now (n ∷ ns) s =
    reconcile_notes desk_id chain now ns (reconcile_note desk_id chain now n s)

unfoldable pub reconcile : String → List ChainNote → ℕ → NoteManager → EventLog → Reconciling
reconcile desk_id chain now m log =
    reconcile_notes desk_id chain now (map normalize_note (by_desk desk_id m.store))
      (record { manager = m; log = log; changed = false })
