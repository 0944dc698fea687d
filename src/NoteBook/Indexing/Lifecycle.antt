-- ===== src/NoteBook/Indexing/Lifecycle.antt =====
-- Reconciling with the chain and the lifecycle of the notes.
use stellar_mosaic.Prelude.{
  ℕ, String, ◌≡◌, refl, sym, ap, subst, ◌∙◌, Bool, true, false, ◌&&◌, Option, none, some, List, [],
  ◌∷◌, inl, inr, Bool-cases, if◌then◌else◌, str_eq, map,
}
use stellar_mosaic.Types.{Note}
use stellar_mosaic.NoteTree.{ChainNote}
use stellar_mosaic.Activity.{EventLog}
use stellar_mosaic.NoteBook.{
  RawNote, NoteManager, stored, normalize_note, get_note, put_note, update, update_found, patched,
  is_set, by_desk,
}
use stellar_mosaic.NoteBook.Map.{
  same_id, other_id, get_note-put_note, get_note-put_note_other, get_note-id,
}
use stellar_mosaic.NoteBook.Merging.{status_again}
use stellar_mosaic.NoteBook.Indexing.{
  Reconciling, index_patch, index_note, index_found, reconcile_note, reconcile_notes, reconcile,
  is_cancelled, has_leaf, by_tag,
}

-- The note with an id is still there, with the status it had, and is still indexed if it was.
pub record IsKept (id : String) (r : RawNote) (rs : List RawNote) : Type 0 where
  pub now_at : RawNote
  pub at : get_note id rs ≡ some now_at
  pub status_eq : (normalize_note now_at).status ≡ (normalize_note r).status
  pub stays_indexed : (normalize_note r).indexed ≡ true → (normalize_note now_at).indexed ≡ true

if_true : (b c : Bool) → c ≡ true → (if b then c else true) ≡ true
if_true true c h = h
if_true false c h = refl

-- The note that the update writes.
written-IsKept :
    (n : Note) (c : ChainNote) (now : ℕ) (r : RawNote) (rs : List RawNote) (id : String)
    → r.body.id ≡ id
    → IsKept id r (put_note (stored (patched (index_patch n c) now (normalize_note r))) rs)
unfolding normalize_note
written-IsKept n c now r rs id e =
    let p = patched (index_patch n c) now (normalize_note r) in
    record {
      now_at = stored p;
      at =
          subst (λ x. get_note x (put_note (stored p) rs) ≡ some (stored p)) e
            (get_note-put_note (stored p) rs);
      status_eq = status_again (is_set r.body.cancelled_at) r.raw_status;
      stays_indexed = if_true n.indexed (normalize_note r).indexed;
    }

found-IsKept :
    (n : Note) (c : ChainNote) (now : ℕ) (m : NoteManager) (o : Option RawNote) (id : String)
    (r : RawNote)
    → get_note n.id m.store ≡ o
    → get_note id m.store ≡ some r
    → IsKept id r (update_found (index_patch n c) now m o).store
unfolding normalize_note
found-IsKept n c now m none id r found g = record {
  now_at = r;
  at = g;
  status_eq = refl;
  stays_indexed = λ h. h;
}
found-IsKept n c now m (some raw) id r found g = elim (Bool-cases (str_eq raw.body.id id)) [
  | inl e ↦
      let same : n.id ≡ id = sym (get_note-id n.id m.store raw found) ∙ same_id raw.body.id id e in
      let both : some raw ≡ some r = sym found ∙ ap (λ x. get_note x m.store) same ∙ g in
      let is_r : raw ≡ r = cc in
      subst (λ x. IsKept id x (update_found (index_patch n c) now m (some raw)).store) is_r
        (written-IsKept n c now raw m.store id (same_id raw.body.id id e))
  | inr e ↦ record {
    now_at = r;
    at =
        get_note-put_note_other (stored (patched (index_patch n c) now (normalize_note raw)))
          m.store id (other_id raw.body.id id e)
        ∙ g;
    status_eq = refl;
    stays_indexed = λ h. h;
  }
]

IsKept-trans :
    (id : String) (r : RawNote) (rs : List RawNote) (k : IsKept id r rs) (rs' : List RawNote)
    → IsKept id k.now_at rs'
    → IsKept id r rs'
IsKept-trans id r rs k rs' k' = record {
  now_at = k'.now_at;
  at = k'.at;
  status_eq = k'.status_eq ∙ k.status_eq;
  stays_indexed = λ h. k'.stays_indexed (k.stays_indexed h);
}

module _ (desk_id : String) (chain : List ChainNote) (now : ℕ) (id : String) where
  unchanged-IsKept :
      (m : NoteManager) (r : RawNote) → get_note id m.store ≡ some r → IsKept id r m.store
  unchanged-IsKept m r g = record { now_at = r; at = g; status_eq = refl; stays_indexed = λ h. h }

  index_note-IsKept :
      (n : Note) (c : ChainNote) (s : Reconciling) (r : RawNote)
      → get_note id s.manager.store ≡ some r
      → IsKept id r (index_note desk_id n c now s).manager.store
  unfolding update
  index_note-IsKept n c s r g =
      elim (Bool-cases (has_leaf n.leaf_index c.leaf_index && n.indexed)) [
        | inl e ↦ rw e (unchanged-IsKept s.manager r g)
        | inr e ↦ rw e (found-IsKept n c now s.manager (get_note n.id s.manager.store) id r refl g)
      ]

  index_found-IsKept :
      (n : Note) (s : Reconciling) (o : Option ChainNote) (r : RawNote)
      → get_note id s.manager.store ≡ some r
      → IsKept id r (index_found desk_id n now s o).manager.store
  index_found-IsKept n s none r g = unchanged-IsKept s.manager r g
  index_found-IsKept n s (some c) r g = index_note-IsKept n c s r g

  reconcile_note-IsKept :
      (n : Note) (s : Reconciling) (r : RawNote)
      → get_note id s.manager.store ≡ some r
      → IsKept id r (reconcile_note desk_id chain now n s).manager.store
  unfolding reconcile_note
  reconcile_note-IsKept n s r g = elim (Bool-cases (is_cancelled n.status)) [
    | inl e ↦ rw e (unchanged-IsKept s.manager r g)
    | inr e ↦ rw e (index_found-IsKept n s (by_tag n.owner_tag chain) r g)
  ]

  reconcile_notes-IsKept :
      (ns : List Note) (s : Reconciling) (r : RawNote)
      → get_note id s.manager.store ≡ some r
      → IsKept id r (reconcile_notes desk_id chain now ns s).manager.store
  unfolding reconcile_notes
  reconcile_notes-IsKept [] s r g = unchanged-IsKept s.manager r g
  reconcile_notes-IsKept (n ∷ ns) s r g =
      let k = reconcile_note-IsKept n s r g in
      IsKept-trans id r (reconcile_note desk_id chain now n s).manager.store k
        (reconcile_notes desk_id chain now (n ∷ ns) s).manager.store
        (reconcile_notes-IsKept ns (reconcile_note desk_id chain now n s) k.now_at k.at)

-- Reconciling with the chain loses no note: each stored note is still there under its id, with the
-- same lifecycle status, and is still indexed if it was.
pub reconcile-IsKept :
    (desk_id : String) (chain : List ChainNote) (now : ℕ) (m : NoteManager) (log : EventLog)
    (id : String) (r : RawNote)
    → get_note id m.store ≡ some r
    → IsKept id r (reconcile desk_id chain now m log).manager.store
unfolding reconcile
reconcile-IsKept desk_id chain now m log id r g =
    reconcile_notes-IsKept desk_id chain now id (map normalize_note (by_desk desk_id m.store))
      (record { manager = m; log = log; changed = false }) r g
