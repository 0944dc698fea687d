-- ===== src/NoteBook/Keeping.antt =====
-- What an update of a note writes.
use stellar_mosaic.Prelude.{
  ℕ, String, ◌≡◌, ◌≢◌, sym, ap, subst, ◌∙◌, none, some, inl, inr, ◌⊎◌, Option-cases,
}
use stellar_mosaic.Types.{Note}
use stellar_mosaic.NoteBook.{
  RawNote, NoteManager, stored, normalize_note, get_note, put_note, update, update_found, patched,
}
use stellar_mosaic.NoteBook.Map.{get_note-put_note, get_note-put_note_other, get_note-id}

-- An update of a stored note writes it back, read in the current format and patched, with the next
-- revision and the given time, and leaves every other note as it is, if the patch keeps the id; an
-- update of an id that is not stored changes nothing.
pub update_lem :
    (id other : String) (patch : Note → Note) (now : ℕ) (m : NoteManager)
    → ((n : Note) → (patch n).id ≡ n.id)
    → other ≢ id
    → ((get_note id m.store ≡ none) × (update id patch now m ≡ m))
      ⊎ ((r : RawNote) × (get_note id m.store ≡ some r)
          × (get_note id (update id patch now m).store
              ≡ some (stored (patched patch now (normalize_note r))))
          × (get_note other (update id patch now m).store ≡ get_note other m.store))
unfolding update normalize_note
update_lem id other patch now m keeps apart = elim (Option-cases (get_note id m.store)) [
  | inl e ↦ inl (e, ap (update_found patch now m) e)
  | inr (r, e) ↦
      let n = patched patch now (normalize_note r) in
      let at : n.id ≡ id = keeps (normalize_note r) ∙ get_note-id id m.store r e in
      inr (
        r,
        e,
        rw e (
            subst (λ x. get_note x (put_note (stored n) m.store) ≡ some (stored n)) at
              (get_note-put_note (stored n) m.store)),
        rw e (get_note-put_note_other (stored n) m.store other (λ s. apart (sym s ∙ at))),
      )
]
