-- ===== src/NoteBook/Recovery.antt =====
-- Merging a recovery backup and the notes of other wallets.
use stellar_mosaic.Prelude.{
  some_ne_none, true_ne_false, String, ◌≡◌, refl, sym, ap, subst, ◌∙◌, true, not, ◌&&◌, Option,
  none, some, List, [], ◌∷◌, inl, inr, Bool-cases,
}
use stellar_mosaic.Types.{Note}
use stellar_mosaic.NoteBook.{
  RawNote, NoteManager, stored, normalize_note, get_note, remote_of, merge_recovery_notes,
  merge_all, merge_one, merge_found, merge_note, merge_onto, spread, is_newer, is_named,
  is_owned_by, is_recoverable,
}
use stellar_mosaic.NoteBook.Map.{get_note-put_note_other, get_note-id}

-- A note of another wallet.
abbrev pub IsForeign : String → RawNote → Type 0
IsForeign wallet r =
    (is_named r.body.wallet_address && not (is_owned_by wallet r.body.wallet_address)) ≡ true

merge_note-id : (a b : Note) → a.id ≡ b.id → (merge_note a b).id ≡ b.id
unfolding merge_note merge_onto spread
merge_note-id a b h = elim (Bool-cases (is_newer b a)) [ inl e ↦ rw e refl | inr e ↦ rw e h ]

merge_found-foreign :
    (wallet : String) (remote : Note) (m : NoteManager) (o : Option RawNote) (id : String)
    (r : RawNote)
    → get_note remote.id m.store ≡ o
    → get_note id m.store ≡ some r
    → IsForeign wallet r
    → get_note id (merge_found wallet remote m o).store ≡ some r
unfolding normalize_note
merge_found-foreign wallet remote m none id r found g f =
    get_note-put_note_other (stored remote) m.store id
      (λ s. some_ne_none r (sym g ∙ ap (λ x. get_note x m.store) (sym s) ∙ found))
    ∙ g
merge_found-foreign wallet remote m (some raw) id r found g f =
    let here : raw.body.id ≡ remote.id = get_note-id remote.id m.store raw found in
    let foreign =
      is_named (normalize_note raw).wallet_address
      && not (is_owned_by wallet (normalize_note raw).wallet_address) in
    elim (Bool-cases foreign) [
      | inl e ↦ rw e g
      | inr e ↦ rw e (
          get_note-put_note_other (stored (merge_note (normalize_note raw) remote)) m.store id (λ s.
            let same : remote.id ≡ id = sym (merge_note-id (normalize_note raw) remote here) ∙ s in
            let both : some raw ≡ some r = sym found ∙ ap (λ x. get_note x m.store) same ∙ g in
            let is_r : raw ≡ r = cc in
            true_ne_false (sym (subst (IsForeign wallet) (sym is_r) f) ∙ e))
          ∙ g)
    ]

merge_one-foreign :
    (wallet : String) (raw : RawNote) (m : NoteManager) (id : String) (r : RawNote)
    → get_note id m.store ≡ some r
    → IsForeign wallet r
    → get_note id (merge_one wallet raw m).store ≡ some r
unfolding merge_one
merge_one-foreign wallet raw m id r g f = elim (Bool-cases (is_recoverable wallet raw.body)) [
  | inl e ↦
      let remote = remote_of raw in
      rw e (merge_found-foreign wallet remote m (get_note remote.id m.store) id r refl g f)
  | inr e ↦ rw e g
]

merge_all-foreign :
    (wallet : String) (incoming : List RawNote) (m : NoteManager) (id : String) (r : RawNote)
    → get_note id m.store ≡ some r
    → IsForeign wallet r
    → get_note id (merge_all wallet incoming m).store ≡ some r
unfolding merge_all merge_one
merge_all-foreign wallet [] m id r g f = g
merge_all-foreign wallet (raw ∷ incoming) m id r g f =
    merge_all-foreign wallet incoming (merge_one wallet raw m) id r
      (merge_one-foreign wallet raw m id r g f) f

-- Merging a backup of a wallet leaves each stored note of another wallet as it is, whatever the
-- backup holds.
pub merge_recovery_notes-foreign :
    (wallet : String) (incoming : List RawNote) (m : NoteManager) (id : String) (r : RawNote)
    → get_note id m.store ≡ some r
    → IsForeign wallet r
    → get_note id (merge_recovery_notes wallet incoming m).store ≡ some r
unfolding merge_recovery_notes
merge_recovery_notes-foreign wallet incoming m id r g f =
    merge_all-foreign wallet incoming m id r g f
