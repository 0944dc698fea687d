-- ===== src/NoteBook/Map.antt =====
-- The map of the store: reading after writing and deleting, and the ids staying distinct.
use stellar_mosaic.Prelude.{
  String, ◌≡◌, ◌≢◌, refl, sym, subst, ◌∙◌, true, false, none, some, List, [], ◌∷◌, inl, inr,
  Bool-cases, All, arith, str_eq, eq_iff,
}
use stellar_mosaic.NoteBook.{RawNote, get_note, put_note, delete_note}

-- No id stands twice.
abbrev pub Unused : String → List RawNote → Type 0
Unused id rs = All (λ r. r.body.id ≢ id) rs

abbrev pub AreDistinct : List RawNote → Type 0
AreDistinct [] = Unit
AreDistinct (r ∷ rs) = Unused r.body.id rs × AreDistinct rs

pub same_id : (s t : String) → str_eq s t ≡ true → s ≡ t
same_id s t h = grind (arith, eq_iff)

pub other_id : (s t : String) → str_eq s t ≡ false → s ≢ t
other_id s t h e = grind (arith, eq_iff)

str_eq_refl : (s : String) → str_eq s s ≡ true
str_eq_refl s = grind (arith, eq_iff)

pub str_eq_other : (s t : String) → s ≢ t → str_eq s t ≡ false
str_eq_other s t h = grind (arith, eq_iff)

-- Reading after writing.
pub get_note-put_note :
    (n : RawNote) (rs : List RawNote) → get_note n.body.id (put_note n rs) ≡ some n
unfolding get_note put_note
get_note-put_note n [] = rw (str_eq_refl n.body.id) refl
get_note-put_note n (r ∷ rs) = elim (Bool-cases (str_eq r.body.id n.body.id)) [
  | inl e ↦ rw (e, str_eq_refl n.body.id) refl
  | inr e ↦ rw (e, e) (get_note-put_note n rs)
]

pub get_note-put_note_other :
    (n : RawNote) (rs : List RawNote) (id : String)
    → n.body.id ≢ id
    → get_note id (put_note n rs) ≡ get_note id rs
unfolding get_note put_note
get_note-put_note_other n [] id h = rw (str_eq_other n.body.id id h) refl
get_note-put_note_other n (r ∷ rs) id h = elim (Bool-cases (str_eq r.body.id n.body.id)) [
  | inl e ↦
      let away : str_eq r.body.id id ≡ false =
        str_eq_other r.body.id id (λ s. h (sym (same_id r.body.id n.body.id e) ∙ s)) in
      rw (e, str_eq_other n.body.id id h, away) refl
  | inr e ↦ rw (e, get_note-put_note_other n rs id h) refl
]

Unused-put_note :
    (id : String) (n : RawNote) (rs : List RawNote)
    → n.body.id ≢ id
    → Unused id rs
    → Unused id (put_note n rs)
unfolding put_note
Unused-put_note id n [] h u = (h, tt)
Unused-put_note id n (r ∷ rs) h (l, u) = elim (Bool-cases (str_eq r.body.id n.body.id)) [
  | inl e ↦ rw e (h, u)
  | inr e ↦ rw e (l, Unused-put_note id n rs h u)
]

pub AreDistinct-put_note :
    (n : RawNote) (rs : List RawNote) → AreDistinct rs → AreDistinct (put_note n rs)
unfolding put_note
AreDistinct-put_note n [] d = (tt, tt)
AreDistinct-put_note n (r ∷ rs) (u, d) = elim (Bool-cases (str_eq r.body.id n.body.id)) [
  | inl e ↦ rw e (subst (λ id. Unused id rs) (same_id r.body.id n.body.id e) u, d)
  | inr e ↦ rw e (
    Unused-put_note r.body.id n rs (λ s. other_id r.body.id n.body.id e (sym s)) u,
    AreDistinct-put_note n rs d,
  )
]

Unused-delete_note :
    (id id' : String) (rs : List RawNote) → Unused id rs → Unused id (delete_note id' rs)
unfolding delete_note
Unused-delete_note id id' [] u = tt
Unused-delete_note id id' (r ∷ rs) (l, u) = elim (Bool-cases (str_eq r.body.id id')) [
  | inl e ↦ rw e u
  | inr e ↦ rw e (l, Unused-delete_note id id' rs u)
]

pub AreDistinct-delete_note :
    (id : String) (rs : List RawNote) → AreDistinct rs → AreDistinct (delete_note id rs)
unfolding delete_note
AreDistinct-delete_note id [] d = tt
AreDistinct-delete_note id (r ∷ rs) (u, d) = elim (Bool-cases (str_eq r.body.id id)) [
  | inl e ↦ rw e d
  | inr e ↦ rw e (Unused-delete_note r.body.id id rs u, AreDistinct-delete_note id rs d)
]

get_note-Unused : (id : String) (rs : List RawNote) → Unused id rs → get_note id rs ≡ none
unfolding get_note
get_note-Unused id [] u = refl
get_note-Unused id (r ∷ rs) (l, u) = rw (str_eq_other r.body.id id l) (get_note-Unused id rs u)

-- In a store without a repeated id, a deleted note is gone.
pub get_note-delete_note :
    (id : String) (rs : List RawNote) → AreDistinct rs → get_note id (delete_note id rs) ≡ none
unfolding get_note delete_note
get_note-delete_note id [] d = refl
get_note-delete_note id (r ∷ rs) (u, d) = elim (Bool-cases (str_eq r.body.id id)) [
  | inl e ↦ rw e (get_note-Unused id rs (subst (λ x. Unused x rs) (same_id r.body.id id e) u))
  | inr e ↦ rw (e, e) (get_note-delete_note id rs d)
]

pub get_note-id :
    (id : String) (rs : List RawNote) (r : RawNote) → get_note id rs ≡ some r → r.body.id ≡ id
unfolding get_note
get_note-id id [] r h = absurd cc
get_note-id id (x ∷ rs) r h = elim (Bool-cases (str_eq x.body.id id)) [
  | inl e ↦
      let found : some x ≡ some r = sym (rw e refl) ∙ h in
      let is_x : x ≡ r = cc in subst (λ (y : RawNote). y.body.id ≡ id) is_x (same_id x.body.id id e)
  | inr e ↦ get_note-id id rs r (sym (rw e refl) ∙ h)
]
