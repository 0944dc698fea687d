-- ===== src/NoteTree/Ingest.antt =====
-- What the events of the chain leave in the tree.
use stellar_mosaic.Prelude.{
  ℕ, ◌≡◌, ◌⊎◌, refl, sym, ◌∙◌, List, [], ◌∷◌, ◌++◌, length, arith, some, Option-cases, inl, inr,
  Result, ok, throw,
}
use stellar_mosaic.Text.{Text}
use stellar_mosaic.Field.{to_big_int, text_field_hex, field_text}
use stellar_mosaic.Field.Encoding.{to_big_int-field_text, to_big_int-lt}
use stellar_mosaic.NoteTree.{
  NoteTree, LeafMeta, TreeEvent, TreeError, shielded, noteins, settled, syntax_error, ingest,
  ingest_settled, insert_asset_note, asset_note_leaf, and_then,
}
use stellar_mosaic.NoteTree.Spec.{HasZeros}

text_field_hex-value : (v w : Text) → text_field_hex v ≡ some w → to_big_int w ≡ to_big_int v
unfolding text_field_hex
text_field_hex-value v w h = elim (Option-cases (to_big_int v)) [
  | inl e ↦ absurd (ground arith)
  | inr (n, e) ↦
      let same : field_text n ≡ w = ground arith in
      rw (← same) (to_big_int-field_text n (to_big_int-lt v n e) ∙ sym e)
]

module _ (compress : ℕ → ℕ → ℕ) where
  -- Every leaf is the hash of the note at its position.
  abbrev pub Matches : List ℕ → List LeafMeta → Type 0
  Matches [] [] = Unit
  Matches (l ∷ ls) (m ∷ ms) =
      (asset_note_leaf compress m.asset m.amount m.owner_tag ≡ some l) × Matches ls ms
  Matches _ _ = ⊥

  pub record IsConsistent (t : NoteTree) : Type 0 where
    pub hashed : Matches t.leaves t.meta
    pub memo : HasZeros compress t

  Matches-snoc :
      (ls : List ℕ) (ms : List LeafMeta) (l : ℕ) (m : LeafMeta)
      → Matches ls ms
      → asset_note_leaf compress m.asset m.amount m.owner_tag ≡ some l
      → Matches (ls ++ l ∷ []) (ms ++ m ∷ [])
  Matches-snoc [] [] l m h e = (e, tt)
  Matches-snoc [] (m' ∷ ms) l m h e = absurd h
  Matches-snoc (l' ∷ ls) [] l m h e = absurd h
  Matches-snoc (l' ∷ ls) (m' ∷ ms) l m (p, h) e = (p, Matches-snoc ls ms l m h e)

  asset_note_leaf-hex :
      (asset : ℕ) (amount tag w : Text)
      → text_field_hex tag ≡ some w
      → asset_note_leaf compress asset amount w ≡ asset_note_leaf compress asset amount tag
  unfolding asset_note_leaf
  asset_note_leaf-hex asset amount tag w h = ground (arith, text_field_hex-value tag w h)

  asset_note_leaf-tag :
      (asset : ℕ) (amount tag : Text) (l : ℕ)
      → asset_note_leaf compress asset amount tag ≡ some l
      → (w : Text) × (text_field_hex tag ≡ some w)
  unfolding asset_note_leaf text_field_hex
  asset_note_leaf-tag asset amount tag l h = elim (Option-cases (to_big_int tag)) [
    | inl e ↦ absurd (ground arith)
    | inr (n, e) ↦ (field_text n, rw e refl)
  ]

  module _ (asset : ℕ) (amount tag : Text) (t : NoteTree) where
    -- An insertion adds one leaf and one note, or it throws and changes nothing.
    pub insert_asset_note_lem :
        (insert_asset_note compress asset amount tag t ≡ (t, throw syntax_error))
        ⊎ ((l : ℕ) × (w : Text) × (insert_asset_note compress asset amount tag t ≡ (
          record t {
            leaves = t.leaves ++ l ∷ [];
            meta = t.meta ++ record { asset = asset; amount = amount; owner_tag = w } ∷ [];
          },
          ok (length t.leaves),
        ))
            × (asset_note_leaf compress asset amount w ≡ some l))
    unfolding insert_asset_note
    insert_asset_note_lem = elim (Option-cases (asset_note_leaf compress asset amount tag)) [
      | inl e ↦ inl (rw (e, insert_asset_note) refl)
      | inr (l, e) ↦
          let (w, ew) = asset_note_leaf-tag asset amount tag l e in
          inr (
            l,
            w,
            rw (e, ew, insert_asset_note) refl,
            asset_note_leaf-hex asset amount tag w ew ∙ e,
          )
    ]

    insert_asset_note-IsConsistent :
        IsConsistent t → IsConsistent (insert_asset_note compress asset amount tag t).0
    insert_asset_note-IsConsistent c = elim insert_asset_note_lem [
      | inl e ↦ rw e c
      | inr (l, w, e, hash) ↦
          rw e (record { hashed = Matches-snoc t.leaves t.meta l _ c.hashed hash; memo = c.memo })
    ]

  and_then-IsConsistent {ℓ} :
      {A B : Type ℓ} (r : NoteTree × Result TreeError A)
      (k : A → NoteTree → NoteTree × Result TreeError B)
      → IsConsistent r.0
      → ((a : A) (t : NoteTree) → IsConsistent t → IsConsistent (k a t).0)
      → IsConsistent (and_then r k).0
  unfolding and_then
  and_then-IsConsistent (t, ok a) k h keep = keep a t h
  and_then-IsConsistent (t, throw e) k h keep = h

  ingest_settled-IsConsistent :
      (ao : ℕ) (bi atag : Text) (bo : ℕ) (ai btag : Text) (t : NoteTree)
      → IsConsistent t
      → IsConsistent (ingest_settled compress ao bi atag bo ai btag t).0
  unfolding ingest_settled
  ingest_settled-IsConsistent ao bi atag bo ai btag t c =
      and_then-IsConsistent (insert_asset_note compress ao bi atag t) _
        (insert_asset_note-IsConsistent ao bi atag t c)
        λ ia t' c'.
          and_then-IsConsistent (insert_asset_note compress bo ai btag t') _
            (insert_asset_note-IsConsistent bo ai btag t' c') λ ib t'' c''. c''

  -- Every event, also one that throws half way, keeps each leaf the hash of the note that is listed
  -- at its position.
  pub ingest-IsConsistent :
      (ev : TreeEvent) (t : NoteTree) → IsConsistent t → IsConsistent (ingest compress ev t).0
  unfolding ingest
  ingest-IsConsistent (shielded asset amount tag) t c =
      and_then-IsConsistent (insert_asset_note compress asset amount tag t) _
        (insert_asset_note-IsConsistent asset amount tag t c) λ _ t' c'. c'
  ingest-IsConsistent (noteins asset amount tag) t c =
      and_then-IsConsistent (insert_asset_note compress asset amount tag t) _
        (insert_asset_note-IsConsistent asset amount tag t c) λ _ t' c'. c'
  ingest-IsConsistent (settled ao bi atag bo ai btag) t c =
      and_then-IsConsistent (ingest_settled compress ao bi atag bo ai btag t) _
        (ingest_settled-IsConsistent ao bi atag bo ai btag t c) λ _ t' c'. c'
