-- ===== src/NoteTree/Tests.antt =====
-- A small tree with a hash that is easy to follow, and the theorems at it.
use stellar_mosaic.Prelude.{ℕ, ◌+◌, ◌*◌, ◌%◌, ◌≡◌, refl, some, none, ok, throw, [], ◌∷◌, inl, arith}
use stellar_mosaic.Text.{codes, big_int, read_digits, to_digits}
use stellar_mosaic.Field.{field_text, to_big_int, canonical, text_field_hex}
use stellar_mosaic.NoteTree.{
  NoteTree, LeafMeta, MerklePath, empty, shielded, settled, ingest, insert_asset_note,
  asset_note_leaf, and_then, ingest_settled, leaf_at, path_at, circuit_fold, root_value,
  syntax_error,
}
use stellar_mosaic.NoteTree.Spec.{complete_root}
use stellar_mosaic.NoteTree.Layers.{with_zeros, root_value_lem}
use stellar_mosaic.NoteTree.Membership.{circuit_fold-path_at}
use stellar_mosaic.NoteTree.Ingest.{IsConsistent, ingest-IsConsistent}

abbrev mix : ℕ → ℕ → ℕ
mix a b = (7 * a + 3 * b + 1) % 1009

abbrev tag_meta : ℕ → ℕ → ℕ → LeafMeta
tag_meta asset amount tag = record {
  asset = asset;
  amount = to_digits 10 amount;
  owner_tag = field_text tag;
}

abbrev two_notes : NoteTree
two_notes = record {
  leaves = mix (mix 1 50) 8 ∷ mix (mix 2 60) 9 ∷ [];
  meta = tag_meta 1 50 8 ∷ tag_meta 2 60 9 ∷ [];
  zeros = none;
}

ingest_tests :
    (ingest mix (settled 1 (codes "50") (codes "8") 2 (codes "60") (codes "0x9")) empty
      ≡ (two_notes, ok tt))
    × (ingest mix (shielded 1 (codes "five") (codes "8")) empty ≡ (empty, throw syntax_error))
unfolding ingest ingest_settled insert_asset_note asset_note_leaf and_then big_int to_digits
    read_digits to_big_int canonical text_field_hex
ingest_tests = (refl, refl)

root_value_lem_example :
    root_value mix two_notes ≡ (with_zeros mix two_notes, complete_root mix two_notes.leaves)
root_value_lem_example = root_value_lem mix two_notes (inl refl)

circuit_fold-path_at_example :
    (path : MerklePath) × (path_at mix 1 two_notes ≡ (with_zeros mix two_notes, ok path))
    × (path.leaf_index ≡ 1)
    × (circuit_fold mix (mix (mix 2 60) 9) path ≡ some (root_value mix two_notes).1)
circuit_fold-path_at_example =
    circuit_fold-path_at mix two_notes (inl refl) 1 (mix (mix 2 60) 9) (unfold leaf_at in refl)
      (omega arith)

two_notes-IsConsistent : IsConsistent mix two_notes
unfolding asset_note_leaf big_int to_digits read_digits to_big_int canonical field_text
two_notes-IsConsistent = record { hashed = (refl, (refl, tt)); memo = inl refl }

ingest-IsConsistent_example :
    IsConsistent mix (ingest mix (shielded 3 (codes "5") (codes "4")) two_notes).0
ingest-IsConsistent_example =
    ingest-IsConsistent mix (shielded 3 (codes "5") (codes "4")) two_notes two_notes-IsConsistent
