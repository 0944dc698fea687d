-- ===== src/NoteTree/Spec.antt =====
-- What the note tree promises: the complete binary hash tree over 2 ^ 32 leaves, those behind the
-- inserted ones being 0.
use stellar_mosaic.Prelude.{ℕ, zero, suc, ◌+◌, ◌≡◌, List, get_or, none, some, ◌⊎◌}
use stellar_mosaic.NoteTree.{NoteTree, ladder, tree_depth}

-- The leaf at a position of the complete tree.
abbrev pub leaf_of : List ℕ → ℕ → ℕ
leaf_of leaves i = get_or leaves i 0

module _ (compress : ℕ → ℕ → ℕ) where
  -- The node at a height and a position over given leaves.
  unfoldable pub node : ℕ → ℕ → (ℕ → ℕ) → ℕ
  node zero i leaf = leaf i
  node (suc h) i leaf = compress (node h (i + i) leaf) (node h (i + i + 1) leaf)

  -- The root of the complete tree.
  abbrev pub complete_root : List ℕ → ℕ
  complete_root leaves = node tree_depth 0 (leaf_of leaves)

  -- The root of an empty subtree of a height.
  unfoldable pub empty_root : ℕ → ℕ
  empty_root zero = 0
  empty_root (suc h) = compress (empty_root h) (empty_root h)

  -- The memo of the zero ladder is absent or right.
  abbrev pub HasZeros : NoteTree → Type 0
  HasZeros t = (t.zeros ≡ none) ⊎ (t.zeros ≡ some (ladder compress tree_depth 0))
