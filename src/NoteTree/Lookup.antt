-- ===== src/NoteTree/Lookup.antt =====
-- Looking up the leaf of an owner tag.
use stellar_mosaic.Prelude.{
  ℕ, zero, suc, ◌<◌, ◌≡◌, refl, ap, ◌∙◌, ◌⊎◌, inl, inr, Bool, true, false, Option, none, some, List,
  Bool-cases, length, get_elem?, ok, arith, ltb,
}
use stellar_mosaic.Text.{Text, lower_case}
use stellar_mosaic.Field.{text_field_hex}
use stellar_mosaic.NoteTree.{NoteTree, LeafMeta, tag_is, scan_down, index_of_owner_tag}

-- The note at a position has this tag, in lower case.
abbrev pub has_tag : List LeafMeta → Text → ℕ → Bool
has_tag metas want i = tag_is want (get_elem? metas i)

-- The last position below `n` that has the tag, or none that has it.
pub data IsLast (metas : List LeafMeta) (want : Text) (n : ℕ) : Option ℕ → Type 0 where
  nowhere : ((j : ℕ) → j < n → has_tag metas want j ≡ false) → IsLast metas want n none
  last :
      (i : ℕ)
      → i < n
      → has_tag metas want i ≡ true
      → ((j : ℕ) → i < j → j < n → has_tag metas want j ≡ false)
      → IsLast metas want n (some i)

below_or_at : (j n : ℕ) → j < suc n → (j < n) ⊎ (j ≡ n)
below_or_at j n l = elim (Bool-cases (ltb j n)) [
  | inl e ↦ inl (ground arith)
  | inr e ↦ inr (ground arith)
]

module _ (metas : List LeafMeta) (want : Text) where
  IsLast-suc :
      (n : ℕ) (o : Option ℕ)
      → has_tag metas want n ≡ false
      → IsLast metas want n o
      → IsLast metas want (suc n) o
  IsLast-suc n o miss (nowhere none_below) = nowhere (λ j l. elim (below_or_at j n l) [
    | inl below ↦ none_below j below
    | inr at ↦ ap (has_tag metas want) at ∙ miss
  ])
  IsLast-suc n o miss (last i l here after) = last i (omega arith) here (λ j above l'.
      elim (below_or_at j n l') [
        | inl below ↦ after j above below
        | inr at ↦ ap (has_tag metas want) at ∙ miss
      ])

  scan_down-IsLast : (n : ℕ) → IsLast metas want n (scan_down n metas want)
  unfolding scan_down
  scan_down-IsLast zero = nowhere (λ j l. absurd (omega arith))
  scan_down-IsLast (suc i) = elim (Bool-cases (has_tag metas want i)) [
    | inl h ↦ rw h (last i (omega arith) h (λ j above below. absurd (omega arith)))
    | inr h ↦ rw h (IsLast-suc i (scan_down i metas want) h (scan_down-IsLast i))
  ]

-- For an owner tag that is a field value, `indexOfOwnerTag` gives the last index of the tree whose
-- note has the tag, up to the case of letters, or none if no note has it.
pub index_of_owner_tag-IsLast :
    (t : NoteTree) (owner_tag w : Text)
    → text_field_hex owner_tag ≡ some w
    → (o : Option ℕ) × (index_of_owner_tag t owner_tag ≡ ok o)
      × IsLast t.meta (lower_case w) (length t.meta) o
unfolding index_of_owner_tag
index_of_owner_tag-IsLast t owner_tag w h = (
  scan_down (length t.meta) t.meta (lower_case w),
  rw (h, index_of_owner_tag) refl,
  scan_down-IsLast t.meta (lower_case w) (length t.meta),
)
