-- ===== src/ObjectStore.antt =====
-- An object store of IndexedDB, as frontend/src/bookIndexer.ts uses it through `get`, `put`,
-- `delete`, `getAllFromIndex` and a cursor that deletes: rows in the order of their keys, each of
-- which holds its key. A key is a string, and strings are ordered by their code units.
pub mod Laws
use stellar_mosaic.Prelude.{
  Bool, true, false, not, Option, none, some, List, [], ◌∷◌, if◌then◌else◌,
}
use stellar_mosaic.Text.{Text, text_eq}
use stellar_mosaic.Text.Comparing.{text_before}

module _ {ℓ} {A : Type ℓ} where
  -- The rows that a test keeps: those an index gives for its test, or a deleting cursor leaves.
  unfoldable pub select : (A → Bool) → List A → List A
  select keep [] = []
  select keep (a ∷ rows) = let rest = select keep rows in if keep a then a ∷ rest else rest

module _ {ℓ} {A : Type ℓ} (key : A → Text) where
  unfoldable pub get : Text → List A → Option A
  get k [] = none
  get k (a ∷ rows) = let rest = get k rows in if text_eq (key a) k then some a else rest

  -- A row with the same key is replaced.
  unfoldable pub put : A → List A → List A
  put a [] = a ∷ []
  put a (b ∷ rows) =
      let rest = b ∷ put a rows in
      if text_eq (key b) (key a)
      then a ∷ rows
      else if text_before (key a) (key b)
      then a ∷ b ∷ rows
      else rest

  unfoldable pub delete : Text → List A → List A
  delete k rows = select (λ a. not (text_eq (key a) k)) rows
