-- ===== src/BookIndex/Clearing.antt =====
-- `clearBookIndex` and what it leaves in each store.
use stellar_mosaic.Prelude.{
  ◌≡◌, refl, sym, ap, ◌∙◌, ◌≢◌, false, not, Option, none, List, [], ◌∷◌, if◌then◌else◌, Bool-cases,
  inl, inr, or_value,
}
use stellar_mosaic.Prelude.Int.{pos}
use stellar_mosaic.Text.{Text, text_eq}
use stellar_mosaic.Text.Comparing.{text_eq-true, text_eq_other}
use stellar_mosaic.ObjectStore.{select, get, delete}
use stellar_mosaic.ObjectStore.Laws.{get-delete, get-delete_other}
use stellar_mosaic.BookIndex.{
  Database, BookMeta, IndexedOrder, IndexedAsset, IndexedPair, ProcessedEvent, meta_key, meta_of,
  initial_meta,
}
use stellar_mosaic.BookIndex.Snapshot.{
  BookIndexSnapshot, snapshot, syncing, clear_scope, clear_book_index,
}

module _ {ℓ} {A : Type ℓ} (scope_in : A → Text) (scope : Text) where
  select_cleared :
      (rows : List A)
      → select
          (λ a. text_eq (scope_in a) scope)
          (select (λ a. not (text_eq (scope_in a) scope)) rows)
        ≡ []
  unfolding select
  select_cleared [] = refl
  select_cleared (a ∷ rows) = elim (Bool-cases (text_eq (scope_in a) scope)) [
    | inl e ↦ rw e (select_cleared rows)
    | inr e ↦ rw (e, e) (select_cleared rows)
  ]

  select_other :
      (other : Text) (rows : List A)
      → other ≢ scope
      → select
          (λ a. text_eq (scope_in a) other)
          (select (λ a. not (text_eq (scope_in a) scope)) rows)
        ≡ select (λ a. text_eq (scope_in a) other) rows
  unfolding select
  select_other other [] h = refl
  select_other other (a ∷ rows) h = elim (Bool-cases (text_eq (scope_in a) scope)) [
    | inl e ↦
        let f : text_eq (scope_in a) other ≡ false =
          text_eq_other (scope_in a) other (λ s. h (sym s ∙ text_eq-true (scope_in a) scope e)) in
        rw (e, f) (select_other other rows h)
    | inr e ↦ rw e (
        ap (λ rest. if text_eq (scope_in a) other then a ∷ rest else rest)
          (select_other other rows h))
  ]

-- The index of a desk that has none.
abbrev pub new_index : BookIndexSnapshot
new_index = record {
  status = syncing;
  error = none;
  last_ledger = 0;
  last_sequence = pos 0;
  target_sequence = pos 0;
  orders = [];
  assets = [];
  pairs = [];
}

cleared_index :
    (scope : Text) (db : Database) → snapshot scope (clear_book_index scope db) ≡ new_index
unfolding snapshot clear_book_index clear_scope
cleared_index scope db =
    let row : meta_of scope (delete meta_key scope db.meta) ≡ initial_meta scope =
      ap (λ o. or_value o (initial_meta scope)) (get-delete meta_key scope db.meta) in
    rw
      (
        row,
        select_cleared (λ o. o.scope) scope db.orders,
        select_cleared (λ a. a.scope) scope db.assets,
        select_cleared (λ p. p.scope) scope db.pairs,
      )
      refl

other_index :
    (scope other : Text) (db : Database)
    → other ≢ scope
    → snapshot other (clear_book_index scope db) ≡ snapshot other db
unfolding snapshot clear_book_index clear_scope
other_index scope other db h =
    let row : meta_of other (delete meta_key scope db.meta) ≡ meta_of other db.meta =
      ap (λ o. or_value o (initial_meta other))
        (get-delete_other meta_key other scope db.meta
          (text_eq_other scope other (λ s. h (sym s)))) in
    rw
      (
        row,
        select_other (λ o. o.scope) scope other db.orders h,
        select_other (λ a. a.scope) scope other db.assets h,
        select_other (λ p. p.scope) scope other db.pairs h,
      )
      refl

-- The rows of a scope in each store.
pub record Rows : Type 0 where
  pub meta : Option BookMeta
  pub orders : List IndexedOrder
  pub assets : List IndexedAsset
  pub pairs : List IndexedPair
  pub processed : List ProcessedEvent

abbrev pub no_rows : Rows
no_rows = record { meta = none; orders = []; assets = []; pairs = []; processed = [] }

abbrev pub rows_of : Text → Database → Rows
rows_of scope db = record {
  meta = get meta_key scope db.meta;
  orders = select (λ o. text_eq o.scope scope) db.orders;
  assets = select (λ a. text_eq a.scope scope) db.assets;
  pairs = select (λ p. text_eq p.scope scope) db.pairs;
  processed = select (λ p. text_eq p.scope scope) db.processed;
}

cleared_rows : (scope : Text) (db : Database) → rows_of scope (clear_book_index scope db) ≡ no_rows
unfolding clear_book_index clear_scope
cleared_rows scope db =
    rw
      (
        get-delete meta_key scope db.meta,
        select_cleared (λ o. o.scope) scope db.orders,
        select_cleared (λ a. a.scope) scope db.assets,
        select_cleared (λ p. p.scope) scope db.pairs,
        select_cleared (λ p. p.scope) scope db.processed,
      )
      refl

other_rows :
    (scope other : Text) (db : Database)
    → other ≢ scope
    → rows_of other (clear_book_index scope db) ≡ rows_of other db
unfolding clear_book_index clear_scope
other_rows scope other db h =
    rw
      (
        get-delete_other meta_key other scope db.meta (text_eq_other scope other (λ s. h (sym s))),
        select_other (λ o. o.scope) scope other db.orders h,
        select_other (λ a. a.scope) scope other db.assets h,
        select_other (λ p. p.scope) scope other db.pairs h,
        select_other (λ p. p.scope) scope other db.processed h,
      )
      refl

-- Clearing the index of a desk leaves no row of its scope in any of the five stores, the processed
-- events included, and a snapshot of the scope that is a new one; of every other scope it leaves the
-- rows of each store, and the snapshot, as they were.
pub clear_book_index_lem :
    (scope : Text) (db : Database)
    → (rows_of scope (clear_book_index scope db) ≡ no_rows)
      × (snapshot scope (clear_book_index scope db) ≡ new_index)
      × ((other : Text)
          → other ≢ scope
          → (rows_of other (clear_book_index scope db) ≡ rows_of other db)
            × (snapshot other (clear_book_index scope db) ≡ snapshot other db))
clear_book_index_lem scope db = (
  cleared_rows scope db,
  cleared_index scope db,
  λ other h. (other_rows scope other db h, other_index scope other db h),
)
