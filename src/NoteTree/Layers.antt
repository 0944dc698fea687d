-- ===== src/NoteTree/Layers.antt =====
-- The layers of `build_layers` hold the nodes of the complete tree.
use native.Mathlib.Nat.{add-zero, zero-add}
use stellar_mosaic.Prelude.{
  ℕ, zero, suc, ◌+◌, ◌-◌, ◌≤◌, ◌<◌, ◌≡◌, refl, sym, ap, ap₂, subst, ◌∙◌, List, [], ◌∷◌, get_or,
  length, arith, some, Option, inl, inr,
}
use stellar_mosaic.NoteTree.{
  NoteTree, LeafMeta, tree_depth, ladder, ensure_zeros, next_layer, layers_from, build_layers,
  root_value,
}
use stellar_mosaic.NoteTree.Spec.{leaf_of, node, empty_root, complete_root, HasZeros}

module _ (compress : ℕ → ℕ → ℕ) where
  get_or-ladder :
      (n h k : ℕ)
      → k < n
      → get_or (ladder compress n (empty_root compress h)) k 0 ≡ empty_root compress (h + k)
  unfolding ladder empty_root
  get_or-ladder zero h k l = absurd (omega arith)
  get_or-ladder (suc n) h zero l = rw add-zero
  get_or-ladder (suc n) h (suc k) l =
      get_or-ladder n (suc h) k (omega arith) ∙ ap (empty_root compress) (omega arith)

  -- Behind the end of a layer stands the empty subtree.
  abbrev IsLayer : (ℕ → ℕ) → ℕ → List ℕ → Type 0
  IsLayer leaf h xs = (i : ℕ) → get_or xs i (empty_root compress h) ≡ node compress h i leaf

  double_suc : (i : ℕ) → suc i + suc i ≡ suc (suc (i + i))
  double_suc i = omega arith

  double_suc_one : (i : ℕ) → suc (suc (i + i)) + 1 ≡ suc (suc (i + i + 1))
  double_suc_one i = omega arith

  pairs :
      (z : ℕ) (xs : List ℕ) (i : ℕ)
      → get_or (next_layer compress z xs) i (compress z z)
        ≡ compress (get_or xs (i + i) z) (get_or xs (i + i + 1) z)
  unfolding next_layer
  pairs z [] i = refl
  pairs z (x ∷ []) zero = refl
  pairs z (x ∷ []) (suc i) = rw (double_suc i, double_suc_one i) refl
  pairs z (x ∷ y ∷ xs) zero = refl
  pairs z (x ∷ y ∷ xs) (suc i) = rw (double_suc i, double_suc_one i) (pairs z xs i)

  next_layer-IsLayer :
      (leaf : ℕ → ℕ) (h : ℕ) (xs : List ℕ)
      → IsLayer leaf h xs
      → IsLayer leaf (suc h) (next_layer compress (empty_root compress h) xs)
  unfolding node empty_root
  next_layer-IsLayer leaf h xs layer i =
      pairs (empty_root compress h) xs i ∙ ap₂ compress (layer (i + i)) (layer (i + i + 1))

  length-next_layer : (z : ℕ) (xs : List ℕ) → 0 < length xs → 0 < length (next_layer compress z xs)
  unfolding next_layer
  length-next_layer z [] h = h
  length-next_layer z (x ∷ []) h = omega arith
  length-next_layer z (x ∷ y ∷ xs) h = omega arith

  abbrev pub zeros : List ℕ
  zeros = ladder compress tree_depth 0

  pub zeros_at : (h : ℕ) → h < tree_depth → get_or zeros h 0 ≡ empty_root compress h
  unfolding empty_root
  zeros_at h l = get_or-ladder tree_depth 0 h l ∙ ap (empty_root compress) (omega arith)

  -- Layer h + k of the loop that starts at layer h.
  layers_from-IsLayer :
      (leaf : ℕ → ℕ) (n h k : ℕ) (prev : List ℕ)
      → h + n ≤ tree_depth
      → k ≤ n
      → IsLayer leaf h prev
      → IsLayer leaf (h + k) (get_or (layers_from compress n h zeros prev) k [])
  unfolding layers_from
  layers_from-IsLayer leaf zero h zero prev l m layer = rw add-zero layer
  layers_from-IsLayer leaf (suc n) h zero prev l m layer = rw add-zero layer
  layers_from-IsLayer leaf zero h (suc k) prev l m layer = absurd (omega arith)
  layers_from-IsLayer leaf (suc n) h (suc k) prev l m layer =
      let e : h + suc k ≡ suc h + k = omega arith in
      rw (e, zeros_at h (omega arith))
        (layers_from-IsLayer leaf n (suc h) k (next_layer compress (empty_root compress h) prev)
          (omega arith) (omega arith) (next_layer-IsLayer leaf h prev layer))

  layers_from_pos :
      (n h k : ℕ) (zs prev : List ℕ)
      → k ≤ n
      → 0 < length prev
      → 0 < length (get_or (layers_from compress n h zs prev) k [])
  unfolding layers_from
  layers_from_pos zero h zero zs prev m l = l
  layers_from_pos (suc n) h zero zs prev m l = l
  layers_from_pos zero h (suc k) zs prev m l = absurd (omega arith)
  layers_from_pos (suc n) h (suc k) zs prev m l =
      layers_from_pos n (suc h) k zs (next_layer compress (get_or zs h 0) prev) (omega arith)
        (length-next_layer (get_or zs h 0) prev l)

  -- The layer k of a tree with leaves.
  unfoldable pub layer_of : List ℕ → ℕ → List ℕ
  layer_of leaves k = get_or (layers_from compress tree_depth 0 zeros leaves) k []

  pub layer_of-IsLayer :
      (leaves : List ℕ) (k : ℕ)
      → k ≤ tree_depth
      → (i : ℕ)
      → get_or (layer_of leaves k) i (empty_root compress k) ≡ node compress k i (leaf_of leaves)
  unfolding layer_of
  layer_of-IsLayer leaves k l =
      subst (λ j. IsLayer (leaf_of leaves) j (layer_of leaves k)) (zero-add k)
        (layers_from-IsLayer (leaf_of leaves) tree_depth 0 k leaves (omega arith) l
          (unfold node empty_root in λ i. refl))

  -- The tree once the ladder is computed.
  abbrev pub with_zeros : NoteTree → NoteTree
  with_zeros t = record t { zeros = some zeros }

  pub ensure_zeros_lem :
      (t : NoteTree) → HasZeros compress t → ensure_zeros compress t ≡ (with_zeros t, zeros)
  unfolding ensure_zeros
  ensure_zeros_lem t (inl e) = rw e refl
  ensure_zeros_lem t (inr e) = rw e (ground arith)

  node_empty : (h i : ℕ) → node compress h i (leaf_of []) ≡ empty_root compress h
  unfolding node empty_root
  node_empty zero i = refl
  node_empty (suc h) i = ap₂ compress (node_empty h (i + i)) (node_empty h (i + i + 1))

  first_any : (xs : List ℕ) (d e : ℕ) → 0 < length xs → get_or xs 0 d ≡ get_or xs 0 e
  first_any [] d e h = absurd (omega arith)
  first_any (x ∷ xs) d e h = refl

  root_of_nonempty :
      (x : ℕ) (xs : List ℕ)
      → get_or (layer_of (x ∷ xs) tree_depth) 0 0 ≡ complete_root compress (x ∷ xs)
  root_of_nonempty x xs =
      first_any (layer_of (x ∷ xs) tree_depth) 0 (empty_root compress tree_depth) (
        unfold layer_of in
        layers_from_pos tree_depth 0 tree_depth zeros (x ∷ xs) (omega arith) (omega arith))
      ∙ layer_of-IsLayer (x ∷ xs) tree_depth (omega arith) 0

  root_of_empty :
      compress (get_or zeros (tree_depth - 1) 0) (get_or zeros (tree_depth - 1) 0)
      ≡ complete_root compress []
  root_of_empty =
      rw (zeros_at 31 (omega arith)) (unfold empty_root in refl) ∙ sym (node_empty tree_depth 0)

  pub build_layers_lem :
      (t : NoteTree)
      → HasZeros compress t
      → build_layers compress t ≡ (with_zeros t, layers_from compress tree_depth 0 zeros t.leaves)
  unfolding build_layers
  build_layers_lem t h = rw (ensure_zeros_lem t h) refl

  root_value_parts :
      (leaves : List ℕ) (metas : List LeafMeta) (memo : Option (List ℕ))
      → let t : NoteTree = record { leaves = leaves; meta = metas; zeros = memo } in
        HasZeros compress t → root_value compress t ≡ (with_zeros t, complete_root compress leaves)
  unfolding root_value
  root_value_parts [] metas memo h =
      let t : NoteTree = record { leaves = []; meta = metas; zeros = memo } in
      rw (ensure_zeros_lem t h) (ap (λ r. (with_zeros t, r)) root_of_empty)
  root_value_parts (x ∷ xs) metas memo h =
      let t : NoteTree = record { leaves = x ∷ xs; meta = metas; zeros = memo } in
      rw (ensure_zeros_lem t h, build_layers_lem (with_zeros t) (inr refl))
        (unfold layer_of in ap (λ r. (with_zeros t, r)) (root_of_nonempty x xs))

  -- In a tree whose memo of the zero ladder is absent or right, whatever notes have been inserted,
  -- the root is that of the complete hash tree over 2 ^ 32
  -- leaves of which the first are the notes' and the others are 0; the notes stay as they are.
  pub root_value_lem :
      (t : NoteTree)
      → HasZeros compress t
      → root_value compress t ≡ (with_zeros t, complete_root compress t.leaves)
  root_value_lem t h = root_value_parts t.leaves t.meta t.zeros h
