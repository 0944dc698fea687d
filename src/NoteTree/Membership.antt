-- ===== src/NoteTree/Membership.antt =====
-- The path of every inserted leaf folds to the root.
use native.Mathlib.Nat.{pow-suc}
use stellar_mosaic.Prelude.{
  ℕ, zero, suc, ◌+◌, ◌-◌, ◌/◌, ◌%◌, ◌^◌, ◌≤◌, ◌<◌, ◌≡◌, refl, sym, ap, ◌∙◌, List, [], ◌∷◌, get_or,
  get_elem?, length, arith, some, inl, inr, false, Bool-cases, leb, ◌==◌, map, ok, if◌then◌else◌,
}
use stellar_mosaic.NoteTree.{
  NoteTree, MerklePath, tree_depth, layers_from, flip_low, shift_right, sibling_at, path_from,
  path_at, fold_path, circuit_fold, leaf_at, root_value,
}
use stellar_mosaic.NoteTree.Spec.{leaf_of, node, complete_root, HasZeros}
use stellar_mosaic.NoteTree.Layers.{
  layer_of, layer_of-IsLayer, zeros, zeros_at, with_zeros, root_value_lem, ensure_zeros_lem,
  build_layers_lem,
}

get_elem?-get_or : (xs : List ℕ) (i d : ℕ) → i < length xs → get_elem? xs i ≡ some (get_or xs i d)
get_elem?-get_or [] i d h = absurd (omega arith)
get_elem?-get_or (x ∷ xs) zero d h = refl
get_elem?-get_or (x ∷ xs) (suc i) d h = get_elem?-get_or xs i d (omega arith)

get_or_behind : (xs : List ℕ) (i d : ℕ) → length xs ≤ i → get_or xs i d ≡ d
get_or_behind [] i d h = refl
get_or_behind (x ∷ xs) zero d h = absurd (omega arith)
get_or_behind (x ∷ xs) (suc i) d h = get_or_behind xs i d (omega arith)

get_elem?-some :
    (xs : List ℕ) (i x : ℕ) → get_elem? xs i ≡ some x → (i < length xs) × (x ≡ get_or xs i 0)
get_elem?-some [] i x h = cc
get_elem?-some (y ∷ xs) zero x h = ground arith
get_elem?-some (y ∷ xs) (suc i) x h = let (l, e) = get_elem?-some xs i x h in (omega arith, e)

-- Inside the layer or behind its end, the sibling is read.
sibling_at_lem :
    (layer : List ℕ) (z w : ℕ)
    → w < 2 ^ 31
    → sibling_at layer z w ≡ some (get_or layer (flip_low w) z)
unfolding sibling_at
sibling_at_lem layer z w h =
    ground (arith, get_elem?-get_or layer (flip_low w) z, get_or_behind layer (flip_low w) z)

-- One level of the fold climbs from a node to its parent.
climb :
    (compress : ℕ → ℕ → ℕ) (h w : ℕ) (leaf : ℕ → ℕ)
    → (if (w % 2) == 0
        then compress (node compress h w leaf) (node compress h (flip_low w) leaf)
        else compress (node compress h (flip_low w) leaf) (node compress h w leaf))
      ≡ node compress (suc h) (w / 2) leaf
unfolding node flip_low
climb compress h w leaf = elim (Bool-cases (w % 2 == 0)) [
  | inl even ↦ let same : w / 2 + w / 2 ≡ w = ground arith in rw (even, same) refl
  | inr odd ↦
      let before : w / 2 + w / 2 ≡ w - 1 = ground arith in
      let here : w - 1 + 1 ≡ w = ground arith in rw (odd, before, here) refl
]

shift_right_lem : (w : ℕ) → w < 2 ^ 31 → (shift_right w ≡ w / 2) × (w / 2 < 2 ^ 31)
unfolding shift_right
shift_right_lem w h = (ground arith, omega arith)

module _ (compress : ℕ → ℕ → ℕ) (leaves : List ℕ) where
  leaf_node : (i : ℕ) → get_or leaves i 0 ≡ node compress 0 i (leaf_of leaves)
  unfolding node
  leaf_node i = refl

  sibling_node :
      (h w : ℕ)
      → h < tree_depth
      → w < 2 ^ 31
      → sibling_at
          (get_or (layers_from compress tree_depth 0 (zeros compress) leaves) h [])
          (get_or (zeros compress) h 0)
          w
        ≡ some (node compress h (flip_low w) (leaf_of leaves))
  unfolding layer_of
  sibling_node h w l m =
      sibling_at_lem (layer_of compress leaves h) (get_or (zeros compress) h 0) w m
      ∙ rw (zeros_at compress h l)
          (ap some (layer_of-IsLayer compress leaves h (omega arith) (flip_low w)))

  fold_climbs :
      (n h w : ℕ)
      → h + n ≡ tree_depth
      → w < 2 ^ n
      → w < 2 ^ 31
      → let layers = layers_from compress tree_depth 0 (zeros compress) leaves in
        let steps = path_from n h (zeros compress) layers w in
        fold_path compress n
          (map (λ s. s.0) steps)
          (map (λ s. s.1) steps)
          (node compress h w (leaf_of leaves))
        ≡ some (complete_root compress leaves)
  unfolding fold_path path_from
  fold_climbs zero h w e l m =
      let top : h ≡ tree_depth = omega arith in
      let first : w ≡ 0 = omega arith in rw (top, first) refl
  fold_climbs (suc n) h w e l m =
      let (shift, small) = shift_right_lem w m in
      rw (sibling_node h w (omega arith) m, climb compress h w (leaf_of leaves), shift)
        (fold_climbs n (suc h) (w / 2) (omega arith) (omega (arith, pow-suc 2 n)) small)

module _ (compress : ℕ → ℕ → ℕ) (t : NoteTree) (h : HasZeros compress t) where
  path_to : ℕ → MerklePath
  path_to index =
      let layers = layers_from compress tree_depth 0 (zeros compress) t.leaves in
      let steps = path_from tree_depth 0 (zeros compress) layers index in
      record {
        leaf_index = index;
        siblings = map (λ s. s.0) steps;
        index_bits = map (λ s. s.1) steps;
      }

  root_lem : (root_value compress t).1 ≡ complete_root compress t.leaves
  root_lem = ap (λ r. r.1) (root_value_lem compress t h)

  fold_path_to :
      (index leaf : ℕ)
      → leaf ≡ get_or t.leaves index 0
      → index < 2 ^ 31
      → circuit_fold compress leaf (path_to index) ≡ some (complete_root compress t.leaves)
  unfolding path_to circuit_fold
  fold_path_to index leaf value l =
      ap (λ (x : ℕ). circuit_fold compress x (path_to index))
        (value ∙ leaf_node compress t.leaves index)
      ∙ fold_climbs compress t.leaves tree_depth 0 index refl (omega arith) l

  -- In a tree whose memo of the zero ladder is absent or right, for every inserted leaf whose index
  -- is below 2 ^ 31, `path_at` returns a path with the index,
  -- keeps the notes, and `circuit_fold` of the leaf along the path is the value of `root`.
  pub circuit_fold-path_at :
      (index leaf : ℕ)
      → leaf_at t index ≡ some leaf
      → index < 2 ^ 31
      → (path : MerklePath) × (path_at compress index t ≡ (with_zeros compress t, ok path))
        × (path.leaf_index ≡ index)
        × (circuit_fold compress leaf path ≡ some (root_value compress t).1)
  unfolding path_at leaf_at path_to
  circuit_fold-path_at index leaf e l =
      let (inside, value) = get_elem?-some t.leaves index leaf e in
      let word : index % 2 ^ 32 ≡ index = omega arith in
      let in_range : leb (length t.leaves) index ≡ false = ground arith in
      (
        path_to index,
        rw
            (
              in_range,
              ensure_zeros_lem compress t h,
              build_layers_lem compress (with_zeros compress t) (inr refl),
              word,
            )
            refl,
        refl,
        fold_path_to index leaf value l ∙ ap some (sym (root_lem)),
      )
