-- ===== src/NoteTree.antt =====
-- packages/sdk/src/noteTree.ts: the note tree, rebuilt from chain events. The 2-to-1 hash
-- `compress` runs a circuit that is not TypeScript: it is a parameter, and it is deterministic.
-- A method returns the new tree beside its result; the tree of a method that throws is kept too.
pub mod Spec
pub mod Layers
pub mod Membership
pub mod Ingest
pub mod Lookup
mod Tests
use mathlib.Core.Option
use stellar_mosaic.Prelude.{
  ℕ, zero, suc, ◌+◌, ◌-◌, ◌/◌, ◌%◌, ◌^◌, Bool, false, Option, none, some, List, [], ◌∷◌, ◌++◌, map,
  ltb, leb, ◌==◌, if◌then◌else◌, length, get_elem?, get_or, Result, ok, throw,
}
use stellar_mosaic.Prelude.Int.{pos}
use stellar_mosaic.Text.{Text, text_eq, lower_case}
use stellar_mosaic.Field.{to_big_int, to_field_hex, text_field_hex}

abbrev pub tree_depth : ℕ
tree_depth = 32

pub data TreeEvent : Type 0 where
  -- `shielded` and `noteins` carry the same fields
  shielded noteins : (asset : ℕ) (amount owner_tag : Text) → TreeEvent
  settled :
      (a_asset_out : ℕ) (b_amount_in a_output_owner_tag : Text) (b_asset_out : ℕ)
      (a_amount_in b_output_owner_tag : Text)
      → TreeEvent

pub record LeafMeta : Type 0 where
  pub asset : ℕ
  pub amount : Text
  pub owner_tag : Text

pub record ChainNote : Type 0 where
  pub leaf_index : ℕ
  pub asset : ℕ
  pub amount : Text
  pub owner_tag : Text

-- A sibling that is `none` is `undefined`.
pub record MerklePath : Type 0 where
  pub leaf_index : ℕ
  pub siblings : List (Option ℕ)
  pub index_bits : List ℕ

pub record NoteProof : Type 0 where
  pub leaf_index : ℕ
  pub root : Text
  pub siblings : List Text
  pub index_bits : List ℕ

pub data TreeError : Type 0 where
  -- the SyntaxError of `BigInt`, `leaf index out of range`, and the TypeError of `undefined`
  syntax_error out_of_range type_error : TreeError

-- `zeros` is the ladder, once it has been computed.
pub record NoteTree : Type 0 where
  pub leaves : List ℕ
  pub meta : List LeafMeta
  pub zeros : Option (List ℕ)

abbrev pub empty : NoteTree
empty = record { leaves = []; meta = []; zeros = none }

-- A JavaScript number under `&`, `^` and `>>` is a signed word of 32 bits; here it is the word's
-- bit pattern, below 2 ^ 32, and it is negative from 2 ^ 31 on.
abbrev pub is_negative : ℕ → Bool
is_negative w = leb (2 ^ 31) w

-- w ^ 1
unfoldable pub flip_low : ℕ → ℕ
flip_low w = if w % 2 == 0 then w + 1 else w - 1

-- w >> 1
unfoldable pub shift_right : ℕ → ℕ
shift_right w = if is_negative w then w / 2 + 2 ^ 31 else w / 2

-- The calls that follow a call run only if it has not thrown.
unfoldable pub and_then {ℓ} :
    {A B : Type ℓ}
    → NoteTree × Result TreeError A
    → (A → NoteTree → NoteTree × Result TreeError B)
    → NoteTree × Result TreeError B
and_then (t, ok a) k = k a t
and_then (t, throw e) k = (t, throw e)

-- `sibPos < layer.length ? layer[sibPos] : zeros[level]`; a negative position is below every
-- length and reads `undefined`.
pub sibling_at : List ℕ → ℕ → ℕ → Option ℕ
sibling_at layer zero_value w =
    if is_negative w
    then none
    else if ltb (flip_low w) (length layer)
    then get_elem? layer (flip_low w)
    else some zero_value

-- The loop of `pathAt` from `level`, with the rounds that are left.
pub path_from : ℕ → ℕ → List ℕ → List (List ℕ) → ℕ → List (Option ℕ × ℕ)
path_from zero level zeros layers w = []
path_from (suc n) level zeros layers w =
    (sibling_at (get_or layers level []) (get_or zeros level 0) w, w % 2)
    ∷ path_from n (suc level) zeros layers (shift_right w)

-- `siblings.map(toFieldHex)`
pub hex_siblings : List (Option ℕ) → Result TreeError (List Text)
hex_siblings [] = ok []
hex_siblings (none ∷ ss) = throw type_error
hex_siblings (some s ∷ ss) = elim (hex_siblings ss) [
  | throw e ↦ throw e
  | ok texts ↦ ok (to_field_hex (pos s) ∷ texts)
]

proof_of : MerklePath → Text → Result TreeError (List Text) → Result TreeError NoteProof
proof_of path root_text (throw e) = throw e
proof_of path root_text (ok texts) = ok (record {
  leaf_index = path.leaf_index;
  root = root_text;
  siblings = texts;
  index_bits = path.index_bits;
})

module _ (compress : ℕ → ℕ → ℕ) where
  -- The loop of `ensureZeros`, over the entries that are left.
  pub ladder : ℕ → ℕ → List ℕ
  ladder zero z = []
  ladder (suc n) z = z ∷ ladder n (compress z z)

  unfoldable pub ensure_zeros : NoteTree → NoteTree × List ℕ
  ensure_zeros t = elim t.zeros [
    | some zeros ↦ (t, zeros)
    | none ↦ let zeros = ladder tree_depth 0 in (record t { zeros = some zeros }, zeros)
  ]

  unfoldable pub asset_note_leaf : ℕ → Text → Text → Option ℕ
  asset_note_leaf asset amount owner_tag = elim (to_big_int amount) [
    | none ↦ none
    | some a ↦ Option.map (compress (compress asset a)) (to_big_int owner_tag)
  ]

  unfoldable pub insert_asset_note : ℕ → Text → Text → NoteTree → NoteTree × Result TreeError ℕ
  insert_asset_note asset amount owner_tag t = elim (asset_note_leaf asset amount owner_tag) [
    | none ↦ (t, throw syntax_error)
    | some leaf ↦
        let idx = length t.leaves in
        let t' = record t { leaves = t.leaves ++ leaf ∷ [] } in
        elim (text_field_hex owner_tag) [
          | none ↦ (t', throw syntax_error)
          | some tag ↦ (
            record t' {
              meta = t.meta ++ record { asset = asset; amount = amount; owner_tag = tag } ∷ [];
            },
            ok idx,
          )
        ]
  ]

  unfoldable pub ingest_settled :
      ℕ → Text → Text → ℕ → Text → Text → NoteTree → NoteTree × Result TreeError (ℕ × ℕ)
  ingest_settled a_asset_out b_amount_in a_tag b_asset_out a_amount_in b_tag t =
      and_then (insert_asset_note a_asset_out b_amount_in a_tag t) λ ia t'.
        and_then (insert_asset_note b_asset_out a_amount_in b_tag t') λ ib t''. (t'', ok (ia, ib))

  unfoldable pub ingest : TreeEvent → NoteTree → NoteTree × Result TreeError (Unit {0})
  ingest (shielded asset amount owner_tag) t =
      and_then (insert_asset_note asset amount owner_tag t) (λ _ t'. (t', ok tt))
  ingest (noteins asset amount owner_tag) t =
      and_then (insert_asset_note asset amount owner_tag t) (λ _ t'. (t', ok tt))
  ingest (settled ao bi atag bo ai btag) t =
      and_then (ingest_settled ao bi atag bo ai btag t) (λ _ t'. (t', ok tt))

  -- One level of `buildLayers`: pairs are compressed, and an odd tail with the level's zero.
  pub next_layer : ℕ → List ℕ → List ℕ
  next_layer z [] = []
  next_layer z (left ∷ []) = compress left z ∷ []
  next_layer z (left ∷ right ∷ rest) = compress left right ∷ next_layer z rest

  -- The loop of `buildLayers` from `level`, with the rounds that are left.
  pub layers_from : ℕ → ℕ → List ℕ → List ℕ → List (List ℕ)
  layers_from zero level zeros prev = prev ∷ []
  layers_from (suc n) level zeros prev =
      prev ∷ layers_from n (suc level) zeros (next_layer (get_or zeros level 0) prev)

  unfoldable pub build_layers : NoteTree → NoteTree × List (List ℕ)
  build_layers t =
      let (t', zeros) = ensure_zeros t in (t', layers_from tree_depth 0 zeros t'.leaves)

  -- The two branches of `root`, on the tree whose ladder is computed: an empty tree has no layers.
  top_of_layers : NoteTree × List (List ℕ) → NoteTree × ℕ
  top_of_layers (t, layers) = (t, get_or (get_or layers tree_depth []) 0 0)

  root_of : List ℕ → NoteTree × List ℕ → NoteTree × ℕ
  root_of [] (t, zeros) = let z = get_or zeros (tree_depth - 1) 0 in (t, compress z z)
  root_of (_ ∷ _) (t, zeros) = top_of_layers (build_layers t)

  -- The value that `root` prints.
  unfoldable pub root_value : NoteTree → NoteTree × ℕ
  unfolding root_of top_of_layers
  root_value t = root_of t.leaves (ensure_zeros t)

  unfoldable pub root : NoteTree → NoteTree × Text
  root t = let (t', value) = root_value t in (t', to_field_hex (pos value))

  unfoldable pub path_at : ℕ → NoteTree → NoteTree × Result TreeError MerklePath
  path_at index t =
      if leb (length t.leaves) index
      then (t, throw out_of_range)
      else (let (t', zeros) = ensure_zeros t in
          let (t'', layers) = build_layers t' in
          let steps = path_from tree_depth 0 zeros layers (index % 2 ^ 32) in
          (
            t'',
            ok (record {
              leaf_index = index;
              siblings = map (λ s. s.0) steps;
              index_bits = map (λ s. s.1) steps;
            }),
          ))

  -- Of the two calls that run together, `pathAt` starts first.
  unfoldable pub note_proof_at : ℕ → NoteTree → NoteTree × Result TreeError NoteProof
  unfolding proof_of
  note_proof_at index t =
      let (t', path) = path_at index t in
      let (t'', root_text) = root t' in
      (t'', elim path [ throw e ↦ throw e | ok p ↦ proof_of p root_text (hex_siblings p.siblings) ])

  -- The loop of `circuitFold` with the rounds that are left; `none` is a call of the hash on
  -- `undefined`.
  pub fold_path : ℕ → List (Option ℕ) → List ℕ → ℕ → Option ℕ
  fold_path zero siblings bits node = some node
  fold_path (suc n) (some sib ∷ siblings) (bit ∷ bits) node =
      fold_path n siblings bits (if bit == 0 then compress node sib else compress sib node)
  fold_path (suc n) _ _ node = none

  unfoldable pub circuit_fold : ℕ → MerklePath → Option ℕ
  circuit_fold leaf path = fold_path tree_depth path.siblings path.index_bits leaf

unfoldable pub leaf_at : NoteTree → ℕ → Option ℕ
leaf_at t index = get_elem? t.leaves index

pub notes_from : ℕ → List LeafMeta → List ChainNote
notes_from i [] = []
notes_from i (m ∷ ms) =
    record { leaf_index = i; asset = m.asset; amount = m.amount; owner_tag = m.owner_tag }
    ∷ notes_from (suc i) ms

unfoldable pub notes : NoteTree → List ChainNote
unfolding notes_from
notes t = notes_from 0 t.meta

-- `this.meta[i].owner_tag.toLowerCase() === want`
abbrev pub tag_is : Text → Option LeafMeta → Bool
tag_is want none = false
tag_is want (some m) = text_eq (lower_case m.owner_tag) want

-- The loop of `indexOfOwnerTag`, over the positions below the first argument; `none` is -1.
unfoldable pub scan_down : ℕ → List LeafMeta → Text → Option ℕ
scan_down zero metas want = none
scan_down (suc i) metas want =
    let rest = scan_down i metas want in if tag_is want (get_elem? metas i) then some i else rest

unfoldable pub index_of_owner_tag : NoteTree → Text → Result TreeError (Option ℕ)
unfolding scan_down
index_of_owner_tag t owner_tag = elim (text_field_hex owner_tag) [
  | none ↦ throw syntax_error
  | some want ↦ ok (scan_down (length t.meta) t.meta (lower_case want))
]
