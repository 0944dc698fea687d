-- ===== src/BookIndex/Dispatch.antt =====
-- The handlers of the five topics: what each of them keeps, and how the handler of a topic is one of
-- them.
use stellar_mosaic.Prelude.{◌≡◌, inl, inr, Option, none, some, Bool-cases, ok, arith}
use stellar_mosaic.Text.{Text, codes, text_eq}
use stellar_mosaic.ChainValue.{Native}
use stellar_mosaic.Prelude.Int.{ℤ}
use stellar_mosaic.BookIndex.{BookMeta}
use stellar_mosaic.BookIndex.Handlers.{
  PageState, Handler, handler, book_init, asset_reg, pair_reg, order_upsert, order_remove,
  upsert_next, put_order, drop_order, remove_next,
}

-- What every handler leaves alone: the marks, and two fields of the row.
abbrev pub kept : BookMeta → Text × ℤ
kept m = (m.scope, m.target_sequence)

abbrev pub Keeps : PageState → PageState → Type 0
Keeps st next = (next.stores.processed ≡ st.stores.processed) × (kept next.meta ≡ kept st.meta)

book_init-Keeps : (v : Native) (st next : PageState) → book_init v st ≡ ok next → Keeps st next
unfolding book_init
book_init-Keeps v st next h = ground arith

asset_reg-Keeps :
    (s : Text) (v : Native) (st next : PageState) → asset_reg s v st ≡ ok next → Keeps st next
unfolding asset_reg
asset_reg-Keeps s v st next h = ground arith

order_upsert-Keeps :
    (s : Text) (v : Native) (st next : PageState) → order_upsert s v st ≡ ok next → Keeps st next
unfolding order_upsert upsert_next put_order
order_upsert-Keeps s v st next h = ground arith

pair_reg-Keeps :
    (s : Text) (v : Native) (st next : PageState) → pair_reg s v st ≡ ok next → Keeps st next
unfolding pair_reg
pair_reg-Keeps s v st next h = ground arith

order_remove-Keeps :
    (s : Text) (v : Native) (st next : PageState) → order_remove s v st ≡ ok next → Keeps st next
unfolding order_remove remove_next drop_order
order_remove-Keeps s v st next h = ground arith

-- What the five handlers have in common, the handler of a topic has.
abbrev pub Holds : (Handler → Type 0) → Option Handler → Type 0
Holds P none = Unit
Holds P (some f) = P f

pub handler-Holds :
    (P : Handler → Type 0) (scope name : Text)
    → P book_init
    → P (asset_reg scope)
    → P (pair_reg scope)
    → P (order_upsert scope)
    → P (order_remove scope)
    → Holds P (handler scope name)
unfolding handler
handler-Holds P scope name init asset pair upsert remove =
    elim (Bool-cases (text_eq name (codes "bookinit"))) [
      | inl e ↦ rw e init
      | inr e ↦ elim (Bool-cases (text_eq name (codes "assetreg"))) [
        | inl f ↦ rw (e, f) asset
        | inr f ↦ elim (Bool-cases (text_eq name (codes "pairreg"))) [
          | inl g ↦ rw (e, f, g) pair
          | inr g ↦ elim (Bool-cases (text_eq name (codes "ordupsert"))) [
            | inl h ↦ rw (e, f, g, h) upsert
            | inr h ↦ elim (Bool-cases (text_eq name (codes "ordremove"))) [
              | inl i ↦ rw (e, f, g, h, i) remove
              | inr i ↦ rw (e, f, g, h, i) tt
            ]
          ]
        ]
      ]
    ]

abbrev pub IsKeeper : Handler → Type 0
IsKeeper f = (v : Native) (st next : PageState) → f v st ≡ ok next → Keeps st next

pub handler-IsKeeper : (scope name : Text) → Holds IsKeeper (handler scope name)
handler-IsKeeper scope name =
    handler-Holds IsKeeper scope name book_init-Keeps (asset_reg-Keeps scope) (pair_reg-Keeps scope)
      (order_upsert-Keeps scope) (order_remove-Keeps scope)
