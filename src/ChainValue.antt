-- ===== src/ChainValue.antt =====
-- The values that `scValToNative` of @stellar/stellar-sdk gives for a contract's values, which
-- frontend/src/bookIndexer.ts and packages/sdk/src/chainEvents.ts decode, and what JavaScript does
-- with them: `String(v)`, `Boolean(v)`, an index into a vector and a member of an object.
pub mod Json
use stellar_mosaic.Prelude.{
  ℕ, zero, suc, ◌^◌, ◌-◌, Bool, true, false, not, ◌&&◌, Option, none, some, List, [], ◌∷◌, ◌++◌,
  ◌==◌, if◌then◌else◌, length, leb,
}
use stellar_mosaic.Prelude.Int.{ℤ, pos, negsuc, pos_part, neg_part, eqb_ℤ}
use stellar_mosaic.Text.{Text, codes, text_eq, to_digits}
use stellar_mosaic.Field.{hex_of_bytes}
use stellar_mosaic.Amount.{to_string}

-- Numbers are integers: a contract's u32 and i32; a larger one is a `bigint`.
mutual
  pub data Native : Type 0 where
    undefined null_value : Native
    flag : Bool → Native
    number_value bigint_value : ℤ → Native
    text_value : Text → Native
    bytes_value : List ℕ → Native
    vector : Natives → Native
    object : Members → Native

  pub data Natives : Type 0 where
    no_natives : Natives
    native : Native → Natives → Natives

  pub data Members : Type 0 where
    no_members : Members
    member : (name : Text) → Native → Members → Members

abbrev pub natives : Natives → List Native
natives no_natives = []
natives (native v vs) = v ∷ natives vs

-- xs[i], and o[name] of the last member with that name.
abbrev pub at : List Native → ℕ → Native
at [] i = undefined
at (v ∷ vs) zero = v
at (v ∷ vs) (suc i) = at vs i

unfoldable pub member_of : Text → Members → Native
member_of name no_members = undefined
member_of name (member n v ms) = let rest = member_of name ms in if text_eq n name then v else rest

-- `Number.isSafeInteger` of an integer.
abbrev pub is_safe_integer : ℤ → Bool
is_safe_integer n = leb (pos_part n) (2 ^ 53 - 1) && leb (neg_part n) (2 ^ 53 - 1)

-- `0x` and two hex digits of each byte.
abbrev pub hex_text : List ℕ → Text
hex_text bytes = b'0' ∷ b'x' ∷ hex_of_bytes bytes

-- xs.join(","), after the first.
unfoldable pub join_rest : List Text → Text
join_rest [] = []
join_rest (t ∷ ts) = b',' ∷ t ++ join_rest ts

unfoldable pub join_texts : List Text → Text
unfolding join_rest
join_texts [] = []
join_texts (t ∷ ts) = t ++ join_rest ts

abbrev pub byte_texts : List ℕ → List Text
byte_texts [] = []
byte_texts (b ∷ bs) = to_digits 10 b ∷ byte_texts bs

-- `String(v)`; an element of a vector that is null or undefined joins as the empty text.
unfoldable mutual
  unfolding join_texts

  pub string_of : Native → Text
  string_of undefined = codes "undefined"
  string_of null_value = codes "null"
  string_of (flag true) = codes "true"
  string_of (flag false) = codes "false"
  string_of (number_value n) = to_string n
  string_of (bigint_value n) = to_string n
  string_of (text_value s) = s
  string_of (bytes_value bs) = join_texts (byte_texts bs)
  string_of (vector vs) = join_texts (element_texts vs)
  string_of (object ms) = codes "[object Object]"

  element_texts : Natives → List Text
  element_texts no_natives = []
  element_texts (native undefined vs) = [] ∷ element_texts vs
  element_texts (native null_value vs) = [] ∷ element_texts vs
  element_texts (native v vs) = string_of v ∷ element_texts vs

-- `Boolean(v)`
unfoldable pub is_truthy : Native → Bool
is_truthy undefined = false
is_truthy null_value = false
is_truthy (flag b) = b
is_truthy (number_value n) = not (eqb_ℤ n (pos 0))
is_truthy (bigint_value n) = not (eqb_ℤ n (pos 0))
is_truthy (text_value s) = not (length s == 0)
is_truthy _ = true
