-- ===== src/Prelude/Keyed.antt =====
-- A `Map` in the order of insertion, of values that hold their key; setting a key keeps its place.
use Prim.Native.String.{String}
use mathlib.Core.Path.{◌≡◌, refl, sym, subst}
use mathlib.Core.Logic.{◌≢◌, inl, inr}
use mathlib.Core.Bool.{true, false}
use mathlib.Core.List.{List, [], ◌∷◌}
use mathlib.Core.Option.{Option, none, some}
use native.Mathlib.Omega.{arith}
use text.Mathlib.TextEquality.{eq_iff}
use text.Mathlib.Text.{◌==◌ as str_eq}
use stellar_mosaic.Prelude.Tests.{if◌then◌else◌, Bool-cases}
use stellar_mosaic.Prelude.Lists.{All}

pub str_eq_refl : (s : String) → str_eq s s ≡ true
str_eq_refl s = grind (arith, eq_iff)

pub str_eq-true : (s t : String) → str_eq s t ≡ true → s ≡ t
str_eq-true s t h = grind (arith, eq_iff)

pub str_eq-false : (s t : String) → str_eq s t ≡ false → s ≢ t
str_eq-false s t h e = grind (arith, eq_iff)

str_eq_other : (s t : String) → s ≢ t → str_eq s t ≡ false
str_eq_other s t h = grind (arith, eq_iff)

module _ {ℓ} {A : Type ℓ} (key : A → String) where
  unfoldable pub find_key : String → List A → Option A
  find_key k [] = none
  find_key k (a ∷ xs) = let rest = find_key k xs in if str_eq (key a) k then some a else rest

  unfoldable pub set_key : A → List A → List A
  set_key new [] = new ∷ []
  set_key new (a ∷ xs) =
      let rest = a ∷ set_key new xs in if str_eq (key a) (key new) then new ∷ xs else rest

  pub find_key-set_key : (a : A) (xs : List A) → find_key (key a) (set_key a xs) ≡ some a
  unfolding find_key set_key
  find_key-set_key a [] = rw (str_eq_refl (key a)) refl
  find_key-set_key a (b ∷ xs) = elim (Bool-cases (str_eq (key b) (key a))) [
    | inl e ↦ rw (e, str_eq_refl (key a)) refl
    | inr e ↦ rw (e, e) (find_key-set_key a xs)
  ]

  -- No key stands twice.
  abbrev pub Unused : String → List A → Type 0
  Unused k xs = All (λ a. key a ≢ k) xs

  abbrev pub AreDistinct : List A → Type 0
  AreDistinct [] = Unit
  AreDistinct (a ∷ xs) = Unused (key a) xs × AreDistinct xs

  Unused-set_key :
      (k : String) (a : A) (xs : List A) → key a ≢ k → Unused k xs → Unused k (set_key a xs)
  unfolding set_key
  Unused-set_key k a [] h u = (h, tt)
  Unused-set_key k a (b ∷ xs) h (l, u) = elim (Bool-cases (str_eq (key b) (key a))) [
    | inl e ↦ rw e (h, u)
    | inr e ↦ rw e (l, Unused-set_key k a xs h u)
  ]

  pub AreDistinct-set_key : (a : A) (xs : List A) → AreDistinct xs → AreDistinct (set_key a xs)
  unfolding set_key
  AreDistinct-set_key a [] d = (tt, tt)
  AreDistinct-set_key a (b ∷ xs) (u, d) = elim (Bool-cases (str_eq (key b) (key a))) [
    | inl e ↦ rw e (subst (λ k. Unused k xs) (str_eq-true (key b) (key a) e) u, d)
    | inr e ↦ rw e (
      Unused-set_key (key b) a xs (λ s. str_eq-false (key b) (key a) e (sym s)) u,
      AreDistinct-set_key a xs d,
    )
  ]

  found_behind :
      (b : A) (xs ys : List A)
      → Unused (key b) ys
      → All (λ a. find_key (key a) xs ≡ some a) ys
      → All (λ a. find_key (key a) (b ∷ xs) ≡ some a) ys
  unfolding find_key
  found_behind b xs [] u h = tt
  found_behind b xs (a ∷ ys) (l, u) (f, h) =
      (rw (str_eq_other (key b) (key a) (λ s. l (sym s))) f, found_behind b xs ys u h)

  -- With distinct keys, each value is the one found under its key.
  pub found_distinct : (xs : List A) → AreDistinct xs → All (λ a. find_key (key a) xs ≡ some a) xs
  found_distinct [] d = tt
  found_distinct (a ∷ xs) (u, d) = (
    unfold find_key in rw (str_eq_refl (key a)) refl,
    found_behind a xs xs u (found_distinct xs d),
  )

  unfoldable pub delete_key : String → List A → List A
  delete_key k [] = []
  delete_key k (a ∷ xs) = let rest = a ∷ delete_key k xs in if str_eq (key a) k then xs else rest

  find_key-Unused : (k : String) (xs : List A) → Unused k xs → find_key k xs ≡ none
  unfolding find_key
  find_key-Unused k [] u = refl
  find_key-Unused k (a ∷ xs) (l, u) = rw (str_eq_other (key a) k l) (find_key-Unused k xs u)

  pub find_key-delete_key :
      (k : String) (xs : List A) → AreDistinct xs → find_key k (delete_key k xs) ≡ none
  unfolding find_key delete_key
  find_key-delete_key k [] d = refl
  find_key-delete_key k (a ∷ xs) (u, d) = elim (Bool-cases (str_eq (key a) k)) [
    | inl e ↦ rw e (find_key-Unused k xs (subst (λ x. Unused x xs) (str_eq-true (key a) k e) u))
    | inr e ↦ rw (e, e) (find_key-delete_key k xs d)
  ]
