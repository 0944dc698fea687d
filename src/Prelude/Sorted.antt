-- ===== src/Prelude/Sorted.antt =====
-- What a sort gives: the same elements, in an order where none comes after a later one.
use mathlib.Core.Path.{◌≡◌, refl}
use mathlib.Core.Logic.{inl, inr}
use mathlib.Core.Bool.{Bool, true, false}
use mathlib.Core.List.Permᴰ
use mathlib.Core.List.{List, [], ◌∷◌, Permᴰ}
use stellar_mosaic.Prelude.Tests.{Bool-cases}
use stellar_mosaic.Prelude.Lists.{All}
use stellar_mosaic.Prelude.Sorting.{insert_by, sort_by, insert_by-All, sort_by-All}

module _ {ℓ} {A : Type ℓ} (after : A → A → Bool) where
  abbrev pub IsOrdered : List A → Type 0
  IsOrdered [] = Unit
  IsOrdered (x ∷ xs) = All (λ y. after x y ≡ false) xs × IsOrdered xs

  insert_by-Permᴰ : (x : A) (xs : List A) → Permᴰ (insert_by after x xs) (x ∷ xs)
  unfolding insert_by
  insert_by-Permᴰ x [] = Permᴰ.refl (x ∷ [])
  insert_by-Permᴰ x (y ∷ ys) = elim (Bool-cases (after x y)) [
    | inl e ↦ rw e (Permᴰ.trans (Permᴰ.cons refl (insert_by-Permᴰ x ys)) (Permᴰ.swap refl refl))
    | inr e ↦ rw e (Permᴰ.refl (x ∷ y ∷ ys))
  ]

  pub sort_by-Permᴰ : (xs : List A) → Permᴰ (sort_by after xs) xs
  unfolding sort_by
  sort_by-Permᴰ [] = Permᴰ.nil
  sort_by-Permᴰ (x ∷ xs) =
      Permᴰ.trans (insert_by-Permᴰ x (sort_by after xs)) (Permᴰ.cons refl (sort_by-Permᴰ xs))

  -- The elements that a comparison is an order of.
  module _ {κ} (P : A → Type κ) (asym : (x y : A) → after x y ≡ true → after y x ≡ false)
      (trans : (x y z : A)
        → P x
        → P y
        → P z
        → after x y ≡ false
        → after y z ≡ false
        → after x z ≡ false) where
    behind-All :
        (x y : A) (ys : List A)
        → P x
        → P y
        → after x y ≡ false
        → All P ys
        → All (λ z. after y z ≡ false) ys
        → All (λ z. after x z ≡ false) ys
    behind-All x y [] p q h ps hs = tt
    behind-All x y (z ∷ zs) p q h (r, ps) (k, hs) =
        (trans x y z p q r h k, behind-All x y zs p q h ps hs)

    insert_by-IsOrdered :
        (x : A) (xs : List A) → P x → All P xs → IsOrdered xs → IsOrdered (insert_by after x xs)
    unfolding insert_by
    insert_by-IsOrdered x [] p ps h = (tt, tt)
    insert_by-IsOrdered x (y ∷ ys) p (q, ps) (k, h) = elim (Bool-cases (after x y)) [
      | inl e ↦ rw e (
        insert_by-All after (λ z. after y z ≡ false) x ys (asym x y e) k,
        insert_by-IsOrdered x ys p ps h,
      )
      | inr e ↦ rw e ((e, behind-All x y ys p q e ps k), (k, h))
    ]

    pub sort_by-IsOrdered : (xs : List A) → All P xs → IsOrdered (sort_by after xs)
    unfolding sort_by
    sort_by-IsOrdered [] ps = tt
    sort_by-IsOrdered (x ∷ xs) (p, ps) =
        insert_by-IsOrdered x (sort_by after xs) p (sort_by-All after P xs ps)
          (sort_by-IsOrdered xs ps)
