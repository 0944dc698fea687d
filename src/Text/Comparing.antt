-- ===== src/Text/Comparing.antt =====
-- Texts as keys: equality of texts, and the order of code units that IndexedDB keeps its keys in.
use stellar_mosaic.Prelude.{
  ◌≡◌, refl, ◌≢◌, Bool, true, false, [], ◌∷◌, ltb, ◌==◌, if◌then◌else◌, Bool-cases, arith, inl, inr,
}
use stellar_mosaic.Text.{Text, text_eq}

unfoldable pub text_before : Text → Text → Bool
text_before [] [] = false
text_before [] (d ∷ t) = true
text_before (c ∷ s) [] = false
text_before (c ∷ s) (d ∷ t) = let rest = text_before s t in if c == d then rest else ltb c d

pub text_eq_refl : (s : Text) → text_eq s s ≡ true
unfolding text_eq
text_eq_refl [] = refl
text_eq_refl (c ∷ s) = ground (arith, text_eq_refl s)

pub text_eq-true : (s t : Text) → text_eq s t ≡ true → s ≡ t
unfolding text_eq
text_eq-true [] [] h = refl
text_eq-true [] (d ∷ t) h = cc
text_eq-true (c ∷ s) [] h = cc
text_eq-true (c ∷ s) (d ∷ t) h = ground (arith, text_eq-true s t)

pub text_eq-false : (s t : Text) → text_eq s t ≡ false → s ≢ t
text_eq-false s t h e = let r = text_eq_refl s in cc

pub text_eq_other : (s t : Text) → s ≢ t → text_eq s t ≡ false
text_eq_other s t h = elim (Bool-cases (text_eq s t)) [
  | inl e ↦ absurd (h (text_eq-true s t e))
  | inr e ↦ e
]
