-- ===== src/Activity/Sanitizing.antt =====
-- What sanitizing leaves of a metadata value.
use stellar_mosaic.Prelude.{◌≡◌, refl, ap, ap₂, false, inl, inr, Bool-cases}
use stellar_mosaic.Text.{codes, text_eq, lower_case}
use stellar_mosaic.Activity.{
  Value, Values, Fields, nothing, absent, boolean, number, bigint, text, bytes, error, array,
  object, no_values, no_fields, item, field, has_text, is_blocked, sanitize_value, sanitize_values,
  sanitize_fields,
}

-- No key at any depth is blocked, and what is not JSON has been replaced.
abbrev mutual
  pub IsClean : Value → Type 0
  IsClean (array vs) = AreClean vs
  IsClean (object fs) = HasCleanKeys fs
  IsClean (bigint n) = ⊥
  IsClean (bytes n) = ⊥
  IsClean (error name message) = ⊥
  IsClean nothing = Unit
  IsClean absent = Unit
  IsClean (boolean b) = Unit
  IsClean (number n) = Unit
  IsClean (text t) = Unit

  pub AreClean : Values → Type 0
  AreClean no_values = Unit
  AreClean (item v vs) = IsClean v × AreClean vs

  pub HasCleanKeys : Fields → Type 0
  HasCleanKeys no_fields = Unit
  HasCleanKeys (field key v fs) = (is_blocked key ≡ false) × IsClean v × HasCleanKeys fs

open_keys :
    (is_blocked (codes "type") ≡ false)
    × (is_blocked (codes "length") ≡ false)
    × (is_blocked (codes "name") ≡ false)
    × (is_blocked (codes "message") ≡ false)
unfolding is_blocked has_text text_eq lower_case
open_keys = (refl, refl, refl, refl)

mutual
  unfolding sanitize_value

  sanitized : (v : Value) → IsClean (sanitize_value v)
  sanitized (bigint n) = tt
  sanitized (bytes n) = let (k, l, _, _) = open_keys in (k, tt, (l, tt, tt))
  sanitized (error name message) = let (_, _, k, l) = open_keys in (k, tt, (l, tt, tt))
  sanitized (array vs) = sanitized_values vs
  sanitized (object fs) = sanitized_fields fs
  sanitized nothing = tt
  sanitized absent = tt
  sanitized (boolean b) = tt
  sanitized (number n) = tt
  sanitized (text t) = tt

  sanitized_values : (vs : Values) → AreClean (sanitize_values vs)
  sanitized_values no_values = tt
  sanitized_values (item v vs) = (sanitized v, sanitized_values vs)

  sanitized_fields : (fs : Fields) → HasCleanKeys (sanitize_fields fs)
  sanitized_fields no_fields = tt
  sanitized_fields (field key v fs) = elim (Bool-cases (is_blocked key)) [
    | inl e ↦ rw e (sanitized_fields fs)
    | inr e ↦ rw e (e, sanitized v, sanitized_fields fs)
  ]

-- Sanitizing a metadata value leaves no blocked key at any depth, and leaves no bigint, byte array
-- or error.
pub sanitize_value-IsClean : (v : Value) → IsClean (sanitize_value v)
sanitize_value-IsClean v = sanitized v

-- Sanitizing leaves a clean value as it is.
mutual
  unfolding sanitize_value

  sanitize_clean : (v : Value) → IsClean v → sanitize_value v ≡ v
  sanitize_clean (bigint n) h = absurd h
  sanitize_clean (bytes n) h = absurd h
  sanitize_clean (error name message) h = absurd h
  sanitize_clean (array vs) h = ap array (sanitize_clean_values vs h)
  sanitize_clean (object fs) h = ap object (sanitize_clean_fields fs h)
  sanitize_clean nothing h = refl
  sanitize_clean absent h = refl
  sanitize_clean (boolean b) h = refl
  sanitize_clean (number n) h = refl
  sanitize_clean (text t) h = refl

  sanitize_clean_values : (vs : Values) → AreClean vs → sanitize_values vs ≡ vs
  sanitize_clean_values no_values h = refl
  sanitize_clean_values (item v vs) (h, k) =
      ap₂ item (sanitize_clean v h) (sanitize_clean_values vs k)

  sanitize_clean_fields : (fs : Fields) → HasCleanKeys fs → sanitize_fields fs ≡ fs
  sanitize_clean_fields no_fields h = refl
  sanitize_clean_fields (field key v fs) (e, h, k) =
      rw e (ap₂ (field key) (sanitize_clean v h) (sanitize_clean_fields fs k))

-- Sanitizing a metadata value once more changes nothing.
pub sanitize_value_idempotent : (v : Value) → sanitize_value (sanitize_value v) ≡ sanitize_value v
sanitize_value_idempotent v = sanitize_clean (sanitize_value v) (sanitized v)
