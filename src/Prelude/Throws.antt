-- ===== src/Prelude/Throws.antt =====
-- A call that may throw: its value, or the error.
use mathlib.Core.Path.{◌≡◌, refl}
use mathlib.Core.Bool.{Bool, true, false}
use mathlib.Core.Logic.{◌≢◌}
use mathlib.Core.Option.{Option, none, some}

pub data Result {ℓ κ} (E : Type ℓ) (A : Type κ) : Type (ℓ ⊔ κ) where
  ok : A → Result E A
  throw : E → Result E A

module _ {ℓ κ} {E : Type ℓ} {A : Type κ} where
  infixl 5 ◌>>=◌
  abbrev pub ◌>>=◌ {ι} : {B : Type ι} → Result E A → (A → Result E B) → Result E B
  ok value >>= next = next value
  throw error >>= next = throw error

  -- A missing value is the error.
  abbrev pub or_throw : E → Option A → Result E A
  or_throw error none = throw error
  or_throw error (some value) = ok value

module _ {ℓ κ} {E : Type ℓ} {A : Type κ} where
  pub throw_ne_ok : {e : E} {a : A} → ◌≢◌ {A = Result E A} (throw e) (ok a)
  throw_ne_ok h = cc

  pub ok_inj : {x y : A} → ◌≡◌ {A = Result E A} (ok x) (ok y) → x ≡ y
  ok_inj h = cc

-- `if (!passed) throw error`, and the rest of the code behind a statement.
infixl 5 ◌>>◌
abbrev pub guard {ℓ} : {E : Type ℓ} → Bool → E → Result E (Unit {0})
guard true error = ok tt
guard false error = throw error

abbrev pub ◌>>◌ {ℓ ι} : {E : Type ℓ} {B : Type ι} → Result E (Unit {0}) → Result E B → Result E B
m >> next = m >>= λ _. next

-- What a successful call has been through.
pub >>=-ok {ℓ κ ι} :
    {E : Type ℓ} {A : Type κ} {B : Type ι} (m : Result E A) (f : A → Result E B) {b : B}
    → ◌≡◌ {A = Result E B} (m >>= f) (ok b)
    → (a : A) × (◌≡◌ {A = Result E A} m (ok a)) × (f a ≡ ok b)
>>=-ok (ok a) f h = (a, refl, h)
>>=-ok (throw e) f h = absurd (throw_ne_ok h)

pub guard-ok {ℓ} :
    {E : Type ℓ} (b : Bool) (e : E) {u : Unit {0}}
    → ◌≡◌ {A = Result E (Unit {0})} (guard b e) (ok u)
    → b ≡ true
guard-ok true e h = refl
guard-ok false e h = absurd (throw_ne_ok h)

-- The value of a call that cannot have thrown.
pub value_of {ℓ κ} :
    {E : Type ℓ} {A : Type κ} (m : Result E A)
    → ((e : E) → ◌≢◌ {A = Result E A} m (throw e))
    → (a : A) × (◌≡◌ {A = Result E A} m (ok a))
value_of (ok a) h = (a, refl)
value_of (throw e) h = absurd (h e refl)
