-- ===== src/Prelude/Defaults.antt =====
-- `a ?? b`, on a fallback that may be absent too, and on a value.
use mathlib.Core.Option.{Option, none, some}

module _ {ℓ} {A : Type ℓ} where
  abbrev pub or_else : Option A → Option A → Option A
  or_else none o = o
  or_else (some a) o = some a

  abbrev pub or_value : Option A → A → A
  or_value none a = a
  or_value (some b) a = b
