-- ===== src/OrderPlan/Execution.antt =====
-- What running an assembly plan means: each step spends its inputs, and what it makes, the target
-- and the change, is worth what it spends.
use stellar_mosaic.Prelude.{
  String, ◌≡◌, ◌≢◌, Option, none, some, List, [], ◌∷◌, ◌++◌, All, str_eq, if◌then◌else◌, ℕ,
}
use stellar_mosaic.Prelude.Int.{ℤ, pos, ◌+ℤ◌, ◌≤ℤ◌}
use stellar_mosaic.Text.{big_int}
use stellar_mosaic.OrderPlan.{JoinInputRef, note, prev, AssemblyStep, split, join, Priced}

-- The amount of the note with an id.
unfoldable pub amount_of : List Priced → String → Option ℤ
amount_of [] id = none
amount_of (p ∷ ps) id = if str_eq p.id id then some p.amount else amount_of ps id

-- The value behind a reference; `prev` is the target output of the step before.
abbrev pub value_of : List Priced → Option ℤ → JoinInputRef → Option ℤ
value_of sp last (note id) = amount_of sp id
value_of sp last prev = last

-- Running the steps after a step with the output `last` ends with an output of the given amount.
pub data Runs (sp : List Priced) : Option ℤ → List AssemblyStep → ℤ → Type 0 where
  finished : (amount : ℤ) → Runs sp (some amount) [] amount
  splits :
      {last : Option ℤ} {step : AssemblyStep} {steps : List AssemblyStep} {amount : ℤ}
      (a : JoinInputRef) (target_raw change_raw : List ℕ) (va target change : ℤ)
      → step ≡ split a target_raw change_raw
      → value_of sp last a ≡ some va
      → big_int target_raw ≡ some target
      → big_int change_raw ≡ some change
      → va ≡ target +ℤ change
      → pos 0 ≤ℤ change
      → Runs sp (some target) steps amount
      → Runs sp last (step ∷ steps) amount
  joins :
      {last : Option ℤ} {step : AssemblyStep} {steps : List AssemblyStep} {amount : ℤ}
      (a b : JoinInputRef) (target_raw change_raw : List ℕ) (va vb target change : ℤ)
      → step ≡ join a b target_raw change_raw
      → value_of sp last a ≡ some va
      → value_of sp last b ≡ some vb
      → big_int target_raw ≡ some target
      → big_int change_raw ≡ some change
      → va +ℤ vb ≡ target +ℤ change
      → pos 0 ≤ℤ change
      → Runs sp (some target) steps amount
      → Runs sp last (step ∷ steps) amount

-- The notes that the steps spend, in order.
abbrev pub refs : JoinInputRef → List String
refs (note id) = id ∷ []
refs prev = []

unfoldable pub spent_ids : List AssemblyStep → List String
spent_ids [] = []
spent_ids (split a t c ∷ steps) = refs a ++ spent_ids steps
spent_ids (join a b t c ∷ steps) = refs a ++ (refs b ++ spent_ids steps)

-- No id stands twice.
abbrev pub Unused : String → List String → Type 0
Unused id ids = All (λ other. other ≢ id) ids

abbrev pub AreDistinct : List String → Type 0
AreDistinct [] = Unit
AreDistinct (id ∷ ids) = Unused id ids × AreDistinct ids

abbrev pub ids_of : List Priced → List String
ids_of [] = []
ids_of (p ∷ ps) = p.id ∷ ids_of ps
