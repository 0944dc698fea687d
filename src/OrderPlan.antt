-- ===== src/OrderPlan.antt =====
-- packages/sdk/src/orderPlan.ts: how a wallet assembles one note of an exact amount. Amounts are
-- texts that `BigInt` reads; `throw syntax_error` is its SyntaxError, which the first pass over the
-- spendable notes meets if any pass does.
pub mod Execution
pub mod Merging
pub mod Scans
pub mod Planning
mod Tests
use stellar_mosaic.Prelude.{
  ℕ, String, Bool, true, false, not, ◌&&◌, Option, none, some, List, [], ◌∷◌, ◌++◌, ◌==◌,
  if◌then◌else◌, Result, ok, throw, ◌>>=◌,
}
use stellar_mosaic.Prelude.Int.{ℤ, pos, ◌+ℤ◌, ◌-ℤ◌, ltb_ℤ, leb_ℤ, eqb_ℤ}
use stellar_mosaic.Prelude.Sorting.{sort_by}
use stellar_mosaic.Text.{Text, big_int}
use stellar_mosaic.Amount.{to_string}
use stellar_mosaic.Types.{Note, NoteStatus, active, OperationState, reserved}

pub data JoinInputRef : Type 0 where
  note : (id : String) → JoinInputRef
  prev : JoinInputRef

pub data AssemblyStep : Type 0 where
  split : (a : JoinInputRef) (target_raw change_raw : Text) → AssemblyStep
  join : (a b : JoinInputRef) (target_raw change_raw : Text) → AssemblyStep

pub data Reason : Type 0 where
  not_positive exceeds_balance could_not_assemble : Reason

pub data AssemblyPlan : Type 0 where
  direct : (note_id : String) → AssemblyPlan
  assemble : (steps : List AssemblyStep) → AssemblyPlan
  impossible : (reason : Reason) → AssemblyPlan

pub data PlanError : Type 0 where
  syntax_error type_error : PlanError

is_active : NoteStatus → Bool
is_active active = true
is_active _ = false

is_reserved : Option OperationState → Bool
is_reserved (some reserved) = true
is_reserved _ = false

unfoldable pub is_spendable : ℕ → Note → Bool
unfolding is_active is_reserved
is_spendable asset_id n =
    is_active n.status && n.indexed && n.asset_id == asset_id && not (is_reserved n.operation_state)

pub spendable_notes : List Note → ℕ → List Note
spendable_notes [] asset_id = []
spendable_notes (n ∷ ns) asset_id =
    let rest = spendable_notes ns asset_id in if is_spendable asset_id n then n ∷ rest else rest

-- A note's id beside `BigInt(n.amount)`.
pub record Priced : Type 0 where
  pub id : String
  pub amount : ℤ

pub price : List Note → Result PlanError (List Priced)
price [] = ok []
price (n ∷ ns) = elim (big_int n.amount) [
  | none ↦ throw syntax_error
  | some a ↦ do rest ← price ns; ok (record { id = n.id; amount = a } ∷ rest)
]

-- The fold that adds up the amounts, from the sum so far.
pub add_amounts : ℤ → List Priced → ℤ
add_amounts s [] = s
add_amounts s (p ∷ ps) = add_amounts (s +ℤ p.amount) ps

unfoldable pub max_in : List Note → ℕ → Result PlanError ℤ
unfolding spendable_notes price add_amounts
max_in notes asset_id = do sp ← price (spendable_notes notes asset_id); ok (add_amounts (pos 0) sp)

unfoldable pub find_exact : ℤ → List Priced → Option Priced
find_exact target [] = none
find_exact target (p ∷ ps) =
    let rest = find_exact target ps in if eqb_ℤ p.amount target then some p else rest

unfoldable pub covering : ℤ → List Priced → List Priced
covering target [] = []
covering target (p ∷ ps) =
    let rest = covering target ps in if ltb_ℤ target p.amount then p ∷ rest else rest

-- The two comparators: ascending and descending amounts.
abbrev pub is_larger : Priced → Priced → Bool
is_larger x y = ltb_ℤ y.amount x.amount

abbrev pub is_smaller : Priced → Priced → Bool
is_smaller x y = ltb_ℤ x.amount y.amount

-- The loop that merges the notes behind the first, largest first.
unfoldable pub merge_loop : ℤ → JoinInputRef → ℤ → List Priced → List AssemblyStep → AssemblyPlan
merge_loop target acc_ref acc_amt [] steps = impossible could_not_assemble
merge_loop target acc_ref acc_amt (n ∷ rest) steps =
    let sum = acc_amt +ℤ n.amount in
    let carve = join acc_ref (note n.id) (to_string target) (to_string (sum -ℤ target)) in
    let merge = join acc_ref (note n.id) (to_string sum) (to_string (pos 0)) in
    let next = merge_loop target prev sum rest (steps ++ merge ∷ []) in
    if leb_ℤ target sum then assemble (steps ++ carve ∷ []) else next

-- `sorted[0].id` of an empty array is a TypeError.
unfoldable pub merge_notes : ℤ → List Priced → Result PlanError AssemblyPlan
merge_notes target [] = throw type_error
merge_notes target (first ∷ rest) = ok (merge_loop target (note first.id) first.amount rest [])

-- One split of the smallest note that is larger than the target, or else the merge.
unfoldable pub cover_or_merge : ℤ → List Priced → List Priced → Result PlanError AssemblyPlan
cover_or_merge target (n ∷ _) sp =
    ok (assemble (split (note n.id) (to_string target) (to_string (n.amount -ℤ target)) ∷ []))
cover_or_merge target [] sp = merge_notes target (sort_by is_smaller sp)

unfoldable pub plan_priced : ℤ → List Priced → Result PlanError AssemblyPlan
plan_priced target sp =
    if ltb_ℤ (add_amounts (pos 0) sp) target
    then ok (impossible exceeds_balance)
    else elim (find_exact target sp) [
      | some p ↦ ok (direct p.id)
      | none ↦ cover_or_merge target (sort_by is_larger (covering target sp)) sp
    ]

unfoldable pub plan_assembly : List Note → ℕ → ℤ → Result PlanError AssemblyPlan
plan_assembly notes asset_id target =
    if leb_ℤ target (pos 0)
    then ok (impossible not_positive)
    else do sp ← price (spendable_notes notes asset_id); plan_priced target sp
