-- ===== src/LedgerRange.antt =====
-- packages/sdk/src/chainEvents.ts: `parseLedgerRange`, which reads the ledgers that an RPC server
-- still has from the message of its error.
pub mod Reading
mod Tests
use stellar_mosaic.Prelude.{
  ℕ, zero, suc, ◌+◌, ◌-◌, ◌*◌, ◌^◌, Bool, true, false, ◌&&◌, Option, none, some, List, [], ◌∷◌,
  ◌++◌, ◌==◌, leb, if◌then◌else◌, length, drop,
}
use stellar_mosaic.Text.{Text, codes, is_digit}

pub record LedgerRange : Type 0 where
  pub oldest : ℕ
  pub latest : ℕ

abbrev pub starts_with : Text → Text → Bool
starts_with [] s = true
starts_with (c ∷ needle) [] = false
starts_with (c ∷ needle) (d ∷ s) = c == d && starts_with needle s

abbrev pub needle : Text
needle = codes "ledger range:"

-- What stands behind the first place of the needle, if it has one.
unfoldable pub after_needle : Text → Option Text
after_needle [] = none
after_needle (c ∷ s) =
    let rest = after_needle s in
    if starts_with needle (c ∷ s) then some (drop (length needle) (c ∷ s)) else rest

-- What stands before the first place of the needle.
unfoldable pub before_needle : Text → Text
before_needle [] = []
before_needle (c ∷ s) =
    let rest = c ∷ before_needle s in if starts_with needle (c ∷ s) then [] else rest

-- `message.split("ledger range:").at(1)`
abbrev pub second_part : Option Text → Option Text
second_part none = none
second_part (some s) = some (before_needle s)

-- `split(/\D+/).filter(Boolean).map(Number)`: the runs of digits, as numbers. The state is the
-- number of the run that is open.
abbrev pub closed : Option ℕ → List ℕ → List ℕ
closed none ns = ns
closed (some n) ns = n ∷ ns

abbrev pub open_value : Option ℕ → ℕ
open_value none = 0
open_value (some n) = n

unfoldable pub numbers_from : Option ℕ → Text → List ℕ
numbers_from acc [] = closed acc []
numbers_from acc (c ∷ s) =
    let more = numbers_from (some (open_value acc * 10 + (c - b'0'))) s in
    let next = closed acc (numbers_from none s) in if is_digit c then more else next

-- `filter(Number.isSafeInteger)`
unfoldable pub safe_numbers : List ℕ → List ℕ
safe_numbers [] = []
safe_numbers (n ∷ ns) = let rest = safe_numbers ns in if leb n (2 ^ 53 - 1) then n ∷ rest else rest

abbrev pub range_of : List ℕ → Option LedgerRange
range_of (oldest ∷ latest ∷ ns) = some (record { oldest = oldest; latest = latest })
range_of _ = none

abbrev pub range_in : Option Text → Option LedgerRange
range_in none = none
range_in (some after) = range_of (safe_numbers (numbers_from none after))

unfoldable pub parse_ledger_range : Text → Option LedgerRange
parse_ledger_range message = range_in (second_part (after_needle message))
