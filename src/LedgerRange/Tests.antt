-- ===== src/LedgerRange/Tests.antt =====
-- Messages of an RPC server, with a range and without one.
use stellar_mosaic.Prelude.{◌≡◌, refl, some, none, arith}
use stellar_mosaic.Text.{codes}
use stellar_mosaic.LedgerRange.{
  parse_ledger_range, after_needle, before_needle, numbers_from, safe_numbers,
}
use stellar_mosaic.LedgerRange.Reading.{range_message, parse_ledger_range-range_message}

-- One number is not a range.
no_range :
    (parse_ledger_range (codes "startLedger is missing") ≡ none)
    × (parse_ledger_range (codes "ledger range: 17") ≡ none)
unfolding parse_ledger_range after_needle before_needle numbers_from safe_numbers
no_range = (refl, refl)

parse_ledger_range-range_message_example :
    parse_ledger_range (range_message 100 250) ≡ some (record { oldest = 100; latest = 250 })
parse_ledger_range-range_message_example =
    parse_ledger_range-range_message 100 250 (omega arith) (omega arith)
