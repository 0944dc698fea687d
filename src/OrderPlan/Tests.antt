-- ===== src/OrderPlan/Tests.antt =====
-- Plans for concrete wallets, and the theorem at two of them.
use stellar_mosaic.Prelude.{
  String, ◌≡◌, refl, some, none, ok, List, [], ◌∷◌, arith, true, false, ◌≢◌, str_eq, eq_iff,
}
use stellar_mosaic.Prelude.Int.{pos, ◌+ℤ◌, ◌-ℤ◌}
use stellar_mosaic.Prelude.Sorting.{sort_by, insert_by}
use stellar_mosaic.Text.{Text, codes, big_int, to_digits, read_digits}
use stellar_mosaic.Types.{Note, asset, active}
use stellar_mosaic.Amount.{to_string}
use stellar_mosaic.OrderPlan.{
  Priced, note, prev, split, join, direct, assemble, impossible, exceeds_balance, price,
  spendable_notes, add_amounts, plan_assembly, plan_priced, find_exact, covering, cover_or_merge,
  merge_notes, merge_loop, is_spendable, max_in,
}
use stellar_mosaic.OrderPlan.Planning.{IsPlan, plan_assembly-IsPlan}

abbrev wallet_note : String → Text → Note
wallet_note name amount = record {
  body = record {
    id = name;
    desk_id = "desk";
    role = asset;
    asset_id = 1;
    symbol = "USDC";
    amount = amount;
    sk = codes "1";
    rho = codes "2";
    owner_tag = codes "3";
    leaf_index = some 0;
    tx_hash = none;
    created_at = 0;
    updated_at = none;
    cancel = none;
    cancelled_at = none;
    wallet_address = none;
    recovery_version = none;
    recovery_state = none;
    revision = none;
    operation_id = none;
    operation_state = none;
  };
  status = active;
  indexed = true;
}

abbrev wallet : List Note
wallet =
    wallet_note "a" (codes "30") ∷ wallet_note "b" (codes "50") ∷ wallet_note "c" (codes "20") ∷ []

abbrev wallet_prices : List Priced
wallet_prices =
    record { id = "a"; amount = pos 30 }
    ∷ record { id = "b"; amount = pos 50 }
    ∷ record { id = "c"; amount = pos 20 }
    ∷ []

planning : Unit {0}
unfolding price spendable_notes is_spendable big_int to_digits read_digits plan_assembly plan_priced
    find_exact covering cover_or_merge merge_notes merge_loop add_amounts to_string ◌+ℤ◌ ◌-ℤ◌
    sort_by insert_by max_in
planning = tt

plan_tests :
    (plan_assembly wallet 1 (pos 50) ≡ ok (direct "b"))
    × (plan_assembly wallet 1 (pos 25)
        ≡ ok (assemble (split (note "a") (codes "25") (codes "5") ∷ [])))
    × (plan_assembly wallet 1 (pos 90)
        ≡ ok (
            assemble (
              join (note "b") (note "a") (codes "80") (codes "0")
              ∷ join prev (note "c") (codes "90") (codes "10")
              ∷ [])))
    × (plan_assembly wallet 1 (pos 101) ≡ ok (impossible exceeds_balance))
    × (max_in wallet 1 ≡ ok (pos 100))
unfolding planning
plan_tests = (refl, refl, refl, refl, refl)

wallet-priced : price (spendable_notes wallet 1) ≡ ok wallet_prices
unfolding planning
wallet-priced = refl

apart : (s t : String) → str_eq s t ≡ false → s ≢ t
apart s t h e = grind (arith, eq_iff)

plan_assembly-IsPlan_example : IsPlan wallet_prices (pos 90) (plan_assembly wallet 1 (pos 90))
plan_assembly-IsPlan_example =
    plan_assembly-IsPlan wallet 1 (pos 90) wallet_prices wallet-priced
      ((apart "b" "a" refl, (apart "c" "a" refl, tt)), ((apart "c" "b" refl, tt), (tt, tt)))
