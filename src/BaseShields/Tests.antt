-- ===== src/BaseShields/Tests.antt =====
-- A desk on Base, a deposit and the worker's steps.
use stellar_mosaic.Prelude.{◌≡◌, refl, ap, false, Option, none, some, List, [], ◌∷◌, ok, throw}
use stellar_mosaic.Text.{Text, codes, text_eq, lower_case}
use stellar_mosaic.BaseShields.{
  Desk, BaseShieldJob, StoredShield, Enqueued, no_configured_bridge, bridge_mismatch, job_not_found,
  find_desk, assert_bridge_matches, shield_key, find_shield, new_shield, enqueue_base_shield,
  list_base_shields, base_shield_by_id, is_base_shield_active, next_base_shield, change_shield,
  base_shield_proved, moved, base_shield_status, base_shield_failed,
}
use stellar_mosaic.BaseShields.Steps.{start, next, proves}
use stellar_mosaic.BaseShields.Bridged.{Store}
use stellar_mosaic.BaseShields.Enqueued.{IsKept, enqueue_base_shield_again}

abbrev based : Text → Option Text → Desk
based id bridge = record { id = id; base_deployment = some (record { bridge_address = bridge }) }

abbrev desks : List Desk
desks = based (codes "d") (some (codes "0xAb")) ∷ based (codes "e") none ∷ []

-- A bridge of any case, another bridge, and a desk with none.
bridges :
    (assert_bridge_matches desks (codes "d") (codes "0xaB") ≡ ok tt)
    × (assert_bridge_matches desks (codes "d") (codes "0xcc")
        ≡ throw (bridge_mismatch (codes "d") (codes "0xAb") (codes "0xcc")))
    × (assert_bridge_matches desks (codes "e") (codes "0xab")
        ≡ throw (no_configured_bridge (codes "e")))
unfolding assert_bridge_matches find_desk text_eq lower_case
bridges = (refl, refl, refl)

abbrev job : BaseShieldJob
job = new_shield (codes "j") (codes "d") (codes "0xab") 7 none

abbrev jobs : List StoredShield
jobs = (shield_key (codes "d") (codes "0xab") 7, job) ∷ []

abbrev first_call : Enqueued
first_call = enqueue_base_shield desks (codes "j") (codes "d") (codes "0xab") 7 none []

enqueued : first_call ≡ (jobs, ok job)
unfolding enqueue_base_shield assert_bridge_matches find_desk find_shield text_eq lower_case
enqueued = refl

-- The worker takes the job until it is active.
worked :
    (next_base_shield jobs ≡ some job)
    × (base_shield_status (codes "j") (codes "active") (some (codes "tx")) jobs ≡ (
      (shield_key (codes "d") (codes "0xab") 7, moved (codes "active") (some (codes "tx")) job)
          ∷ [],
      ok tt,
    ))
    × (next_base_shield
          ((shield_key (codes "d") (codes "0xab") 7, moved (codes "active") none job) ∷ [])
        ≡ none)
    × (base_shield_failed (codes "k") (codes "late") jobs
        ≡ (jobs, throw (job_not_found (codes "k"))))
    × (list_base_shields (codes "d") jobs ≡ job ∷ [])
unfolding next_base_shield is_base_shield_active base_shield_status base_shield_failed
    base_shield_by_id change_shield list_base_shields text_eq
worked = (refl, refl, refl, refl, refl)

abbrev proved_jobs : List StoredShield
proved_jobs =
    (base_shield_proved (codes "j") 5 (codes "h") (codes "s") (codes "o") false first_call.0).0

-- The desk is inserted, a deposit is enqueued, and the desk gets another bridge.
abbrev configured_desk : Desk
configured_desk = based (codes "d") (some (codes "0xAb"))

abbrev moved_store : Store
moved_store = record {
  desks = based (codes "d") (some (codes "0xcc")) ∷ [];
  jobs =
      (enqueue_base_shield (configured_desk ∷ []) (codes "j") (codes "d") (codes "0xab") 7 none
        []).0;
}

enqueue_base_shield_again_example :
    IsKept
      (codes "j")
      proved_jobs
      (enqueue_base_shield desks (codes "k") (codes "d") (codes "0xab") 7 none proved_jobs)
enqueue_base_shield_again_example =
    enqueue_base_shield_again desks (codes "j") (codes "d") (codes "0xab") 7 none [] proved_jobs job
      (codes "k") none (ap (λ e. e.1) enqueued)
      (next start (proves (codes "j") 5 (codes "h") (codes "s") (codes "o") false))
