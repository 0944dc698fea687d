-- ===== src/BaseShields/Steps.antt =====
-- Runs of the calls on Base-shield jobs, and how a property of the jobs is kept by them.
use stellar_mosaic.Prelude.{
  ℕ, ◌≡◌, refl, Bool, ◌++◌, Option, none, some, List, [], ◌∷◌, Result, ok, throw,
}
use stellar_mosaic.Text.{Text}
use stellar_mosaic.BaseShields.{
  Desk, BaseShieldDeposit, BaseShieldJob, StoredShield, ShieldError, assert_bridge_matches,
  shield_key, find_shield, new_shield, kept_or_set, bridge_asserted, enqueue_base_shield,
  base_shield_by_id, change_shield, found_and_changed, proved, base_shield_proved, moved,
  base_shield_status, failed_with, base_shield_failed,
}

-- The calls that change the jobs, and their runs while the desks stay as they are.
pub data Step (desks : List Desk) (jobs : List StoredShield) : List StoredShield → Type 0 where
  enqueues :
      (id desk_id bridge : Text) (deposit_id : ℕ) (deposit : Option BaseShieldDeposit)
      → Step desks jobs (enqueue_base_shield desks id desk_id bridge deposit_id deposit jobs).0
  proves :
      (id : Text) (block_number : ℕ) (block_hash seal_hex journal_hex : Text) (finality : Bool)
      → Step desks jobs
          (base_shield_proved id block_number block_hash seal_hex journal_hex finality jobs).0
  moves :
      (id status : Text) (stellar_tx_hash : Option Text)
      → Step desks jobs (base_shield_status id status stellar_tx_hash jobs).0
  fails : (id error : Text) → Step desks jobs (base_shield_failed id error jobs).0

pub data Run (desks : List Desk) (jobs : List StoredShield) : List StoredShield → Type 0 where
  start : Run desks jobs jobs
  next :
      {mid after : List StoredShield}
      → Run desks jobs mid
      → Step desks mid after
      → Run desks jobs after

-- A change of a job that leaves what names it.
pub record IsProgress (change : BaseShieldJob → BaseShieldJob) : Type 0 where
  pub id : (job : BaseShieldJob) → (change job).id ≡ job.id
  pub desk_id : (job : BaseShieldJob) → (change job).desk_id ≡ job.desk_id
  pub bridge : (job : BaseShieldJob) → (change job).bridge ≡ job.bridge
  pub deposit_id : (job : BaseShieldJob) → (change job).deposit_id ≡ job.deposit_id

proved-IsProgress :
    (block_number : ℕ) (block_hash seal_hex journal_hex : Text) (finality : Bool)
    → IsProgress (proved block_number block_hash seal_hex journal_hex finality)
proved-IsProgress n b s j f = record {
  id = λ job. refl;
  desk_id = λ job. refl;
  bridge = λ job. refl;
  deposit_id = λ job. refl;
}

moved-IsProgress : (status : Text) (hash : Option Text) → IsProgress (moved status hash)
moved-IsProgress s h = record {
  id = λ job. refl;
  desk_id = λ job. refl;
  bridge = λ job. refl;
  deposit_id = λ job. refl;
}

failed_with-IsProgress : (error : Text) → IsProgress (failed_with error)
failed_with-IsProgress e = record {
  id = λ job. refl;
  desk_id = λ job. refl;
  bridge = λ job. refl;
  deposit_id = λ job. refl;
}

-- A step keeps what an enqueued job and a progress keep.
module _ (desks : List Desk) (P : List StoredShield → Type 0)
    (enqueued : (jobs : List StoredShield) (id desk_id bridge : Text) (deposit_id : ℕ)
        (deposit : Option BaseShieldDeposit)
      → P jobs
      → assert_bridge_matches desks desk_id bridge ≡ ok tt
      → find_shield (shield_key desk_id bridge deposit_id) jobs ≡ none
      → P (
          jobs
          ++ (shield_key desk_id bridge deposit_id, new_shield id desk_id bridge deposit_id deposit)
            ∷ []))
    (changed : (jobs : List StoredShield) (id : Text) (change : BaseShieldJob → BaseShieldJob)
      → IsProgress change
      → P jobs
      → P (change_shield id change jobs)) where
  kept_found :
      (id : Text) (change : BaseShieldJob → BaseShieldJob) (jobs : List StoredShield)
      (found : Option BaseShieldJob)
      → IsProgress change
      → P jobs
      → P (found_and_changed id change jobs found).0
  kept_found id change jobs none k p = p
  kept_found id change jobs (some job) k p = changed jobs id change k p

  kept_enqueued :
      (id desk_id bridge : Text) (deposit_id : ℕ) (deposit : Option BaseShieldDeposit)
      (jobs : List StoredShield) (found : Option BaseShieldJob)
      → P jobs
      → assert_bridge_matches desks desk_id bridge ≡ ok tt
      → find_shield (shield_key desk_id bridge deposit_id) jobs ≡ found
      → P
          (kept_or_set
            (shield_key desk_id bridge deposit_id)
            (new_shield id desk_id bridge deposit_id deposit)
            jobs
            found).0
  kept_enqueued id desk_id bridge n deposit jobs none p a f =
      enqueued jobs id desk_id bridge n deposit p a f
  kept_enqueued id desk_id bridge n deposit jobs (some job) p a f = p

  kept_asserted :
      (id desk_id bridge : Text) (deposit_id : ℕ) (deposit : Option BaseShieldDeposit)
      (jobs : List StoredShield) (asserted : Result ShieldError (Unit {0}))
      → P jobs
      → assert_bridge_matches desks desk_id bridge ≡ asserted
      → P
          (bridge_asserted
            (shield_key desk_id bridge deposit_id)
            (new_shield id desk_id bridge deposit_id deposit)
            jobs
            asserted).0
  kept_asserted id desk_id bridge n deposit jobs (throw e) p a = p
  kept_asserted id desk_id bridge n deposit jobs (ok tt) p a =
      kept_enqueued id desk_id bridge n deposit jobs
        (find_shield (shield_key desk_id bridge n) jobs) p a refl

  pub kept_by_step : (jobs after : List StoredShield) → Step desks jobs after → P jobs → P after
  unfolding enqueue_base_shield base_shield_proved base_shield_status base_shield_failed
  kept_by_step jobs _ (enqueues id desk_id bridge n deposit) p =
      kept_asserted id desk_id bridge n deposit jobs (assert_bridge_matches desks desk_id bridge) p
        refl
  kept_by_step jobs _ (proves id n b s j f) p =
      kept_found id (proved n b s j f) jobs (base_shield_by_id id jobs)
        (proved-IsProgress n b s j f) p
  kept_by_step jobs _ (moves id status hash) p =
      kept_found id (moved status hash) jobs (base_shield_by_id id jobs)
        (moved-IsProgress status hash) p
  kept_by_step jobs _ (fails id error) p =
      kept_found id (failed_with error) jobs (base_shield_by_id id jobs)
        (failed_with-IsProgress error) p

  pub kept_by_run : (jobs after : List StoredShield) → Run desks jobs after → P jobs → P after
  kept_by_run jobs _ start p = p
  kept_by_run jobs after (next {mid} run step) p =
      kept_by_step mid after step (kept_by_run jobs mid run p)
