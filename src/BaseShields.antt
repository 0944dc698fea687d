-- ===== src/BaseShields.antt =====
-- packages/mcp/src/store.ts: the Base-shield jobs of `MemoryMosaicStore`, each of which carries one
-- deposit of a bridge on Base to a desk. The Map of jobs is a list in the order of insertion, with
-- the key of each job; of a desk, what the jobs read is kept.
pub mod Steps
pub mod Bridged
pub mod Enqueued
mod Tests
use stellar_mosaic.Prelude.{
  ℕ, Bool, true, false, ◌||◌, ◌++◌, Option, none, some, List, [], ◌∷◌, if◌then◌else◌, Result, ok,
  throw,
}
use stellar_mosaic.Text.{Text, codes, text_eq, lower_case, to_digits}

pub record BaseDeployment : Type 0 where
  pub bridge_address : Option Text

pub record Desk : Type 0 where
  pub id : Text
  pub base_deployment : Option BaseDeployment

pub record BaseShieldDeposit : Type 0 where
  pub asset_id : Option ℕ
  pub symbol : Option Text
  pub decimals : Option ℕ
  pub amount : Option Text
  pub base_tx_hash : Option Text

-- A field that is null or absent is `none`.
pub record BaseShieldJob : Type 0 where
  pub id : Text
  pub desk_id : Text
  pub bridge : Text
  pub deposit_id : ℕ
  pub status : Text
  pub block_number : Option ℕ
  pub block_hash : Option Text
  pub seal_hex : Option Text
  pub journal_hex : Option Text
  pub stellar_tx_hash : Option Text
  pub deposit : Option BaseShieldDeposit
  pub error : Option Text

-- A job under its key.
abbrev pub StoredShield : Type 0
StoredShield = Text × BaseShieldJob

pub data ShieldError : Type 0 where
  desk_not_found : (id : Text) → ShieldError
  no_configured_bridge : (desk_id : Text) → ShieldError
  bridge_mismatch : (desk_id configured bridge : Text) → ShieldError
  job_not_found : (id : Text) → ShieldError

abbrev pub has_characters : Text → Bool
has_characters [] = false
has_characters (c ∷ s) = true

unfoldable pub find_desk : Text → List Desk → Option Desk
find_desk id [] = none
find_desk id (d ∷ ds) = let rest = find_desk id ds in if text_eq d.id id then some d else rest

-- The desks after `insertDesk`: a desk that is there is replaced in its place. The secret of its
-- sponsor is kept elsewhere.
unfoldable pub insert_desk : Desk → List Desk → List Desk
insert_desk desk [] = desk ∷ []
insert_desk desk (d ∷ ds) =
    let rest = d ∷ insert_desk desk ds in if text_eq d.id desk.id then desk ∷ ds else rest

-- desk.base_deployment?.bridge_address ?? null
abbrev pub bridge_of : Option BaseDeployment → Option Text
bridge_of none = none
bridge_of (some deployment) = deployment.bridge_address

abbrev pub bridge_matched : Text → Text → Option Text → Result ShieldError (Unit {0})
bridge_matched desk_id bridge none = throw (no_configured_bridge desk_id)
bridge_matched desk_id bridge (some configured) =
    if has_characters configured
    then if text_eq (lower_case configured) (lower_case bridge)
      then ok tt
      else throw (bridge_mismatch desk_id configured bridge)
    else throw (no_configured_bridge desk_id)

abbrev pub desk_matched : Text → Text → Option Desk → Result ShieldError (Unit {0})
desk_matched desk_id bridge none = throw (desk_not_found desk_id)
desk_matched desk_id bridge (some d) = bridge_matched desk_id bridge (bridge_of d.base_deployment)

unfoldable pub assert_bridge_matches : List Desk → Text → Text → Result ShieldError (Unit {0})
assert_bridge_matches desks desk_id bridge = desk_matched desk_id bridge (find_desk desk_id desks)

-- `${deskId}\0${bridge}\0${depositId}`
abbrev pub shield_key : Text → Text → ℕ → Text
shield_key desk_id bridge deposit_id = desk_id ++ (0 ∷ bridge ++ (0 ∷ to_digits 10 deposit_id))

unfoldable pub find_shield : Text → List StoredShield → Option BaseShieldJob
find_shield key [] = none
find_shield key (s ∷ jobs) =
    let rest = find_shield key jobs in if text_eq s.0 key then some s.1 else rest

abbrev pub new_shield : Text → Text → Text → ℕ → Option BaseShieldDeposit → BaseShieldJob
new_shield id desk_id bridge deposit_id deposit = record {
  id = id;
  desk_id = desk_id;
  bridge = bridge;
  deposit_id = deposit_id;
  status = codes "proving";
  block_number = none;
  block_hash = none;
  seal_hex = none;
  journal_hex = none;
  stellar_tx_hash = none;
  deposit = deposit;
  error = none;
}

-- A call's jobs afterwards and its outcome.
abbrev pub Enqueued : Type 0
Enqueued = List StoredShield × Result ShieldError BaseShieldJob

abbrev pub kept_or_set : Text → BaseShieldJob → List StoredShield → Option BaseShieldJob → Enqueued
kept_or_set key job jobs none = (jobs ++ (key, job) ∷ [], ok job)
kept_or_set key job jobs (some existing) = (jobs, ok existing)

abbrev pub bridge_asserted :
    Text → BaseShieldJob → List StoredShield → Result ShieldError (Unit {0}) → Enqueued
bridge_asserted key job jobs (throw e) = (jobs, throw e)
bridge_asserted key job jobs (ok done) = kept_or_set key job jobs (find_shield key jobs)

unfoldable pub enqueue_base_shield :
    List Desk
    → (id desk_id bridge : Text) → ℕ
    → Option BaseShieldDeposit
    → List StoredShield
    → Enqueued
enqueue_base_shield desks id desk_id bridge deposit_id deposit jobs =
    bridge_asserted (shield_key desk_id bridge deposit_id)
      (new_shield id desk_id bridge deposit_id deposit) jobs
      (assert_bridge_matches desks desk_id bridge)

unfoldable pub list_base_shields : Text → List StoredShield → List BaseShieldJob
list_base_shields desk_id [] = []
list_base_shields desk_id (s ∷ jobs) =
    let rest = list_base_shields desk_id jobs in
    if text_eq s.1.desk_id desk_id then s.1 ∷ rest else rest

unfoldable pub base_shield_by_id : Text → List StoredShield → Option BaseShieldJob
base_shield_by_id id [] = none
base_shield_by_id id (s ∷ jobs) =
    let rest = base_shield_by_id id jobs in if text_eq s.1.id id then some s.1 else rest

-- BASE_SHIELD_ACTIVE.has(status)
unfoldable pub is_base_shield_active : Text → Bool
is_base_shield_active status =
    text_eq status (codes "proving")
    || text_eq status (codes "awaiting_finality")
    || text_eq status (codes "minting")

unfoldable pub next_base_shield : List StoredShield → Option BaseShieldJob
next_base_shield [] = none
next_base_shield (s ∷ jobs) =
    let rest = next_base_shield jobs in if is_base_shield_active s.1.status then some s.1 else rest

-- The job that `baseShieldById` finds, changed where it stands.
unfoldable pub change_shield :
    Text → (BaseShieldJob → BaseShieldJob) → List StoredShield → List StoredShield
change_shield id change [] = []
change_shield id change (s ∷ jobs) =
    let rest = change_shield id change jobs in
    if text_eq s.1.id id then (s.0, change s.1) ∷ jobs else s ∷ rest

abbrev pub Changed : Type 0
Changed = List StoredShield × Result ShieldError (Unit {0})

abbrev pub found_and_changed :
    Text → (BaseShieldJob → BaseShieldJob) → List StoredShield → Option BaseShieldJob → Changed
found_and_changed id change jobs none = (jobs, throw (job_not_found id))
found_and_changed id change jobs (some job) = (change_shield id change jobs, ok tt)

abbrev pub proved : ℕ → Text → Text → Text → Bool → BaseShieldJob → BaseShieldJob
proved block_number block_hash seal_hex journal_hex require_finality job = record job {
  status = if require_finality then codes "awaiting_finality" else codes "minting";
  block_number = some block_number;
  block_hash = some block_hash;
  seal_hex = some seal_hex;
  journal_hex = some journal_hex;
}

unfoldable pub base_shield_proved :
    Text → ℕ → Text → Text → Text → Bool → List StoredShield → Changed
base_shield_proved id block_number block_hash seal_hex journal_hex require_finality jobs =
    found_and_changed id (proved block_number block_hash seal_hex journal_hex require_finality) jobs
      (base_shield_by_id id jobs)

-- if (stellarTxHash) job.stellar_tx_hash = stellarTxHash
abbrev pub hash_after : Option Text → Option Text → Option Text
hash_after none old = old
hash_after (some hash) old = if has_characters hash then some hash else old

abbrev pub moved : Text → Option Text → BaseShieldJob → BaseShieldJob
moved status stellar_tx_hash job = record job {
  status = status;
  stellar_tx_hash = hash_after stellar_tx_hash job.stellar_tx_hash;
}

unfoldable pub base_shield_status : Text → Text → Option Text → List StoredShield → Changed
base_shield_status id status stellar_tx_hash jobs =
    found_and_changed id (moved status stellar_tx_hash) jobs (base_shield_by_id id jobs)

abbrev pub failed_with : Text → BaseShieldJob → BaseShieldJob
failed_with error job = record job { status = codes "failed"; error = some error }

unfoldable pub base_shield_failed : Text → Text → List StoredShield → Changed
base_shield_failed id error jobs =
    found_and_changed id (failed_with error) jobs (base_shield_by_id id jobs)
