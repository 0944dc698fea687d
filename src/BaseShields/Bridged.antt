-- ===== src/BaseShields/Bridged.antt =====
-- The bridges and the keys of the stored Base-shield jobs.
use stellar_mosaic.Prelude.{◌≡◌, ◌≢◌, some, List, [], ◌∷◌, All}
use stellar_mosaic.Text.{Text, lower_case}
use stellar_mosaic.BaseShields.{insert_desk, Desk, StoredShield, find_desk, bridge_of, shield_key}
use stellar_mosaic.BaseShields.Steps.{Step}

-- The bridge is the one of the desk, but for the case of its letters.
pub record IsBridgeOf (desks : List Desk) (desk_id bridge : Text) : Type 0 where
  pub desk : Desk
  pub configured : Text
  pub found : find_desk desk_id desks ≡ some desk
  pub bridge_of_desk : bridge_of desk.base_deployment ≡ some configured
  pub nonempty : configured ≢ []
  pub same : lower_case configured ≡ lower_case bridge

-- The desks and the jobs of the store, and the calls that change them.
pub record Store : Type 0 where
  pub desks : List Desk
  pub jobs : List StoredShield

pub data StoreStep (s : Store) : Store → Type 0 where
  configures : (desk : Desk) → StoreStep s (record s { desks = insert_desk desk s.desks })
  works :
      {jobs : List StoredShield} → Step s.desks s.jobs jobs → StoreStep s (record s { jobs = jobs })

pub data StoreRun (s : Store) : Store → Type 0 where
  begins : StoreRun s s
  continues : {mid after : Store} → StoreRun s mid → StoreStep mid after → StoreRun s after

abbrev pub empty_store : Store
empty_store = record { desks = []; jobs = [] }

-- At some point on the way to a store, the bridge was the one of the desk.
pub record WasBridgeOf (now : Store) (desk_id bridge : Text) : Type 0 where
  pub before : Store
  pub reached : StoreRun empty_store before
  pub since : StoreRun before now
  pub bridge_of_desk : IsBridgeOf before.desks desk_id bridge

-- A job is for a bridge that its desk had, and is kept under the key of its deposit.
pub record IsBridged (now : Store) (s : StoredShield) : Type 0 where
  pub bridge_of_desk : WasBridgeOf now s.1.desk_id s.1.bridge
  pub keyed : s.0 ≡ shield_key s.1.desk_id s.1.bridge s.1.deposit_id

abbrev pub HasOther : Text → StoredShield → Type 0
HasOther key s = s.0 ≢ key

-- No two jobs have one key.
abbrev pub AreOnce : List StoredShield → Type 0
AreOnce [] = Unit
AreOnce (s ∷ jobs) = All (HasOther s.0) jobs × AreOnce jobs

pub record IsShieldQueue (now : Store) (jobs : List StoredShield) : Type 0 where
  pub bridged : All (IsBridged now) jobs
  pub once : AreOnce jobs
