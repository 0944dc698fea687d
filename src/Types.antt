-- ===== src/Types.antt =====
-- packages/sdk/src/types.ts: the wallet's notes. An absent field is `none`; amounts, tags and
-- secrets are texts as they are on the wire.
use stellar_mosaic.Prelude.{ℕ, String, Bool, Option}
use stellar_mosaic.Text.{Text}

pub data NoteRole : Type 0 where
  asset order_output order_cancel : NoteRole

pub data NoteStatus : Type 0 where
  active spent cancelled : NoteStatus

pub data RecoveryState : Type 0 where
  local_only staged protected sync_error : RecoveryState

pub data OperationState : Type 0 where
  reserved pending_output committed : OperationState

pub record OrderCancelInfo : Type 0 where
  pub rho_ord : Text
  pub order_leaf : Text
  pub cancel_owner_tag : Text
  pub pair_id : ℕ
  pub side : ℕ
  pub asset_in : ℕ
  pub symbol_in : String
  pub amount_in : Text

-- The fields of a note but its status and its flag `indexed`, which old records spell otherwise.
pub record NoteBody : Type 0 where
  pub id : String
  pub desk_id : String
  pub role : NoteRole
  pub asset_id : ℕ
  pub symbol : String
  pub amount : Text
  pub sk : Text
  pub rho : Text
  pub owner_tag : Text
  pub leaf_index : Option ℕ
  pub tx_hash : Option String
  pub created_at : ℕ
  pub updated_at : Option ℕ
  pub cancel : Option OrderCancelInfo
  pub cancelled_at : Option ℕ
  pub wallet_address : Option String
  pub recovery_version : Option ℕ
  pub recovery_state : Option RecoveryState
  pub revision : Option ℕ
  pub operation_id : Option String
  pub operation_state : Option OperationState

pub record Note : Type 0 where
  pub body : NoteBody
  pub open body use *
  pub status : NoteStatus
  pub indexed : Bool
