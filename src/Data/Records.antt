-- ===== src/Data/Records.antt =====
-- frontend-explorer/lib/data/wire.ts: the records that the indexer answers with. Members that nothing
-- reads are left out, and a member that may be null or absent is optional.
use gally.Prelude.{ℕ, Bool, Option, List, Text}
use gally.Prelude.Number.{Number}
use gally.Data.Client.{Envelope}

pub record WireAccumulator : Type 0 where
  pub reward_pool : Option Text
  pub rollover_reserve : Option Text
  pub compensation_pool : Option Text
  pub compensation_unlock_ms : Option ℕ
  pub wrapping_frozen : Option Bool

pub record WireAsset : Type 0 where
  pub asset_id : Text
  pub entity : Text
  pub goal : Text
  pub funding_deadline_ms : ℕ
  pub revenue_split_bps : ℕ
  pub collateral : Text
  pub validator_pool_id : Option Text
  pub coverage : Option Text
  pub accumulator_id : Option Text
  pub current_state : ℕ
  pub created_at_ms : ℕ
  pub name : Option Text
  pub ticker : Option Text
  pub category : Option ℕ
  pub location : Option Text
  pub entity_name : Option Text
  pub is_term_financing : Option Bool
  pub return_target : Option Text
  pub apy : Option Number
  pub accumulator : Option WireAccumulator

pub record WireTrancheSchedule : Type 0 where
  pub tranche_index : ℕ
  pub amount : Text
  pub deadline_ms : ℕ
  pub description : Text

pub record WireTrancheEvent : Type 0 where
  pub event_type : Text
  pub tranche_index : ℕ
  pub approver : Option Text
  pub proof_blob_id : Option Text
  pub proof_sha256 : Option Text

pub record WireTranchesEnvelope : Type 0 where
  pub envelope : Envelope WireTrancheEvent
  pub schedule : Option (List WireTrancheSchedule)

pub record WireRaisePoint : Type 0 where
  pub timestamp_ms : ℕ
  pub contributor : Text
  pub amount : Text
  pub raised_after : Text
  pub tx_digest : Text

pub record WireYieldPoint : Type 0 where
  pub timestamp_ms : ℕ
  pub event_type : Text
  pub gross : Option Text
  pub index_after : Option Text
  pub tx_digest : Text

pub record WireWrapPoint : Type 0 where
  pub timestamp_ms : ℕ
  pub total_wrapped_after : Text

pub record WireHolder : Type 0 where
  pub address : Text
  pub share_count : Text
  pub wrapped : Text
  pub acquired_at_ms : ℕ
  pub yield_claimed_index : Text

pub record WireHoldersEnvelope : Type 0 where
  pub envelope : Envelope WireHolder
  pub total_minted_shares : Text

pub record WireValidator : Type 0 where
  pub pool_id : Text
  pub validator : Text
  pub initial_stake : Text
  pub current_status : ℕ
  pub registered_at_ms : ℕ
  pub name : Option Text

pub record TrackRecord : Type 0 where
  pub assets_vouched : Option ℕ
  pub milestones_approved : Option ℕ
  pub disputes_against : Option ℕ
  pub disputes_upheld : Option ℕ
  pub coverage_locked : Option Text
  pub active_vouches : Option ℕ

pub record WireValidatorDetail : Type 0 where
  pub validator : WireValidator
  pub reputation : ℕ
  pub track_record : Option TrackRecord

pub record WireGovEvent : Type 0 where
  pub timestamp_ms : ℕ
  pub event_type : Text
  pub tx_digest : Text
  pub admin : Option Text
  pub param_name : Option Text
  pub old_value : Option Text
  pub new_value : Option Text
  pub old_treasury : Option Text
  pub new_treasury : Option Text

pub record WirePortfolioEvent : Type 0 where
  pub timestamp_ms : ℕ
  pub event_type : Text
  pub asset_id : Text
  pub actor : Text
  pub amount : Option Text
  pub tx_digest : Text

-- The members of a payload that are read, where they are strings.
pub record WireTxEvent : Type 0 where
  pub event_seq : ℕ
  pub event_type : Text
  pub asset_id : Option Text
  pub actor : Option Text
  pub contributor : Option Text

pub record WireTx : Type 0 where
  pub tx_digest : Text
  pub timestamp_ms : ℕ
  pub events : List WireTxEvent

pub record WireAddressHolding : Type 0 where
  pub asset_id : Text
  pub share_count : Text
  pub wrapped : Text
  pub yield_claimed_index : Text

pub record WireAddress : Type 0 where
  pub roles : List Text
  pub holdings : List WireAddressHolding
