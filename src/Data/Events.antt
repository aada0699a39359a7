-- ===== src/Data/Events.antt =====
-- frontend-explorer/lib/data/events.ts: the kinds of events, from the names that the indexer writes.
pub mod Names
use gally.Prelude.{
  ℕ, ◌-◌, Bool, true, false, Option, none, some, List, [], ◌∷◌, Text, text, text_eq, length, take,
  drop, find?, if◌then◌else◌, leb, ◌&&◌, ◌otherwise◌,
}

pub data EventType : Type 0 where
  asset_created asset_vouched asset_state_changed asset_cancelled : EventType
  milestone_proof_submitted milestone_approved tranche_released : EventType
  asset_operational entity_defaulted asset_closed : EventType
  capital_contributed contribution_refunded shares_claimed shares_wrapped : EventType
  shares_unwrapped share_redeemed yield_claimed : EventType
  raise_finalized raise_aborted revenue_deposited rollover_swept compensation_swept : EventType
  validator_registered stake_added stake_withdrawn validator_status_changed : EventType
  dispute_opened juror_voted dispute_resolved : EventType
  protocol_initialized protocol_param_changed protocol_treasury_changed : EventType
  emergency_stop_triggered protocol_resumed : EventType

pub data EventFeed : Type 0 where
  lifecycle position revenue validator dispute governance : EventFeed

-- `FEED_OF`
unfoldable pub event_feed_of : EventType → EventFeed
event_feed_of asset_created = lifecycle
event_feed_of asset_vouched = lifecycle
event_feed_of asset_state_changed = lifecycle
event_feed_of asset_cancelled = lifecycle
event_feed_of milestone_proof_submitted = lifecycle
event_feed_of milestone_approved = lifecycle
event_feed_of tranche_released = lifecycle
event_feed_of asset_operational = lifecycle
event_feed_of entity_defaulted = lifecycle
event_feed_of asset_closed = lifecycle
event_feed_of capital_contributed = position
event_feed_of contribution_refunded = position
event_feed_of shares_claimed = position
event_feed_of shares_wrapped = position
event_feed_of shares_unwrapped = position
event_feed_of share_redeemed = position
event_feed_of yield_claimed = position
event_feed_of raise_finalized = revenue
event_feed_of raise_aborted = revenue
event_feed_of revenue_deposited = revenue
event_feed_of rollover_swept = revenue
event_feed_of compensation_swept = revenue
event_feed_of validator_registered = validator
event_feed_of stake_added = validator
event_feed_of stake_withdrawn = validator
event_feed_of validator_status_changed = validator
event_feed_of dispute_opened = dispute
event_feed_of juror_voted = dispute
event_feed_of dispute_resolved = dispute
event_feed_of protocol_initialized = governance
event_feed_of protocol_param_changed = governance
event_feed_of protocol_treasury_changed = governance
event_feed_of emergency_stop_triggered = governance
event_feed_of protocol_resumed = governance

-- The name in the source, which is the key of `FEED_OF`.
unfoldable pub event_name : EventType → Text
event_name asset_created = text "AssetCreated"
event_name asset_vouched = text "AssetVouched"
event_name asset_state_changed = text "AssetStateChanged"
event_name asset_cancelled = text "AssetCancelled"
event_name milestone_proof_submitted = text "MilestoneProofSubmitted"
event_name milestone_approved = text "MilestoneApproved"
event_name tranche_released = text "TrancheReleased"
event_name asset_operational = text "AssetOperational"
event_name entity_defaulted = text "EntityDefaulted"
event_name asset_closed = text "AssetClosed"
event_name capital_contributed = text "CapitalContributed"
event_name contribution_refunded = text "ContributionRefunded"
event_name shares_claimed = text "SharesClaimed"
event_name shares_wrapped = text "SharesWrapped"
event_name shares_unwrapped = text "SharesUnwrapped"
event_name share_redeemed = text "ShareRedeemed"
event_name yield_claimed = text "YieldClaimed"
event_name raise_finalized = text "RaiseFinalized"
event_name raise_aborted = text "RaiseAborted"
event_name revenue_deposited = text "RevenueDeposited"
event_name rollover_swept = text "RolloverSwept"
event_name compensation_swept = text "CompensationSwept"
event_name validator_registered = text "ValidatorRegistered"
event_name stake_added = text "StakeAdded"
event_name stake_withdrawn = text "StakeWithdrawn"
event_name validator_status_changed = text "ValidatorStatusChanged"
event_name dispute_opened = text "DisputeOpened"
event_name juror_voted = text "JurorVoted"
event_name dispute_resolved = text "DisputeResolved"
event_name protocol_initialized = text "ProtocolInitialized"
event_name protocol_param_changed = text "ProtocolParamChanged"
event_name protocol_treasury_changed = text "ProtocolTreasuryChanged"
event_name emergency_stop_triggered = text "EmergencyStopTriggered"
event_name protocol_resumed = text "ProtocolResumed"

-- The keys in order.
abbrev pub known : List EventType
known =
    asset_created ∷ asset_vouched ∷ asset_state_changed ∷ asset_cancelled
    ∷ milestone_proof_submitted ∷ milestone_approved ∷ tranche_released ∷ asset_operational
    ∷ entity_defaulted ∷ asset_closed ∷ capital_contributed ∷ contribution_refunded ∷ shares_claimed
    ∷ shares_wrapped ∷ shares_unwrapped ∷ share_redeemed ∷ yield_claimed ∷ raise_finalized
    ∷ raise_aborted ∷ revenue_deposited ∷ rollover_swept ∷ compensation_swept ∷ validator_registered
    ∷ stake_added ∷ stake_withdrawn ∷ validator_status_changed ∷ dispute_opened ∷ juror_voted
    ∷ dispute_resolved ∷ protocol_initialized ∷ protocol_param_changed ∷ protocol_treasury_changed
    ∷ emergency_stop_triggered ∷ protocol_resumed ∷ []

abbrev pub suffix : Text
suffix = text "Event"

abbrev pub ends_with : Text → Text → Bool
ends_with s end = leb (length end) (length s) && text_eq (drop (length s - length end) s) end

-- `wire.slice(0, -"Event".length)` where it ends so.
abbrev pub stripped : Text → Text
stripped wire = if ends_with wire suffix then take (length wire - length suffix) wire else wire

unfoldable pub event_type_of : Text → EventType
unfolding event_name
event_type_of wire =
    find? (λ t. text_eq (event_name t) (stripped wire)) known otherwise asset_state_changed
