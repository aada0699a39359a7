-- ===== src/Tx/Intents.antt =====
-- frontend-explorer/lib/tx/intents.ts: the actions that a user can ask for, their keys and routes,
-- and the validation that an executor runs first.
pub mod Keys
use gally.Prelude.{Option, none, some, ◌++◌, Text, text, if◌then◌else◌}
use gally.Prelude.Number.{Number, not_positive}

pub data CrankKind : Type 0 where
  resolve_dispute flag_default abort_failed_raise sweep_rollover sweep_compensation : CrankKind

-- The fields of the intents that name an asset and an amount.
pub record AssetIntent : Type 0 where
  pub asset_id : Text
  pub asset_name : Text
  pub amount : Number

-- Those of `wrap` and `unwrap`.
pub record TokenIntent : Type 0 where
  pub asset_id : Text
  pub asset_name : Text
  pub amount : Number
  pub token_symbol : Option Text

pub record DisputeIntent : Type 0 where
  pub pool_id : Text
  pub validator_name : Text
  pub asset_id : Text
  pub bond : Number
  pub reason : Option Text
  pub evidence_blob_id : Option Text
  pub evidence_sha256 : Option Text

pub record CrankIntent : Type 0 where
  pub crank : CrankKind
  pub target_id : Text
  pub label : Text
  pub route : Option Text

pub data TxIntent : Type 0 where
  contribute claim_shares refund claim_rewards split : AssetIntent → TxIntent
  wrap unwrap : TokenIntent → TxIntent
  raise_dispute : DisputeIntent → TxIntent
  crank : CrankIntent → TxIntent

-- `INTENT_ENTRY`, which the confirmation shows.
unfoldable pub intent_entry : TxIntent → Text
intent_entry (contribute i) = text "asset::contribute_capital"
intent_entry (claim_shares i) = text "asset::claim_shares"
intent_entry (refund i) = text "asset::refund_contribution"
intent_entry (claim_rewards i) = text "accumulator::claim_rewards"
intent_entry (wrap i) = text "accumulator::wrap_shares"
intent_entry (unwrap i) = text "accumulator::unwrap_coins"
intent_entry (split i) = text "share::split_share"
intent_entry (raise_dispute i) = text "dispute::initialize_dispute"
intent_entry (crank i) = text "permissionless crank"

unfoldable pub intent_verb : TxIntent → Text
intent_verb (contribute i) = text "Buy Shares"
intent_verb (claim_shares i) = text "Claim deeds"
intent_verb (refund i) = text "Sell Shares"
intent_verb (claim_rewards i) = text "Claim yield"
intent_verb (wrap i) = text "Wrap"
intent_verb (unwrap i) = text "Unwrap"
intent_verb (split i) = text "Split deed"
intent_verb (raise_dispute i) = text "Raise dispute"
intent_verb (crank i) = i.label

-- The page of the object that the intent is about.
unfoldable pub intent_route : TxIntent → Option Text
intent_route (raise_dispute i) = some (text "/validators/" ++ i.pool_id)
intent_route (crank i) = i.route
intent_route (contribute i) = some (text "/assets/" ++ i.asset_id)
intent_route (claim_shares i) = some (text "/assets/" ++ i.asset_id)
intent_route (refund i) = some (text "/assets/" ++ i.asset_id)
intent_route (claim_rewards i) = some (text "/assets/" ++ i.asset_id)
intent_route (wrap i) = some (text "/assets/" ++ i.asset_id)
intent_route (unwrap i) = some (text "/assets/" ++ i.asset_id)
intent_route (split i) = some (text "/assets/" ++ i.asset_id)

abbrev pub crank_name : CrankKind → Text
crank_name resolve_dispute = text "resolve_dispute"
crank_name flag_default = text "flag_default"
crank_name abort_failed_raise = text "abort_failed_raise"
crank_name sweep_rollover = text "sweep_rollover"
crank_name sweep_compensation = text "sweep_compensation"

unfoldable pub optimistic_key : TxIntent → Text
optimistic_key (contribute i) = text "contribute:" ++ i.asset_id
optimistic_key (claim_rewards i) = text "claim:" ++ i.asset_id
optimistic_key (claim_shares i) = text "claim_shares:" ++ i.asset_id
optimistic_key (refund i) = text "refund:" ++ i.asset_id
optimistic_key (wrap i) = text "wrap:" ++ i.asset_id
optimistic_key (unwrap i) = text "unwrap:" ++ i.asset_id
optimistic_key (split i) = text "split:" ++ i.asset_id
optimistic_key (raise_dispute i) = text "dispute:" ++ i.pool_id
optimistic_key (crank i) = text "crank:" ++ crank_name i.crank ++ text ":" ++ i.target_id

-- frontend-explorer/lib/format.ts
pub data Tone : Type 0 where
  primary positive warning danger info neutral : Tone

unfoldable pub intent_tone : TxIntent → Tone
intent_tone (claim_rewards i) = positive
intent_tone (claim_shares i) = positive
intent_tone (contribute i) = positive
intent_tone (refund i) = warning
intent_tone (unwrap i) = warning
intent_tone (raise_dispute i) = danger
intent_tone (wrap i) = primary
intent_tone (split i) = primary
intent_tone (crank i) = primary

-- `none` is a valid intent; otherwise the reason.
unfoldable pub validate_intent : TxIntent → Option Text
unfolding not_positive
validate_intent (contribute i) =
    if not_positive i.amount then some (text "Enter an investment amount.") else none
validate_intent (claim_rewards i) =
    if not_positive i.amount then some (text "No yield is currently claimable.") else none
validate_intent (claim_shares i) =
    if not_positive i.amount then some (text "No receipt to convert.") else none
validate_intent (refund i) =
    if not_positive i.amount then some (text "Nothing to refund.") else none
validate_intent (wrap i) = if not_positive i.amount then some (text "Enter an amount.") else none
validate_intent (unwrap i) = if not_positive i.amount then some (text "Enter an amount.") else none
validate_intent (split i) = if not_positive i.amount then some (text "Enter an amount.") else none
validate_intent (raise_dispute i) =
    if not_positive i.bond then some (text "Challenger bond is unset.") else none
validate_intent (crank i) = none
