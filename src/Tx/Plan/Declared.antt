-- ===== src/Tx/Plan/Declared.antt =====
-- Every function that the modules of gally_core/sources declare, whatever its visibility.
use gally.Prelude.{List, [], ◌∷◌, ◌++◌, Text, text, map}

abbrev accumulator_functions : List Text
accumulator_functions =
    text "claim_rewards"
    ∷ text "sweep_rollover"
    ∷ text "sweep_compensation"
    ∷ text "wrap_shares"
    ∷ text "unwrap_coins"
    ∷ text "merge_shares"
    ∷ text "redeem_share"
    ∷ text "admin_sweep_dust"
    ∷ text "unwrapped_supply"
    ∷ text "pending_payout"
    ∷ text "wrapped_coin_supply"
    ∷ text "asset_id"
    ∷ text "cumulative_yield_index"
    ∷ text "total_minted_shares"
    ∷ text "total_wrapped_shares"
    ∷ text "reward_pool_value"
    ∷ text "rollover_reserve_value"
    ∷ text "compensation_pool_value"
    ∷ text "compensation_unlock_ms"
    ∷ text "is_wrapping_frozen"
    ∷ text "is_closed"
    ∷ text "lifetime_investor_revenue"
    ∷ text "dust_bound"
    ∷ text "assert_asset"
    ∷ text "new_accumulator"
    ∷ text "add_to_compensation_pool"
    ∷ text "add_revenue"
    ∷ text "mark_closed"
    ∷ text "advance_index"
    ∷ text "sweep_rollover_internal"
    ∷ text "set_total_wrapped_for_testing"
    ∷ text "set_index_for_testing"
    ∷ []

abbrev asset_functions : List Text
asset_functions =
    text "new_walrus_ref"
    ∷ text "create_asset"
    ∷ text "create_term_asset"
    ∷ text "create_asset_internal"
    ∷ text "cancel_unvouched_by_entity"
    ∷ text "cancel_unvouched_timeout"
    ∷ text "vouch_asset_legals"
    ∷ text "contribute_capital"
    ∷ text "finalize_successful_raise"
    ∷ text "abort_failed_raise"
    ∷ text "refund_contribution"
    ∷ text "claim_shares"
    ∷ text "submit_milestone_proof"
    ∷ text "approve_milestone"
    ∷ text "release_funding_tranche"
    ∷ text "release_vouch_coverage"
    ∷ text "flag_default"
    ∷ text "deposit_revenue"
    ∷ text "close_at_return_target"
    ∷ text "close_after_compensation"
    ∷ text "close_wind_down"
    ∷ text "state"
    ∷ text "entity"
    ∷ text "funding_goal"
    ∷ text "raised"
    ∷ text "escrow_value"
    ∷ text "collateral_value"
    ∷ text "revenue_split_bps"
    ∷ text "next_tranche"
    ∷ text "tranche_count"
    ∷ text "coverage_locked"
    ∷ text "is_disputed"
    ∷ text "validator_pool_id"
    ∷ text "accumulator_id"
    ∷ text "is_operational"
    ∷ text "tranche_released"
    ∷ text "tranche_approved"
    ∷ text "receipt_amount"
    ∷ text "receipt_asset_id"
    ∷ text "is_executing"
    ∷ text "is_compensating"
    ∷ text "is_closed"
    ∷ text "is_term_financing"
    ∷ text "return_target"
    ∷ text "name"
    ∷ text "ticker"
    ∷ text "category"
    ∷ text "location"
    ∷ text "entity_name"
    ∷ text "metadata_blob"
    ∷ text "walrus_blob_id"
    ∷ text "walrus_sha256"
    ∷ text "set_disputed"
    ∷ text "clear_coverage"
    ∷ text "seize_into_compensation"
    ∷ text "assert_state"
    ∷ text "is_post_finalize"
    ∷ text "assert_entity_cap"
    ∷ text "assert_vouching_pool"
    ∷ text "set_state"
    ∷ text "close"
    ∷ text "cancel_internal"
    ∷ text "mul_bps"
    ∷ text "set_disputed_for_testing"
    ∷ text "create_asset_for_testing"
    ∷ text "create_term_asset_for_testing"
    ∷ text "state_pending_vouch"
    ∷ text "state_funding"
    ∷ text "state_failed"
    ∷ text "state_cancelled"
    ∷ text "state_executing"
    ∷ text "state_operational"
    ∷ text "state_compensating"
    ∷ text "state_closed"
    ∷ []

abbrev dispute_functions : List Text
dispute_functions =
    text "initialize_dispute"
    ∷ text "vote_on_dispute"
    ∷ text "resolve_dispute"
    ∷ text "claim_juror_reward"
    ∷ text "status"
    ∷ text "reason"
    ∷ text "votes_guilty"
    ∷ text "votes_innocent"
    ∷ text "voting_deadline_ms"
    ∷ text "juror_reward_per_vote"
    ∷ text "juror_reward_pool_value"
    ∷ text "status_open"
    ∷ text "status_upheld"
    ∷ text "status_rejected"
    ∷ text "status_expired"
    ∷ text "initialize_dispute_for_testing"
    ∷ text "mul_bps"
    ∷ []

abbrev protocol_functions : List Text
protocol_functions =
    text "init"
    ∷ text "assert_not_paused"
    ∷ text "assert_version"
    ∷ text "version"
    ∷ text "is_paused"
    ∷ text "treasury"
    ∷ text "protocol_fee_bps"
    ∷ text "min_validator_stake"
    ∷ text "vouch_coverage_bps"
    ∷ text "entity_collateral_bps"
    ∷ text "vouch_timeout_ms"
    ∷ text "challenger_bond"
    ∷ text "jury_quorum"
    ∷ text "jury_threshold_bps"
    ∷ text "jury_min_stake"
    ∷ text "challenger_bounty_bps"
    ∷ text "dispute_window_ms"
    ∷ text "compensation_grace_ms"
    ∷ text "min_wrap_duration_ms"
    ∷ text "admin_set_fee_bps"
    ∷ text "admin_set_treasury"
    ∷ text "admin_set_min_validator_stake"
    ∷ text "admin_set_vouch_coverage_bps"
    ∷ text "admin_set_entity_collateral_bps"
    ∷ text "admin_set_vouch_timeout_ms"
    ∷ text "admin_set_min_wrap_duration_ms"
    ∷ text "admin_set_dispute_params"
    ∷ text "admin_emergency_stop"
    ∷ text "admin_resume"
    ∷ text "emit_param_change"
    ∷ text "init_for_testing"
    ∷ text "set_version_for_testing"
    ∷ []

abbrev share_functions : List Text
share_functions =
    text "split_share"
    ∷ text "asset_id"
    ∷ text "share_count"
    ∷ text "yield_claimed_index"
    ∷ text "acquired_at_ms"
    ∷ text "mint"
    ∷ text "burn"
    ∷ text "set_yield_claimed_index"
    ∷ text "set_share_count"
    ∷ text "set_acquired_at_ms"
    ∷ text "mint_for_testing"
    ∷ []

abbrev validator_functions : List Text
validator_functions =
    text "register_validator"
    ∷ text "add_stake"
    ∷ text "withdraw_stake"
    ∷ text "validator"
    ∷ text "name"
    ∷ text "stake_value"
    ∷ text "locked"
    ∷ text "free_stake"
    ∷ text "active_vouches"
    ∷ text "is_active"
    ∷ text "is_frozen"
    ∷ text "is_slashed"
    ∷ text "registered_at_ms"
    ∷ text "assert_cap"
    ∷ text "lock_coverage"
    ∷ text "release_coverage"
    ∷ text "restitute_stake"
    ∷ text "freeze_pool"
    ∷ text "unfreeze_pool"
    ∷ text "slash"
    ∷ text "new_cap_for_testing"
    ∷ text "register_validator_for_testing"
    ∷ text "set_status"
    ∷ []

abbrev in_module : Text → List Text → List Text
in_module m fs = map (λ f. m ++ text "::" ++ f) fs

-- The functions of the package, each behind the name of its module.
unfoldable pub contract_functions : List Text
contract_functions =
    in_module (text "accumulator") accumulator_functions
    ++ in_module (text "asset") asset_functions
    ++ in_module (text "dispute") dispute_functions
    ++ in_module (text "protocol") protocol_functions
    ++ in_module (text "share") share_functions
    ++ in_module (text "validator") validator_functions
