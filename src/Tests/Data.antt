-- ===== src/Tests/Data.antt =====
-- Concrete assets, contexts and intents.
use gally.Prelude.{false, none, some, [], ◌∷◌, Text, text}
use gally.Prelude.Number.{whole}
use gally.Prelude.Int.{pos}
use gally.Domain.{Asset, Tranche, Accumulator, Dispute, open_vote, Category, executing}
use gally.Tx.Intents.{TxIntent, AssetIntent, CrankIntent, contribute, claim_rewards, flag_default}
use gally.Tx.Plan.{BuildCtx, AssetCtx, OwnedRefs}
use gally.Store.Local.{Storage, stored}

abbrev pub deed : AssetIntent
deed = record {
  asset_id = text "0xa1";
  asset_name = text "Mill";
  amount = record { num = pos 250; over = 0 };
}

abbrev pub buy : TxIntent
buy = contribute deed

abbrev pub claim : TxIntent
claim = claim_rewards deed

abbrev pub flagging : CrankIntent
flagging = record {
  crank = flag_default;
  target_id = text "0xa1";
  label = text "Flag default";
  route = none;
}

abbrev pub known_asset : AssetCtx
known_asset = record {
  asset_id = text "0xa1";
  accumulator_id = some (text "0xac");
  validator_pool_id = some (text "0xb0");
  token_type = some (text "0x2::t::T");
}

abbrev pub held : OwnedRefs
held = record {
  receipt_id = none;
  share_id = some (text "0x51");
  coin_t_id = none;
  usdc_coin_id = some (text "0xc0");
}

abbrev pub context : BuildCtx
context = record {
  package_id = text "0x9";
  config_id = text "0xcf";
  sender = text "0x5e";
  asset = some known_asset;
  owned = some held;
  dispute_id = none;
}

-- The same wallet without the deed.
abbrev pub no_deed : BuildCtx
no_deed = record context { owned = none }

abbrev pub late_tranche : Tranche
late_tranche = record {
  index = 0;
  amount = pos 100;
  description = text "Foundations";
  deadline_ms = 50;
  released = false;
  approved_by = none;
  proof_blob_id = none;
  proof_sha256 = none;
}

abbrev pub reserve : Accumulator
reserve = record {
  id = text "0xac";
  token_symbol = text "MILL";
  cumulative_index = 0;
  total_minted_shares = pos 10;
  total_wrapped_shares = pos 4;
  reward_pool = pos 0;
  rollover_reserve = pos 7;
  compensation_pool = pos 0;
  wrapping_frozen = false;
  compensation_unlock_ms = none;
  lifetime_investor_revenue = pos 0;
  apy = whole (pos 0);
}

abbrev pub mill : Asset
mill = record {
  id = text "0xa1";
  name = text "Mill";
  ticker = text "MIL";
  entity = text "0xe";
  entity_name = text "Millers";
  category = Category.agriculture;
  state = executing;
  blurb = [];
  location = [];
  funding_goal = pos 100;
  raised = pos 100;
  funding_deadline_ms = 20;
  created_at_ms = 10;
  tranches = late_tranche ∷ [];
  entity_collateral = pos 5;
  revenue_split_bps = 7000;
  accumulator = some reserve;
  is_term_financing = false;
  return_target = pos 0;
  disputed = false;
  validator_pool_id = text "0xb0";
  coverage_locked = pos 10;
  raise_series = [];
  index_series = [];
  wrap_series = [];
  spark = [];
  contributors = 1;
  holders = 1;
}

abbrev pub dispute : Dispute
dispute = record {
  id = text "0xd1";
  asset_id = text "0xa1";
  asset_name = text "Mill";
  target_pool_id = text "0xb0";
  target_validator_name = text "Surveyor";
  challenger = text "0xc4";
  bond = pos 1;
  status = open_vote;
  votes_guilty = 2;
  votes_innocent = 1;
  quorum = 3;
  voting_deadline_ms = 90;
  opened_at_ms = 10;
  reason = [];
  slashed = none;
  bounty = none;
}

abbrev pub applied : Storage Text
applied = record { on_server = false; full = false; cell = stored (text "claim:0xa1" ∷ []) }
