-- ===== src/Tx/Context/Build.antt =====
-- frontend-explorer/lib/tx/buildCtx.ts: the build context from what was resolved.
use gally.Prelude.{not, Option, none, some, ◌||◌, Text, nonempty, ◌<|>◌, ◌otherwise◌, if◌then◌else◌}
use gally.Tx.Intents.{
  CrankKind, resolve_dispute, CrankIntent, TxIntent, contribute, claim_shares, refund,
  claim_rewards, split, wrap, unwrap, raise_dispute, crank,
}
use gally.Tx.Plan.{BuildCtx}
use gally.Tx.Context.{TxConfig, ResolvedRefs}

abbrev subject_asset_id : TxIntent → Text
subject_asset_id (contribute i) = i.asset_id
subject_asset_id (claim_shares i) = i.asset_id
subject_asset_id (refund i) = i.asset_id
subject_asset_id (claim_rewards i) = i.asset_id
subject_asset_id (split i) = i.asset_id
subject_asset_id (wrap i) = i.asset_id
subject_asset_id (unwrap i) = i.asset_id
subject_asset_id (raise_dispute i) = i.asset_id
subject_asset_id (crank i) = i.target_id

abbrev dispute_pool : TxIntent → Option Text
dispute_pool (raise_dispute i) = some i.pool_id
dispute_pool _ = none

abbrev crank_dispute : CrankIntent → CrankKind → Option Text
crank_dispute i resolve_dispute = some i.target_id
crank_dispute i _ = none

abbrev target_dispute : TxIntent → Option Text
target_dispute (crank i) = crank_dispute i i.crank
target_dispute _ = none

-- `requireTxConfig` throws where an id is not set.
unfoldable pub build_ctx : TxConfig → TxIntent → Text → ResolvedRefs → Option BuildCtx
build_ctx config i sender r =
    if not (nonempty config.package_id) || not (nonempty config.config_id)
    then none
    else some (record {
      package_id = config.package_id;
      config_id = config.config_id;
      sender = sender;
      asset = some (record {
        asset_id = r.asset_id otherwise subject_asset_id i;
        accumulator_id = r.accumulator_id;
        validator_pool_id = r.validator_pool_id <|> dispute_pool i;
        token_type = r.token_type;
      });
      owned = some (record {
        receipt_id = r.receipt_id;
        share_id = r.share_id;
        coin_t_id = r.coin_t_id;
        usdc_coin_id = r.usdc_coin_id;
      });
      dispute_id = r.dispute_id <|> target_dispute i;
    })
