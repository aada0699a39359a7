-- ===== src/Tests/Indexer.antt =====
-- Records of the indexer and objects of a wallet.
use gally.Prelude.{◌-◌, ◌*◌, ◌≡◌, refl, ◌↔◌, true, false, none, some, [], ◌∷◌, text, List, arith}
use gally.Prelude.Int.{pos}
use gally.Tx.Intents.{resolve_dispute}
use gally.Keeper.{cranks_for_dispute}
use gally.Keeper.Ready.{runnable}
use gally.Data.Disputes.{WireDispute, map_dispute}
use gally.Data.Disputes.Resolvable.{IsDue, resolve_dispute-mapped, resolve_dispute-never}
use gally.Data.Position.{OwnedDeed, pending_yield, build_connected_holdings}
use gally.Data.Position.Groups.{
  holding_shares_of, deed_shares_of, holding_shares_of-deeds, pending_payout, pending_yield-payout,
}
use gally.Tests.Data.{mill}

abbrev wire_dispute : WireDispute
wire_dispute = record {
  dispute_id = text "0xd1";
  asset_id = text "0xa1";
  target_pool_id = text "0xb0";
  challenger = text "0xc4";
  bond = text "5000000";
  reason = none;
  opened_at_ms = 10;
  verdict = none;
  votes_guilty = 2;
  votes_innocent = 1;
  slashed = none;
  bounty = none;
  quorum = none;
  voting_deadline_ms = some 90;
  asset_name = none;
  target_validator_name = none;
}

resolve_dispute-mapped_example :
    (runnable resolve_dispute (cranks_for_dispute 95 (map_dispute 85 wire_dispute)) ≡ true)
    ↔ ((wire_dispute.verdict ≡ none) × IsDue 85 95 wire_dispute.voting_deadline_ms)
resolve_dispute-mapped_example = resolve_dispute-mapped 85 95 wire_dispute

resolve_dispute-never_example :
    runnable resolve_dispute (cranks_for_dispute 95 (map_dispute 100 wire_dispute)) ≡ false
resolve_dispute-never_example = resolve_dispute-never 100 95 wire_dispute 90 (omega arith) refl

abbrev two_deeds : List OwnedDeed
two_deeds =
    record {
      object_id = text "0x51";
      asset_id = text "0xa1";
      share_count_micro = 3000000;
      share_index_raw = 10;
    }
    ∷ record {
      object_id = text "0x52";
      asset_id = text "0xa1";
      share_count_micro = 2000000;
      share_index_raw = 20;
    }
    ∷ []

holding_shares_of-deeds_example :
    holding_shares_of (text "0xa1") (
      build_connected_holdings
        (λ id. some mill)
        (λ id. none)
        (λ type. none)
        (text "0x5e")
        two_deeds)
    ≡ deed_shares_of (text "0xa1") two_deeds
holding_shares_of-deeds_example =
    holding_shares_of-deeds (λ id. some mill) (λ id. none) (λ type. none) (text "0xa1")
      (text "0x5e") two_deeds

pending_yield-payout_example : pending_yield 5000000000 1000000000 3000000 ≡ record {
  num = pos (pending_payout 5000000000 1000000000 3000000);
  over = 1000000 * 1000000 - 1;
}
pending_yield-payout_example = pending_yield-payout 5000000000 1000000000 3000000 (omega arith)
