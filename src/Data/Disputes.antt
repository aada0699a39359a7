-- ===== src/Data/Disputes.antt =====
-- frontend-explorer/lib/data/map.ts: `disputeStatus` and `mapDispute`. `clock` is `Date.now()`.
pub mod Resolvable
use gally.Prelude.{
  ℕ, ◌==◌, Option, none, some, ◌++◌, Text, text, take, ltb, if◌then◌else◌, ◌otherwise◌, option_map,
}
use gally.Prelude.Int.{ℤ}
use gally.Domain.{DisputeStatus, open_vote, upheld, rejected, expired, Dispute}
use gally.Data.Wire.{usdc}

-- The counts are numbers on the wire, which `intOf` leaves as they are.
pub record WireDispute : Type 0 where
  pub dispute_id : Text
  pub asset_id : Text
  pub target_pool_id : Text
  pub challenger : Text
  pub bond : Text
  pub reason : Option Text
  pub opened_at_ms : ℕ
  pub verdict : Option ℕ
  pub votes_guilty : ℕ
  pub votes_innocent : ℕ
  pub slashed : Option Text
  pub bounty : Option Text
  pub quorum : Option ℕ
  pub voting_deadline_ms : Option ℕ
  pub asset_name : Option Text
  pub target_validator_name : Option Text

module _ (clock : ℕ) where
  abbrev status_of : Option ℕ → Option ℕ → DisputeStatus
  status_of (some v) deadline = if v == 1 then upheld else rejected
  status_of none none = open_vote
  status_of none (some deadline) = if ltb deadline clock then expired else open_vote

  unfoldable pub dispute_status : WireDispute → DisputeStatus
  dispute_status w = status_of w.verdict w.voting_deadline_ms

  -- `intOf(w.quorum) || 3`
  abbrev quorum_of : Option ℕ → ℕ
  quorum_of none = 3
  quorum_of (some q) = if q == 0 then 3 else q

  unfoldable pub map_dispute : WireDispute → Dispute
  unfolding dispute_status usdc
  map_dispute w = record {
    id = w.dispute_id;
    asset_id = w.asset_id;
    asset_name = w.asset_name otherwise (text "Asset " ++ take 8 w.asset_id);
    target_pool_id = w.target_pool_id;
    target_validator_name =
        w.target_validator_name otherwise (text "Validator " ++ take 8 w.target_pool_id);
    challenger = w.challenger;
    bond = usdc (some w.bond);
    status = dispute_status w;
    votes_guilty = w.votes_guilty;
    votes_innocent = w.votes_innocent;
    quorum = quorum_of w.quorum;
    voting_deadline_ms = w.voting_deadline_ms otherwise 0;
    opened_at_ms = w.opened_at_ms;
    reason = w.reason otherwise text "—";
    slashed = option_map (λ s. usdc (some s)) w.slashed;
    bounty = option_map (λ s. usdc (some s)) w.bounty;
  }
