-- ===== src/Domain.antt =====
-- frontend-explorer/lib/types.ts: the domain types. Times are milliseconds, and amounts of USDC and
-- of shares are counted in millionths (the unit of the chain), so that they are whole numbers, with
-- a sign where the decoder of the data layer can give one.
use gally.Prelude.Int.{ℤ}
use gally.Prelude.Number.{Number}
use gally.Prelude.{ℕ, Bool, Option, List, Text}

-- `AssetState`
pub data AssetState : Type 0 where
  pending_vouch funding funded executing operational : AssetState
  defaulted compensating closed failed cancelled : AssetState

pub data Category : Type 0 where
  housing machinery trade_finance agriculture energy infrastructure : Category

pub record Tranche : Type 0 where
  pub index : ℕ
  pub amount : ℤ
  pub description : Text
  pub deadline_ms : ℕ
  pub released : Bool
  pub approved_by : Option Text
  pub proof_blob_id : Option Text
  pub proof_sha256 : Option Text

-- `v` is an amount, or, in the series of an index, a count of 10^-15 USDC for one share.
pub record Point : Type 0 where
  pub t : ℕ
  pub v : ℤ

-- `cumulative_index` counts 10^-15 USDC for one share (the raw index over 10^9 and 10^6), and
-- `apy` is the number that the indexer sends, which need not be whole.
pub record Accumulator : Type 0 where
  pub id : Text
  pub token_symbol : Text
  pub cumulative_index : ℕ
  pub total_minted_shares : ℤ
  pub total_wrapped_shares : ℤ
  pub reward_pool : ℤ
  pub rollover_reserve : ℤ
  pub compensation_pool : ℤ
  pub wrapping_frozen : Bool
  pub compensation_unlock_ms : Option ℕ
  pub lifetime_investor_revenue : ℤ
  pub apy : Number

pub record Asset : Type 0 where
  pub id : Text
  pub name : Text
  pub ticker : Text
  pub entity : Text
  pub entity_name : Text
  pub category : Category
  pub state : AssetState
  pub blurb : Text
  pub location : Text
  pub funding_goal : ℤ
  pub raised : ℤ
  pub funding_deadline_ms : ℕ
  pub created_at_ms : ℕ
  pub tranches : List Tranche
  pub entity_collateral : ℤ
  pub revenue_split_bps : ℕ
  pub accumulator : Option Accumulator
  pub is_term_financing : Bool
  pub return_target : ℤ
  pub disputed : Bool
  pub validator_pool_id : Text
  pub coverage_locked : ℤ
  pub raise_series : List Point
  pub index_series : List Point
  pub wrap_series : List Point
  pub spark : List ℤ
  pub contributors : ℕ
  pub holders : ℕ

pub data DisputeStatus : Type 0 where
  open_vote upheld rejected expired : DisputeStatus

pub record Dispute : Type 0 where
  pub id : Text
  pub asset_id : Text
  pub asset_name : Text
  pub target_pool_id : Text
  pub target_validator_name : Text
  pub challenger : Text
  pub bond : ℤ
  pub status : DisputeStatus
  pub votes_guilty : ℕ
  pub votes_innocent : ℕ
  pub quorum : ℕ
  pub voting_deadline_ms : ℕ
  pub opened_at_ms : ℕ
  pub reason : Text
  pub slashed : Option ℤ
  pub bounty : Option ℤ

pub record HolderEntry : Type 0 where
  pub address : Text
  pub share_count : ℤ
  pub wrapped : ℤ
  pub acquired_at_ms : ℕ
  pub yield_claimed_index : ℕ

pub record Holding : Type 0 where
  pub entry : HolderEntry
  pub asset_id : Text
  pub asset_name : Text
  pub ticker : Text
  pub token_symbol : Option Text
  pub category : Category
  pub state : AssetState
  pub apy : Number
  pub pending_yield : ℤ

pub record GovParamChange : Type 0 where
  pub name : Text
  pub old_value : Text
  pub new_value : Text
  pub ts_ms : ℕ
  pub tx_digest : Text

pub data ObjectKind : Type 0 where
  asset token validator dispute account tx config : ObjectKind

pub record ObjectRef : Type 0 where
  pub id : Text
  pub kind : ObjectKind
  pub route : Text
  pub label : Option Text
