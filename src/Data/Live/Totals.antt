-- ===== src/Data/Live/Totals.antt =====
-- frontend-explorer/lib/data/live.ts: `getProtocolStats` and `allCranks`.
pub mod Shares
use gally.Prelude.{
  ℕ, ◌+◌, Bool, true, false, not, ◌||◌, Option, none, some, List, [], ◌∷◌, ◌++◌, Text, keep, length,
  take, option_map, option_bind, ◌otherwise◌, if◌then◌else◌, ◌==◌,
}
use gally.Prelude.Int.{ℤ, pos, ◌+ℤ◌, round_div}
use gally.Prelude.Number.{Number, whole, scale, not_positive, add_Number, over_count}
use gally.Domain.{AssetState, Accumulator, Asset, DisputeStatus, open_vote, Dispute}
use gally.Keeper.{CrankOp, all_cranks}
use gally.Data.Wire.{ValidatorStatus}
use gally.Data.Assets.{is_funding}
use gally.Data.Validators.{Validator}
use gally.Data.Live.{Server, list_validators, list_disputes}
use gally.Data.Live.Market.{sum_raised, curated_assets, list_assets}
use gally.Data.Live.Detail.{get_asset}

pub record ProtocolStats : Type 0 where
  pub tvl : ℤ
  pub total_raised : ℤ
  pub total_yield_distributed : ℤ
  pub active_assets : ℕ
  pub total_assets : ℕ
  pub validators : ℕ
  pub total_validator_stake : ℤ
  pub avg_apy : Number
  pub open_disputes : ℕ
  pub resolved_disputes : ℕ
  pub in_funding : ℕ
  pub funding_goal_open : ℤ
  pub funding_raised_open : ℤ
  pub contributors : ℕ
  -- In USDC.
  pub tvl_spark : List Number

abbrev is_yielding : AssetState → Bool
is_yielding AssetState.operational = true
is_yielding AssetState.closed = true
is_yielding _ = false

abbrev pub is_active : AssetState → Bool
is_active AssetState.closed = false
is_active AssetState.failed = false
is_active AssetState.cancelled = false
is_active _ = true

abbrev pub is_raising : AssetState → Bool
is_raising AssetState.funding = true
is_raising AssetState.funded = true
is_raising _ = false

abbrev is_slashed : ValidatorStatus → Bool
is_slashed ValidatorStatus.slashed = true
is_slashed _ = false

abbrev pub is_open : DisputeStatus → Bool
is_open open_vote = true
is_open _ = false

abbrev sum_goals : List Asset → ℤ
sum_goals [] = pos 0
sum_goals (a ∷ rest) = a.funding_goal +ℤ sum_goals rest

abbrev pool_in : Asset → ℤ
pool_in a = option_map (λ (x : Accumulator). x.reward_pool) a.accumulator otherwise pos 0

abbrev sum_pools : List Asset → ℤ
sum_pools [] = pos 0
sum_pools (a ∷ rest) = pool_in a +ℤ sum_pools rest

abbrev revenue_in : Asset → ℤ
revenue_in a =
    option_map (λ (x : Accumulator). x.lifetime_investor_revenue) a.accumulator otherwise pos 0

abbrev sum_revenue : List Asset → ℤ
sum_revenue [] = pos 0
sum_revenue (a ∷ rest) = revenue_in a +ℤ sum_revenue rest

abbrev sum_contributors : List Asset → ℕ
sum_contributors [] = 0
sum_contributors (a ∷ rest) = a.contributors + sum_contributors rest

abbrev sum_stakes : List Validator → ℤ
sum_stakes [] = pos 0
sum_stakes (v ∷ rest) = v.stake +ℤ sum_stakes rest

-- The yields that are above 0.
abbrev apys_of : List Asset → List Number
apys_of [] = []
apys_of (a ∷ rest) =
    let others = apys_of rest in
    let apy = option_map (λ (x : Accumulator). x.apy) a.accumulator otherwise whole (pos 0) in
    if not_positive apy then others else apy ∷ others

abbrev sum_numbers : List Number → Number
sum_numbers [] = whole (pos 0)
sum_numbers (x ∷ xs) = add_Number x (sum_numbers xs)

abbrev average : List Number → Number
average xs = if length xs == 0 then whole (pos 0) else over_count (sum_numbers xs) (length xs)

module _ (server : Server) where
  abbrev add_detail : Option Asset → List Asset → List Asset
  add_detail none rest = rest
  add_detail (some a) rest = a ∷ rest

  -- The details that were read.
  abbrev pub details_of : List Asset → List Asset
  details_of [] = []
  details_of (a ∷ rest) = add_detail (get_asset server a.id) (details_of rest)

  -- The clock is `Date.now()`, and `now` the constant that the keeper's view judges by.
  module _ (clock : ℕ) where
    unfoldable pub get_protocol_stats : ProtocolStats
    unfolding curated_assets list_validators list_disputes get_asset
    get_protocol_stats =
        let assets = curated_assets server in
        let validators = list_validators server in
        let disputes = list_disputes server clock in
        let details = details_of (take 12 (keep (λ a. is_yielding a.state) assets)) in
        let total_raised = sum_raised assets in
        let tvl = total_raised +ℤ sum_pools details in
        let open_raises = keep (λ a. is_funding a.state) assets in
        record {
          tvl = tvl;
          total_raised = total_raised;
          total_yield_distributed = sum_revenue details;
          active_assets = length (keep (λ a. is_active a.state) assets);
          total_assets = length assets;
          validators = length (keep (λ (v : Validator). not (is_slashed v.status)) validators);
          total_validator_stake = sum_stakes validators;
          avg_apy = average (apys_of details);
          open_disputes = length (keep (λ (d : Dispute). is_open d.status) disputes);
          resolved_disputes = length (keep (λ (d : Dispute). not (is_open d.status)) disputes);
          in_funding = length (keep (λ a. is_raising a.state) assets);
          funding_goal_open = sum_goals open_raises;
          funding_raised_open = sum_raised open_raises;
          contributors = sum_contributors details;
          tvl_spark =
              whole (round_div (scale 92 tvl) 100000000) ∷ record { num = tvl; over = 999999 } ∷ [];
        }

    unfoldable pub all_cranks_live : ℕ → List CrankOp
    unfolding list_assets list_disputes get_asset all_cranks
    all_cranks_live now =
        all_cranks now (details_of (take 40 (list_assets server))) (list_disputes server clock)
