-- ===== src/Data/Assets.antt =====
-- frontend-explorer/lib/data/map.ts: `deriveState`, `mapAsset`, `mapTranches` and the series.
pub mod Derived
pub mod Schedule
use gally.Prelude.{
  ℕ, ◌-◌, leb, ltb, Bool, true, false, ◌&&◌, Option, none, some, is_some, List, [], ◌∷◌, ◌++◌, map,
  Text, text, take, keep, find?, ◌==◌, sort_by, ◌otherwise◌, ◌<|>◌, option_map, option_bind,
  if◌then◌else◌,
}
use gally.Prelude.Int.{ℤ, pos, leb_ℤ, ltb_ℤ}
use gally.Prelude.Number.{whole}
use gally.Domain.{
  AssetState, funding, funded, executing, operational, defaulted, compensating, closed, Category,
  Tranche, Point, Accumulator, Asset,
}
use gally.Data.Wire.{usdc, index_human, state_of_byte, category_of_int}
use gally.Data.Records.{
  WireAccumulator, WireAsset, WireTrancheSchedule, WireRaisePoint, WireYieldPoint, WireWrapPoint,
}

-- `RAISE_COMPLETE.includes(s)`
abbrev pub raise_complete : AssetState → Bool
raise_complete executing = true
raise_complete operational = true
raise_complete compensating = true
raise_complete closed = true
raise_complete _ = false

abbrev pub is_funding : AssetState → Bool
is_funding funding = true
is_funding _ = false

abbrev pub can_default : AssetState → Bool
can_default executing = true
can_default operational = true
can_default _ = false

unfoldable pub derive_state : AssetState → ℤ → ℤ → Bool → AssetState
derive_state byte_state raised goal is_defaulted =
    if is_funding byte_state && ltb_ℤ (pos 0) goal && leb_ℤ goal raised
    then funded
    else if is_defaulted && can_default byte_state
    then defaulted
    else byte_state

pub record AssetExtras : Type 0 where
  pub raised : Option ℤ
  pub raise_series : Option (List Point)
  pub index_series : Option (List Point)
  pub wrap_series : Option (List Point)
  pub cumulative_index : Option ℕ
  pub total_minted_shares : Option ℤ
  pub total_wrapped_shares : Option ℤ
  pub holders : Option ℕ
  pub contributors : Option ℕ
  pub disputed : Option Bool
  pub is_defaulted : Option Bool
  pub token_symbol : Option Text

abbrev pub no_extras : AssetExtras
no_extras = record {
  raised = none;
  raise_series = none;
  index_series = none;
  wrap_series = none;
  cumulative_index = none;
  total_minted_shares = none;
  total_wrapped_shares = none;
  holders = none;
  contributors = none;
  disputed = none;
  is_defaulted = none;
  token_symbol = none;
}

-- The names of the categories in the source.
unfoldable pub category_name : Category → Text
category_name Category.housing = text "Housing"
category_name Category.machinery = text "Machinery"
category_name Category.trade_finance = text "Trade Finance"
category_name Category.agriculture = text "Agriculture"
category_name Category.energy = text "Energy"
category_name Category.infrastructure = text "Infrastructure"

-- `toUpperCase`, on ASCII
abbrev upper : Text → Text
upper [] = []
upper (c ∷ s) = (if leb b'a' c && leb c b'z' then c - 32 else c) ∷ upper s

abbrev amount_of : Option WireAccumulator → (WireAccumulator → Option Text) → ℤ
amount_of acc f = usdc (option_bind acc f)

abbrev map_accumulator : WireAsset → AssetExtras → Text → Accumulator
map_accumulator w extras id =
    let acc = w.accumulator in
    record {
      id = id;
      token_symbol = (extras.token_symbol <|> w.ticker) otherwise text "Coin<T>";
      cumulative_index = extras.cumulative_index otherwise 0;
      total_minted_shares = extras.total_minted_shares otherwise pos 0;
      total_wrapped_shares = extras.total_wrapped_shares otherwise pos 0;
      reward_pool = amount_of acc (λ a. a.reward_pool);
      rollover_reserve = amount_of acc (λ a. a.rollover_reserve);
      compensation_pool = amount_of acc (λ a. a.compensation_pool);
      wrapping_frozen = option_bind acc (λ a. a.wrapping_frozen) otherwise false;
      compensation_unlock_ms = option_bind acc (λ a. a.compensation_unlock_ms);
      lifetime_investor_revenue = amount_of acc (λ a. a.reward_pool);
      apy = w.apy otherwise whole (pos 0);
    }

abbrev pub raised_of : WireAsset → AssetExtras → ℤ
raised_of w extras =
    extras.raised
    otherwise (if raise_complete (state_of_byte (some w.current_state))
        then usdc (some w.goal)
        else pos 0)

unfoldable pub map_asset : WireAsset → AssetExtras → Asset
unfolding usdc derive_state state_of_byte category_of_int
map_asset w extras =
    let goal = usdc (some w.goal) in
    let raised = raised_of w extras in
    let category = category_of_int w.category in
    let entity_name = w.entity_name otherwise text "Unknown Entity" in
    let name = w.name otherwise (text "Asset " ++ take 8 w.asset_id) in
    let location = w.location otherwise text "—" in
    record {
      id = w.asset_id;
      name = name;
      ticker = w.ticker otherwise upper (take 4 name);
      entity = w.entity;
      entity_name = entity_name;
      category = category;
      state =
          derive_state (state_of_byte (some w.current_state)) raised goal
            (extras.is_defaulted otherwise false);
      blurb =
          entity_name
          ++ text " — "
          ++ category_name category
          ++ text " in "
          ++ location
          ++ text ".";
      location = location;
      funding_goal = goal;
      raised = raised;
      funding_deadline_ms = w.funding_deadline_ms;
      created_at_ms = w.created_at_ms;
      tranches = [];
      entity_collateral = usdc (some w.collateral);
      revenue_split_bps = w.revenue_split_bps;
      accumulator = option_map (λ (id : Text). map_accumulator w extras id) w.accumulator_id;
      is_term_financing = w.is_term_financing otherwise false;
      return_target = usdc w.return_target;
      disputed = extras.disputed otherwise false;
      validator_pool_id = w.validator_pool_id otherwise [];
      coverage_locked = usdc w.coverage;
      raise_series = extras.raise_series otherwise [];
      index_series = extras.index_series otherwise [];
      wrap_series = extras.wrap_series otherwise [];
      spark = map (λ (p : Point). p.v) ((extras.raise_series <|> extras.index_series) otherwise []);
      contributors = extras.contributors otherwise 0;
      holders = extras.holders otherwise 0;
    }

-- An entry of the map of approvals.
pub record Approval : Type 0 where
  pub tranche_index : ℕ
  pub by : Option Text
  pub blob : Option Text
  pub sha : Option Text

abbrev pub is_released : List ℕ → ℕ → Bool
is_released [] i = false
is_released (j ∷ js) i = if j == i then true else is_released js i

abbrev pub approval_of : List Approval → ℕ → Option Approval
approval_of approvers i = find? (λ a. a.tranche_index == i) approvers

abbrev pub map_tranche : List ℕ → List Approval → WireTrancheSchedule → Tranche
map_tranche released approvers t =
    let extra = approval_of approvers t.tranche_index in
    record {
      index = t.tranche_index;
      amount = usdc (some t.amount);
      description = t.description;
      deadline_ms = t.deadline_ms;
      released = is_released released t.tranche_index;
      approved_by = option_bind extra (λ e. e.by);
      proof_blob_id = option_bind extra (λ e. e.blob);
      proof_sha256 = option_bind extra (λ e. e.sha);
    }

abbrev pub by_index : WireTrancheSchedule → WireTrancheSchedule → Bool
by_index a b = leb a.tranche_index b.tranche_index

unfoldable pub map_tranches : List WireTrancheSchedule → List ℕ → List Approval → List Tranche
unfolding usdc
map_tranches schedule released approvers =
    map (λ t. map_tranche released approvers t) (sort_by by_index schedule)

abbrev raise_point : WireRaisePoint → Point
raise_point p = record { t = p.timestamp_ms; v = usdc (some p.raised_after) }

unfoldable pub map_raise_series : List WireRaisePoint → List Point
unfolding usdc
map_raise_series points = map raise_point points

abbrev pub has_index : WireYieldPoint → Bool
has_index p = is_some p.index_after

abbrev index_point : WireYieldPoint → Point
index_point p = record { t = p.timestamp_ms; v = pos (index_human p.index_after) }

unfoldable pub map_yield_series : List WireYieldPoint → List Point
unfolding index_human
map_yield_series points = map index_point (keep has_index points)

abbrev wrap_point : WireWrapPoint → Point
wrap_point p = record { t = p.timestamp_ms; v = usdc (some p.total_wrapped_after) }

unfoldable pub map_wrap_series : List WireWrapPoint → List Point
unfolding usdc
map_wrap_series points = map wrap_point points
