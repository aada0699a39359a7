-- ===== src/Data/Live/Market.antt =====
-- frontend-explorer/lib/data/live.ts: `curatedAssets`, `listAssets` and `getCategoryStats`.
pub mod Curated
pub mod Sectors
use gally.Prelude.{
  ℕ, ◌+◌, Bool, true, false, Option, none, some, List, [], ◌∷◌, ◌++◌, map, Text, text, decimal, ltb,
  leb, keep, length, put_all, sort_by, option_map, if◌then◌else◌, ◌otherwise◌, get_elem?, ◌==◌,
}
use gally.Prelude.Int.{ℤ, pos, ◌+ℤ◌, ltb_ℤ, leb_ℤ}
use gally.Prelude.Number.{Number, whole}
use gally.Domain.{AssetState, Category, Asset}
use gally.Data.Client.{rows, one}
use gally.Data.Records.{WireAsset, WireHoldersEnvelope}
use gally.Data.Assets.{no_extras, map_asset}
use gally.Data.Live.{Server, asset_path}

abbrev pub market_state_bytes : List ℕ
market_state_bytes = 1 ∷ 4 ∷ 5 ∷ 6 ∷ 7 ∷ 2 ∷ 3 ∷ []

-- `STATE_SORT[byte] ?? 99`, from the byte 0 on
abbrev pub state_sort : ℕ → ℕ
state_sort byte = get_elem? (99 ∷ 0 ∷ 5 ∷ 6 ∷ 2 ∷ 1 ∷ 3 ∷ 4 ∷ []) byte otherwise 99

-- The comparator does not put `a` behind `b`.
abbrev pub investable_first : WireAsset → WireAsset → Bool
investable_first a b =
    let pa = state_sort a.current_state in
    let pb = state_sort b.current_state in
    if pa == pb then leb b.created_at_ms a.created_at_ms else ltb pa pb

unfoldable pub display_rank : AssetState → ℕ
display_rank AssetState.operational = 0
display_rank AssetState.funding = 1
display_rank AssetState.funded = 1
display_rank AssetState.executing = 2
display_rank AssetState.compensating = 3
display_rank AssetState.defaulted = 3
display_rank AssetState.closed = 4
display_rank AssetState.failed = 5
display_rank AssetState.cancelled = 6
display_rank AssetState.pending_vouch = 7

-- `HOLDER_BEARING_STATES.includes(state)`
abbrev pub is_holder_bearing : AssetState → Bool
is_holder_bearing AssetState.executing = true
is_holder_bearing AssetState.operational = true
is_holder_bearing AssetState.compensating = true
is_holder_bearing AssetState.closed = true
is_holder_bearing AssetState.defaulted = true
is_holder_bearing _ = false

-- The comparator of the listing does not put `x` behind `y`.
abbrev pub populated_first : Asset → Asset → Bool
populated_first x y =
    let rx = display_rank x.state in
    let ry = display_rank y.state in
    if rx == ry
    then (if x.holders == y.holders then leb_ℤ y.raised x.raised else ltb y.holders x.holders)
    else ltb rx ry

abbrev with_count : Asset → Option WireHoldersEnvelope → Asset
with_count a none = a
with_count a (some env) = record a { holders = length env.envelope.data_rows }

pub record CategoryStat : Type 0 where
  pub category : Category
  pub count : ℕ
  pub raised : ℤ
  pub avg_apy : Number

unfoldable pub category_index : Category → ℕ
category_index Category.housing = 0
category_index Category.machinery = 1
category_index Category.trade_finance = 2
category_index Category.agriculture = 3
category_index Category.energy = 4
category_index Category.infrastructure = 5

-- `a.category === category`
abbrev pub is_in : Category → Asset → Bool
is_in c a = category_index a.category == category_index c

abbrev pub sum_raised : List Asset → ℤ
sum_raised [] = pos 0
sum_raised (a ∷ rest) = a.raised +ℤ sum_raised rest

abbrev pub stat_of : List Asset → Category → CategoryStat
stat_of assets c =
    let list = keep (is_in c) assets in
    record { category = c; count = length list; raised = sum_raised list; avg_apy = whole (pos 0) }

-- `CATS`
abbrev pub categories : List Category
categories =
    Category.housing ∷ Category.machinery ∷ Category.trade_finance ∷ Category.agriculture
    ∷ Category.energy ∷ Category.infrastructure ∷ []

abbrev stats_of : List Asset → List Category → List CategoryStat
stats_of assets [] = []
stats_of assets (c ∷ cs) = stat_of assets c ∷ stats_of assets cs

module _ (server : Server) where
  abbrev state_path : ℕ → Text
  state_path s = text "/assets?state=" ++ decimal s ++ text "&limit=100"

  -- `pages.flat()`
  abbrev pub pages : List ℕ → List WireAsset
  pages [] = []
  pages (s ∷ rest) = rows server.assets (state_path s) ++ pages rest

  unfoldable pub curated_rows : List WireAsset
  curated_rows =
      sort_by investable_first
        (put_all (λ (w : WireAsset). w.asset_id) (pages market_state_bytes) [])

  unfoldable pub curated_assets : List Asset
  unfolding curated_rows map_asset
  curated_assets = map (λ w. map_asset w no_extras) curated_rows

  abbrev pub with_holders : Asset → Asset
  with_holders a =
      let env = one server.holders (asset_path a.id (text "/holders?limit=200")) in
      if is_holder_bearing a.state then with_count a env else a

  unfoldable pub list_assets : List Asset
  unfolding curated_assets display_rank
  list_assets = sort_by populated_first (map with_holders curated_assets)

  unfoldable pub get_category_stats : List CategoryStat
  unfolding list_assets category_index
  get_category_stats = stats_of list_assets categories
