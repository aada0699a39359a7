-- ===== src/Data/Live/Solvent.antt =====
-- frontend-explorer/lib/data/live.ts: `holderDistribution` and `getSolvency`. What is owed is a whole
-- number of USDC, and the pool a number of millionths.
pub mod Healthy
use gally.Prelude.{
  ℕ, ◌+◌, ◌*◌, Bool, Option, none, some, List, [], ◌∷◌, map, Text, ltb, option_map, option_bind,
  ◌otherwise◌, if◌then◌else◌, ◌==◌,
}
use gally.Prelude.Int.{ℤ, pos, pos_part, sub_ℕ, ◌+ℤ◌, ◌-ℤ◌, leb_ℤ, round_div}
use gally.Prelude.Number.{Number, ◌*ℤ◌, ◌/ℤ◌}
use gally.Domain.{Asset, Accumulator, HolderEntry}
use gally.Data.Live.{Server, HoldersResult, get_holders}
use gally.Data.Live.Detail.{get_asset}

pub record RankedHolder : Type 0 where
  pub entry : HolderEntry
  pub total : ℤ
  pub pct_of_supply : Number

pub record Solvency : Type 0 where
  pub owed : ℕ
  pub reward_pool : ℤ
  -- None where nothing is owed, which is Infinity.
  pub ratio : Option Number
  pub buffer : ℤ
  pub healthy : Bool
  pub has_yield : Bool

abbrev pub usdc_unit : ℕ
usdc_unit = 1000000

-- 10^15 and 10^6, which the index and the shares are counted over.
abbrev pub owed_scale : ℕ
owed_scale = 1000000000000000000000

abbrev is_zero : ℤ → Bool
is_zero (pos n) = n == 0
is_zero _ = Bool.false

abbrev ranked_holder : ℤ → HolderEntry → RankedHolder
ranked_holder minted h =
    let total = h.share_count +ℤ h.wrapped in
    record { entry = h; total = total; pct_of_supply = pos 100 *ℤ total /ℤ minted }

-- `Math.max(0, Math.round((cumIndex - h.yieldClaimedIndex) * h.shareCount))`
abbrev pub owed_to : ℕ → HolderEntry → ℕ
owed_to index h =
    pos_part (round_div (sub_ℕ index h.yield_claimed_index *ℤ h.share_count) owed_scale)

abbrev pub owed_to_all : ℕ → List HolderEntry → ℕ
owed_to_all index [] = 0
owed_to_all index (h ∷ hs) = owed_to index h + owed_to_all index hs

unfoldable pub solvency_of : Option Asset → List HolderEntry → Solvency
unfolding ◌*ℤ◌ ◌/ℤ◌ ◌-ℤ◌ round_div
solvency_of asset entries =
    let acc = option_bind asset (λ a. a.accumulator) in
    let pool = option_map (λ (x : Accumulator). x.reward_pool) acc otherwise pos 0 in
    let index = option_map (λ (x : Accumulator). x.cumulative_index) acc otherwise 0 in
    let owed = if index == 0 then 0 else owed_to_all index entries in
    record {
      owed = owed;
      reward_pool = pool;
      ratio = if ltb 0 owed then some (pool /ℤ pos (usdc_unit * owed)) else none;
      buffer = pool -ℤ pos (usdc_unit * owed);
      healthy = leb_ℤ (pos (usdc_unit * owed)) pool;
      has_yield = ltb 0 index;
    }

module _ (server : Server) where
  unfoldable pub holder_distribution : Text → List RankedHolder
  unfolding get_holders ◌+ℤ◌ ◌*ℤ◌ ◌/ℤ◌
  holder_distribution asset_id =
      let result = get_holders server asset_id in
      let minted = if is_zero result.total_minted then pos usdc_unit else result.total_minted in
      map (ranked_holder minted) result.entries

  unfoldable pub get_solvency : Text → Solvency
  unfolding get_asset get_holders solvency_of
  get_solvency asset_id =
      solvency_of (get_asset server asset_id) (get_holders server asset_id).entries
