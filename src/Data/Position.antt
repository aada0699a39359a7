-- ===== src/Data/Position.antt =====
-- frontend-explorer/lib/data/position.ts: the pending yield of a deed, and the holdings of a wallet
-- from its deeds and coin balances.
pub mod Groups
use gally.Prelude.{
  ℕ, ◌+◌, ◌-◌, ◌*◌, ◌/◌, ◌^◌, Bool, true, false, ◌||◌, Option, none, some, List, [], ◌∷◌, ◌++◌,
  Text, text, text_eq, leb, take, nonempty, option_map, option_bind, if◌then◌else◌, ◌otherwise◌,
  ◌==◌,
}
use gally.Prelude.Int.{pos}
use gally.Prelude.Number.{Number, whole}
use gally.Domain.{AssetState, operational, Category, housing, Accumulator, Asset}
use gally.Tx.Context.{token_type_from_accumulator_type}
use gally.Data.Wire.{index_scale}

-- `pendingYield` is `pending_units` divided twice by a million.
unfoldable pub pending_units : ℕ → ℕ → ℕ → ℕ
pending_units current share count =
    if leb current share || count == 0 then 0 else (current - share) * count / index_scale

unfoldable pub pending_yield : ℕ → ℕ → ℕ → Number
unfolding pending_units
pending_yield current share count = record {
  num = pos (pending_units current share count);
  over = 999999999999;
}

-- `OwnedDeed`; `shareCount` is the count of millionths divided by a million, and is not kept apart.
pub record OwnedDeed : Type 0 where
  pub object_id : Text
  pub asset_id : Text
  pub share_count_micro : ℕ
  pub share_index_raw : ℕ

-- The deeds of one asset, in the order of the wallet.
pub record Group : Type 0 where
  pub asset_id : Text
  pub deeds : List OwnedDeed

-- `byAsset.set(d.assetId, [...arr, d])`
abbrev pub add_deed : OwnedDeed → List Group → List Group
add_deed d [] = record { asset_id = d.asset_id; deeds = d ∷ [] } ∷ []
add_deed d (g ∷ gs) =
    let rest = add_deed d gs in
    if text_eq g.asset_id d.asset_id then record g { deeds = g.deeds ++ d ∷ [] } ∷ gs else g ∷ rest

abbrev pub add_deeds : List OwnedDeed → List Group → List Group
add_deeds [] gs = gs
add_deeds (d ∷ ds) gs = add_deeds ds (add_deed d gs)

unfoldable pub by_asset : List OwnedDeed → List Group
by_asset ds = add_deeds ds []

abbrev pub sum_shares : List OwnedDeed → ℕ
sum_shares [] = 0
sum_shares (d ∷ ds) = d.share_count_micro + sum_shares ds

abbrev pub sum_pending : ℕ → List OwnedDeed → ℕ
sum_pending index [] = 0
sum_pending index (d ∷ ds) =
    pending_units index d.share_index_raw d.share_count_micro + sum_pending index ds

-- What the node answers about an accumulator: its type and, where it is a Move object, the raw index.
pub record ObjectAnswer : Type 0 where
  pub type : Option Text
  pub index : Option ℕ

-- `LiveHolding`, with shares and balances in millionths and the pending yield in `pending_units`.
pub record LiveHolding : Type 0 where
  pub address : Text
  pub share_count : ℕ
  pub wrapped : ℕ
  pub acquired_at_ms : ℕ
  pub yield_claimed_index : ℕ
  pub asset_id : Text
  pub asset_name : Text
  pub ticker : Text
  pub token_symbol : Option Text
  pub category : Category
  pub state : AssetState
  pub apy : Number
  pub pending_yield : ℕ
  pub frozen : Bool

-- The reads that the holdings rest on: the indexer's asset, the node's object (none where the read
-- throws) and the balances by coin type.
module _ (get_asset : Text → Option Asset) (get_object : Text → Option ObjectAnswer)
    (balance : Text → Option ℕ) where
  -- An empty id is not asked for.
  abbrev answer_of : Option Text → Option ObjectAnswer
  answer_of none = none
  answer_of (some id) = if nonempty id then get_object id else none

  abbrev balance_of : Option Text → ℕ
  balance_of none = 0
  balance_of (some type) = if nonempty type then balance type otherwise 0 else 0

  unfoldable pub holding_of : Text → Group → LiveHolding
  holding_of address g =
      let asset = get_asset g.asset_id in
      let acc = option_bind asset (λ a. a.accumulator) in
      let answer = answer_of (option_map (λ (x : Accumulator). x.id) acc) in
      let token =
        option_bind answer (λ o. option_bind o.type (λ t. token_type_from_accumulator_type t)) in
      let index = option_bind answer (λ o. o.index) otherwise 0 in
      record {
        address = address;
        share_count = sum_shares g.deeds;
        wrapped = balance_of token;
        acquired_at_ms = 0;
        yield_claimed_index = 0;
        asset_id = g.asset_id;
        asset_name = option_map (λ (a : Asset). a.name) asset otherwise take 10 g.asset_id;
        ticker = option_map (λ (a : Asset). a.ticker) asset otherwise text "—";
        token_symbol = option_map (λ (x : Accumulator). x.token_symbol) acc;
        category = option_map (λ (a : Asset). a.category) asset otherwise housing;
        state = option_map (λ (a : Asset). a.state) asset otherwise operational;
        apy = option_map (λ (x : Accumulator). x.apy) acc otherwise whole (pos 0);
        pending_yield = sum_pending index g.deeds;
        frozen = option_map (λ (x : Accumulator). x.wrapping_frozen) acc otherwise false;
      }

  abbrev holdings_of : Text → List Group → List LiveHolding
  holdings_of address [] = []
  holdings_of address (g ∷ gs) = holding_of address g ∷ holdings_of address gs

  unfoldable pub build_connected_holdings : Text → List OwnedDeed → List LiveHolding
  unfolding by_asset
  build_connected_holdings address deeds = holdings_of address (by_asset deeds)
