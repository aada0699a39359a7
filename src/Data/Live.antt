-- ===== src/Data/Live.antt =====
-- frontend-explorer/lib/data/live.ts: the source that reads from the indexer. Its requests are a
-- record of parameters, one for each kind of answer.
pub mod Market
pub mod Detail
pub mod Activity
pub mod Solvent
pub mod Find
pub mod Totals
use gally.Prelude.{
  ℕ, Bool, true, false, Option, none, some, is_some, List, [], ◌∷◌, ◌++◌, map, Text, text, take,
  decimal, ◌otherwise◌, option_map, option_bind,
}
use gally.Prelude.Int.{ℤ, pos}
use gally.Prelude.Number.{whole}
use gally.Domain.{Asset, Accumulator, AssetState, Category, Dispute, HolderEntry, Holding}
use gally.Data.Wire.{usdc, index_human}
use gally.Data.Client.{Response, Envelope, rows, one}
use gally.Data.Records.{
  WireAsset, WireRaisePoint, WireYieldPoint, WireWrapPoint, WireHoldersEnvelope,
  WireTranchesEnvelope, WireValidator, WireValidatorDetail, WireGovEvent, WireTx, WireAddress,
  WireAddressHolding, WirePortfolioEvent,
}
use gally.Data.Disputes.{WireDispute, map_dispute}
use gally.Data.Assets.{no_extras, map_asset}
use gally.Data.Validators.{Validator, map_validator, map_holder}
use gally.Data.Governance.{GovernanceResult, governance_of}
use gally.Data.Feeds.{ProtocolEvent, TxRow, map_tx, map_portfolio_event}

pub record Server : Type 0 where
  pub assets : Text → Response (Envelope WireAsset)
  pub asset : Text → Response WireAsset
  pub raises : Text → Response (Envelope WireRaisePoint)
  pub yields : Text → Response (Envelope WireYieldPoint)
  pub wraps : Text → Response (Envelope WireWrapPoint)
  pub holders : Text → Response WireHoldersEnvelope
  pub tranches : Text → Response WireTranchesEnvelope
  pub disputes : Text → Response (Envelope WireDispute)
  pub dispute : Text → Response WireDispute
  pub validators : Text → Response (Envelope WireValidator)
  pub validator : Text → Response WireValidatorDetail
  pub governance : Text → Response (Envelope WireGovEvent)
  pub tx : Text → Response WireTx
  pub address : Text → Response WireAddress
  pub portfolio : Text → Response (Envelope WirePortfolioEvent)
  -- The status of `/health`.
  pub health : Text → Response Text

-- `/assets/${id}${rest}`
abbrev pub asset_path : Text → Text → Text
asset_path id rest = text "/assets/" ++ id ++ rest

pub record HoldersResult : Type 0 where
  pub entries : List HolderEntry
  pub total_minted : ℤ

pub record AddressResult : Type 0 where
  pub address : Text
  pub roles : List Text
  pub holdings : List Holding

pub record HealthResult : Type 0 where
  pub ok : Bool
  pub stale : Bool
  pub detail : Option Text

abbrev holders_of : Option WireHoldersEnvelope → HoldersResult
holders_of none = record { entries = []; total_minted = pos 0 }
holders_of (some env) = record {
  entries = map (λ h. map_holder h) env.envelope.data_rows;
  total_minted = usdc (some env.total_minted_shares);
}

-- A holding of the indexer, joined to its asset where that was read.
abbrev joined : Text → WireAddressHolding → Option Asset → Holding
joined address h a =
    let acc = option_bind a (λ x. x.accumulator) in
    record {
      entry = record {
        address = address;
        share_count = usdc (some h.share_count);
        wrapped = usdc (some h.wrapped);
        acquired_at_ms = 0;
        yield_claimed_index = index_human (some h.yield_claimed_index);
      };
      asset_id = h.asset_id;
      asset_name = option_map (λ (x : Asset). x.name) a otherwise take 10 h.asset_id;
      ticker = option_map (λ (x : Asset). x.ticker) a otherwise text "—";
      token_symbol = option_map (λ (x : Accumulator). x.token_symbol) acc;
      category = option_map (λ (x : Asset). x.category) a otherwise Category.housing;
      state = option_map (λ (x : Asset). x.state) a otherwise AssetState.operational;
      apy = option_map (λ (x : Accumulator). x.apy) acc otherwise whole (pos 0);
      pending_yield = pos 0;
    }

module _ (server : Server) where
  unfoldable pub list_validators : List Validator
  unfolding rows map_validator
  list_validators =
      map (λ w. map_validator w none) (rows server.validators (text "/validators?limit=100"))

  unfoldable pub get_validator : Text → Option Validator
  unfolding one map_validator
  get_validator pool_id =
      option_map (λ (w : WireValidatorDetail). map_validator w.validator (some w))
        (one server.validator (text "/validators/" ++ pool_id))

  -- `getJson` of an asset, mapped with no extras
  unfoldable pub read_asset : Text → Option Asset
  unfolding one map_asset
  read_asset id =
      option_map (λ (w : WireAsset). map_asset w no_extras) (one server.asset (asset_path id []))

  unfoldable pub get_holders : Text → HoldersResult
  unfolding one usdc map_holder
  get_holders asset_id =
      holders_of (one server.holders (asset_path asset_id (text "/holders?limit=200")))

  unfoldable pub get_governance : GovernanceResult
  unfolding rows governance_of
  get_governance = governance_of (rows server.governance (text "/governance?limit=200"))

  unfoldable pub get_tx : Text → Option TxRow
  unfolding one map_tx
  get_tx digest = option_map (λ (w : WireTx). map_tx w) (one server.tx (text "/tx/" ++ digest))

  abbrev address_result : Text → Option WireAddress → AddressResult
  address_result address none = record { address = address; roles = []; holdings = [] }
  address_result address (some w) = record {
    address = address;
    roles = w.roles;
    holdings = map (λ h. joined address h (read_asset h.asset_id)) w.holdings;
  }

  unfoldable pub get_address : Text → AddressResult
  unfolding one read_asset
  get_address address = address_result address (one server.address (text "/address/" ++ address))

  unfoldable pub health : HealthResult
  unfolding one
  health =
      let h = one server.health (text "/health") in
      record { ok = is_some h; stale = false; detail = h }

  -- The clock is `Date.now()`.
  module _ (clock : ℕ) where
    unfoldable pub list_disputes : List Dispute
    unfolding rows map_dispute
    list_disputes =
        map (λ w. map_dispute clock w) (rows server.disputes (text "/disputes?limit=100"))

    unfoldable pub get_dispute : Text → Option Dispute
    unfolding one map_dispute
    get_dispute id =
        option_map (λ (w : WireDispute). map_dispute clock w)
          (one server.dispute (text "/disputes/" ++ id))

    unfoldable pub disputes_for_asset : Text → List Dispute
    unfolding rows map_dispute
    disputes_for_asset asset_id =
        map (λ w. map_dispute clock w)
          (rows server.disputes (asset_path asset_id (text "/disputes")))

  unfoldable pub address_activity : (ℤ → Text) → Text → ℕ → List ProtocolEvent
  unfolding rows map_portfolio_event decimal
  address_activity locale address limit = take limit (
      map (λ w. map_portfolio_event locale w)
        (rows server.portfolio (text "/portfolio/" ++ address ++ text "?limit=" ++ decimal limit)))
