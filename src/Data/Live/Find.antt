-- ===== src/Data/Live/Find.antt =====
-- frontend-explorer/lib/data/live.ts: `resolveObject` and `searchAll`. `encode` is
-- `encodeURIComponent`.
pub mod Resolved
use gally.Prelude.{
  ℕ, Bool, true, false, not, ◌&&◌, ◌||◌, Option, none, some, List, [], ◌∷◌, ◌++◌, map, Text, text,
  text_eq, nonempty, trim, lower, contains, starts_with, take, any, keep, ◌<|>◌, ◌otherwise◌,
  option_map, option_bind, if◌then◌else◌,
}
use gally.Domain.{
  AssetState, Accumulator, Asset, DisputeStatus, open_vote, upheld, rejected, expired, Dispute,
  ObjectKind, ObjectRef,
}
use gally.Data.Wire.{ValidatorStatus}
use gally.Data.Client.{rows, one}
use gally.Data.Records.{WireAsset, WireValidatorDetail, WireTx}
use gally.Data.Disputes.{WireDispute}
use gally.Data.Assets.{category_name, no_extras, map_asset}
use gally.Data.Validators.{Validator}
use gally.Data.Live.{Server, asset_path, list_validators, list_disputes}
use gally.Data.Live.Detail.{get_asset_by_acc_id}

pub record SearchResult : Type 0 where
  pub kind : ObjectKind
  pub id : Text
  pub route : Text
  pub title : Text
  pub subtitle : Text

-- The names of the states and kinds in the source.
unfoldable pub state_name : AssetState → Text
state_name AssetState.pending_vouch = text "PENDING_VOUCH"
state_name AssetState.funding = text "FUNDING"
state_name AssetState.funded = text "FUNDED"
state_name AssetState.executing = text "EXECUTING"
state_name AssetState.operational = text "OPERATIONAL"
state_name AssetState.defaulted = text "DEFAULTED"
state_name AssetState.compensating = text "COMPENSATING"
state_name AssetState.closed = text "CLOSED"
state_name AssetState.failed = text "FAILED"
state_name AssetState.cancelled = text "CANCELLED"

unfoldable pub kind_name : ObjectKind → Text
kind_name ObjectKind.asset = text "asset"
kind_name ObjectKind.token = text "token"
kind_name ObjectKind.validator = text "validator"
kind_name ObjectKind.dispute = text "dispute"
kind_name ObjectKind.account = text "account"
kind_name ObjectKind.tx = text "tx"
kind_name ObjectKind.config = text "config"

abbrev dispute_status_name : DisputeStatus → Text
dispute_status_name open_vote = text "OPEN"
dispute_status_name upheld = text "UPHELD"
dispute_status_name rejected = text "REJECTED"
dispute_status_name expired = text "EXPIRED"

abbrev validator_status_name : ValidatorStatus → Text
validator_status_name ValidatorStatus.active = text "ACTIVE"
validator_status_name ValidatorStatus.frozen = text "FROZEN"
validator_status_name ValidatorStatus.slashed = text "SLASHED"

abbrev ref_of : ObjectKind → Text → Text → Text → ObjectRef
ref_of kind prefix id label = record {
  id = id;
  kind = kind;
  route = prefix ++ id;
  label = some label;
}

abbrev asset_page : Text → WireAsset → ObjectRef
asset_page id w = ref_of ObjectKind.asset (text "/assets/") id (w.name otherwise id)

abbrev validator_page : Text → WireValidatorDetail → ObjectRef
validator_page id w =
    ref_of ObjectKind.validator (text "/validators/") id (w.validator.name otherwise id)

abbrev dispute_page : Text → WireDispute → ObjectRef
dispute_page id w =
    ref_of ObjectKind.dispute (text "/disputes/") id
      (text "Dispute · " ++ (w.asset_name otherwise take 8 w.asset_id))

abbrev token_page : Text → Asset → ObjectRef
token_page id a = ref_of ObjectKind.token (text "/tokens/") id (
    (option_map (λ (x : Accumulator). x.token_symbol) a.accumulator otherwise a.ticker)
    ++ text " token")

abbrev tx_page : Text → WireTx → ObjectRef
tx_page id w = ref_of ObjectKind.tx (text "/tx/") id (text "Transaction")

abbrev account_page : Text → Option ObjectRef
account_page id =
    if starts_with id (text "0x")
    then some (ref_of ObjectKind.account (text "/address/") id (take 10 id))
    else none

abbrev asset_result : Asset → SearchResult
asset_result a = record {
  kind = ObjectKind.asset;
  id = a.id;
  route = text "/assets/" ++ a.id;
  title = a.name;
  subtitle = a.ticker ++ text " · " ++ category_name a.category ++ text " · " ++ state_name a.state;
}

abbrev pub validator_matches : Text → Validator → Bool
validator_matches lc v =
    contains (lower v.name) lc || contains (lower v.pool_id) lc || contains (lower v.address) lc

abbrev pub validator_result : Validator → SearchResult
validator_result v = record {
  kind = ObjectKind.validator;
  id = v.pool_id;
  route = text "/validators/" ++ v.pool_id;
  title = v.name;
  subtitle = text "Validator · " ++ validator_status_name v.status;
}

abbrev pub dispute_matches : Text → Dispute → Bool
dispute_matches lc d =
    contains (lower d.id) lc
    || contains (lower d.asset_name) lc
    || contains (lower d.target_validator_name) lc

abbrev pub dispute_result : Dispute → SearchResult
dispute_result d = record {
  kind = ObjectKind.dispute;
  id = d.id;
  route = text "/disputes/" ++ d.id;
  title = text "Dispute · " ++ d.asset_name;
  subtitle = text "vs " ++ d.target_validator_name ++ text " · " ++ dispute_status_name d.status;
}

abbrev ref_result : ObjectRef → SearchResult
ref_result ref = record {
  kind = ref.kind;
  id = ref.id;
  route = ref.route;
  title = ref.label otherwise ref.id;
  subtitle = kind_name ref.kind ++ text " (exact match)";
}

abbrev pub is_shown : Text → List SearchResult → Bool
is_shown id = any (λ r. text_eq r.id id)

-- The exact match is added unless its id is there.
abbrev pub with_ref : Option ObjectRef → List SearchResult → List SearchResult
with_ref none out = out
with_ref (some ref) out = if is_shown ref.id out then out else out ++ ref_result ref ∷ []

module _ (server : Server) where
  -- The reads in their order; the first that answers decides.
  abbrev first_ref : Text → Option ObjectRef
  first_ref id =
      option_map (asset_page id) (one server.asset (asset_path id []))
      <|> option_map (validator_page id) (one server.validator (text "/validators/" ++ id))
      <|> option_map (dispute_page id) (one server.dispute (text "/disputes/" ++ id))
      <|> option_map (token_page id) (get_asset_by_acc_id server id)
      <|> option_map (tx_page id) (one server.tx (text "/tx/" ++ id))
      <|> account_page id

  unfoldable pub resolve_object : Text → Option ObjectRef
  unfolding one get_asset_by_acc_id
  resolve_object id = if nonempty id then first_ref id else none

  module _ (encode : Text → Text) (clock : ℕ) where
    -- The results of the three kinds, for the trimmed query.
    abbrev pub listed_results : Text → List SearchResult
    listed_results q =
        let lc = lower q in
        map (λ w. asset_result (map_asset w no_extras))
          (rows server.assets (text "/assets?q=" ++ encode q ++ text "&limit=20"))
        ++ map validator_result (keep (validator_matches lc) (list_validators server))
        ++ map dispute_result (keep (dispute_matches lc) (list_disputes server clock))

    abbrev pub results_for : Text → List SearchResult
    results_for q =
        let out = listed_results q in
        if starts_with q (text "0x") then with_ref (resolve_object q) out else out

    unfoldable pub search_all : Text → ℕ → List SearchResult
    unfolding resolve_object rows list_validators list_disputes map_asset state_name kind_name
    search_all query limit =
        let q = trim query in if nonempty q then take limit (results_for q) else []
