-- ===== src/Data/Live/Detail.antt =====
-- frontend-explorer/lib/data/live.ts: `getAsset` and `getAssetByAccId`.
pub mod Approvals
use gally.Prelude.{
  ℕ, Bool, true, false, not, ◌||◌, Option, none, some, is_some, List, [], ◌∷◌, map, Text, text,
  text_eq, nonempty, length, any, keep, find?, last?, ◌==◌, option_map, ◌otherwise◌, if◌then◌else◌,
}
use gally.Prelude.Int.{ℤ, pos}
use gally.Domain.{Asset, Point}
use gally.Store.Local.{set_of}
use gally.Data.Wire.{usdc, index_human}
use gally.Data.Client.{Envelope, rows, one}
use gally.Data.Records.{
  WireAsset, WireRaisePoint, WireYieldPoint, WireWrapPoint, WireHoldersEnvelope, WireTrancheEvent,
  WireTrancheSchedule, WireTranchesEnvelope,
}
use gally.Data.Disputes.{WireDispute}
use gally.Data.Assets.{
  AssetExtras, Approval, has_index, map_asset, map_tranches, map_raise_series, map_yield_series,
  map_wrap_series,
}
use gally.Data.Live.{Server, asset_path}

-- `if (s)` on a string that may be missing
abbrev pub is_text : Option Text → Bool
is_text none = false
is_text (some s) = nonempty s

abbrev pub released_of : List WireTrancheEvent → List ℕ
released_of [] = []
released_of (ev ∷ evs) =
    let rest = released_of evs in
    if text_eq ev.event_type (text "released") then ev.tranche_index ∷ rest else rest

-- `approvers.set(a.tranche_index, a)`
abbrev put_approval : Approval → List Approval → List Approval
put_approval a [] = a ∷ []
put_approval a (b ∷ bs) =
    let rest = put_approval a bs in if b.tranche_index == a.tranche_index then a ∷ bs else b ∷ rest

abbrev pub approves : WireTrancheEvent → Bool
approves ev = is_text ev.approver || is_text ev.proof_blob_id

abbrev pub approval_in : WireTrancheEvent → Approval
approval_in ev = record {
  tranche_index = ev.tranche_index;
  by = ev.approver;
  blob = ev.proof_blob_id;
  sha = ev.proof_sha256;
}

abbrev pub approvers_of : List WireTrancheEvent → List Approval → List Approval
approvers_of [] approvers = approvers
approvers_of (ev ∷ evs) approvers =
    approvers_of evs (if approves ev then put_approval (approval_in ev) approvers else approvers)

abbrev pub with_schedule : List WireTrancheSchedule → List WireTrancheEvent → Asset → Asset
with_schedule [] evs a = a
with_schedule (t ∷ ts) evs a = record a {
  tranches = map_tranches (t ∷ ts) (released_of evs) (approvers_of evs []);
}

-- `if (tranchesEnv?.schedule?.length)`
abbrev with_tranches : Option WireTranchesEnvelope → Asset → Asset
with_tranches none a = a
with_tranches (some env) a = with_schedule (env.schedule otherwise []) env.envelope.data_rows a

abbrev index_in : Option WireYieldPoint → ℕ
index_in none = 0
index_in (some p) = index_human p.index_after

abbrev wrapped_in : Option WireWrapPoint → ℤ
wrapped_in none = pos 0
wrapped_in (some p) = usdc (some p.total_wrapped_after)

abbrev minted_in : Option WireHoldersEnvelope → ℤ
minted_in none = pos 0
minted_in (some env) = usdc (some env.total_minted_shares)

abbrev holders_in : Option WireHoldersEnvelope → ℕ
holders_in none = 0
holders_in (some env) = length env.envelope.data_rows

-- `d.verdict == null`
abbrev is_undecided : WireDispute → Bool
is_undecided d = not (is_some d.verdict)

abbrev pub extras_of :
    List WireRaisePoint
    → List WireYieldPoint
    → List WireWrapPoint
    → Option WireHoldersEnvelope
    → List WireDispute
    → AssetExtras
extras_of raise yields wrap holders_env disputes =
    let raise_series = map_raise_series raise in
    record {
      raised = option_map (λ (p : Point). p.v) (last? raise_series);
      raise_series = some raise_series;
      index_series = some (map_yield_series yields);
      wrap_series = some (map_wrap_series wrap);
      cumulative_index = some (index_in (last? (keep has_index yields)));
      total_minted_shares = some (minted_in holders_env);
      total_wrapped_shares = some (wrapped_in (last? wrap));
      holders = some (holders_in holders_env);
      contributors = some (length (set_of (map (λ (p : WireRaisePoint). p.contributor) raise)));
      disputed = some (any is_undecided disputes);
      is_defaulted = none;
      token_symbol = none;
    }

module _ (server : Server) where
  abbrev pub detail : Text → WireAsset → Asset
  detail id base =
      let path = asset_path id in
      let extras =
        extras_of (rows server.raises (path (text "/history?limit=200")))
          (rows server.yields (path (text "/yield?limit=200")))
          (rows server.wraps (path (text "/wrap-ratio?limit=200")))
          (one server.holders (path (text "/holders?limit=200")))
          (rows server.disputes (path (text "/disputes"))) in
      with_tranches (one server.tranches (path (text "/tranches?limit=200")))
        (map_asset base extras)

  unfoldable pub get_asset : Text → Option Asset
  unfolding one rows map_asset map_tranches map_raise_series map_yield_series map_wrap_series
  get_asset id =
      option_map (λ (base : WireAsset). detail id base) (one server.asset (asset_path id []))

  -- `w.accumulator_id === accId`
  abbrev has_accumulator : Text → WireAsset → Bool
  has_accumulator acc_id w =
      option_map (λ (id : Text). text_eq id acc_id) w.accumulator_id otherwise false

  abbrev asset_of_row : Option WireAsset → Option Asset
  asset_of_row none = none
  asset_of_row (some hit) = get_asset hit.asset_id

  unfoldable pub get_asset_by_acc_id : Text → Option Asset
  unfolding rows get_asset
  get_asset_by_acc_id acc_id =
      asset_of_row (find? (has_accumulator acc_id) (rows server.assets (text "/assets?limit=60")))
