-- ===== src/Tests/Market.antt =====
-- What the live source shows of a concrete indexer.
use gally.Prelude.{
  ◌+◌, ◌≤◌, ◌≡◌, refl, true, false, not, ◌&&◌, ◌||◌, some, is_some, List, [], ◌∷◌, text, nonempty,
  starts_with, keep, length, find?, IsSorted, option_map, arith, sort_by,
}
use gally.Prelude.Int.{pos}
use gally.Domain.{HolderEntry}
use gally.Tx.Intents.{flag_default}
use gally.Keeper.Ready.{runnable, offered}
use gally.Data.Assets.{no_extras, map_asset, map_tranches, map_tranche}
use gally.Data.Assets.Derived.{AsDerived, state-map_asset}
use gally.Data.Assets.Schedule.{IsNext, map_tranches-IsNext}
use gally.Data.Governance.{governance_of}
use gally.Data.Governance.Replay.{value_of, latest, switched, governance_of-replayed}
use gally.Data.Live.{list_disputes}
use gally.Data.Live.Market.{populated_first, list_assets}
use gally.Data.Live.Market.Curated.{has_id, listed, row_of, list_assets-listed}
use gally.Data.Live.Detail.{with_schedule}
use gally.Data.Live.Detail.Approvals.{flag_default-silent}
use gally.Data.Live.Solvent.{solvency_of}
use gally.Data.Live.Solvent.Healthy.{solvency_of-unseen}
use gally.Data.Live.Find.{resolve_object}
use gally.Data.Live.Find.Resolved.{IsOf, is_known, resolve_object-IsOf}
use gally.Data.Live.Totals.{get_protocol_stats}
use gally.Data.Live.Totals.Shares.{get_protocol_stats-shares}
use gally.Tests.Data.{mill}
use gally.Tests.Wire.{
  wire_mill, second_tranche, first_tranche, approval_event, fee_change, stop, small_server,
}

state-map_asset_example :
    AsDerived 4
      (map_asset wire_mill no_extras).raised
      (map_asset wire_mill no_extras).funding_goal
      false
      (map_asset wire_mill no_extras).state
state-map_asset_example = state-map_asset wire_mill no_extras

map_tranches-IsNext_example :
    IsNext
      (0 ∷ [])
      []
      (find? (λ t. not t.released) (map_tranches (second_tranche ∷ first_tranche ∷ []) (0 ∷ []) []))
      (second_tranche ∷ first_tranche ∷ [])
map_tranches-IsNext_example = map_tranches-IsNext (0 ∷ []) [] (second_tranche ∷ first_tranche ∷ [])

abbrev two_changes : List gally.Data.Records.WireGovEvent
two_changes = fee_change (text "100") 5 ∷ stop ∷ fee_change (text "150") 12 ∷ []

governance_of-replayed_example :
    (value_of (text "protocol_fee_bps") (governance_of two_changes).config
      ≡ latest (text "protocol_fee_bps") two_changes)
    × ((governance_of two_changes).paused ≡ switched false two_changes)
governance_of-replayed_example = governance_of-replayed two_changes (text "protocol_fee_bps")

-- The last change is shown, and the protocol as paused.
last_change :
    (value_of (text "protocol_fee_bps") (governance_of two_changes).config ≡ some (text "150"))
    × ((governance_of two_changes).paused ≡ true)
unfolding governance_of
last_change = (refl, refl)

list_assets-listed_example :
    (find? (has_id (text "0xa1")) (list_assets small_server)
      ≡ option_map (listed small_server) (row_of small_server (text "0xa1")))
    × (length (keep (has_id (text "0xa1")) (list_assets small_server)) ≤ 1)
    × IsSorted populated_first (list_assets small_server)
list_assets-listed_example = list_assets-listed small_server (text "0xa1")

flag_default-silent_example :
    runnable flag_default
      (offered 60 (with_schedule (first_tranche ∷ []) (approval_event ∷ []) mill) flag_default)
    ≡ true
unfolding map_tranches sort_by
flag_default-silent_example =
    flag_default-silent 60 mill first_tranche [] (approval_event ∷ [])
      (map_tranche [] [] first_tranche) ((refl, refl), tt) refl refl (omega arith)

abbrev investor : HolderEntry
investor = record {
  address = text "0x5e";
  share_count = pos 3000000;
  wrapped = pos 0;
  acquired_at_ms = 0;
  yield_claimed_index = 0;
}

solvency_of-unseen_example :
    ((solvency_of (some mill) (investor ∷ [])).owed ≡ 0)
    × ((solvency_of (some mill) (investor ∷ [])).healthy ≡ true)
unfolding gally.Data.Position.pending_units
solvency_of-unseen_example =
    solvency_of-unseen (some mill) (investor ∷ []) ((refl, omega arith), tt) (omega arith)

resolve_object-IsOf_example :
    IsOf (text "0x9f") (resolve_object small_server (text "0x9f"))
    × (is_some (resolve_object small_server (text "0x9f")) ≡ (
        nonempty (text "0x9f")
        && (is_known small_server (text "0x9f") || starts_with (text "0x9f") (text "0x"))))
resolve_object-IsOf_example = resolve_object-IsOf small_server (text "0x9f")

get_protocol_stats-shares_example :
    ((get_protocol_stats small_server 30).open_disputes
        + (get_protocol_stats small_server 30).resolved_disputes
      ≡ length (list_disputes small_server 30))
    × ((get_protocol_stats small_server 30).active_assets
        ≤ (get_protocol_stats small_server 30).total_assets)
    × ((get_protocol_stats small_server 30).funding_raised_open ≡ pos 0)
get_protocol_stats-shares_example = get_protocol_stats-shares small_server 30
