-- ===== src/Data/Live/Activity.antt =====
-- frontend-explorer/lib/data/live.ts: `eventsForAsset` and `recentEvents`. `locale` is
-- `toLocaleString`.
pub mod Newest
use gally.Prelude.{
  ℕ, Bool, true, false, Option, none, some, List, [], ◌∷◌, ◌++◌, map, Text, text, text_eq, nonempty,
  decimal, take, leb, sort_by, option_map, if◌then◌else◌, ◌otherwise◌,
}
use gally.Prelude.Int.{ℤ}
use gally.Data.Wire.{usdc}
use gally.Data.Client.{rows}
use gally.Data.Records.{WireAsset, WireRaisePoint, WireYieldPoint, WireGovEvent}
use gally.Data.Events.{
  EventType, revenue_deposited, capital_contributed, EventFeed, event_feed_of, event_type_of,
  ends_with, suffix,
}
use gally.Data.Feeds.{ProtocolEvent}
use gally.Data.Live.{Server, asset_path}

abbrev pub newest_first : ProtocolEvent → ProtocolEvent → Bool
newest_first a b = leb b.ts_ms a.ts_ms

abbrev gov_event_type : WireGovEvent → EventType
gov_event_type g =
    event_type_of (g.event_type ++ (if ends_with g.event_type suffix then [] else suffix))

-- `${value}`, where the value may be missing
abbrev printed : Option Text → Text
printed v = v otherwise text "null"

abbrev gov_summary : WireGovEvent → Option Text → Text
gov_summary g none = g.event_type
gov_summary g (some name) =
    if nonempty name
    then text "Param "
      ++ name
      ++ text ": "
      ++ printed g.old_value
      ++ text " → "
      ++ printed g.new_value
    else g.event_type

abbrev gov_event : WireGovEvent → ProtocolEvent
gov_event g = record {
  id = g.tx_digest ++ text ":gov:" ++ decimal g.timestamp_ms;
  type = gov_event_type g;
  feed = EventFeed.governance;
  ts_ms = g.timestamp_ms;
  asset_id = none;
  actor = none;
  amount = none;
  tx_digest = g.tx_digest;
  summary = gov_summary g g.param_name;
}

abbrev is_revenue : EventType → Bool
is_revenue revenue_deposited = true
is_revenue _ = false

module _ (locale : ℤ → Text) where
  abbrev contribution : Text → WireRaisePoint → ProtocolEvent
  contribution asset_id p = record {
    id = p.tx_digest ++ text ":contrib:" ++ decimal p.timestamp_ms;
    type = capital_contributed;
    feed = EventFeed.position;
    ts_ms = p.timestamp_ms;
    asset_id = some asset_id;
    actor = some p.contributor;
    amount = some (usdc (some p.amount));
    tx_digest = p.tx_digest;
    summary = text "Contributed " ++ locale (usdc (some p.amount)) ++ text " USDC";
  }

  abbrev yield_event : Text → WireYieldPoint → ProtocolEvent
  yield_event asset_id p =
      let type = event_type_of (
        if text_eq p.event_type (text "revenue")
        then text "RevenueDepositedEvent"
        else text "YieldClaimedEvent") in
      record {
        id = p.tx_digest ++ text ":yield:" ++ decimal p.timestamp_ms;
        type = type;
        feed = event_feed_of type;
        ts_ms = p.timestamp_ms;
        asset_id = some asset_id;
        actor = none;
        amount = option_map (λ g. usdc (some g)) p.gross;
        tx_digest = p.tx_digest;
        summary =
            if is_revenue type
            then text "Revenue " ++ locale (usdc p.gross) ++ text " USDC"
            else text "Yield claimed";
      }

  module _ (server : Server) where
    abbrev limited : Text → Text → ℕ → Text
    limited asset_id series limit = asset_path asset_id (series ++ text "?limit=" ++ decimal limit)

    abbrev pub asset_feed : Text → ℕ → List ProtocolEvent
    asset_feed asset_id limit =
        map (contribution asset_id) (rows server.raises (limited asset_id (text "/history") limit))
        ++ map (yield_event asset_id) (rows server.yields (limited asset_id (text "/yield") limit))

    unfoldable pub events_for_asset : Text → ℕ → List ProtocolEvent
    unfolding rows usdc event_type_of event_feed_of
    events_for_asset asset_id limit = take limit (sort_by newest_first (asset_feed asset_id limit))

    abbrev feeds_of : List WireAsset → List ProtocolEvent
    feeds_of [] = []
    feeds_of (a ∷ rest) = events_for_asset a.asset_id 6 ++ feeds_of rest

    abbrev pub global_feed : List ProtocolEvent
    global_feed =
        feeds_of (take 4 (rows server.assets (text "/assets?limit=6")))
        ++ map gov_event (rows server.governance (text "/governance?limit=8"))

    unfoldable pub recent_events : ℕ → List ProtocolEvent
    unfolding events_for_asset
    recent_events limit = take limit (sort_by newest_first global_feed)
