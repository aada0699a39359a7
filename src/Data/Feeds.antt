-- ===== src/Data/Feeds.antt =====
-- frontend-explorer/lib/data/map.ts: `mapPortfolioEvent` and `mapTx`, and the rows of events of
-- frontend-explorer/lib/types.ts. `locale` is `toLocaleString`, which follows the host's locale.
use gally.Prelude.{
  ℕ, Option, none, some, List, [], ◌∷◌, ◌++◌, map, Text, text, trim, decimal, nonempty, ◌<|>◌,
  option_map, if◌then◌else◌,
}
use gally.Prelude.Int.{ℤ}
use gally.Data.Wire.{usdc}
use gally.Data.Records.{WirePortfolioEvent, WireTx, WireTxEvent}
use gally.Data.Events.{EventType, EventFeed, event_feed_of, event_name, event_type_of}

pub record ProtocolEvent : Type 0 where
  pub id : Text
  pub type : EventType
  pub feed : EventFeed
  pub ts_ms : ℕ
  pub asset_id : Option Text
  pub actor : Option Text
  pub amount : Option ℤ
  pub tx_digest : Text
  pub summary : Text

pub record TxRow : Type 0 where
  pub digest : Text
  pub ts_ms : ℕ
  pub events : List ProtocolEvent
  pub kind : Text

module _ (locale : ℤ → Text) where
  -- `w.amount ? … : ""`
  abbrev amount_text : Option Text → Text
  amount_text none = []
  amount_text (some a) = if nonempty a then locale (usdc (some a)) else []

  unfoldable pub map_portfolio_event : WirePortfolioEvent → ProtocolEvent
  unfolding usdc event_type_of event_feed_of event_name
  map_portfolio_event w =
      let type = event_type_of w.event_type in
      record {
        id = w.tx_digest ++ text ":" ++ w.event_type ++ text ":" ++ decimal w.timestamp_ms;
        type = type;
        feed = event_feed_of type;
        ts_ms = w.timestamp_ms;
        asset_id = some w.asset_id;
        actor = some w.actor;
        amount = option_map (λ a. usdc (some a)) w.amount;
        tx_digest = w.tx_digest;
        summary = trim (event_name type ++ text " " ++ amount_text w.amount);
      }

abbrev tx_event : WireTx → WireTxEvent → ProtocolEvent
tx_event w e =
    let type = event_type_of e.event_type in
    record {
      id = w.tx_digest ++ text ":" ++ decimal e.event_seq;
      type = type;
      feed = event_feed_of type;
      ts_ms = w.timestamp_ms;
      asset_id = e.asset_id;
      actor = e.actor <|> e.contributor;
      amount = none;
      tx_digest = w.tx_digest;
      summary = event_name type;
    }

abbrev headline : List ProtocolEvent → Text
headline [] = text "transaction"
headline (e ∷ es) = event_name e.type

unfoldable pub map_tx : WireTx → TxRow
unfolding event_type_of event_feed_of event_name
map_tx w =
    let events = map (λ e. tx_event w e) w.events in
    record { digest = w.tx_digest; ts_ms = w.timestamp_ms; events = events; kind = headline events }
