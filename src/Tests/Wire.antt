-- ===== src/Tests/Wire.antt =====
-- A concrete indexer: one asset that is executing, with a schedule out of order, and one dispute.
use gally.Prelude.{false, none, some, List, [], ◌∷◌, Text, text, ℕ}
use gally.Data.Client.{Response, answered, unreachable, Envelope}
use gally.Data.Records.{
  WireAsset, WireTrancheSchedule, WireTrancheEvent, WireRaisePoint, WireGovEvent,
}
use gally.Data.Live.{Server}

abbrev pub wire_mill : WireAsset
wire_mill = record {
  asset_id = text "0xa1";
  entity = text "0xe";
  goal = text "100000000";
  funding_deadline_ms = 20;
  revenue_split_bps = 7000;
  collateral = text "5000000";
  validator_pool_id = some (text "0xb0");
  coverage = some (text "7000000");
  accumulator_id = some (text "0xac");
  current_state = 4;
  created_at_ms = 10;
  name = some (text "Mill");
  ticker = none;
  category = some 3;
  location = none;
  entity_name = none;
  is_term_financing = none;
  return_target = none;
  apy = none;
  accumulator = none;
}

-- The same asset as a later page has it.
abbrev pub wire_mill_later : WireAsset
wire_mill_later = record wire_mill { current_state = 5 }

abbrev pub second_tranche : WireTrancheSchedule
second_tranche = record {
  tranche_index = 1;
  amount = text "60000000";
  deadline_ms = 90;
  description = text "Roof";
}

abbrev pub first_tranche : WireTrancheSchedule
first_tranche = record {
  tranche_index = 0;
  amount = text "40000000";
  deadline_ms = 50;
  description = text "Walls";
}

abbrev pub approval_event : WireTrancheEvent
approval_event = record {
  event_type = text "approved";
  tranche_index = 0;
  approver = none;
  proof_blob_id = none;
  proof_sha256 = none;
}

abbrev pub fee_change : Text → ℕ → WireGovEvent
fee_change value time = record {
  timestamp_ms = time;
  event_type = text "ProtocolParamChanged";
  tx_digest = text "0xf1";
  admin = none;
  param_name = some (text "protocol_fee_bps");
  old_value = none;
  new_value = some value;
  old_treasury = none;
  new_treasury = none;
}

abbrev pub stop : WireGovEvent
stop = record (fee_change [] 9) { event_type = text "EmergencyStopTriggered"; param_name = none }

abbrev pub one_raise : WireRaisePoint
one_raise = record {
  timestamp_ms = 15;
  contributor = text "0x5e";
  amount = text "1000000";
  raised_after = text "1000000";
  tx_digest = text "0xf2";
}

abbrev pub page {ℓ} : {A : Type ℓ} → List A → Response (Envelope A)
page rows =
    answered 200 (some (record { data_rows = rows; next_cursor = none; has_next_page = false }))

abbrev pub small_server : Server
small_server = record {
  assets = λ path. page (wire_mill ∷ wire_mill_later ∷ []);
  asset = λ path. answered 404 none;
  raises = λ path. page (one_raise ∷ []);
  yields = λ path. unreachable;
  wraps = λ path. page [];
  holders = λ path. answered 500 none;
  tranches = λ path. unreachable;
  disputes = λ path. page [];
  dispute = λ path. answered 404 none;
  validators = λ path. page [];
  validator = λ path. answered 404 none;
  governance = λ path. page (stop ∷ []);
  tx = λ path. answered 404 none;
  address = λ path. answered 404 none;
  portfolio = λ path. page [];
  health = λ path. answered 200 (some (text "ok"));
}
