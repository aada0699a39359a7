-- ===== src/Data/Governance.antt =====
-- frontend-explorer/lib/data/map.ts: `mapGovEvent`; and what `getGovernance` of live.ts beside it
-- makes of the events of governance.
pub mod Replay
use gally.Prelude.{
  ℕ, Bool, true, false, ◌&&◌, ◌||◌, Option, none, some, List, [], ◌∷◌, map, Text, text, text_eq,
  nonempty, keep, last?, ◌otherwise◌, if◌then◌else◌,
}
use gally.Domain.{GovParamChange}
use gally.Data.Records.{WireGovEvent}

abbrev pub is_param_change : WireGovEvent → Bool
is_param_change e = text_eq e.event_type (text "ProtocolParamChanged")

abbrev pub is_treasury_change : WireGovEvent → Bool
is_treasury_change e = text_eq e.event_type (text "ProtocolTreasuryChanged")

abbrev pub is_stop : WireGovEvent → Bool
is_stop e = text_eq e.event_type (text "EmergencyStopTriggered")

abbrev pub is_resume : WireGovEvent → Bool
is_resume e = text_eq e.event_type (text "ProtocolResumed")

abbrev dash : Text
dash = text "—"

abbrev change_of : WireGovEvent → Text → Text → Text → GovParamChange
change_of w name old new = record {
  name = name;
  old_value = old;
  new_value = new;
  ts_ms = w.timestamp_ms;
  tx_digest = w.tx_digest;
}

abbrev gov_label : WireGovEvent → Text
gov_label w =
    if text_eq w.event_type (text "ProtocolInitialized")
    then text "initialized"
    else if is_stop w
    then text "paused"
    else if is_resume w
    then text "resumed"
    else w.event_type

unfoldable pub map_gov_event : WireGovEvent → GovParamChange
map_gov_event w =
    if is_treasury_change w
    then change_of w (text "treasury") (w.old_treasury otherwise dash)
        (w.new_treasury otherwise dash)
    else if is_param_change w
    then change_of w (w.param_name otherwise text "param") (w.old_value otherwise dash)
        (w.new_value otherwise dash)
    else change_of w (gov_label w) dash dash

-- An entry of `config`.
pub record ParamValue : Type 0 where
  pub name : Text
  pub value : Text

-- `config[name] = value`: an entry keeps its place.
abbrev pub set_param : ParamValue → List ParamValue → List ParamValue
set_param p [] = p ∷ []
set_param p (q ∷ qs) =
    let rest = set_param p qs in if text_eq q.name p.name then p ∷ qs else q ∷ rest

-- `e.param_name && e.new_value != null`
abbrev named_value : Option Text → Option Text → Option ParamValue
named_value (some n) (some v) = if nonempty n then some (record { name = n; value = v }) else none
named_value _ _ = none

-- The parameter that an event sets.
abbrev pub param_of : WireGovEvent → Option ParamValue
param_of e = if is_param_change e then named_value e.param_name e.new_value else none

abbrev set_optional : Option ParamValue → List ParamValue → List ParamValue
set_optional none config = config
set_optional (some p) config = set_param p config

abbrev pub fold_params : List WireGovEvent → List ParamValue → List ParamValue
fold_params [] config = config
fold_params (e ∷ es) config = fold_params es (set_optional (param_of e) config)

abbrev pub is_switch : WireGovEvent → Bool
is_switch e = is_stop e || is_resume e

abbrev stopped : Option WireGovEvent → Bool
stopped none = false
stopped (some e) = is_stop e

pub record GovernanceResult : Type 0 where
  pub history : List GovParamChange
  pub paused : Bool
  pub config : List ParamValue

unfoldable pub governance_of : List WireGovEvent → GovernanceResult
unfolding map_gov_event
governance_of events = record {
  history =
      map (λ e. map_gov_event e) (keep (λ e. is_param_change e || is_treasury_change e) events);
  paused = stopped (last? (keep is_switch events));
  config = fold_params events [];
}
