-- ===== src/Tests/Session.antt =====
-- A run of an intent and its entry in the bell.
use gally.Prelude.{◌≡◌, refl, true, false, not, none, [], ◌++◌, Text, text, includes}
use gally.Tx.Intents.{TxIntent, optimistic_key, validate_intent}
use gally.Tx.Lifecycle.{idle, ok_result}
use gally.Tx.Executor.{ExecuteOpts, mock_digest}
use gally.Store.Local.{absent, read_list}
use gally.Store.Notifications.{Account, Bell, build, ids}
use gally.Session.{Session, run}
use gally.Session.Outcomes.{run-shown}
use gally.Tests.Data.{buy}

abbrev pub key_of : TxIntent → Text
key_of i = optimistic_key i

abbrev pub at_once : ExecuteOpts
at_once = record { instant = true; force_error = false }

abbrev nobody : Account
nobody = record {
  is_live = true;
  holdings = [];
  receipts = [];
  applied = record { on_server = false; full = false; cell = absent };
}

abbrev pub silent : Bell
silent = record {
  outcomes = record { on_server = false; full = false; cell = absent };
  read_ids = record { on_server = false; full = false; cell = absent };
  cleared_ids = record { on_server = false; full = false; cell = absent };
}

abbrev pub fresh : Session
fresh = record { status = idle; result = none; bell = silent }

run-shown_example :
    ((run key_of 7 buy at_once fresh).1 ≡ ok_result (mock_digest key_of buy))
    × (includes
          (ids (build nobody (run key_of 7 buy at_once fresh).0.bell))
          (text "tx-" ++ mock_digest key_of buy)
        ≡ not (includes (read_list silent.cleared_ids) (text "tx-" ++ mock_digest key_of buy)))
unfolding validate_intent
run-shown_example = run-shown key_of 7 nobody buy at_once fresh refl refl (refl, refl)
