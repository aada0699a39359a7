-- ===== src/Session.antt =====
-- frontend-explorer/lib/tx/notify.ts and the mock driver of lib/tx/useTx.ts: a run of an intent and
-- its entry in the bell. `clock` is `Date.now()`.
pub mod Outcomes
pub mod Wallet
pub mod Driver
use gally.Prelude.{
  ℕ, ◌-◌, Bool, true, false, Option, none, some, List, [], ◌∷◌, ◌++◌, Text, text, length, take,
  drop, ltb, decimal, nonempty, if◌then◌else◌, ◌otherwise◌,
}
use gally.Tx.Intents.{TxIntent, intent_verb, intent_tone, intent_route, danger}
use gally.Tx.Lifecycle.{TxStatus, idle, TxLifecycle, TxResult}
use gally.Tx.Executor.{Effect, step, sleep, ExecuteOpts, execute_intent}
use gally.Store.Notifications.{AppNotification, Kind, Bell, push_notification}

-- `shortDigest` of frontend-explorer/lib/format.ts
unfoldable pub short_digest : Text → Text
short_digest d = if ltb 10 (length d) then take 6 d ++ text "…" ++ drop (length d - 4) d else d

-- `res.digest ? … : undefined`
abbrev success_body : Option Text → Option Text
success_body none = none
success_body (some d) =
    if nonempty d then some (text "Transaction " ++ short_digest d ++ text " succeeded.") else none

-- A digest that is missing is printed as undefined.
unfoldable pub notification_for : ℕ → TxIntent → TxResult → AppNotification
unfolding intent_verb intent_tone intent_route
notification_for clock intent res =
    if res.ok
    then record {
      id = text "tx-" ++ (res.digest otherwise text "undefined");
      kind = Kind.tx;
      tone = intent_tone intent;
      title = intent_verb intent ++ text " confirmed";
      body = success_body res.digest;
      route = intent_route intent;
      ts_ms = clock;
      read = false;
    }
    else record {
      id = text "tx-fail-" ++ decimal clock;
      kind = Kind.tx;
      tone = danger;
      title = intent_verb intent ++ text " failed";
      body = some (res.error otherwise text "The transaction did not complete.");
      route = intent_route intent;
      ts_ms = clock;
      read = false;
    }

-- The state of the hook, and the bell.
pub record Session : Type 0 where
  pub status : TxStatus
  pub result : Option TxResult
  pub bell : Bell

-- `onStep` sets the status to that of each report.
abbrev pub last_status : TxStatus → List Effect → TxStatus
last_status s [] = s
last_status s (step l ∷ es) = last_status (l.status) es
last_status s (sleep ms ∷ es) = last_status s es

module _ (json : TxIntent → Text) (clock : ℕ) where
  unfoldable pub run : TxIntent → ExecuteOpts → Session → Session × TxResult
  unfolding execute_intent push_notification
  run intent opts s =
      let (es, res) = execute_intent json intent opts in
      (
        record {
          status = last_status s.status es;
          result = some res;
          bell = push_notification (notification_for clock intent res) s.bell;
        },
        res,
      )

unfoldable pub reset : Session → Session
reset s = record s { status = idle; result = none }
