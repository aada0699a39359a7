-- ===== src/Session/Wallet.antt =====
-- frontend-explorer/lib/tx/useTxLive.ts: a run of an intent through the connected wallet. `clock` is
-- `Date.now()`.
pub mod Settled
use gally.Prelude.{ℕ, false, Option, none, some, List, [], ◌∷◌, Text, text}
use gally.Tx.Intents.{TxIntent}
use gally.Tx.Lifecycle.{TxStatus, building, error, TxLifecycle, TxResult, error_result}
use gally.Tx.Plan.{BuildCtx}
use gally.Tx.Transaction.{Command}
use gally.Tx.Context.{Reader, TxConfig, resolve_live_refs}
use gally.Tx.Context.Build.{build_ctx}
use gally.Tx.Live.{Answer, LiveEffect, report, ask_wallet, execute_intent_live}
use gally.Store.Notifications.{push_notification}
use gally.Session.{Session, notification_for}

-- A run comes to a result, or throws and leaves the state as it was then.
pub data LiveRun : Type 0 where
  finished : Session → TxResult → LiveRun
  thrown : Session → LiveRun

abbrev pub no_account : TxResult
no_account = error_result (text "Connect a wallet to continue.")

-- `onStep` sets the status to that of each report.
abbrev pub status_after : TxStatus → List LiveEffect → TxStatus
status_after s [] = s
status_after s (report l ∷ es) = status_after l.status es
status_after s (ask_wallet tx ∷ es) = status_after s es

module _ (reader : Reader) (config : TxConfig) (wallet : List Command → Answer) (clock : ℕ) where
  abbrev pub finish : TxIntent → Session → TxStatus → TxResult → LiveRun
  finish intent s status res =
      finished
        (record {
          status = status;
          result = some res;
          bell = push_notification (notification_for clock intent res) s.bell;
        })
        res

  -- The context is put together before the executor runs; where that throws, nothing catches it.
  abbrev pub with_context : TxIntent → Session → Option BuildCtx → LiveRun
  with_context intent s none = thrown (record s { status = building; result = none })
  with_context intent s (some ctx) =
      let (es, res) = execute_intent_live ctx wallet intent in
      finish intent s (status_after building es) res

  abbrev with_account : TxIntent → Session → Option Text → LiveRun
  with_account intent s none = finish intent s error no_account
  with_account intent s (some sender) =
      with_context intent s
        (build_ctx config intent sender (resolve_live_refs reader config intent sender))

  unfoldable pub run_live : Option Text → TxIntent → Session → LiveRun
  unfolding build_ctx resolve_live_refs execute_intent_live push_notification notification_for
  run_live account intent s = with_account intent s account
