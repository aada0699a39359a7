-- ===== src/Session/Driver.antt =====
-- `useTx` of frontend-explorer/lib/tx/useTx.ts, in mock mode and, over useTxLive.ts, in live mode:
-- the state of the hook from one status that a user can meet to the next. What is set without an
-- await in between is set in one step: the last status with the result and the entry in the bell.
pub mod Fit
pub mod Whole
use gally.Prelude.{ℕ, Option, none, some, List, [], ◌∷◌, Text}
use gally.Tx.Intents.{TxIntent}
use gally.Tx.Lifecycle.{TxStatus, idle, building, error, TxLifecycle, TxResult}
use gally.Tx.Executor.{ExecuteOpts, execute_intent}
use gally.Tx.Executor.Runs
use gally.Tx.Plan.{BuildCtx}
use gally.Tx.Transaction.{Command}
use gally.Tx.Context.{Reader, TxConfig, resolve_live_refs}
use gally.Tx.Context.Build.{build_ctx}
use gally.Tx.Live.{Answer, execute_intent_live}
use gally.Tx.Live.Laws
use gally.Store.Notifications.{Bell, push_notification}
use gally.Session.{Session, notification_for, reset}
use gally.Session.Wallet.{no_account}

-- The hook that the build chooses, with what it depends on; the last member of `live` is the account
-- that is connected.
pub data Driver : Type 0 where
  mock : (TxIntent → Text) → ℕ → ExecuteOpts → Driver
  live : Reader → TxConfig → (List Command → Answer) → ℕ → Option Text → Driver

-- `Date.now()`
abbrev pub clock_of : Driver → ℕ
clock_of (mock json clock opts) = clock
clock_of (live reader config wallet clock account) = clock

abbrev pub statuses : List TxLifecycle → List TxStatus
statuses [] = []
statuses (l ∷ ls) = l.status ∷ statuses ls

-- What a run with an account sets, and what it returns, where the context is built or throws.
abbrev pub live_statuses : (List Command → Answer) → TxIntent → Option BuildCtx → List TxStatus
live_statuses wallet i none = building ∷ []
live_statuses wallet i (some ctx) =
    building ∷ statuses (Laws.reports (execute_intent_live ctx wallet i).0)

abbrev pub live_result : (List Command → Answer) → TxIntent → Option BuildCtx → Option TxResult
live_result wallet i none = none
live_result wallet i (some ctx) = some (execute_intent_live ctx wallet i).1

abbrev pub context_of : Reader → TxConfig → TxIntent → Text → Option BuildCtx
context_of reader config i sender =
    build_ctx config i sender (resolve_live_refs reader config i sender)

-- The statuses that `run` sets, in order.
unfoldable pub reported : Driver → TxIntent → List TxStatus
unfolding execute_intent execute_intent_live
reported (mock json clock opts) i = statuses (Runs.reports (execute_intent json i opts).0)
reported (live reader config wallet clock none) i = error ∷ []
reported (live reader config wallet clock (some sender)) i =
    live_statuses wallet i (context_of reader config i sender)

-- What `run` returns, or none where it throws.
unfoldable pub ended : Driver → TxIntent → Option TxResult
unfolding execute_intent execute_intent_live
ended (mock json clock opts) i = some (execute_intent json i opts).1
ended (live reader config wallet clock none) i = some no_account
ended (live reader config wallet clock (some sender)) i =
    live_result wallet i (context_of reader config i sender)

-- A run in flight, with the statuses that it has still to set.
pub record Running : Type 0 where
  pub intent : TxIntent
  pub rest : List TxStatus

pub record TxState : Type 0 where
  pub session : Session
  pub running : Option Running

-- The last status, with the result and its entry in the bell, unless the run throws.
abbrev pub settle_run : Driver → TxIntent → TxStatus → Option TxResult → TxState → TxState
settle_run driver i s none t = record { session = record t.session { status = s }; running = none }
settle_run driver i s (some r) t = record {
  session = record {
    status = s;
    result = some r;
    bell = push_notification (notification_for (clock_of driver) i r) t.session.bell;
  };
  running = none;
}

-- The next status; a result is returned with the last one.
abbrev pub advance : Driver → TxIntent → List TxStatus → TxState → TxState × Option TxResult
advance driver i [] t = (record t { running = none }, none)
advance driver i (s ∷ []) t = (settle_run driver i s (ended driver i) t, ended driver i)
advance driver i (s ∷ u ∷ rest) t = (
  record {
    session = record t.session { status = s };
    running = some (record { intent = i; rest = u ∷ rest });
  },
  none,
)

-- A call of `run`, up to its first await.
unfoldable pub start_run : Driver → TxIntent → TxState → TxState × Option TxResult
unfolding reported ended push_notification notification_for
start_run driver i t =
    advance driver i (reported driver i) (record t { session = record t.session { result = none } })

-- A run goes on to its next await.
unfoldable pub resume_run : Driver → Running → TxState → TxState × Option TxResult
unfolding ended push_notification notification_for
resume_run driver r t = advance driver r.intent r.rest t

unfoldable pub reset_tx : TxState → TxState
unfolding reset
reset_tx t = record t { session = reset t.session }
