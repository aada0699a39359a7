-- ===== src/Session/Driver/Whole.antt =====
-- A run from one await to the next against a whole run.
use gally.Prelude.{
  arith, ℕ, ◌≡◌, ◌≢◌, refl, ◌∙◌, Bool, true, Option, none, some, List, [], ◌∷◌, Text, nonempty,
}
use gally.Tx.Intents.{TxIntent}
use gally.Tx.Lifecycle.{TxStatus, TxResult}
use gally.Tx.Plan.{BuildCtx}
use gally.Tx.Executor.Runs.{execute_intent-Run}
use gally.Tx.Lifecycle.{building}
use gally.Tx.Live.{execute_intent_live}
use gally.Tx.Live.Laws.{execute_intent_live-Run}
use gally.Session.Wallet.{no_account, finished, with_context, run_live, status_after}
use gally.Tx.Executor.{Effect, step, sleep, ExecuteOpts, execute_intent}
use gally.Tx.Executor.Runs
use gally.Tx.Transaction.{Command}
use gally.Tx.Context.{Reader, TxConfig}
use gally.Tx.Context.Build.{build_ctx}
use gally.Tx.Live.{Answer}
use gally.Store.Notifications.{push_notification}
use gally.Session.{Session, notification_for, run, last_status}
use gally.Session.Wallet.Settled.{
  settles, status_after-reports, status_in, outcome_status, Run-status, is_configured,
}
use gally.Session.Driver.{
  Driver, mock, live, clock_of, live_result, context_of, reported, ended, TxState, advance,
}
use gally.Session.Driver.Fit.{IsCourse, reported-IsCourse}

-- The whole course, one await after the other.
abbrev pub play : Driver → TxIntent → List TxStatus → TxState → TxState
play driver i [] t = t
play driver i (s ∷ []) t = (advance driver i (s ∷ []) t).0
play driver i (s ∷ u ∷ rest) t = play driver i (u ∷ rest) (advance driver i (s ∷ u ∷ rest) t).0

-- What a run with a result leaves.
abbrev left_by : Driver → TxIntent → TxResult → Session → TxState
left_by driver i r s = record {
  session = record {
    status = outcome_status r;
    result = some r;
    bell = push_notification (notification_for (clock_of driver) i r) s.bell;
  };
  running = none;
}

play-left :
    (driver : Driver) (i : TxIntent) (ss : List TxStatus) (r : TxResult) (t : TxState)
    → ended driver i ≡ some r
    → IsCourse (some r) ss
    → play driver i ss t ≡ left_by driver i r t.session
play-left driver i [] r t e c = absurd c
play-left driver i (s ∷ []) r t e c = rw (e, c) refl
play-left driver i (s ∷ u ∷ rest) r t e c =
    play-left driver i (u ∷ rest) r (advance driver i (s ∷ u ∷ rest) t).0 e c.1

last_status-reports :
    (s : TxStatus) (es : List Effect) → last_status s es ≡ status_in s (Runs.reports es)
last_status-reports s [] = refl
last_status-reports s (step l ∷ es) = last_status-reports l.status es
last_status-reports s (sleep ms ∷ es) = last_status-reports s es

course :
    (driver : Driver) (i : TxIntent) (r : TxResult)
    → ended driver i ≡ some r
    → IsCourse (some r) (reported driver i)
course driver i r e = let c = reported-IsCourse driver i in rw e at c

module _ (json : TxIntent → Text) (clock : ℕ) (opts : ExecuteOpts) where
  -- From one await to the next, a run of the mock driver comes to the state that a whole run gives.
  pub play-run :
      (i : TxIntent) (t : TxState)
      → (play (mock json clock opts) i (reported (mock json clock opts) i) t).session
        ≡ (run json clock i opts t.session).0
  unfolding reported ended run
  play-run i t =
      let (es, r) = execute_intent json i opts in
      let driver = mock json clock opts in
      let ends : last_status t.session.status es ≡ outcome_status r =
        last_status-reports t.session.status es
        ∙ Run-status t.session.status (execute_intent-Run json i opts) in
      let left : play driver i (reported driver i) t ≡ left_by driver i r t.session =
        play-left driver i (reported driver i) r t refl (reported-IsCourse driver i) in
      rw (left, ends) refl

module _ (reader : Reader) (config : TxConfig) (wallet : List Command → Answer) (clock : ℕ) where
  context-left :
      (account : Option Text) (i : TxIntent) (s : Session) (o : Option BuildCtx) (r : TxResult)
      → live_result wallet i o ≡ some r
      → with_context reader config wallet clock i s o
        ≡ finished (left_by (live reader config wallet clock account) i r s).session r
  context-left account i s none r e = cc
  context-left account i s (some ctx) r e =
      let (es, res) = execute_intent_live ctx wallet i in
      let ends : status_after building es ≡ outcome_status res =
        status_after-reports building es
        ∙ Run-status building (execute_intent_live-Run ctx wallet i) in
      let same : res ≡ r = cc in rw (ends, same) refl

  -- From one await to the next, a run of the live driver that returns comes to the state that a whole
  -- run gives, with the same result.
  pub play-run_live :
      (account : Option Text) (i : TxIntent) (t : TxState) (r : TxResult)
      → ended (live reader config wallet clock account) i ≡ some r
      → run_live reader config wallet clock account i t.session
        ≡ finished
            (play
              (live reader config wallet clock account)
              i
              (reported (live reader config wallet clock account) i)
              t).session
            r
  unfolding ended run_live
  play-run_live none i t r e = let same : no_account ≡ r = cc in rw⁻¹ same (unfold reported in refl)
  play-run_live (some sender) i t r e =
      let driver = live reader config wallet clock (some sender) in
      let left : play driver i (reported driver i) t ≡ left_by driver i r t.session =
        play-left driver i (reported driver i) r t e (course driver i r e) in
      rw left (context-left (some sender) i t.session (context_of reader config i sender) r e)

-- Whether the runs of a driver return: in mock mode, and in live mode with no account or with the ids
-- of the configuration set.
abbrev pub returns : Driver → Bool
returns (mock json clock opts) = true
returns (live reader config wallet clock account) = settles account config

context-set :
    (config : TxConfig) (wallet : List Command → Answer) (i : TxIntent) (sender : Text)
    (reader : Reader)
    → is_configured config ≡ true
    → live_result wallet i (context_of reader config i sender) ≢ none
unfolding build_ctx
context-set config wallet i sender reader c =
    let a : nonempty config.package_id ≡ true = ground arith in
    let b : nonempty config.config_id ≡ true = ground arith in rw (a, b) (λ e. cc)

pub returns-ended :
    (driver : Driver) → returns driver ≡ true → (i : TxIntent) → ended driver i ≢ none
unfolding ended
returns-ended (mock json clock opts) h i e = cc
returns-ended (live reader config wallet clock none) h i e = cc
returns-ended (live reader config wallet clock (some sender)) h i e =
    context-set config wallet i sender reader h e
