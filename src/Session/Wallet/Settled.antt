-- ===== src/Session/Wallet/Settled.antt =====
-- Whether a run through the wallet comes to an end that the user sees.
use gally.Prelude.{
  ◌≡◌, refl, ◌∙◌, Bool, true, false, ◌&&◌, ℕ, Option, none, some, List, [], ◌∷◌, Text, nonempty,
  if◌then◌else◌,
}
use gally.Tx.Intents.{TxIntent}
use gally.Tx.Lifecycle.{TxStatus, building, success, error, TxLifecycle, TxResult, is_busy}
use gally.Tx.Plan.{BuildCtx}
use gally.Tx.Executor.Runs.{Run}
use gally.Tx.Executor.Runs
use gally.Tx.Transaction.{Command}
use gally.Tx.Context.{Reader, TxConfig}
use gally.Tx.Context.Build.{build_ctx}
use gally.Tx.Live.{Answer, LiveEffect, report, ask_wallet, execute_intent_live}
use gally.Tx.Live.Laws.{reports, execute_intent_live-Run}
use gally.Store.Notifications.{push_notification}
use gally.Session.{Session, notification_for}
use gally.Session.Wallet.{
  LiveRun, finished, thrown, status_after, with_context, with_account, run_live,
}

abbrev pub outcome_status : TxResult → TxStatus
outcome_status r = if r.ok then success else error

abbrev pub status_in : TxStatus → List TxLifecycle → TxStatus
status_in s [] = s
status_in s (l ∷ ls) = status_in l.status ls

pub status_after-reports :
    (s : TxStatus) (es : List LiveEffect) → status_after s es ≡ status_in s (reports es)
status_after-reports s [] = refl
status_after-reports s (report l ∷ es) = status_after-reports l.status es
status_after-reports s (ask_wallet tx ∷ es) = status_after-reports s es

-- A run ends in the status of its result, whatever the status was before.
pub Run-status :
    {s : TxStatus} {ls : List TxLifecycle} {r : TxResult} (t : TxStatus)
    → Run s ls r
    → status_in t ls ≡ outcome_status r
Run-status t (Runs.invalid e) = refl
Run-status t (Runs.build n) = Run-status building n
Run-status t (Runs.unbuilt e) = refl
Run-status t (Runs.sign n) = Run-status _ n
Run-status t (Runs.refused e) = refl
Run-status t (Runs.submit d) = refl

abbrev pub is_configured : TxConfig → Bool
is_configured c = nonempty c.package_id && nonempty c.config_id

-- The run came to a result; the status says which, and the entry was pushed to the bell.
abbrev pub IsSettled : ℕ → TxIntent → Session → LiveRun → Type 0
IsSettled clock i s (finished t r) =
    (t.status ≡ outcome_status r)
    × (t.result ≡ some r)
    × (t.bell ≡ push_notification (notification_for clock i r) s.bell)
IsSettled clock i s (thrown t) = ⊥

-- The run threw: the status stays on building, with no result and no entry.
abbrev pub IsStuck : Session → LiveRun → Type 0
IsStuck s (finished t r) = ⊥
IsStuck s (thrown t) = (is_busy t.status ≡ true) × (t.result ≡ none) × (t.bell ≡ s.bell)

-- Whether a run settles: there is no account, or the ids are set.
abbrev pub settles : Option Text → TxConfig → Bool
settles none c = true
settles (some sender) c = is_configured c

abbrev pub Ends : Bool → ℕ → TxIntent → Session → LiveRun → Type 0
Ends true clock i s = IsSettled clock i s
Ends false clock i s = IsStuck s

module _ (reader : Reader) (config : TxConfig) (wallet : List Command → Answer) (clock : ℕ) where
  context-IsSettled :
      (i : TxIntent) (s : Session) (ctx : BuildCtx)
      → IsSettled clock i s (with_context reader config wallet clock i s (some ctx))
  context-IsSettled i s ctx =
      let (es, res) = execute_intent_live ctx wallet i in
      (
        status_after-reports building es
            ∙ Run-status building (execute_intent_live-Run ctx wallet i),
        refl,
        refl,
      )

  account-Ends :
      (i : TxIntent) (s : Session) (sender : Text) (b c : Bool)
      → nonempty config.package_id ≡ b
      → nonempty config.config_id ≡ c
      → Ends (b && c) clock i s (with_account reader config wallet clock i s (some sender))
  unfolding build_ctx is_busy
  account-Ends i s sender true true e f = rw (e, f) (context-IsSettled i s _)
  account-Ends i s sender true false e f = rw (e, f) (refl, refl, refl)
  account-Ends i s sender false c e f = rw e (refl, refl, refl)

  -- A run with no account, or with the ids of the package and of its configuration set, settles: it
  -- ends in success or error as its result says, and its entry is pushed to the bell. With an account
  -- and one of the ids empty it throws, and the status stays on building with no result and no entry.
  pub run_live-Ends :
      (account : Option Text) (i : TxIntent) (s : Session)
      → Ends (settles account config) clock i s (run_live reader config wallet clock account i s)
  unfolding run_live
  run_live-Ends none i s = (refl, refl, refl)
  run_live-Ends (some sender) i s = account-Ends i s sender _ _ refl refl
