-- ===== src/Session/Driver/Fit.antt =====
-- What the status of the hook says of its run.
use gally.Prelude.{◌≡◌, refl, inl, inr, ◌⊎◌, true, false, Option, none, some, List, [], ◌∷◌}
use gally.Tx.Intents.{TxIntent}
use gally.Tx.Lifecycle.{TxStatus, idle, building, signing, TxLifecycle, TxResult, is_busy}
use gally.Tx.Plan.{BuildCtx}
use gally.Tx.Executor.Runs.{Run, execute_intent-Run}
use gally.Tx.Executor.Runs
use gally.Tx.Live.{Answer, execute_intent_live}
use gally.Tx.Live.Laws
use gally.Tx.Live.Laws.{execute_intent_live-Run}
use gally.Tx.Transaction.{Command}
use gally.Session.{Session, reset}
use gally.Session.Wallet.Settled.{outcome_status}
use gally.Session.Driver.{
  Driver, mock, live, statuses, live_statuses, live_result, context_of, reported, ended, Running,
  TxState, settle_run, advance, start_run, resume_run, reset_tx,
}

-- The last status is that of the result, or a busy one where the run throws.
abbrev pub IsLast : Option TxResult → TxStatus → Type 0
IsLast none s = is_busy s ≡ true
IsLast (some r) s = s ≡ outcome_status r

-- All statuses but the last are busy.
abbrev pub IsCourse : Option TxResult → List TxStatus → Type 0
IsCourse o [] = ⊥
IsCourse o (s ∷ []) = IsLast o s
IsCourse o (s ∷ u ∷ rest) = (is_busy s ≡ true) × IsCourse o (u ∷ rest)

IsCourse-cons :
    (o : Option TxResult) (s : TxStatus) (ss : List TxStatus)
    → is_busy s ≡ true
    → IsCourse o ss
    → IsCourse o (s ∷ ss)
IsCourse-cons o s [] b c = absurd c
IsCourse-cons o s (u ∷ us) b c = (b, c)

Run-IsCourse :
    {s : TxStatus} {ls : List TxLifecycle} {r : TxResult}
    → Run s ls r
    → IsCourse (some r) (statuses ls)
unfolding is_busy
Run-IsCourse (Runs.invalid e) = refl
Run-IsCourse (Runs.build {ls = ls} {r = r} n) =
    IsCourse-cons (some r) building (statuses ls) refl (Run-IsCourse n)
Run-IsCourse (Runs.unbuilt e) = refl
Run-IsCourse (Runs.sign {ls = ls} {r = r} n) =
    IsCourse-cons (some r) signing (statuses ls) refl (Run-IsCourse n)
Run-IsCourse (Runs.refused e) = refl
Run-IsCourse (Runs.submit d) = (refl, refl)

live-IsCourse :
    (wallet : List Command → Answer) (i : TxIntent) (o : Option BuildCtx)
    → IsCourse (live_result wallet i o) (live_statuses wallet i o)
unfolding is_busy
live-IsCourse wallet i none = refl
live-IsCourse wallet i (some ctx) =
    let (es, r) = execute_intent_live ctx wallet i in
    IsCourse-cons (some r) building (statuses (Laws.reports es)) refl
      (Run-IsCourse (execute_intent_live-Run ctx wallet i))

pub reported-IsCourse :
    (driver : Driver) (i : TxIntent) → IsCourse (ended driver i) (reported driver i)
unfolding reported ended
reported-IsCourse (mock json clock opts) i = Run-IsCourse (execute_intent-Run json i opts)
reported-IsCourse (live reader config wallet clock none) i = refl
reported-IsCourse (live reader config wallet clock (some sender)) i =
    live-IsCourse wallet i (context_of reader config i sender)

abbrev pub implied_status : Option TxResult → TxStatus
implied_status none = idle
implied_status (some r) = outcome_status r

-- A run threw: the status stays busy, with no result.
pub record IsStuck (driver : Driver) (s : Session) : Type 0 where
  pub busy : is_busy s.status ≡ true
  pub silent : s.result ≡ none
  pub intent : TxIntent
  pub throws : ended driver intent ≡ none

-- A run in flight shows as busy, with no result; else the status is that of the result, or a run
-- threw.
abbrev pub IsFit : Driver → Session → Option Running → Type 0
IsFit driver s (some r) =
    (is_busy s.status ≡ true) × (s.result ≡ none) × IsCourse (ended driver r.intent) r.rest
IsFit driver s none = (s.status ≡ implied_status s.result) ⊎ IsStuck driver s

settle_run-IsFit :
    (driver : Driver) (i : TxIntent) (s : TxStatus) (o : Option TxResult) (t : TxState)
    → t.session.result ≡ none
    → ended driver i ≡ o
    → IsLast o s
    → IsFit driver (settle_run driver i s o t).session (settle_run driver i s o t).running
settle_run-IsFit driver i s none t n e l =
    inr (record { busy = l; silent = n; intent = i; throws = e })
settle_run-IsFit driver i s (some r) t n e l = inl l

advance-IsFit :
    (driver : Driver) (i : TxIntent) (ss : List TxStatus) (t : TxState)
    → t.session.result ≡ none
    → IsCourse (ended driver i) ss
    → IsFit driver (advance driver i ss t).0.session (advance driver i ss t).0.running
advance-IsFit driver i [] t n c = absurd c
advance-IsFit driver i (s ∷ []) t n c = settle_run-IsFit driver i s _ t n refl c
advance-IsFit driver i (s ∷ u ∷ rest) t n c = (c.0, n, c.1)

module _ (driver : Driver) where
  abbrev pub Fits : TxState → Type 0
  Fits t = IsFit driver t.session t.running

  pub start_run-Fits : (i : TxIntent) (t : TxState) → Fits (start_run driver i t).0
  unfolding start_run
  start_run-Fits i t = advance-IsFit driver i _ _ refl (reported-IsCourse driver i)

  pub resume_run-Fits :
      (r : Running) (t : TxState) → t.running ≡ some r → Fits t → Fits (resume_run driver r t).0
  unfolding resume_run
  resume_run-Fits r t e f =
      let g : IsFit driver t.session (some r) = rw e at f in
      advance-IsFit driver r.intent r.rest t g.1 g.2

  -- Where the status is not busy, no run is in flight.
  pub no_run : (t : TxState) → Fits t → is_busy t.session.status ≡ false → t.running ≡ none
  no_run t f b = at_most t.running refl f
    where
      at_most : (o : Option Running) → t.running ≡ o → IsFit driver t.session o → t.running ≡ none
      at_most none e g = e
      at_most (some r) e g = absurd (cc (g.0, b))

  pub reset_tx-Fits : (t : TxState) → Fits t → is_busy t.session.status ≡ false → Fits (reset_tx t)
  unfolding reset_tx reset
  reset_tx-Fits t f b = rw (no_run t f b) (inl refl)
