-- ===== src/Tx/Live/Laws.antt =====
-- What the live executor promises.
use gally.Prelude.{
  ◌≡◌, refl, ◌∙◌, ap, inl, inr, Option, none, some, List, [], ◌∷◌, Text, All, Option-cases,
}
use gally.Tx.Intents.{
  CrankKind, resolve_dispute, flag_default, abort_failed_raise, sweep_rollover, sweep_compensation,
  TxIntent, contribute, claim_shares, refund, claim_rewards, split, wrap, unwrap, raise_dispute,
  crank, validate_intent,
}
use gally.Tx.Lifecycle.{idle, building, signing, TxLifecycle, at, failed_with, error_result}
use gally.Tx.Executor.Runs.{Run}
use gally.Tx.Executor.Runs
use gally.Tx.Plan.{BuildCtx, TxPlan, Built, built, build_error, unresolved, ◌>>=◌, build_plan}
use gally.Tx.Plan.Complete.{
  Reference, required, required_by, first_missing, build_plan-error, error_of,
}
use gally.Tx.Transaction.{Command, plan_to_transaction}
use gally.Tx.Humanize.{humanize_error}
use gally.Tx.Live.{
  Answer, submitted, threw, LiveEffect, report, ask_wallet, compile, after_wallet, after_build,
  execute_intent_live,
}

abbrev pub reports : List LiveEffect → List TxLifecycle
reports [] = []
reports (report l ∷ es) = l ∷ reports es
reports (ask_wallet tx ∷ es) = reports es

-- The transactions that the wallet was asked to sign.
abbrev pub asked : List LiveEffect → List (List Command)
asked [] = []
asked (report l ∷ es) = asked es
asked (ask_wallet tx ∷ es) = tx ∷ asked es

module _ (ctx : BuildCtx) (wallet : List Command → Answer) where
  wallet-Run : (a : Answer) → let (es, r) = after_wallet ctx wallet a in Run signing (reports es) r
  wallet-Run (submitted d) = Runs.submit d
  wallet-Run (threw e) = Runs.refused _

  build-Run :
      (b : Built (List Command))
      → let (es, r) = after_build ctx wallet b in Run building (reports es) r
  build-Run (built tx) = Runs.sign (wallet-Run (wallet tx))
  build-Run (build_error e) = Runs.unbuilt _

  -- Whatever the wallet answers, the reports are one run of the life cycle from idle, and the result
  -- is that of the last report: the live executor keeps the contract of the mock one.
  pub execute_intent_live-Run :
      (i : TxIntent) → let (es, r) = execute_intent_live ctx wallet i in Run idle (reports es) r
  unfolding execute_intent_live
  execute_intent_live-Run i = elim (Option-cases (validate_intent i)) [
    | inl e ↦ rw (e, execute_intent_live) (Runs.build (build-Run (compile ctx i)))
    | inr (w, e) ↦ rw (e, execute_intent_live) (Runs.invalid w)
  ]

  abbrev pub transactions : Option Text → Built (List Command) → List (List Command)
  transactions none (built tx) = tx ∷ []
  transactions _ _ = []

  asked_after : (a : Answer) → asked (after_wallet ctx wallet a).0 ≡ []
  asked_after (submitted d) = refl
  asked_after (threw e) = refl

  asked_build :
      (b : Built (List Command)) → asked (after_build ctx wallet b).0 ≡ transactions none b
  asked_build (built tx) = ap (◌∷◌ tx) (asked_after (wallet tx))
  asked_build (build_error e) = refl

  -- The wallet is asked once for a valid intent whose transaction is built, and for that
  -- transaction; otherwise it is not asked.
  pub asked-execute_intent_live :
      (i : TxIntent)
      → asked (execute_intent_live ctx wallet i).0
        ≡ transactions (validate_intent i) (compile ctx i)
  unfolding execute_intent_live
  asked-execute_intent_live i = elim (Option-cases (validate_intent i)) [
    | inl e ↦ rw (e, execute_intent_live) (asked_build (compile ctx i))
    | inr (w, e) ↦ rw (e, execute_intent_live)
  ]

-- Each message that a builder throws comes through `humanizeError` as it is.
abbrev Unchanged : Reference → Type 0
Unchanged (o, what) = humanize_error (unresolved what) ≡ unresolved what

required_by-Unchanged : (ctx : BuildCtx) (k : CrankKind) → All Unchanged (required_by ctx k)
unfolding humanize_error
required_by-Unchanged ctx sweep_rollover = (refl, tt)
required_by-Unchanged ctx sweep_compensation = (refl, tt)
required_by-Unchanged ctx abort_failed_raise = (refl, (refl, tt))
required_by-Unchanged ctx flag_default = (refl, (refl, tt))
required_by-Unchanged ctx resolve_dispute = (refl, (refl, (refl, (refl, tt))))

required-Unchanged : (ctx : BuildCtx) (i : TxIntent) → All Unchanged (required ctx i)
unfolding humanize_error
required-Unchanged ctx (contribute i) = (refl, tt)
required-Unchanged ctx (refund i) = (refl, (refl, tt))
required-Unchanged ctx (claim_shares i) = (refl, (refl, (refl, (refl, tt))))
required-Unchanged ctx (claim_rewards i) = (refl, (refl, (refl, tt)))
required-Unchanged ctx (wrap i) = (refl, (refl, (refl, tt)))
required-Unchanged ctx (unwrap i) = (refl, (refl, tt))
required-Unchanged ctx (split i) = (refl, tt)
required-Unchanged ctx (raise_dispute i) = (refl, (refl, (refl, tt)))
required-Unchanged ctx (crank i) = required_by-Unchanged ctx i.crank

first_missing-Unchanged :
    (refs : List Reference) (e : Text)
    → All Unchanged refs
    → first_missing refs ≡ some e
    → humanize_error e ≡ e
first_missing-Unchanged [] e u h = cc
first_missing-Unchanged ((some v, what) ∷ rest) e u h = first_missing-Unchanged rest e u.1 h
first_missing-Unchanged ((none, what) ∷ rest) e u h =
    let p : unresolved what ≡ e = cc in rw p at (u.0)

compile-error :
    (ctx : BuildCtx) (i : TxIntent) (e : Text)
    → first_missing (required ctx i) ≡ some e
    → compile ctx i ≡ build_error e
unfolding compile
compile-error ctx i e h = go (build_plan ctx i) (build_plan-error ctx i ∙ h)
  where
    go : (b : Built TxPlan) → error_of b ≡ some e → (b >>= plan_to_transaction ctx) ≡ build_error e
    go (built p) k = absurd (cc)
    go (build_error w) k = cc

-- A valid intent with a reference missing reports that it builds and then that it failed, with the
-- builder's own message about the first missing reference, and never reaches the wallet.
pub execute_intent_live-missing :
    (ctx : BuildCtx) (wallet : List Command → Answer) (i : TxIntent) (e : Text)
    → validate_intent i ≡ none
    → first_missing (required ctx i) ≡ some e
    → execute_intent_live ctx wallet i
      ≡ (report (at building) ∷ report (failed_with e) ∷ [], error_result e)
unfolding execute_intent_live
execute_intent_live-missing ctx wallet i e v h =
    rw (v, compile-error ctx i e h, execute_intent_live)
      (rw (first_missing-Unchanged (required ctx i) e (required-Unchanged ctx i) h))
