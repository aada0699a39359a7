-- ===== src/Tx/Live.antt =====
-- `executeIntentLive` of frontend-explorer/lib/tx/executorLive.ts. The wallet is a parameter: it
-- signs and submits a transaction and answers with a digest, or throws.
pub mod Laws
use gally.Prelude.{Option, none, some, List, [], ◌∷◌, Text}
use gally.Tx.Intents.{TxIntent, validate_intent}
use gally.Tx.Lifecycle.{
  TxLifecycle, TxResult, building, signing, pending, success, at, at_digest, failed_with, ok_result,
  error_result,
}
use gally.Tx.Plan.{BuildCtx, Built, built, build_error, ◌>>=◌, build_plan}
use gally.Tx.Transaction.{Command, plan_to_transaction}
use gally.Tx.Humanize.{humanize_error}

pub data Answer : Type 0 where
  submitted threw : Text → Answer

pub data LiveEffect : Type 0 where
  report : TxLifecycle → LiveEffect
  ask_wallet : List Command → LiveEffect

module _ (ctx : BuildCtx) where
  unfoldable pub compile : TxIntent → Built (List Command)
  compile intent = do p ← build_plan ctx intent; plan_to_transaction ctx p

  module _ (wallet : List Command → Answer) where
    abbrev after_wallet : Answer → List LiveEffect × TxResult
    after_wallet (submitted digest) = (
      report (at_digest pending digest) ∷ report (at_digest success digest) ∷ [],
      ok_result digest,
    )
    after_wallet (threw e) =
        (report (failed_with (humanize_error e)) ∷ [], error_result (humanize_error e))

    abbrev after_build : Built (List Command) → List LiveEffect × TxResult
    after_build (built tx) =
        let (es, r) = after_wallet (wallet tx) in (report (at signing) ∷ ask_wallet tx ∷ es, r)
    after_build (build_error e) =
        (report (failed_with (humanize_error e)) ∷ [], error_result (humanize_error e))

    unfoldable pub execute_intent_live : TxIntent → List LiveEffect × TxResult
    execute_intent_live intent = elim (validate_intent intent) [
      | some invalid ↦ (report (failed_with invalid) ∷ [], error_result invalid)
      | none ↦ let (es, r) = after_build (compile intent) in (report (at building) ∷ es, r)
    ]
