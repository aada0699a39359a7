-- ===== src/Tx/Executor.antt =====
-- `executeIntent` of frontend-explorer/lib/tx/executor.ts. An await is an effect: the callback
-- `onStep` is told a step, or the executor sleeps.
pub mod Runs
use gally.Prelude.{ℕ, Bool, Option, none, some, List, [], ◌∷◌, Text, text, if◌then◌else◌}
use gally.Tx.Intents.{TxIntent, validate_intent}
use gally.Tx.Lifecycle.{
  TxLifecycle, TxResult, building, signing, pending, success, at, at_digest, failed_with, ok_result,
  error_result,
}
use gally.Tx.Digest.{digest_of}

pub data Effect : Type 0 where
  step : TxLifecycle → Effect
  sleep : ℕ → Effect

pub record ExecuteOpts : Type 0 where
  pub instant : Bool
  pub force_error : Bool

-- `wait(ms)` and what follows it
unfoldable pub wait : ExecuteOpts → ℕ → List Effect → List Effect
wait opts ms rest = if opts.instant then rest else sleep ms ∷ rest

-- `JSON.stringify` of an intent is the parameter.
module _ (json : TxIntent → Text) where
  unfoldable pub mock_digest : TxIntent → Text
  mock_digest intent = digest_of (json intent)

  -- the part of the executor after a valid intent
  unfoldable pub execute_valid : TxIntent → ExecuteOpts → List Effect × TxResult
  unfolding mock_digest
  execute_valid intent opts =
      let error = text "Transaction rejected in wallet." in
      let digest = mock_digest intent in
      let rejected = step (failed_with error) ∷ [] in
      let accepted =
        step (at_digest pending digest) ∷ wait opts 700 (step (at_digest success digest) ∷ []) in
      (
        step (at building)
            ∷ wait opts 350 (
                step (at signing)
                ∷ wait opts 550 (if opts.force_error then rejected else accepted)),
        (if opts.force_error then error_result error else ok_result digest),
      )

  unfoldable pub execute_intent : TxIntent → ExecuteOpts → List Effect × TxResult
  unfolding execute_valid
  execute_intent intent opts = elim (validate_intent intent) [
    | some invalid ↦ (step (failed_with invalid) ∷ [], error_result invalid)
    | none ↦ execute_valid intent opts
  ]
