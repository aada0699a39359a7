-- ===== src/Tx/Executor/Runs.antt =====
-- What an executor promises: its reports run through the states of a transaction in order, and the
-- last report says what the result says.
use gally.Prelude.{
  true, false, ◌≡◌, refl, ◌↔◌, ◌⊎◌, inl, inr, none, some, List, [], ◌∷◌, Text, arith, last?,
  Option-cases, Bool-cases, ℕ,
}
use gally.Tx.Intents.{TxIntent, validate_intent}
use gally.Tx.Lifecycle.{
  TxStatus, idle, building, signing, pending, success, TxLifecycle, TxResult, at, at_digest,
  failed_with, ok_result, error_result,
}
use gally.Tx.Executor.{
  Effect, step, sleep, ExecuteOpts, wait, execute_valid, execute_intent, mock_digest,
}

-- The reports that may follow a state, and the result that they come with. A failure is reported
-- from any state before the wallet has submitted the transaction.
pub data Run : TxStatus → List TxLifecycle → TxResult → Type 0 where
  invalid : (e : Text) → Run idle (failed_with e ∷ []) (error_result e)
  build : {ls : List TxLifecycle} {r : TxResult} → Run building ls r → Run idle (at building ∷ ls) r
  unbuilt : (e : Text) → Run building (failed_with e ∷ []) (error_result e)
  sign :
      {ls : List TxLifecycle} {r : TxResult} → Run signing ls r → Run building (at signing ∷ ls) r
  refused : (e : Text) → Run signing (failed_with e ∷ []) (error_result e)
  submit : (d : Text) → Run signing (at_digest pending d ∷ at_digest success d ∷ []) (ok_result d)

-- The reports among the effects.
abbrev pub reports : List Effect → List TxLifecycle
reports [] = []
reports (step l ∷ es) = l ∷ reports es
reports (sleep ms ∷ es) = reports es

reports-wait : (o : ExecuteOpts) (ms : ℕ) (es : List Effect) → reports (wait o ms es) ≡ reports es
unfolding wait
reports-wait o ms es = elim (Bool-cases o.instant) [ inl e ↦ simp e | inr e ↦ simp e ]

module _ (json : TxIntent → Text) where
  execute_valid-Run :
      (i : TxIntent) (o : ExecuteOpts)
      → let (es, r) = execute_valid json i o in Run idle (reports es) r
  unfolding execute_valid
  execute_valid-Run i o = elim (Bool-cases o.force_error) [
    | inl e ↦ simp (e, reports-wait) (build (sign (refused _)))
    | inr e ↦ simp (e, reports-wait) (build (sign (submit _)))
  ]

  -- Whatever the intent and the options, the reports are one run of the life cycle from idle, and
  -- the result is that of the last report.
  pub execute_intent-Run :
      (i : TxIntent) (o : ExecuteOpts)
      → let (es, r) = execute_intent json i o in Run idle (reports es) r
  unfolding execute_intent
  execute_intent-Run i o = elim (Option-cases (validate_intent i)) [
    | inl e ↦ rw (e, execute_intent) (execute_valid-Run i o)
    | inr (w, e) ↦ rw (e, execute_intent) (invalid w)
  ]

-- The last report of a run, whatever it began from.
abbrev FinalReport : TxResult → TxLifecycle → Type 0
FinalReport r l =
    ((r.ok ≡ true) × (l.status ≡ success) × (l.digest ≡ r.digest))
    ⊎ ((r.ok ≡ false) × (l.status ≡ TxStatus.error) × (l.error ≡ r.error))

Run-nonempty : {s : TxStatus} {r : TxResult} → ¬ Run s [] r
Run-nonempty run = elim run [ ]

Run-last :
    {s : TxStatus} {ls : List TxLifecycle} {r : TxResult}
    → Run s ls r
    → (l : TxLifecycle) × (last? ls ≡ some l) × FinalReport r l
Run-last (invalid e) = (failed_with e, refl, inr (refl, refl, refl))
Run-last (unbuilt e) = (failed_with e, refl, inr (refl, refl, refl))
Run-last (refused e) = (failed_with e, refl, inr (refl, refl, refl))
Run-last (submit d) = (at_digest success d, refl, inl (refl, refl, refl))
Run-last (build {ls = l ∷ ls} run) = Run-last run
Run-last (build {ls = []} run) = absurd (Run-nonempty run)
Run-last (sign {ls = l ∷ ls} run) = Run-last run
Run-last (sign {ls = []} run) = absurd (Run-nonempty run)

module _ (json : TxIntent → Text) where
  -- A call succeeds exactly when the intent is valid and the wallet is not made to refuse, and then
  -- the result carries the digest of the intent.
  pub execute_intent-ok_iff :
      (i : TxIntent) (o : ExecuteOpts)
      → ((execute_intent json i o).1 ≡ ok_result (mock_digest json i))
        ↔ ((validate_intent i ≡ none) × (o.force_error ≡ false))
  unfolding execute_intent execute_valid
  execute_intent-ok_iff i o = elim (Option-cases (validate_intent i)) [
    | inl e ↦ ground arith
    | inr (w, e) ↦ ground arith
  ]
