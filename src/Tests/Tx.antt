-- ===== src/Tests/Tx.antt =====
-- The transaction layer on concrete intents.
use gally.Prelude.{length, ◌≡◌, refl, ◌↔◌, true, false, List, [], ◌∷◌, Text, text, All}
use gally.Tx.Intents.{TxIntent, crank, optimistic_key, validate_intent}
use gally.Tx.Intents.Keys.{Action, action_of, subject_of, optimistic_key_iff}
use gally.Tx.Lifecycle.{idle, building, at, failed_with, error_result}
use gally.Tx.Executor.{ExecuteOpts, execute_intent}
use gally.Tx.Executor.Runs.{Run, reports, execute_intent-Run}
use gally.Tx.Plan.{target_of, TxPlan, Built, built, build_plan}
use gally.Tx.Plan.Complete.{error_of, first_missing, required, build_plan-error}
use gally.Tx.Plan.Calls.{Conforms}
use gally.Tx.Plan.Conforms.{IsUndeclared, build_plan-Conforms, flag_default-IsUndeclared}
use gally.Tx.Transaction.{Command, plan_to_transaction}
use gally.Tx.Transaction.Order.{IsOrdered}
use gally.Tx.Transaction.Scope.{transaction-IsOrdered}
use gally.Tx.Humanize.{humanize_error}
use gally.Tx.Live.{Answer, submitted, report, compile, execute_intent_live}
use gally.Tx.Live.Laws
use gally.Tx.Live.Laws.{
  asked, transactions, execute_intent_live-Run, asked-execute_intent_live,
  execute_intent_live-missing,
}
use gally.Tests.Data.{buy, claim, flagging, context, no_deed}

abort_code :
    humanize_error (text "MoveAbort(MoveLocation { module: a, function: 3 }, 300) in command 0")
    ≡ text "Transaction aborted by the contract (code 300)."
unfolding humanize_error
abort_code = refl

optimistic_key_iff_example :
    (optimistic_key buy ≡ optimistic_key claim)
    ↔ (◌≡◌ {A = Action × Text} (action_of buy, subject_of buy) (action_of claim, subject_of claim))
optimistic_key_iff_example = optimistic_key_iff buy claim

-- A serialiser that writes the key of the intent.
abbrev json : TxIntent → Text
json i = optimistic_key i

abbrev instantly : ExecuteOpts
instantly = record { instant = true; force_error = false }

execute_intent-Run_example :
    let (es, r) = execute_intent json buy instantly in Run idle (reports es) r
execute_intent-Run_example = execute_intent-Run json buy instantly

abbrev plan_or_empty : Built TxPlan → TxPlan
plan_or_empty (built p) = p
plan_or_empty (gally.Tx.Plan.build_error e) = record { calls = []; transfer_last = false }

abbrev claim_plan : TxPlan
unfolding build_plan
claim_plan = plan_or_empty (build_plan context claim)

claim_built : build_plan context claim ≡ built claim_plan
unfolding build_plan claim_plan
claim_built = refl

build_plan-Conforms_example : All (Conforms claim context) claim_plan.calls
build_plan-Conforms_example = build_plan-Conforms context claim claim_plan tt claim_built

abbrev flag_plan : TxPlan
unfolding build_plan
flag_plan = plan_or_empty (build_plan context (crank flagging))

flag_built : build_plan context (crank flagging) ≡ built flag_plan
unfolding build_plan flag_plan
flag_built = refl

flag_default-IsUndeclared_example :
    (length flag_plan.calls ≡ 1) × All (λ c. IsUndeclared context c.target) flag_plan.calls
flag_default-IsUndeclared_example =
    flag_default-IsUndeclared context flagging flag_plan refl flag_built

build_plan-error_example :
    error_of (build_plan no_deed claim) ≡ first_missing (required no_deed claim)
build_plan-error_example = build_plan-error no_deed claim

abbrev commands_or_none : Built (List Command) → List Command
commands_or_none (built cs) = cs
commands_or_none (gally.Tx.Plan.build_error e) = []

abbrev claim_commands : List Command
unfolding plan_to_transaction claim_plan
claim_commands = commands_or_none (plan_to_transaction context claim_plan)

claim_compiled : plan_to_transaction context claim_plan ≡ built claim_commands
unfolding plan_to_transaction claim_commands
claim_compiled = refl

transaction-IsOrdered_example : IsOrdered 0 0 claim_commands
transaction-IsOrdered_example =
    transaction-IsOrdered context claim claim_plan claim_commands claim_built claim_compiled

abbrev wallet : List Command → Answer
wallet cs = submitted (text "9x")

execute_intent_live-Run_example :
    let (es, r) = execute_intent_live context wallet claim in Run idle (Laws.reports es) r
execute_intent_live-Run_example = execute_intent_live-Run context wallet claim

asked-execute_intent_live_example :
    asked (execute_intent_live context wallet claim).0
    ≡ transactions context wallet (validate_intent claim) (compile context claim)
asked-execute_intent_live_example = asked-execute_intent_live context wallet claim

abbrev missing : Text
missing = text "Missing GallyShare id."

execute_intent_live-missing_example : execute_intent_live no_deed wallet claim ≡ (
  report (at building)
      ∷ report (failed_with (gally.Tx.Plan.unresolved (text "GallyShare id")))
      ∷ [],
  error_result (gally.Tx.Plan.unresolved (text "GallyShare id")),
)
unfolding validate_intent
execute_intent_live-missing_example =
    execute_intent_live-missing no_deed wallet claim
      (gally.Tx.Plan.unresolved (text "GallyShare id")) refl refl
