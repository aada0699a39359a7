-- ===== src/Action/ClaimAll.antt =====
-- frontend-explorer/components/tx/ClaimAllAction.tsx: the button that claims the yield of all
-- positions, which is the button of an action with something more to do on success.
pub mod OneCall
use gally.Prelude.{
  ℕ, Bool, true, false, Option, none, some, List, [], ◌++◌, Text, text, decimal, ltb, map,
  if◌then◌else◌,
}
use gally.Prelude.Number.{Number}
use gally.Tx.Lifecycle.{TxResult}
use gally.Tx.Intents.{TxIntent, claim_rewards}
use gally.Store.Local.{Storage}
use gally.Store.Optimistic.{mark_applied}
use gally.Action.{Dialog, handle_run, resume_dialog}
use gally.Session.Driver.{Driver, Running, start_run, resume_run}

pub record ClaimAll : Type 0 where
  pub total : Number
  pub positions : ℕ
  pub asset_ids : List Text
  pub primary_asset_id : Text
  pub primary_asset_name : Text

unfoldable pub claim_all_intent : ClaimAll → TxIntent
unfolding decimal
claim_all_intent c = claim_rewards (record {
  asset_id = c.primary_asset_id;
  asset_name =
      if ltb 1 c.positions then decimal c.positions ++ text " positions" else c.primary_asset_name;
  amount = c.total;
})

abbrev pub claim_key : Text → Text
claim_key id = text "claim:" ++ id

-- `onSuccess`
unfoldable pub all_claimed : ClaimAll → Storage Text → Storage Text
unfolding mark_applied
all_claimed c s = (mark_applied (map claim_key c.asset_ids) s).0

-- `onSuccess` after `applyOptimistic`
abbrev pub succeeded : ClaimAll → Option TxResult → Storage Text → Storage Text
unfolding all_claimed
succeeded c none s = s
succeeded c (some res) s = if res.ok then all_claimed c s else s

-- A confirmed run of the button, up to its first await, and from one await to the next.
unfoldable pub run_claim_all : Driver → ClaimAll → Dialog → Dialog
unfolding claim_all_intent all_claimed handle_run start_run
run_claim_all driver c d =
    let after = handle_run driver (λ v. claim_all_intent c) none true true d in
    let (t, o) = start_run driver (claim_all_intent c) d.tx in
    record after { applied = succeeded c o after.applied }

unfoldable pub resume_claim_all : Driver → ClaimAll → Running → Dialog → Dialog
unfolding claim_all_intent all_claimed resume_dialog resume_run
resume_claim_all driver c r d =
    let after = resume_dialog driver (λ v. claim_all_intent c) none true true r d in
    let (t, o) = resume_run driver r d.tx in record after { applied = succeeded c o after.applied }
