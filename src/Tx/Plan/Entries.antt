-- ===== src/Tx/Plan/Entries.antt =====
-- The entry function that the confirmation of an intent shows is the one that its plan calls.
use gally.Prelude.{◌≡◌, refl, some, Text, last?}
use gally.Tx.Intents.{
  TxIntent, contribute, claim_shares, refund, claim_rewards, split, wrap, unwrap, raise_dispute,
  crank, intent_entry,
}
use gally.Tx.Plan.{
  BuildCtx, MoveCallPlan, TxPlan, built, asset_ref, accumulator_ref, token_ref, receipt_ref,
  share_ref, target_of, build_plan,
}
use gally.Tx.Plan.Rules.{OnBuilt, OnBuilt-need, OnBuilt-at}

abbrev pub IsCrank : TxIntent → Type 0
IsCrank (crank i) = Unit
IsCrank _ = ⊥

-- The last call of the plan has the target.
abbrev pub LastCalls : Text → TxPlan → Type 0
LastCalls target p = (c : MoveCallPlan) × (last? p.calls ≡ some c) × (c.target ≡ target)

module _ (ctx : BuildCtx) where
  plan-LastCalls :
      (i : TxIntent)
      → ¬ IsCrank i
      → OnBuilt (LastCalls (target_of ctx (intent_entry i))) (build_plan ctx i)
  unfolding build_plan intent_entry
  plan-LastCalls (contribute i) n = OnBuilt-need _ (asset_ref ctx) _ _ λ a e. (_, refl, refl)
  plan-LastCalls (refund i) n =
      OnBuilt-need _ (asset_ref ctx) _ _
        λ a e. OnBuilt-need _ (receipt_ref ctx) _ _ λ r f. (_, refl, refl)
  plan-LastCalls (claim_shares i) n = OnBuilt-need _ (token_ref ctx) _ _ λ t e.
      OnBuilt-need _ (asset_ref ctx) _ _ λ a f.
        OnBuilt-need _ (accumulator_ref ctx) _ _
          λ c g. OnBuilt-need _ (receipt_ref ctx) _ _ λ r h. (_, refl, refl)
  plan-LastCalls (claim_rewards i) n = OnBuilt-need _ (token_ref ctx) _ _ λ t e.
      OnBuilt-need _ (accumulator_ref ctx) _ _
        λ c f. OnBuilt-need _ (share_ref ctx) _ _ λ s g. (_, refl, refl)
  plan-LastCalls (wrap i) n = OnBuilt-need _ (token_ref ctx) _ _ λ t e.
      OnBuilt-need _ (accumulator_ref ctx) _ _
        λ c f. OnBuilt-need _ (share_ref ctx) _ _ λ s g. (_, refl, refl)
  plan-LastCalls (unwrap i) n =
      OnBuilt-need _ (token_ref ctx) _ _
        λ t e. OnBuilt-need _ (accumulator_ref ctx) _ _ λ c f. (_, refl, refl)
  plan-LastCalls (split i) n = OnBuilt-need _ (share_ref ctx) _ _ λ s e. (_, refl, refl)
  plan-LastCalls (raise_dispute i) n = OnBuilt-need _ (token_ref ctx) _ _ λ t e.
      OnBuilt-need _ (asset_ref ctx) _ _
        λ a f. OnBuilt-need _ (accumulator_ref ctx) _ _ λ c g. (_, refl, refl)
  plan-LastCalls (crank i) n = absurd (n tt)

-- The plan of an intent that is no crank ends with a call of the entry function that the
-- confirmation shows, in the package of the context.
build_plan-LastCalls :
    (ctx : BuildCtx) (i : TxIntent) (p : TxPlan)
    → ¬ IsCrank i
    → build_plan ctx i ≡ built p
    → LastCalls (target_of ctx (intent_entry i)) p
build_plan-LastCalls ctx i p n e =
    OnBuilt-at (LastCalls (target_of ctx (intent_entry i))) (build_plan ctx i) p e
      (plan-LastCalls ctx i n)
