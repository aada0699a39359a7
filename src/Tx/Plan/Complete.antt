-- ===== src/Tx/Plan/Complete.antt =====
-- When a plan is built, and which error stops it.
use gally.Prelude.{◌≡◌, refl, Option, none, some, List, [], ◌∷◌, Text, text}
use gally.Tx.Intents.{
  CrankKind, resolve_dispute, flag_default, abort_failed_raise, sweep_rollover, sweep_compensation,
  CrankIntent, TxIntent, contribute, claim_shares, refund, claim_rewards, split, wrap, unwrap,
  raise_dispute, crank,
}
use gally.Tx.Plan.{
  BuildCtx, Built, built, build_error, need, unresolved, ◌>>=◌, asset_ref, accumulator_ref,
  pool_ref, token_ref, receipt_ref, share_ref, crank_plan, build_plan,
}

-- A reference that a plan needs, and what an error calls it.
abbrev pub Reference : Type 0
Reference = Option Text × Text

module _ (ctx : BuildCtx) where
  abbrev asset : Reference
  asset = (asset_ref ctx, text "asset id")

  abbrev accumulator : Reference
  accumulator = (accumulator_ref ctx, text "accumulator id")

  abbrev pool : Reference
  pool = (pool_ref ctx, text "validator pool id")

  abbrev token : Reference
  token = (token_ref ctx, text "entity token type <T>")

  abbrev receipt : Reference
  receipt = (receipt_ref ctx, text "ContributionReceipt id")

  abbrev share : Reference
  share = (share_ref ctx, text "GallyShare id")

  abbrev pub required_by : CrankKind → List Reference
  required_by sweep_rollover = accumulator ∷ []
  required_by sweep_compensation = accumulator ∷ []
  required_by abort_failed_raise = asset ∷ pool ∷ []
  required_by flag_default = asset ∷ pool ∷ []
  required_by resolve_dispute = token ∷ pool ∷ asset ∷ accumulator ∷ []

  -- What each verb needs, in the order in which the builder asks for it.
  abbrev pub required : TxIntent → List Reference
  required (contribute i) = asset ∷ []
  required (refund i) = asset ∷ receipt ∷ []
  required (claim_shares i) = token ∷ asset ∷ accumulator ∷ receipt ∷ []
  required (claim_rewards i) = token ∷ accumulator ∷ share ∷ []
  required (wrap i) = token ∷ accumulator ∷ share ∷ []
  required (unwrap i) = token ∷ accumulator ∷ []
  required (split i) = share ∷ []
  required (raise_dispute i) = token ∷ asset ∷ accumulator ∷ []
  required (crank i) = required_by i.crank

-- The error about the first reference that is missing.
abbrev pub first_missing : List Reference → Option Text
first_missing [] = none
first_missing ((some v, what) ∷ rest) = first_missing rest
first_missing ((none, what) ∷ rest) = some (unresolved what)

abbrev pub error_of : {A : Type 0} → Built A → Option Text
error_of (built a) = none
error_of (build_error e) = some e

-- `m` is built if all the references are there, and else stops at the first that is missing.
record Stops {B : Type 0} (m : Built B) (refs : List Reference) : Type 0 where
  error : error_of m ≡ first_missing refs

ask :
    {B : Type 0} {o : Option Text} {what : Text} (f : Text → Built B) {rest : List Reference}
    → ((v : Text) → Stops (f v) rest)
    → Stops (need o what >>= f) ((o, what) ∷ rest)
ask {o = none} f h = record { error = refl }
ask {o = some v} f h = record { error = (h v).error }

crank_plan-Stops :
    (ctx : BuildCtx) (i : CrankIntent) (k : CrankKind)
    → Stops (crank_plan ctx i k) (required_by ctx k)
unfolding crank_plan
crank_plan-Stops ctx i sweep_rollover = ask _ λ v. record { error = refl }
crank_plan-Stops ctx i sweep_compensation = ask _ λ v. record { error = refl }
crank_plan-Stops ctx i abort_failed_raise = ask _ λ v. ask _ λ v. record { error = refl }
crank_plan-Stops ctx i flag_default = ask _ λ v. ask _ λ v. record { error = refl }
crank_plan-Stops ctx i resolve_dispute =
    ask _ λ v. ask _ λ v. ask _ λ v. ask _ λ v. record { error = refl }

build_plan-Stops : (ctx : BuildCtx) (i : TxIntent) → Stops (build_plan ctx i) (required ctx i)
unfolding build_plan
build_plan-Stops ctx (contribute i) = ask _ λ v. record { error = refl }
build_plan-Stops ctx (refund i) = ask _ λ v. ask _ λ v. record { error = refl }
build_plan-Stops ctx (claim_shares i) =
    ask _ λ v. ask _ λ v. ask _ λ v. ask _ λ v. record { error = refl }
build_plan-Stops ctx (claim_rewards i) = ask _ λ v. ask _ λ v. ask _ λ v. record { error = refl }
build_plan-Stops ctx (wrap i) = ask _ λ v. ask _ λ v. ask _ λ v. record { error = refl }
build_plan-Stops ctx (unwrap i) = ask _ λ v. ask _ λ v. record { error = refl }
build_plan-Stops ctx (split i) = ask _ λ v. record { error = refl }
build_plan-Stops ctx (raise_dispute i) = ask _ λ v. ask _ λ v. ask _ λ v. record { error = refl }
build_plan-Stops ctx (crank i) = crank_plan-Stops ctx i i.crank

-- A plan is built exactly when every reference that its verb needs is in the context, and otherwise
-- the error names the first that is missing, in the order in which the builder asks.
pub build_plan-error :
    (ctx : BuildCtx) (i : TxIntent) → error_of (build_plan ctx i) ≡ first_missing (required ctx i)
build_plan-error ctx i = (build_plan-Stops ctx i).error
