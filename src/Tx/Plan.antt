-- ===== src/Tx/Plan.antt =====
-- frontend-explorer/lib/tx/ptb.ts: the calls of the contract that an intent compiles to.
pub mod Moves
pub mod Declared
pub mod Rules
pub mod Calls
pub mod Conforms
pub mod Complete
pub mod Entries
use gally.Prelude.{
  ℕ, ◌*◌, Bool, true, false, Option, none, some, List, [], ◌∷◌, ◌++◌, Text, text, ◌otherwise◌,
  option_bind,
}
use gally.Prelude.Int.{ℤ}
use gally.Prelude.Number.{round_times}
use gally.Tx.Intents.{
  CrankKind, resolve_dispute, flag_default, abort_failed_raise, sweep_rollover, sweep_compensation,
  CrankIntent, DisputeIntent, TxIntent, contribute, claim_shares, refund, claim_rewards, split,
  wrap, unwrap, raise_dispute, crank,
}

abbrev pub micro : ℕ
micro = 1_000_000

pub record AssetCtx : Type 0 where
  pub asset_id : Text
  pub accumulator_id : Option Text
  pub validator_pool_id : Option Text
  pub token_type : Option Text

pub record OwnedRefs : Type 0 where
  pub receipt_id : Option Text
  pub share_id : Option Text
  pub coin_t_id : Option Text
  pub usdc_coin_id : Option Text

pub record BuildCtx : Type 0 where
  pub package_id : Text
  pub config_id : Text
  pub sender : Text
  pub asset : Option AssetCtx
  pub owned : Option OwnedRefs
  pub dispute_id : Option Text

pub data Encoding : Type 0 where
  utf8 hex : Encoding

pub data CoinType : Type 0 where
  usdc token : CoinType

pub data PlanArg : Type 0 where
  shared : Text → Bool → PlanArg
  owned : Text → PlanArg
  clock : PlanArg
  pure_u64 : ℤ → PlanArg
  pure_bytes : Text → Encoding → PlanArg
  coin : CoinType → ℤ → PlanArg
  result : ℕ → PlanArg

pub record MoveCallPlan : Type 0 where
  pub target : Text
  pub type_arguments : List Text
  pub args : List PlanArg

pub record TxPlan : Type 0 where
  pub calls : List MoveCallPlan
  pub transfer_last : Bool

-- What may throw a `BuildError`.
pub data Built {ℓ} (A : Type ℓ) : Type ℓ where
  built : A → Built A
  build_error : Text → Built A

infixl 5 ◌>>=◌
abbrev pub ◌>>=◌ {ℓ κ} : {A : Type ℓ} {B : Type κ} → Built A → (A → Built B) → Built B
built a >>= f = f a
build_error e >>= f = build_error e

abbrev pub unresolved : Text → Text
unresolved what = text "live tx: " ++ what ++ text " is unresolved"

abbrev pub need {ℓ} : {A : Type ℓ} → Option A → Text → Built A
need (some v) what = built v
need none what = build_error (unresolved what)

module _ (ctx : BuildCtx) where
  -- `ctx.asset?.…` and `ctx.owned?.…`
  abbrev pub asset_ref : Option Text
  asset_ref = option_bind ctx.asset (λ a. some a.asset_id)

  abbrev pub accumulator_ref : Option Text
  accumulator_ref = option_bind ctx.asset (λ a. a.accumulator_id)

  abbrev pub pool_ref : Option Text
  pool_ref = option_bind ctx.asset (λ a. a.validator_pool_id)

  abbrev pub token_ref : Option Text
  token_ref = option_bind ctx.asset (λ a. a.token_type)

  abbrev pub receipt_ref : Option Text
  receipt_ref = option_bind ctx.owned (λ o. o.receipt_id)

  abbrev pub share_ref : Option Text
  share_ref = option_bind ctx.owned (λ o. o.share_id)

  abbrev asset_of : Built Text
  asset_of = need asset_ref (text "asset id")

  abbrev acc_of : Built Text
  acc_of = need accumulator_ref (text "accumulator id")

  abbrev pool_of : Built Text
  pool_of = need pool_ref (text "validator pool id")

  abbrev token_type_of : Built Text
  token_type_of = need token_ref (text "entity token type <T>")

  abbrev receipt_of : Built Text
  receipt_of = need receipt_ref (text "ContributionReceipt id")

  abbrev share_of : Built Text
  share_of = need share_ref (text "GallyShare id")

  abbrev config : PlanArg
  config = shared ctx.config_id false

  abbrev pub target_of : Text → Text
  target_of m = ctx.package_id ++ text "::" ++ m

  abbrev call : Text → List Text → List PlanArg → MoveCallPlan
  call m types args = record { target = target_of m; type_arguments = types; args = args }

  abbrev one_call : Bool → Text → List Text → List PlanArg → Built TxPlan
  one_call transfer m types args =
      built (record { calls = call m types args ∷ []; transfer_last = transfer })

  -- `CRANK_TARGET`
  abbrev crank_target : CrankKind → Text
  crank_target resolve_dispute = text "dispute::resolve_dispute"
  crank_target flag_default = text "asset::check_default"
  crank_target abort_failed_raise = text "asset::abort_failed_raise"
  crank_target sweep_rollover = text "accumulator::sweep_rollover"
  crank_target sweep_compensation = text "accumulator::sweep_compensation"

  -- `ctx.asset?.tokenType ? [ctx.asset.tokenType] : []`, where a text is false when it is empty
  abbrev type_list : Option Text → List Text
  type_list none = []
  type_list (some []) = []
  type_list (some (c ∷ s)) = (c ∷ s) ∷ []

  unfoldable pub crank_plan : CrankIntent → CrankKind → Built TxPlan
  crank_plan i sweep_rollover = do
    acc ← acc_of
    one_call false (crank_target sweep_rollover) (type_list token_ref) (shared acc true ∷ [])
  crank_plan i sweep_compensation = do
    acc ← acc_of
    one_call false (crank_target sweep_compensation) (type_list token_ref)
        (shared acc true ∷ clock ∷ [])
  crank_plan i abort_failed_raise = do
    asset ← asset_of
    pool ← pool_of
    one_call false (crank_target abort_failed_raise) []
        (shared asset true ∷ shared pool true ∷ config ∷ clock ∷ [])
  crank_plan i resolve_dispute = do
    type ← token_type_of
    pool ← pool_of
    asset ← asset_of
    acc ← acc_of
    one_call false (crank_target resolve_dispute) (type ∷ []) (
        shared (ctx.dispute_id otherwise i.target_id) true
        ∷ shared pool true
        ∷ shared asset true
        ∷ shared acc true
        ∷ config
        ∷ clock
        ∷ [])
  crank_plan i flag_default = do
    asset ← asset_of
    pool ← pool_of
    one_call false (crank_target flag_default) []
        (shared asset true ∷ shared pool true ∷ config ∷ clock ∷ [])

  abbrev evidence_call : DisputeIntent → MoveCallPlan
  evidence_call i = call (text "asset::new_walrus_ref") [] (
      pure_bytes (i.evidence_blob_id otherwise []) utf8
      ∷ pure_bytes (i.evidence_sha256 otherwise []) hex
      ∷ [])

  unfoldable pub build_plan : TxIntent → Built TxPlan
  unfolding crank_plan
  build_plan (contribute i) = do
    asset ← asset_of
    one_call true (text "asset::contribute_capital") []
        (shared asset true ∷ config ∷ clock ∷ coin usdc (round_times i.amount micro) ∷ [])
  build_plan (refund i) = do
    asset ← asset_of
    receipt ← receipt_of
    one_call true (text "asset::refund_contribution") []
        (shared asset true ∷ config ∷ owned receipt ∷ [])
  build_plan (claim_shares i) = do
    type ← token_type_of
    asset ← asset_of
    acc ← acc_of
    receipt ← receipt_of
    one_call true (text "asset::claim_shares") (type ∷ [])
        (shared asset false ∷ shared acc false ∷ config ∷ owned receipt ∷ clock ∷ [])
  build_plan (claim_rewards i) = do
    type ← token_type_of
    acc ← acc_of
    share ← share_of
    one_call true (text "accumulator::claim_rewards") (type ∷ [])
        (shared acc true ∷ owned share ∷ [])
  build_plan (wrap i) = do
    type ← token_type_of
    acc ← acc_of
    share ← share_of
    one_call true (text "accumulator::wrap_shares") (type ∷ [])
        (shared acc true ∷ config ∷ owned share ∷ clock ∷ [])
  build_plan (unwrap i) = do
    type ← token_type_of
    acc ← acc_of
    one_call true (text "accumulator::unwrap_coins") (type ∷ [])
        (shared acc true ∷ coin token (round_times i.amount micro) ∷ clock ∷ [])
  build_plan (split i) = do
    share ← share_of
    one_call true (text "share::split_share") []
        (owned share ∷ pure_u64 (round_times i.amount micro) ∷ [])
  build_plan (raise_dispute i) = do
    type ← token_type_of
    asset ← asset_of
    acc ← acc_of
    let dispute = call (text "dispute::initialize_dispute") (type ∷ []) (
        shared asset true
        ∷ shared i.pool_id true
        ∷ shared acc false
        ∷ config
        ∷ coin usdc (round_times i.bond micro)
        ∷ result 0
        ∷ pure_bytes (i.reason otherwise text "Challenged via explorer") utf8
        ∷ clock
        ∷ [])
    built (record { calls = evidence_call i ∷ dispute ∷ []; transfer_last = false })
  build_plan (crank i) = crank_plan i i.crank
