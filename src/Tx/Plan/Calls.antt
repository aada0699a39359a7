-- ===== src/Tx/Plan/Calls.antt =====
-- What it is for a planned call to be one of the contract's entry functions, and that the calls of the
-- verbs of investors, holders and challengers are.
use gally.Prelude.{
  ◌≡◌, refl, false, Option, none, some, List, [], ◌∷◌, Text, length, All, ◌otherwise◌,
}
use gally.Tx.Intents.{
  AssetIntent, TokenIntent, DisputeIntent, TxIntent, contribute, claim_shares, refund,
  claim_rewards, split, wrap, unwrap, raise_dispute, crank,
}
use gally.Tx.Plan.{
  BuildCtx, PlanArg, shared, owned, clock, pure_u64, pure_bytes, coin, result, usdc, token,
  MoveCallPlan, TxPlan, asset_ref, accumulator_ref, pool_ref, token_ref, receipt_ref, share_ref,
  target_of, build_plan,
}
use gally.Tx.Plan.Moves
use gally.Tx.Plan.Rules.{OnBuilt, OnBuilt-need}
use gally.Tx.Plan.Moves.{
  MoveType, Param, by_ref, by_value, EntryFunction, entry_name, type_params, params,
}

-- The objects that an intent is about in a context: a dispute names its pool itself, and the
-- dispute that a crank resolves is the one of the context or else its target.
abbrev pub pool_for : TxIntent → BuildCtx → Option Text
pool_for (raise_dispute i) ctx = some i.pool_id
pool_for _ ctx = pool_ref ctx

abbrev pub dispute_for : TxIntent → BuildCtx → Option Text
dispute_for (crank i) ctx = some (ctx.dispute_id otherwise i.target_id)
dispute_for _ ctx = none

abbrev pub object_for : TxIntent → BuildCtx → MoveType → Option Text
object_for i ctx MoveType.asset = asset_ref ctx
object_for i ctx MoveType.pool = pool_for i ctx
object_for i ctx MoveType.accumulator = accumulator_ref ctx
object_for i ctx MoveType.config = some ctx.config_id
object_for i ctx MoveType.dispute = dispute_for i ctx
object_for i ctx MoveType.receipt = receipt_ref ctx
object_for i ctx MoveType.share = share_ref ctx
object_for i ctx _ = none

-- An argument serves a parameter. A shared object is passed as mutable exactly where the contract
-- takes it so; the result of an earlier call serves for the evidence.
abbrev pub Fits : TxIntent → BuildCtx → PlanArg → Param → Type 0
Fits i ctx (shared id m) (by_ref m' t) = (m ≡ m') × (object_for i ctx t ≡ some id)
Fits i ctx (owned id) (by_ref m t) = object_for i ctx t ≡ some id
Fits i ctx (owned id) (by_value t) = object_for i ctx t ≡ some id
Fits i ctx clock (by_ref m MoveType.clock) = m ≡ false
Fits i ctx (pure_u64 n) (by_value MoveType.u64) = Unit
Fits i ctx (pure_bytes s e) (by_value MoveType.bytes) = Unit
Fits i ctx (coin usdc n) (by_value MoveType.coin_usdc) = Unit
Fits i ctx (coin token n) (by_value MoveType.coin_token) = Unit
Fits i ctx (result n) (by_value MoveType.walrus_ref) = Unit
Fits i ctx _ _ = ⊥

abbrev pub FitAll : TxIntent → BuildCtx → List PlanArg → List Param → Type 0
FitAll i ctx [] [] = Unit
FitAll i ctx (a ∷ rest) (p ∷ ps) = Fits i ctx a p × FitAll i ctx rest ps
FitAll i ctx _ _ = ⊥

-- The call is one of the entry function.
pub record Calls (i : TxIntent) (ctx : BuildCtx) (f : EntryFunction) (c : MoveCallPlan)
    : Type 0 where
  pub target : c.target ≡ target_of ctx (entry_name f)
  pub types : length c.type_arguments ≡ type_params f
  pub fit : FitAll i ctx c.args (params f)

abbrev pub Conforms : TxIntent → BuildCtx → MoveCallPlan → Type 0
Conforms i ctx c = (f : EntryFunction) × Calls i ctx f c

abbrev pub AllConform : TxIntent → BuildCtx → TxPlan → Type 0
AllConform i ctx p = All (Conforms i ctx) p.calls

module _ (ctx : BuildCtx) where
  pub contribute-conforms :
      (i : AssetIntent) → OnBuilt (AllConform (contribute i) ctx) (build_plan ctx (contribute i))
  unfolding build_plan entry_name type_params params
  contribute-conforms i = OnBuilt-need _ (asset_ref ctx) _ _ λ a e_a. (
    (
      Moves.contribute_capital,
      record { target = refl; types = refl; fit = ((refl, e_a), ((refl, refl), (refl, (tt, tt)))) },
    ),
    tt,
  )

  pub refund-conforms :
      (i : AssetIntent) → OnBuilt (AllConform (refund i) ctx) (build_plan ctx (refund i))
  unfolding build_plan entry_name type_params params
  refund-conforms i = OnBuilt-need _ (asset_ref ctx) _ _ λ a e_a.
      OnBuilt-need _ (receipt_ref ctx) _ _ λ r e_r. (
        (
          Moves.refund_contribution,
          record { target = refl; types = refl; fit = ((refl, e_a), ((refl, refl), (e_r, tt))) },
        ),
        tt,
      )

  pub claim_shares-conforms :
      (i : AssetIntent)
      → OnBuilt (AllConform (claim_shares i) ctx) (build_plan ctx (claim_shares i))
  unfolding build_plan entry_name type_params params
  claim_shares-conforms i = OnBuilt-need _ (token_ref ctx) _ _ λ t e_t.
      OnBuilt-need _ (asset_ref ctx) _ _ λ a e_a. OnBuilt-need _ (accumulator_ref ctx) _ _ λ c e_c.
        OnBuilt-need _ (receipt_ref ctx) _ _ λ r e_r. (
          (
            Moves.claim_shares,
            record {
              target = refl;
              types = refl;
              fit = ((refl, e_a), ((refl, e_c), ((refl, refl), (e_r, (refl, tt)))));
            },
          ),
          tt,
        )

  pub claim_rewards-conforms :
      (i : AssetIntent)
      → OnBuilt (AllConform (claim_rewards i) ctx) (build_plan ctx (claim_rewards i))
  unfolding build_plan entry_name type_params params
  claim_rewards-conforms i = OnBuilt-need _ (token_ref ctx) _ _ λ t e_t.
      OnBuilt-need _ (accumulator_ref ctx) _ _ λ c e_c. OnBuilt-need _ (share_ref ctx) _ _ λ s e_s.
        (
          (
            Moves.claim_rewards,
            record { target = refl; types = refl; fit = ((refl, e_c), (e_s, tt)) },
          ),
          tt,
        )

  pub wrap-conforms :
      (i : TokenIntent) → OnBuilt (AllConform (wrap i) ctx) (build_plan ctx (wrap i))
  unfolding build_plan entry_name type_params params
  wrap-conforms i = OnBuilt-need _ (token_ref ctx) _ _ λ t e_t.
      OnBuilt-need _ (accumulator_ref ctx) _ _ λ c e_c. OnBuilt-need _ (share_ref ctx) _ _ λ s e_s.
        (
          (
            Moves.wrap_shares,
            record {
              target = refl;
              types = refl;
              fit = ((refl, e_c), ((refl, refl), (e_s, (refl, tt))));
            },
          ),
          tt,
        )

  pub unwrap-conforms :
      (i : TokenIntent) → OnBuilt (AllConform (unwrap i) ctx) (build_plan ctx (unwrap i))
  unfolding build_plan entry_name type_params params
  unwrap-conforms i = OnBuilt-need _ (token_ref ctx) _ _ λ t e_t.
      OnBuilt-need _ (accumulator_ref ctx) _ _ λ c e_c. (
        (
          Moves.unwrap_coins,
          record { target = refl; types = refl; fit = ((refl, e_c), (tt, (refl, tt))) },
        ),
        tt,
      )

  pub split-conforms :
      (i : AssetIntent) → OnBuilt (AllConform (split i) ctx) (build_plan ctx (split i))
  unfolding build_plan entry_name type_params params
  split-conforms i = OnBuilt-need _ (share_ref ctx) _ _ λ s e_s.
      ((Moves.split_share, record { target = refl; types = refl; fit = (e_s, (tt, tt)) }), tt)

  pub raise_dispute-conforms :
      (i : DisputeIntent)
      → OnBuilt (AllConform (raise_dispute i) ctx) (build_plan ctx (raise_dispute i))
  unfolding build_plan entry_name type_params params
  raise_dispute-conforms i = OnBuilt-need _ (token_ref ctx) _ _ λ t e_t.
      OnBuilt-need _ (asset_ref ctx) _ _ λ a e_a. OnBuilt-need _ (accumulator_ref ctx) _ _ λ c e_c.
        (
          (Moves.new_walrus_ref, record { target = refl; types = refl; fit = (tt, (tt, tt)) }),
          (
            (
              Moves.initialize_dispute,
              record {
                target = refl;
                types = refl;
                fit = (
                  (refl, e_a),
                  ((refl, refl), ((refl, e_c), ((refl, refl), (tt, (tt, (tt, (refl, tt))))))),
                );
              },
            ),
            tt,
          ),
        )
