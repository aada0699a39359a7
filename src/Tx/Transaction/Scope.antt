-- ===== src/Tx/Transaction/Scope.antt =====
-- What the commands of a transaction refer to.
use gally.Prelude.{
  ℕ, suc, ◌+◌, ◌≤◌, ◌<◌, ◌≡◌, refl, ◌∙◌, inl, inr, List, [], ◌∷◌, ◌++◌, arith, length, All, lt→ltb,
  Bool-cases, ◌==◌,
}
use native.Mathlib.Nat.{le_refl}
use gally.Tx.Intents.{
  CrankKind, resolve_dispute, flag_default, abort_failed_raise, sweep_rollover, sweep_compensation,
  CrankIntent, TxIntent, contribute, claim_shares, refund, claim_rewards, split, wrap, unwrap,
  raise_dispute, crank,
}
use gally.Tx.Plan.{
  BuildCtx, PlanArg, shared, owned, clock, pure_u64, pure_bytes, coin, result, utf8, hex,
  MoveCallPlan, TxPlan, built, asset_ref, accumulator_ref, pool_ref, token_ref, receipt_ref,
  share_ref, crank_plan, build_plan,
}
use gally.Tx.Plan.Rules.{OnBuilt, OnBuilt-need, OnBuilt-bind, OnBuilt-mono, OnBuilt-at}
use gally.Tx.Transaction.{
  Command, split_coins, move_call, transfer_objects, Builder, resolve_arg, resolve_args, add_calls,
  coin_source, empty_builder, last_result, plan_to_transaction,
}
use gally.Tx.Transaction.Order.{IsThere, IsOrdered, IsSound, IsSound-add, IsThere-mono}

-- The result of an earlier call, among the first `k` calls of a plan.
abbrev InScope : ℕ → PlanArg → Type 0
InScope k (result n) = n < k
InScope k _ = Unit

-- What resolving gives: a sound builder with as many calls as before, and arguments that are there.
abbrev Grown : Builder → Builder → Type 0
Grown b b' = IsSound b' × (b.splits ≤ b'.splits) × (b'.results ≡ b.results)

module _ (ctx : BuildCtx) where
  resolve_arg-Grown :
      (a : PlanArg) (b : Builder)
      → IsSound b
      → InScope b.results a
      → OnBuilt
          (λ done. Grown b done.1 × IsThere done.1.splits b.results done.0)
          (resolve_arg ctx a b)
  unfolding resolve_arg
  resolve_arg-Grown (shared id m) b s h = ((s, le_refl _, refl), tt)
  resolve_arg-Grown (owned id) b s h = ((s, le_refl _, refl), tt)
  resolve_arg-Grown clock b s h = ((s, le_refl _, refl), tt)
  resolve_arg-Grown (pure_u64 n) b s h = ((s, le_refl _, refl), tt)
  resolve_arg-Grown (pure_bytes t hex) b s h = ((s, le_refl _, refl), tt)
  resolve_arg-Grown (pure_bytes t utf8) b s h = ((s, le_refl _, refl), tt)
  resolve_arg-Grown (coin t n) b s h = OnBuilt-need _ (coin_source ctx t) _ _ λ id e. (
    (
      IsSound-add b (split_coins id n) (suc b.splits) b.results s tt (omega arith) (omega arith),
      omega arith,
      refl,
    ),
    omega arith,
  )
  resolve_arg-Grown (result n) b s h = rw (lt→ltb _ _ h) ((s, le_refl _, refl), h)

  resolve_args-Grown :
      (l : List PlanArg) (b : Builder)
      → IsSound b
      → All (InScope b.results) l
      → OnBuilt
          (λ done. Grown b done.1 × All (IsThere done.1.splits b.results) done.0)
          (resolve_args ctx l b)
  unfolding resolve_args
  resolve_args-Grown [] b s h = ((s, le_refl _, refl), tt)
  resolve_args-Grown (a ∷ l) b s h =
      OnBuilt-bind _ _ (resolve_arg ctx a b) _ (resolve_arg-Grown a b s h.0) λ (x, b1) g.
        OnBuilt-bind _ _ (resolve_args ctx l b1) _ (resolve_args-Grown l b1 g.0.0 (rw g.0.2 h.1))
          λ (xs, b2) k. (
            (k.0.0, omega arith, k.0.2 ∙ g.0.2),
            (IsThere-mono b1.splits b2.splits b.results x k.0.1 g.1, rw g.0.2 at (k.1)),
          )

  -- The calls of a plan, of which `k` were made before, read results of calls before them only.
  abbrev ScopedFrom : ℕ → List MoveCallPlan → Type 0
  ScopedFrom k [] = Unit
  ScopedFrom k (c ∷ l) = All (InScope k) c.args × ScopedFrom (suc k) l

  add_calls-IsSound :
      (l : List MoveCallPlan) (b : Builder)
      → IsSound b
      → ScopedFrom b.results l
      → OnBuilt (λ b'. IsSound b' × (b'.results ≡ b.results + length l)) (add_calls ctx l b)
  unfolding add_calls
  add_calls-IsSound [] b s h = (s, omega arith)
  add_calls-IsSound (c ∷ l) b s h =
      OnBuilt-bind _ _ (resolve_args ctx c.args b) _ (resolve_args-Grown c.args b s h.0)
        λ (xs, b1) g.
          let next : Builder = record b1 {
            commands = b1.commands ++ move_call c.target c.type_arguments xs ∷ [];
            results = suc b1.results;
          } in
          let sound : IsSound next =
            IsSound-add b1 (move_call c.target c.type_arguments xs) b1.splits (suc b1.results) g.0.0
              (rw g.0.2 (g.1, tt)) (omega arith) (omega arith) in
          OnBuilt-mono (λ b2. IsSound b2 × (b2.results ≡ next.results + length l))
            (λ b2. IsSound b2 × (b2.results ≡ b.results + length (c ∷ l))) (add_calls ctx l next)
            (λ b2 k. (k.0, omega (arith, k.1, g.0.2)))
            (add_calls-IsSound l next sound (rw g.0.2 h.1))

  last_result-IsThere : (b : Builder) → 0 < b.results → IsThere b.splits b.results (last_result b)
  last_result-IsThere b h = elim (Bool-cases (b.results == 0)) [
    | inl e ↦ absurd (ground arith)
    | inr e ↦ simp e (omega arith)
  ]

  abbrev IsScoped : TxPlan → Type 0
  IsScoped p = ScopedFrom 0 p.calls × (0 < length p.calls)

  plan_to_transaction-IsOrdered :
      (p : TxPlan) → IsScoped p → OnBuilt (IsOrdered 0 0) (plan_to_transaction ctx p)
  unfolding plan_to_transaction
  plan_to_transaction-IsOrdered p h =
      OnBuilt-bind (λ b. IsSound b × (b.results ≡ 0 + length p.calls)) (IsOrdered 0 0)
        (add_calls ctx p.calls empty_builder) _
        (add_calls-IsSound p.calls empty_builder
          (record { splits = refl; results = refl; ordered = tt }) h.0)
        λ b s. elim (Bool-cases p.transfer_last) [
          | inl e ↦ simp e (
              (IsSound-add b (transfer_objects (last_result b) ctx.sender) b.splits b.results s.0
                (last_result-IsThere b (omega (arith, s.1, h.1)), tt) (omega arith)
                (omega arith)).ordered)
          | inr e ↦ simp e s.0.ordered
        ]

  crank_plan-IsScoped : (i : CrankIntent) (k : CrankKind) → OnBuilt IsScoped (crank_plan ctx i k)
  unfolding crank_plan
  crank_plan-IsScoped i sweep_rollover =
      OnBuilt-need _ (accumulator_ref ctx) _ _ λ _ _. (((tt, tt), tt), omega arith)
  crank_plan-IsScoped i sweep_compensation =
      OnBuilt-need _ (accumulator_ref ctx) _ _ λ _ _. (((tt, (tt, tt)), tt), omega arith)
  crank_plan-IsScoped i abort_failed_raise = OnBuilt-need _ (asset_ref ctx) _ _ λ _ _.
      OnBuilt-need _ (pool_ref ctx) _ _ λ _ _. (((tt, (tt, (tt, (tt, tt)))), tt), omega arith)
  crank_plan-IsScoped i flag_default = OnBuilt-need _ (asset_ref ctx) _ _ λ _ _.
      OnBuilt-need _ (pool_ref ctx) _ _ λ _ _. (((tt, (tt, (tt, (tt, tt)))), tt), omega arith)
  crank_plan-IsScoped i resolve_dispute = OnBuilt-need _ (token_ref ctx) _ _ λ _ _.
      OnBuilt-need _ (pool_ref ctx) _ _ λ _ _. OnBuilt-need _ (asset_ref ctx) _ _ λ _ _.
        OnBuilt-need _ (accumulator_ref ctx) _ _
          λ _ _. (((tt, (tt, (tt, (tt, (tt, (tt, tt)))))), tt), omega arith)

  build_plan-IsScoped : (i : TxIntent) → OnBuilt IsScoped (build_plan ctx i)
  unfolding build_plan
  build_plan-IsScoped (contribute i) =
      OnBuilt-need _ (asset_ref ctx) _ _ λ _ _. (((tt, (tt, (tt, (tt, tt)))), tt), omega arith)
  build_plan-IsScoped (refund i) =
      OnBuilt-need _ (asset_ref ctx) _ _
        λ _ _. OnBuilt-need _ (receipt_ref ctx) _ _ λ _ _. (((tt, (tt, (tt, tt))), tt), omega arith)
  build_plan-IsScoped (claim_shares i) = OnBuilt-need _ (token_ref ctx) _ _ λ _ _.
      OnBuilt-need _ (asset_ref ctx) _ _ λ _ _. OnBuilt-need _ (accumulator_ref ctx) _ _ λ _ _.
        OnBuilt-need _ (receipt_ref ctx) _ _
          λ _ _. (((tt, (tt, (tt, (tt, (tt, tt))))), tt), omega arith)
  build_plan-IsScoped (claim_rewards i) = OnBuilt-need _ (token_ref ctx) _ _ λ _ _.
      OnBuilt-need _ (accumulator_ref ctx) _ _
        λ _ _. OnBuilt-need _ (share_ref ctx) _ _ λ _ _. (((tt, (tt, tt)), tt), omega arith)
  build_plan-IsScoped (wrap i) = OnBuilt-need _ (token_ref ctx) _ _ λ _ _.
      OnBuilt-need _ (accumulator_ref ctx) _ _ λ _ _.
        OnBuilt-need _ (share_ref ctx) _ _ λ _ _. (((tt, (tt, (tt, (tt, tt)))), tt), omega arith)
  build_plan-IsScoped (unwrap i) = OnBuilt-need _ (token_ref ctx) _ _ λ _ _.
      OnBuilt-need _ (accumulator_ref ctx) _ _ λ _ _. (((tt, (tt, (tt, tt))), tt), omega arith)
  build_plan-IsScoped (split i) =
      OnBuilt-need _ (share_ref ctx) _ _ λ _ _. (((tt, (tt, tt)), tt), omega arith)
  build_plan-IsScoped (raise_dispute i) = OnBuilt-need _ (token_ref ctx) _ _ λ _ _.
      OnBuilt-need _ (asset_ref ctx) _ _ λ _ _. OnBuilt-need _ (accumulator_ref ctx) _ _ λ _ _. (
        ((tt, (tt, tt)), ((tt, (tt, (tt, (tt, (tt, (omega arith, (tt, (tt, tt)))))))), tt)),
        omega arith,
      )
  build_plan-IsScoped (crank i) = crank_plan-IsScoped i i.crank

-- The transaction that an intent compiles to, where the plan is built and the coins are known: every
-- call and the final transfer use coins and results of commands before them, and never a result
-- that does not exist.
pub transaction-IsOrdered :
    (ctx : BuildCtx) (i : TxIntent) (p : TxPlan) (cs : List Command)
    → build_plan ctx i ≡ built p
    → plan_to_transaction ctx p ≡ built cs
    → IsOrdered 0 0 cs
transaction-IsOrdered ctx i p cs e f = OnBuilt-at (IsOrdered 0 0) (plan_to_transaction ctx p) cs f (
    plan_to_transaction-IsOrdered ctx p
      (OnBuilt-at (IsScoped ctx) (build_plan ctx i) p e (build_plan-IsScoped ctx i)))
