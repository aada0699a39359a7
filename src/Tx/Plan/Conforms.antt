-- ===== src/Tx/Plan/Conforms.antt =====
-- Every call of a plan against the contract's entry functions.
use gally.Prelude.{
  List, [], length, includes, text_eq, text_eq_refl, Bool-cases, inl, inr, true, false, ℕ, ◌≡◌,
  refl, some, ◌∷◌, ◌≢◌, Text, text, append_cancel, ◌++◌, All,
}
use gally.Tx.Intents.{
  CrankKind, resolve_dispute, flag_default, abort_failed_raise, sweep_rollover, sweep_compensation,
  CrankIntent, TxIntent, contribute, claim_shares, refund, claim_rewards, split, wrap, unwrap,
  raise_dispute, crank,
}
use gally.Tx.Plan.{
  BuildCtx, TxPlan, built, asset_ref, accumulator_ref, pool_ref, token_ref, crank_plan, build_plan,
  target_of,
}
use gally.Tx.Plan.Declared.{contract_functions}
use gally.Tx.Plan.Moves
use gally.Tx.Plan.Rules.{OnBuilt, OnBuilt-need, OnBuilt-at}
use gally.Tx.Plan.Moves.{
  MoveType, Param, by_ref, by_value, EntryFunction, entry_name, type_params, params,
}
use gally.Tx.Plan.Calls.{
  AllConform, Conforms, contribute-conforms, refund-conforms, claim_shares-conforms,
  claim_rewards-conforms, wrap-conforms, unwrap-conforms, split-conforms, raise_dispute-conforms,
}

module _ (ctx : BuildCtx) where
  -- Which cranks name an entry function with its type argument: a sweep only where the token type
  -- is known, and the flagging of a default never.
  abbrev HasTypes : CrankKind → Type 0
  HasTypes flag_default = ⊥
  HasTypes sweep_rollover = (c : ℕ) × (s : Text) × (token_ref ctx ≡ some (c ∷ s))
  HasTypes sweep_compensation = (c : ℕ) × (s : Text) × (token_ref ctx ≡ some (c ∷ s))
  HasTypes _ = Unit

  crank-conforms :
      (i : CrankIntent) (k : CrankKind)
      → HasTypes k
      → OnBuilt (AllConform (crank i) ctx) (crank_plan ctx i k)
  unfolding crank_plan entry_name type_params params
  crank-conforms i flag_default h = absurd h
  crank-conforms i sweep_rollover (x, s, e) = OnBuilt-need _ (accumulator_ref ctx) _ _ λ c e_c.
      ((Moves.sweep_rollover, record { target = refl; types = rw e; fit = ((refl, e_c), tt) }), tt)
  crank-conforms i sweep_compensation (x, s, e) = OnBuilt-need _ (accumulator_ref ctx) _ _ λ c e_c.
      (
        (
          Moves.sweep_compensation,
          record { target = refl; types = rw e; fit = ((refl, e_c), (refl, tt)) },
        ),
        tt,
      )
  crank-conforms i abort_failed_raise h = OnBuilt-need _ (asset_ref ctx) _ _ λ a e_a.
      OnBuilt-need _ (pool_ref ctx) _ _ λ p e_p. (
        (
          Moves.abort_failed_raise,
          record {
            target = refl;
            types = refl;
            fit = ((refl, e_a), ((refl, e_p), ((refl, refl), (refl, tt))));
          },
        ),
        tt,
      )
  crank-conforms i resolve_dispute h = OnBuilt-need _ (token_ref ctx) _ _ λ t e_t.
      OnBuilt-need _ (pool_ref ctx) _ _ λ p e_p. OnBuilt-need _ (asset_ref ctx) _ _ λ a e_a.
        OnBuilt-need _ (accumulator_ref ctx) _ _ λ c e_c. (
          (
            Moves.resolve_dispute,
            record {
              target = refl;
              types = refl;
              fit = (
                (refl, refl),
                ((refl, e_p), ((refl, e_a), ((refl, e_c), ((refl, refl), (refl, tt))))),
              );
            },
          ),
          tt,
        )

  -- The intents whose plans are claimed to conform.
  abbrev pub Supported : TxIntent → Type 0
  Supported (crank i) = HasTypes i.crank
  Supported _ = Unit

  plan-conforms : (i : TxIntent) → Supported i → OnBuilt (AllConform i ctx) (build_plan ctx i)
  plan-conforms (contribute i) h = contribute-conforms ctx i
  plan-conforms (claim_shares i) h = claim_shares-conforms ctx i
  plan-conforms (refund i) h = refund-conforms ctx i
  plan-conforms (claim_rewards i) h = claim_rewards-conforms ctx i
  plan-conforms (split i) h = split-conforms ctx i
  plan-conforms (wrap i) h = wrap-conforms ctx i
  plan-conforms (unwrap i) h = unwrap-conforms ctx i
  plan-conforms (raise_dispute i) h = raise_dispute-conforms ctx i
  plan-conforms (crank i) h = unfold build_plan in crank-conforms i i.crank h

-- Every call of a plan that is built is a call of an entry function of the contract: it has the
-- package, module and name, as many type arguments, and argument by argument the kind, the
-- mutability and the object that the contract takes. Left out are the flagging of a default, and the
-- sweeps of an accumulator whose token type is not known.
pub build_plan-Conforms :
    (ctx : BuildCtx) (i : TxIntent) (p : TxPlan)
    → Supported ctx i
    → build_plan ctx i ≡ built p
    → All (Conforms i ctx) p.calls
build_plan-Conforms ctx i p h e =
    OnBuilt-at (AllConform i ctx) (build_plan ctx i) p e (plan-conforms ctx i h)

-- A target that is no function of the package.
abbrev pub IsUndeclared : BuildCtx → Text → Type 0
IsUndeclared ctx target = All (λ f. target ≢ target_of ctx f) contract_functions

not_among :
    (ctx : BuildCtx) (m : Text) (fs : List Text)
    → includes fs m ≡ false
    → All (λ f. target_of ctx m ≢ target_of ctx f) fs
not_among ctx m [] h = tt
not_among ctx m (f ∷ fs) h = elim (Bool-cases (text_eq f m)) [
  | inl e ↦ let listed : true ≡ false = rw e at h in absurd (cc)
  | inr e ↦ (
    λ same.
        let equal : m ≡ f = append_cancel (ctx.package_id ++ text "::") m f same in
        let found : text_eq f m ≡ true = rw equal (text_eq_refl f) in cc,
    not_among ctx m fs (rw e at h),
  )
]

check_default-IsUndeclared :
    (ctx : BuildCtx) → IsUndeclared ctx (target_of ctx (text "asset::check_default"))
unfolding contract_functions
check_default-IsUndeclared ctx = not_among ctx (text "asset::check_default") contract_functions refl

-- One call, to a target that is no function of the package.
abbrev pub CallsNothing : BuildCtx → TxPlan → Type 0
CallsNothing ctx p = (length p.calls ≡ 1) × All (λ c. IsUndeclared ctx c.target) p.calls

flag_default-unknown :
    (ctx : BuildCtx) (i : CrankIntent) → OnBuilt (CallsNothing ctx) (crank_plan ctx i flag_default)
unfolding crank_plan
flag_default-unknown ctx i =
    OnBuilt-need _ (asset_ref ctx) _ _ λ a e_a.
      OnBuilt-need _ (pool_ref ctx) _ _ λ p e_p. (refl, (check_default-IsUndeclared ctx, tt))

-- A plan that flags a default is in every context one call, whose target is none of the functions
-- that the modules of the contract declare, public or not.
pub flag_default-IsUndeclared :
    (ctx : BuildCtx) (i : CrankIntent) (p : TxPlan)
    → i.crank ≡ flag_default
    → build_plan ctx (crank i) ≡ built p
    → (length p.calls ≡ 1) × All (λ c. IsUndeclared ctx c.target) p.calls
unfolding build_plan
flag_default-IsUndeclared ctx i p k e =
    OnBuilt-at (CallsNothing ctx) (crank_plan ctx i flag_default) p (rw k at e)
      (flag_default-unknown ctx i)
