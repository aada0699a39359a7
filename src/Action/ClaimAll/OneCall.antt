-- ===== src/Action/ClaimAll/OneCall.antt =====
-- What claiming all sends, and what counts as claimed then.
use gally.Prelude.{
  ◌≡◌, ◌≤◌, Option, refl, ◌∙◌, Bool, true, false, ◌||◌, none, some, List, [], ◌∷◌, Text, includes,
  All, All-of, In, map, length, inl, inr, text_eq, text_eq_refl, arith, if◌then◌else◌,
}
use gally.Tx.Lifecycle.{TxResult}
use gally.Tx.Plan.{
  BuildCtx, Built, built, build_error, TxPlan, MoveCallPlan, build_plan, token_ref, accumulator_ref,
  share_ref,
}
use gally.Store.Local.{Storage, IsOpen}
use gally.Store.Optimistic.{
  is_applied, mark_applied, apply_optimistic, includes-mark_applied, mark_applied-IsOpen,
}
use gally.Action.{Dialog, resume_dialog}
use gally.Session.Driver.{Driver, Running, resume_run}
use gally.Tx.Intents.{optimistic_key}
use gally.Action.ClaimAll.{ClaimAll, claim_all_intent, claim_key, all_claimed, resume_claim_all}

abbrev pub calls_of : Built TxPlan → List MoveCallPlan
calls_of (built p) = p.calls
calls_of (build_error e) = []

or_true : (b : Bool) → (b || true) ≡ true
or_true true = refl
or_true false = refl

if_true : (b : Bool) → (if b then true else true) ≡ true
if_true true = refl
if_true false = refl

module _ (ctx : BuildCtx) (c : ClaimAll) where
  SendsOne : Type 0
  SendsOne = length (calls_of (build_plan ctx (claim_all_intent c))) ≤ 1

  plan-one_call :
      (t a s : Option Text)
      → token_ref ctx ≡ t
      → accumulator_ref ctx ≡ a
      → share_ref ctx ≡ s
      → SendsOne
  unfolding build_plan claim_all_intent SendsOne
  plan-one_call none a s e f g = rw e (omega arith)
  plan-one_call (some t) none s e f g = rw (e, f) (omega arith)
  plan-one_call (some t) (some a) none e f g = rw (e, f, g) (omega arith)
  plan-one_call (some t) (some a) (some s) e f g = rw (e, f, g) (omega arith)

In-claim_key :
    (id : Text) (ids : List Text) → In id ids → includes (map claim_key ids) (claim_key id) ≡ true
In-claim_key id [] m = absurd m
In-claim_key id (x ∷ xs) (inl e) = rw (e, text_eq_refl x) refl
In-claim_key id (x ∷ xs) (inr m) = rw (In-claim_key id xs m) (if_true (text_eq x id))

all_claimed-applied :
    (c : ClaimAll) (s : Storage Text)
    → IsOpen s
    → All (λ id. is_applied true (all_claimed c s) (claim_key id) ≡ true) c.asset_ids
unfolding is_applied all_claimed
all_claimed-applied c s h = All-of _ c.asset_ids (λ id m.
    includes-mark_applied (map claim_key c.asset_ids) s (claim_key id) h
    ∙ rw (In-claim_key id c.asset_ids m) (or_true _))

-- Whatever the context, claiming all sends one call at most; where a run in flight comes to a result
-- that is ok and the storage can be written, the yield of every position counts as claimed then.
pub claim_all-one_call :
    (ctx : BuildCtx) (driver : Driver) (c : ClaimAll) (r : Running) (d : Dialog) (res : TxResult)
    → IsOpen d.applied
    → (resume_run driver r d.tx).1 ≡ some res
    → res.ok ≡ true
    → (length (calls_of (build_plan ctx (claim_all_intent c))) ≤ 1)
      × All
          (λ id. is_applied true (resume_claim_all driver c r d).applied (claim_key id) ≡ true)
          c.asset_ids
unfolding resume_claim_all resume_dialog apply_optimistic SendsOne
claim_all-one_call ctx driver c r d res h e ok =
    let own = optimistic_key r.intent ∷ [] in
    (
      plan-one_call ctx c _ _ _ refl refl refl,
      rw (e, ok)
          (all_claimed-applied c (mark_applied own d.applied).0
            (mark_applied-IsOpen own d.applied h)),
    )
