-- ===== src/Keeper.antt =====
-- frontend-explorer/lib/mock/cranks.ts: the maintenance calls that anyone may run, derived from the
-- assets and disputes that the explorer shows. `now` is the constant NOW of lib/format.ts.
pub mod Ready
pub mod Queue
use gally.Prelude.{
  ℕ, ◌+◌, ◌-◌, Bool, true, false, not, Option, none, some, is_some, List, [], ◌∷◌, ◌++◌, ◌&&◌, Text,
  text, nonempty, decimal, find?, ltb, leb, sort_by, ◌otherwise◌, if◌then◌else◌,
}
use gally.Prelude.Int.{pos, pos_part, ◌-ℤ◌, ltb_ℤ}
use gally.Domain.{
  AssetState, executing, funding, Tranche, Accumulator, Asset, DisputeStatus, open_vote, Dispute,
}
use gally.Tx.Intents.{
  CrankKind, resolve_dispute, flag_default, abort_failed_raise, sweep_rollover, sweep_compensation,
}

pub record CrankOp : Type 0 where
  pub crank : CrankKind
  pub label : Text
  pub entry : Text
  pub description : Text
  pub target_id : Text
  pub target_label : Text
  pub route : Text
  pub eligible : Bool
  pub reason : Text
  pub available_at_ms : Option ℕ

-- `Math.max(0, minted - wrapped)`
unfoldable pub unwrapped_supply : Asset → ℕ
unwrapped_supply a = elim a.accumulator [
  | none ↦ 0
  | some acc ↦ pos_part (acc.total_minted_shares -ℤ acc.total_wrapped_shares)
]

-- `if (t.approvedBy)`
abbrev pub is_approved : Tranche → Bool
is_approved t = elim t.approved_by [ none ↦ false | some who ↦ nonempty who ]

-- `a.tranches.find((x) => !x.released)`
abbrev pub next_tranche : Asset → Option Tranche
next_tranche a = find? (λ t. not t.released) a.tranches

-- Both times may be missing, and are Infinity then; two of these differ by NaN, which sorting
-- takes for 0.
abbrev no_later : Option ℕ → Option ℕ → Bool
no_later (some x) (some y) = leb x y
no_later (some x) none = true
no_later none (some y) = false
no_later none none = true

-- The comparator does not put `x` behind `y`.
abbrev pub before : CrankOp → CrankOp → Bool
before x y =
    if x.eligible
    then (if y.eligible then no_later x.available_at_ms y.available_at_ms else true)
    else (if y.eligible then false else no_later x.available_at_ms y.available_at_ms)

-- `NOW` is a parameter, which the explorer sets to a constant.
module _ (now : ℕ) where
  abbrev flag_default_op : Asset → Tranche → CrankOp
  flag_default_op a t =
      let overdue = ltb t.deadline_ms now in
      let eligible = overdue && not (is_approved t) in
      let milestone = text "Milestone " ++ decimal t.index in
      record {
        crank = flag_default;
        label = text "Flag default";
        entry = text "asset::flag_default";
        description =
            text
              "Milestone deadline missed without an approved proof — seize the entity's collateral + undeployed escrow into the compensation pool.";
        target_id = a.id;
        target_label = a.name;
        route = text "/assets/" ++ a.id;
        eligible = eligible;
        available_at_ms = some t.deadline_ms;
        reason =
            if eligible
            then milestone ++ text " deadline passed unapproved — anyone can flag the default."
            else if is_approved t
            then milestone ++ text " proof is already approved — not a default."
            else milestone ++ text " deadline has not passed yet.";
      }

  abbrev abort_op : Asset → CrankOp
  abort_op a =
      let expired = ltb a.funding_deadline_ms now in
      let short = ltb_ℤ a.raised a.funding_goal in
      let eligible = expired && short in
      record {
        crank = abort_failed_raise;
        label = text "Abort failed raise";
        entry = text "asset::abort_failed_raise";
        description =
            text
              "Funding window closed below goal — fail the raise so contributors can refund and the entity's collateral goes home.";
        target_id = a.id;
        target_label = a.name;
        route = text "/assets/" ++ a.id;
        eligible = eligible;
        available_at_ms = some a.funding_deadline_ms;
        reason =
            if eligible
            then text "Funding deadline passed below goal — anyone can abort the raise."
            else if not expired
            then text "Funding window is still open."
            else text "The goal was met — the raise can be finalized, not aborted.";
      }

  abbrev default_ops : Asset → Option Tranche → List CrankOp
  default_ops a none = []
  default_ops a (some t) = flag_default_op a t ∷ []

  -- The two states are different, so that at most one block of the source runs.
  abbrev state_ops : Asset → AssetState → List CrankOp
  state_ops a executing = default_ops a (next_tranche a)
  state_ops a funding = abort_op a ∷ []
  state_ops a _ = []

  unfoldable pub cranks_for_asset : Asset → List CrankOp
  cranks_for_asset a = state_ops a a.state

  abbrev rollover_op : Asset → Accumulator → CrankOp
  rollover_op a acc =
      let eligible = ltb 0 (unwrapped_supply a) in
      record {
        crank = sweep_rollover;
        label = text "Sweep rollover";
        entry = text "accumulator::sweep_rollover";
        description =
            text
              "Push revenue parked while supply was fully wrapped back through the index to today's unwrapped holders.";
        target_id = acc.id;
        target_label = acc.token_symbol;
        route = text "/tokens/" ++ acc.id;
        eligible = eligible;
        available_at_ms = none;
        reason =
            if eligible
            then text "Rollover reserve is funded and there are unwrapped holders to distribute to."
            else text
                "No unwrapped supply to distribute to — rescued automatically on the next unwrap.";
      }

  abbrev compensation_op : Accumulator → ℕ → CrankOp
  compensation_op acc unlock =
      let elapsed = leb unlock now in
      record {
        crank = sweep_compensation;
        label = text "Sweep compensation";
        entry = text "accumulator::sweep_compensation";
        description =
            text
              "Grace window elapsed — distribute the seized/slashed restitution pool across unwrapped holders and unfreeze wrapping.";
        target_id = acc.id;
        target_label = acc.token_symbol;
        route = text "/tokens/" ++ acc.id;
        eligible = elapsed;
        available_at_ms = some unlock;
        reason =
            if elapsed
            then text
                "Compensation grace window has elapsed — anyone can sweep the pool into the index."
            else text
                "Grace window is still open — wrapped holders may still unwrap to stay eligible.";
      }

  abbrev compensation_ops : Accumulator → Option ℕ → List CrankOp
  compensation_ops acc none = []
  compensation_ops acc (some unlock) =
      if ltb_ℤ (pos 0) acc.compensation_pool then compensation_op acc unlock ∷ [] else []

  abbrev accumulator_ops : Asset → Option Accumulator → List CrankOp
  accumulator_ops a none = []
  accumulator_ops a (some acc) =
      (if ltb_ℤ (pos 0) acc.rollover_reserve then rollover_op a acc ∷ [] else [])
      ++ compensation_ops acc acc.compensation_unlock_ms

  unfoldable pub cranks_for_accumulator : Asset → List CrankOp
  unfolding unwrapped_supply
  cranks_for_accumulator a = accumulator_ops a a.accumulator

  abbrev resolve_op : Dispute → CrankOp
  resolve_op d =
      let elapsed = leb d.voting_deadline_ms now in
      record {
        crank = resolve_dispute;
        label = text "Resolve dispute";
        entry = text "dispute::resolve_dispute";
        description =
            text
              "Voting window closed — tally the jury, slash or exonerate the validator, and route restitution or refund the bond.";
        target_id = d.id;
        target_label = text "Dispute vs " ++ d.target_validator_name;
        route = text "/disputes/" ++ d.id;
        eligible = elapsed;
        available_at_ms = some d.voting_deadline_ms;
        reason =
            if elapsed
            then text "Voting window has closed — anyone can resolve the dispute."
            else text "Voting is still open.";
      }

  abbrev dispute_ops : Dispute → DisputeStatus → List CrankOp
  dispute_ops d open_vote = resolve_op d ∷ []
  dispute_ops d _ = []

  unfoldable pub cranks_for_dispute : Dispute → List CrankOp
  cranks_for_dispute d = dispute_ops d d.status

  abbrev pub asset_cranks : List Asset → List CrankOp
  asset_cranks [] = []
  asset_cranks (a ∷ rest) = cranks_for_asset a ++ (cranks_for_accumulator a ++ asset_cranks rest)

  abbrev pub dispute_cranks : List Dispute → List CrankOp
  dispute_cranks [] = []
  dispute_cranks (d ∷ rest) = cranks_for_dispute d ++ dispute_cranks rest

  unfoldable pub all_cranks : List Asset → List Dispute → List CrankOp
  all_cranks assets disputes = sort_by before (asset_cranks assets ++ dispute_cranks disputes)
