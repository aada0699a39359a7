-- ===== src/Keeper/Ready.antt =====
-- A crank is offered as runnable exactly where the contract would run it. The conditions are the
-- asserts of gally_core/sources/asset.move, accumulator.move and dispute.move, on what the explorer
-- shows of the asset or dispute; those on the version and on matching objects are left out.
use gally.Prelude.{
  ℕ, ◌≤◌, ◌<◌, ◌≡◌, refl, ◌↔◌, inl, inr, Bool, true, false, Option, none, some, List, ◌&&◌, arith,
  any, Bool-cases,
}
use gally.Prelude.Int.{pos, ◌-ℤ◌, ◌<ℤ◌, ltb_ℤ, -ℤ-balance, one_sided}
use gally.Domain.{
  AssetState, funding, executing, Tranche, Accumulator, Asset, DisputeStatus, open_vote, Dispute,
}
use gally.Tx.Intents.{
  CrankKind, resolve_dispute, flag_default, abort_failed_raise, sweep_rollover, sweep_compensation,
}
use gally.Keeper.{
  CrankOp, unwrapped_supply, is_approved, next_tranche, default_ops, state_ops, cranks_for_asset,
  compensation_ops, accumulator_ops, cranks_for_accumulator, dispute_ops, cranks_for_dispute,
}

abbrev same_kind : CrankKind → CrankKind → Bool
same_kind resolve_dispute resolve_dispute = true
same_kind flag_default flag_default = true
same_kind abort_failed_raise abort_failed_raise = true
same_kind sweep_rollover sweep_rollover = true
same_kind sweep_compensation sweep_compensation = true
same_kind _ _ = false

-- Some operation of the kind is offered as runnable.
abbrev pub runnable : CrankKind → List CrankOp → Bool
runnable k = any (λ op. same_kind k op.crank && op.eligible)

module _ (now : ℕ) where
  abbrev pub IsMissed : Option Tranche → Type 0
  IsMissed none = ⊥
  IsMissed (some t) = (t.deadline_ms < now) × (is_approved t ≡ false)

  abbrev HasReserve : Option Accumulator → Type 0
  HasReserve none = ⊥
  HasReserve (some acc) =
      (pos 0 <ℤ acc.rollover_reserve) × (acc.total_wrapped_shares <ℤ acc.total_minted_shares)

  abbrev IsElapsed : Option ℕ → Type 0
  IsElapsed none = ⊥
  IsElapsed (some u) = u ≤ now

  abbrev HasRestitution : Option Accumulator → Type 0
  HasRestitution none = ⊥
  HasRestitution (some acc) =
      IsElapsed acc.compensation_unlock_ms × (pos 0 <ℤ acc.compensation_pool)

  -- What the contract asserts: an executing asset whose next tranche is past its deadline and not
  -- approved; a raise past its deadline and short of its goal; a reserve and shares that are not
  -- wrapped; an elapsed grace window and something in the pool.
  abbrev pub Ready : Asset → CrankKind → Type 0
  Ready a flag_default = (a.state ≡ executing) × IsMissed (next_tranche a)
  Ready a abort_failed_raise =
      (a.state ≡ funding) × (a.funding_deadline_ms < now) × (a.raised <ℤ a.funding_goal)
  Ready a sweep_rollover = HasReserve a.accumulator
  Ready a sweep_compensation = HasRestitution a.accumulator
  Ready a resolve_dispute = ⊥

  default_ops_flag :
      (a : Asset) (o : Option Tranche)
      → (runnable flag_default (default_ops now a o) ≡ true) ↔ IsMissed o
  default_ops_flag a none = ((λ h. absurd (cc)), λ x. absurd x)
  default_ops_flag a (some t) = ((λ h. ground arith), λ x. ground arith)

  state_ops_flag :
      (a : Asset) (s : AssetState)
      → (runnable flag_default (state_ops now a s) ≡ true)
        ↔ ((s ≡ executing) × IsMissed (next_tranche a))
  state_ops_flag a executing = (
    (λ h. (refl, (default_ops_flag a (next_tranche a)).0 h)),
    λ x. (default_ops_flag a (next_tranche a)).1 x.1,
  )
  state_ops_flag a _ = ((λ h. absurd (cc)), λ x. absurd (cc))

  default_ops_other :
      (a : Asset) (o : Option Tranche) → runnable abort_failed_raise (default_ops now a o) ≡ false
  default_ops_other a none = refl
  default_ops_other a (some t) = refl

  state_ops_abort :
      (a : Asset) (s : AssetState)
      → (runnable abort_failed_raise (state_ops now a s) ≡ true)
        ↔ ((s ≡ funding) × (a.funding_deadline_ms < now) × (a.raised <ℤ a.funding_goal))
  state_ops_abort a funding = ((λ h. ground arith), λ x. ground arith)
  state_ops_abort a executing =
      ((λ h. absurd (cc (h, default_ops_other a (next_tranche a)))), λ x. absurd (cc))
  state_ops_abort a _ = ((λ h. absurd (cc)), λ x. absurd (cc))

  compensation_ops_lem :
      (acc : Accumulator) (u : Option ℕ)
      → (runnable sweep_compensation (compensation_ops now acc u) ≡ true)
        ↔ (IsElapsed u × (pos 0 <ℤ acc.compensation_pool))
  compensation_ops_lem acc none = ((λ h. absurd (cc)), λ x. absurd x.0)
  compensation_ops_lem acc (some u) = ((λ h. ground arith), λ x. ground arith)

  compensation_ops_other :
      (acc : Accumulator) (u : Option ℕ)
      → runnable sweep_rollover (compensation_ops now acc u) ≡ false
  compensation_ops_other acc none = refl
  compensation_ops_other acc (some u) = ground arith

  accumulator_ops_rollover :
      (a : Asset) (o : Option Accumulator)
      → a.accumulator ≡ o
      → (runnable sweep_rollover (accumulator_ops now a o) ≡ true) ↔ HasReserve o
  unfolding unwrapped_supply
  accumulator_ops_rollover a none e = ((λ h. absurd (cc)), λ x. absurd x)
  accumulator_ops_rollover a (some acc) e =
      let other = compensation_ops_other acc acc.compensation_unlock_ms in
      let spread = -ℤ-balance acc.total_minted_shares acc.total_wrapped_shares in
      let one_part = one_sided (acc.total_minted_shares -ℤ acc.total_wrapped_shares) in
      ((λ h. ground arith), λ x. ground arith)

  accumulator_ops_compensation :
      (a : Asset) (o : Option Accumulator)
      → (runnable sweep_compensation (accumulator_ops now a o) ≡ true) ↔ HasRestitution o
  accumulator_ops_compensation a none = ((λ h. absurd (cc)), λ x. absurd x)
  accumulator_ops_compensation a (some acc) =
      let same = compensation_ops_lem acc acc.compensation_unlock_ms in
      elim (Bool-cases (ltb_ℤ (pos 0) acc.rollover_reserve)) [
        | inl e ↦ rw e same
        | inr e ↦ rw e same
      ]

  default_ops_resolve :
      (a : Asset) (o : Option Tranche) → runnable resolve_dispute (default_ops now a o) ≡ false
  default_ops_resolve a none = refl
  default_ops_resolve a (some t) = refl

  state_ops_resolve :
      (a : Asset) (s : AssetState) → runnable resolve_dispute (state_ops now a s) ≡ false
  state_ops_resolve a executing = default_ops_resolve a (next_tranche a)
  state_ops_resolve a _ = refl

  -- The list in which a crank on an asset is looked for: that of the asset or of its accumulator.
  abbrev pub offered : Asset → CrankKind → List CrankOp
  offered a sweep_rollover = cranks_for_accumulator now a
  offered a sweep_compensation = cranks_for_accumulator now a
  offered a _ = cranks_for_asset now a

  -- A crank on an asset is offered as runnable exactly where the contract's conditions on the state,
  -- the deadlines and the amounts, as the explorer shows them, hold.
  pub offered-iff_Ready :
      (a : Asset) (k : CrankKind) → (runnable k (offered a k) ≡ true) ↔ Ready a k
  unfolding cranks_for_asset cranks_for_accumulator
  offered-iff_Ready a flag_default = state_ops_flag a a.state
  offered-iff_Ready a abort_failed_raise = state_ops_abort a a.state
  offered-iff_Ready a sweep_rollover = accumulator_ops_rollover a a.accumulator refl
  offered-iff_Ready a sweep_compensation = accumulator_ops_compensation a a.accumulator
  offered-iff_Ready a resolve_dispute =
      ((λ h. absurd (cc (h, state_ops_resolve a a.state))), λ x. absurd x)

  dispute_ops_lem :
      (d : Dispute) (s : DisputeStatus)
      → (runnable resolve_dispute (dispute_ops now d s) ≡ true)
        ↔ ((s ≡ open_vote) × (d.voting_deadline_ms ≤ now))
  dispute_ops_lem d open_vote = ((λ h. ground arith), λ x. ground arith)
  dispute_ops_lem d _ = ((λ h. absurd (cc)), λ x. absurd (cc))

  -- A dispute is offered for resolution exactly where it is open and its voting window has elapsed.
  pub cranks_for_dispute-Ready :
      (d : Dispute)
      → (runnable resolve_dispute (cranks_for_dispute now d) ≡ true)
        ↔ ((d.status ≡ open_vote) × (d.voting_deadline_ms ≤ now))
  unfolding cranks_for_dispute
  cranks_for_dispute-Ready d = dispute_ops_lem d d.status
