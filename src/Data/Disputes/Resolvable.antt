-- ===== src/Data/Disputes/Resolvable.antt =====
-- When the keeper's view offers a dispute of the indexer for resolution.
use gally.Prelude.{
  ℕ, ◌≤◌, ◌<◌, ◌≡◌, refl, ◌↔◌, true, false, Option, none, some, arith, ◌otherwise◌, inl, inr,
  Bool-cases,
}
use gally.Domain.{open_vote}
use gally.Tx.Intents.{resolve_dispute}
use gally.Keeper.{cranks_for_dispute}
use gally.Keeper.Ready.{runnable, cranks_for_dispute-Ready}
use gally.Data.Disputes.{WireDispute, status_of, dispute_status, map_dispute}

-- The voting deadline of a dispute that is still shown as open is not past the clock.
abbrev pub IsDue : ℕ → ℕ → Option ℕ → Type 0
IsDue clock now none = Unit
IsDue clock now (some d) = (clock ≤ d) × (d ≤ now)

due_lem :
    (clock now : ℕ) (verdict deadline : Option ℕ)
    → ((status_of clock verdict deadline ≡ open_vote) × ((deadline otherwise 0) ≤ now))
      ↔ ((verdict ≡ none) × IsDue clock now deadline)
due_lem clock now (some v) deadline = ((λ h. ground arith), λ h. absurd (cc))
due_lem clock now none none = ((λ h. (refl, tt)), λ h. (refl, omega arith))
due_lem clock now none (some d) = ((λ h. (refl, ground arith)), λ h. ground arith)

-- A dispute that the indexer serves, mapped at one time and judged by the keeper's view at another,
-- is offered for resolution exactly where it has no verdict and its voting deadline, if it has one,
-- lies from the time of the mapping to that of the judgement.
pub resolve_dispute-mapped :
    (clock now : ℕ) (w : WireDispute)
    → (runnable resolve_dispute (cranks_for_dispute now (map_dispute clock w)) ≡ true)
      ↔ ((w.verdict ≡ none) × IsDue clock now w.voting_deadline_ms)
unfolding map_dispute dispute_status
resolve_dispute-mapped clock now w =
    let ready = cranks_for_dispute-Ready now (map_dispute clock w) in
    let due = due_lem clock now w.verdict w.voting_deadline_ms in
    ((λ h. due.0 (ready.0 h)), λ h. ready.1 (due.1 h))

-- Where the clock is past the time that the keeper's view takes for the present, no dispute with a
-- known voting deadline is offered for resolution, whatever the deadline and the verdict.
pub resolve_dispute-never :
    (clock now : ℕ) (w : WireDispute) (d : ℕ)
    → now < clock
    → w.voting_deadline_ms ≡ some d
    → runnable resolve_dispute (cranks_for_dispute now (map_dispute clock w)) ≡ false
resolve_dispute-never clock now w d late known =
    elim (Bool-cases (runnable resolve_dispute (cranks_for_dispute now (map_dispute clock w)))) [
      | inl e ↦
          let due : IsDue clock now (some d) =
            rw known at ((resolve_dispute-mapped clock now w).0 e).1 in
          absurd (omega (arith, due.0, due.1))
      | inr e ↦ e
    ]
