-- ===== src/Health/Deadlines.antt =====
-- The deadline that an asset is judged by, and the layers of restitution.
use gally.Prelude.{
  ℕ, ◌-◌, ◌*◌, ◌≤◌, ◌<◌, ◌≡◌, refl, ap, ◌∙◌, ◌↔◌, inl, inr, true, not, Option, none, some, List, [],
  ◌∷◌, arith, keep, Bool-cases,
}
use gally.Prelude.Int.{ℤ, pos, ◌+ℤ◌, balance→eq, +ℤ-balance, +ℤ_assoc, +ℤ_left_comm}
use gally.Domain.{Tranche, Asset}
use gally.Tx.Intents.{flag_default}
use gally.Health.{
  NextDeadline, CompLayer, soon, overdue, sum_amounts, compensation_layers_of, day, risk_at,
  deadline_of, next_tranche_of,
}
use gally.Keeper.{next_tranche}
use gally.Keeper.Ready.{runnable, offered, offered-iff_Ready, IsMissed}

-- A deadline is overdue exactly when it has passed; otherwise it is soon exactly when it is less than
-- fourteen and a half days away, which is what rounding to whole days comes to.
risk_at_lem :
    (now ms : ℕ)
    → ((risk_at now ms ≡ overdue) ↔ (ms < now))
      × ((risk_at now ms ≡ soon) ↔ ((now ≤ ms) × (2 * (ms - now) < 29 * day)))
unfolding risk_at
risk_at_lem now ms =
    (((λ h. ground arith), λ h. ground arith), ((λ h. ground arith), λ h. ground arith))

IsMissed-overdue :
    (now : ℕ) (o : Option Tranche)
    → IsMissed now o
    → (d : NextDeadline) × (deadline_of now o ≡ some d) × (d.risk ≡ overdue)
IsMissed-overdue now none h = absurd h
IsMissed-overdue now (some t) h = (_, refl, (risk_at_lem now t.deadline_ms).0.1 h.0)

-- An asset whose default the keeper's view offers to flag has a next deadline, and it is shown as
-- overdue.
flag_default-overdue :
    (now : ℕ) (a : Asset)
    → runnable flag_default (offered now a flag_default) ≡ true
    → (d : NextDeadline) × (next_tranche_of now a ≡ some d) × (d.risk ≡ overdue)
unfolding next_tranche_of
flag_default-overdue now a h =
    IsMissed-overdue now (next_tranche a) ((offered-iff_Ready now a flag_default).0 h).1

-- What is in the tranches that are not released, and in those that are.
abbrev seizable : List Tranche → ℤ
seizable ts = sum_amounts (keep (λ t. not t.released) ts)

abbrev spent : List Tranche → ℤ
spent ts = sum_amounts (keep (λ t. t.released) ts)

sum_split :
    (ts : List Tranche)
    → sum_amounts (keep (λ t. not t.released) ts) +ℤ sum_amounts (keep (λ t. t.released) ts)
      ≡ sum_amounts ts
sum_split [] = unfold ◌+ℤ◌ in refl
sum_split (t ∷ ts) = elim (Bool-cases t.released) [
  | inl e ↦
      rw e (+ℤ_left_comm (seizable ts) t.amount (spent ts) ∙ ap (λ z. t.amount +ℤ z) (sum_split ts))
  | inr e ↦
      rw e (+ℤ_assoc t.amount (seizable ts) (spent ts) ∙ ap (λ z. t.amount +ℤ z) (sum_split ts))
]

abbrev pub sum_layers : List CompLayer → ℤ
sum_layers [] = pos 0
sum_layers (l ∷ ls) = l.amount +ℤ sum_layers ls

layered : (e s c k : ℤ) → e +ℤ (c +ℤ (k +ℤ pos 0)) +ℤ s ≡ e +ℤ s +ℤ c +ℤ k
layered e s c k = balance→eq _ _ (
    omega (
      arith,
      +ℤ-balance (e +ℤ (c +ℤ (k +ℤ pos 0))) s,
      +ℤ-balance e (c +ℤ (k +ℤ pos 0)),
      +ℤ-balance c (k +ℤ pos 0),
      +ℤ-balance k (pos 0),
      +ℤ-balance (e +ℤ s +ℤ c) k,
      +ℤ-balance (e +ℤ s) c,
      +ℤ-balance e s,
    ))

-- The three layers of restitution and what has been released add up to all the tranches, the coverage
-- and the collateral: no released capital is counted as seizable, and none is left out.
pub compensation_layers_of-total :
    (a : Asset)
    → sum_layers (compensation_layers_of a).layers
        +ℤ sum_amounts (keep (λ t. t.released) a.tranches)
      ≡ sum_amounts a.tranches +ℤ a.coverage_locked +ℤ a.entity_collateral
unfolding compensation_layers_of
compensation_layers_of-total a =
    layered (seizable a.tranches) (spent a.tranches) a.coverage_locked a.entity_collateral
    ∙ ap (λ z. z +ℤ a.coverage_locked +ℤ a.entity_collateral) (sum_split a.tranches)
