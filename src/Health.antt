-- ===== src/Health.antt =====
-- The parts of frontend-explorer/lib/mock/health.ts that follow the deadlines and the restitution of
-- an asset.
pub mod Deadlines
use gally.Prelude.{
  ℕ, ◌+◌, ◌-◌, ◌*◌, ◌/◌, Bool, true, false, not, Option, none, some, List, [], ◌∷◌, ◌&&◌, ◌||◌,
  Text, text, keep, find?, ltb, leb, ◌otherwise◌, option_bind, option_map, if◌then◌else◌,
}
use gally.Prelude.Int.{ℤ, pos, ◌+ℤ◌, sub_ℕ, leb_ℤ, round_div}
use gally.Domain.{
  AssetState, pending_vouch, funding, funded, executing, operational, defaulted, compensating,
  closed, failed, cancelled, Tranche, Accumulator, Asset,
}

abbrev pub day : ℕ
day = 86_400_000

-- Days before a deadline from which it is due soon.
abbrev pub soon_days : ℕ
soon_days = 14

pub data DeadlineRisk : Type 0 where
  fine soon overdue : DeadlineRisk

pub record NextDeadline : Type 0 where
  pub index : ℕ
  pub description : Text
  pub amount : ℤ
  pub deadline_ms : ℕ
  pub days_left : ℤ
  pub is_overdue : Bool
  pub risk : DeadlineRisk

pub record Grace : Type 0 where
  pub unlock_ms : ℕ
  pub active : Bool
  pub days_left : ℤ

pub record CompLayer : Type 0 where
  pub label : Text
  pub amount : ℤ
  pub note : Text

pub record CompensationStack : Type 0 where
  pub layers : List CompLayer
  pub pool : ℤ

abbrev pub sum_amounts : List Tranche → ℤ
sum_amounts [] = pos 0
sum_amounts (t ∷ ts) = t.amount +ℤ sum_amounts ts

abbrev frozen : Asset → Bool
frozen a = option_map (λ (x : Accumulator). x.wrapping_frozen) a.accumulator otherwise false

unfoldable pub compensation_layers_of : Asset → CompensationStack
compensation_layers_of a = record {
  layers =
      record {
        label = text "Undeployed escrow";
        amount = sum_amounts (keep (λ t. not t.released) a.tranches);
        note = text "Capital still held against unreleased tranches — seized first.";
      }
      ∷ record {
        label = text "Validator coverage";
        amount = a.coverage_locked;
        note = text "Slashed from the vouching pool when a dispute is upheld.";
      }
      ∷ record {
        label = text "Entity collateral";
        amount = a.entity_collateral;
        note = text "The entity's slashable skin-in-the-game bond.";
      }
      ∷ [];
  pool = option_map (λ (x : Accumulator). x.compensation_pool) a.accumulator otherwise pos 0;
}

abbrev in_default : AssetState → Bool
in_default defaulted = true
in_default compensating = true
in_default _ = false

unfoldable pub is_compensating : Asset → Bool
is_compensating a = in_default a.state || frozen a

module _ (now : ℕ) where
  -- `Math.round((ms - NOW) / DAY)`
  unfoldable pub days_until : ℕ → ℤ
  unfolding round_div
  days_until ms = round_div (sub_ℕ ms now) day

  unfoldable pub risk_at : ℕ → DeadlineRisk
  unfolding days_until
  risk_at ms =
      if ltb ms now then overdue else if leb_ℤ (days_until ms) (pos soon_days) then soon else fine

  abbrev deadline_of : Option Tranche → Option NextDeadline
  deadline_of none = none
  deadline_of (some t) = some (record {
    index = t.index;
    description = t.description;
    amount = t.amount;
    deadline_ms = t.deadline_ms;
    days_left = days_until t.deadline_ms;
    is_overdue = ltb t.deadline_ms now;
    risk = risk_at t.deadline_ms;
  })

  unfoldable pub next_tranche_of : Asset → Option NextDeadline
  next_tranche_of a = deadline_of (find? (λ t. not t.released) a.tranches)

  unfoldable pub grace_of : Asset → Option Grace
  grace_of a =
      option_map
        (λ (u : ℕ). record {
          unlock_ms = u;
          active = frozen a && ltb now u;
          days_left = days_until u;
        })
        (option_bind a.accumulator (λ x. x.compensation_unlock_ms))
