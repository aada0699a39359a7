-- ===== src/Action/Amounts.antt =====
-- The amounts that the dialog lets through.
use gally.Prelude.{
  ◌*◌, ◌/◌, ◌≤◌, ◌≡◌, refl, ap, ◌∙◌, Bool-cases, inl, inr, Bool, true, false, ◌&&◌, Option, none,
  some, arith,
}
use gally.Prelude.Int.{ℤ, pos, negsuc, ◌≤ℤ◌, leb_ℤ, balance→eq}
use gally.Action.{
  AmountConfig, unit, min_ℤ, max_ℤ, or_else, least, capped, spend_cap, clamped, exceeds,
  over_balance, amount_valid,
}

-- No more than the balance, where one is given.
abbrev pub IsCovered : ℤ → Option ℤ → Type 0
IsCovered v none = Unit
IsCovered v (some b) = v ≤ℤ b

max_ℤ-above : (a b : ℤ) → a ≤ℤ b → max_ℤ a b ≡ b
max_ℤ-above a b h = ground arith

min_ℤ-below : (a b : ℤ) → b ≤ℤ a → min_ℤ a b ≡ b
min_ℤ-below a b h = elim (Bool-cases (leb_ℤ a b)) [
  | inl e ↦ rw e (balance→eq a b (ground arith))
  | inr e ↦ rw e refl
]

or_else-above : (max v : ℤ) → v ≤ℤ max → v ≤ℤ or_else max v
or_else-above (pos n) v h = ground arith
or_else-above (negsuc n) v h = h

covered : (v : ℤ) (o : Option ℤ) → exceeds v o ≡ false → IsCovered v o
covered v none h = tt
covered v (some b) h = ground arith

-- The amount of a confirmed intent is the one that is typed in: it is not below the least amount, not
-- above the greatest, nor above the balance.
pub amount_valid-clamped :
    (cfg : AmountConfig) (v : ℤ)
    → amount_valid (some cfg) v ≡ true
    → (clamped cfg v ≡ v) × (least cfg ≤ℤ v) × (v ≤ℤ cfg.max) × IsCovered v cfg.balance
unfolding amount_valid over_balance clamped
amount_valid-clamped cfg v h =
    let low : least cfg ≤ℤ v = ground arith in
    let high : v ≤ℤ cfg.max = ground arith in
    (
      ap (max_ℤ (least cfg)) (min_ℤ-below (or_else cfg.max v) v (or_else-above cfg.max v high))
          ∙ max_ℤ-above (least cfg) v low,
      low,
      high,
      covered v cfg.balance (ground arith),
    )

capped-lem :
    (max : ℤ) (o : Option ℤ)
    → pos 0 ≤ℤ max
    → IsCovered (pos 0) o
    → (leb_ℤ (capped max o) max ≡ true) × (exceeds (capped max o) o ≡ false)
capped-lem max none h k = (ground arith, refl)
capped-lem max (some (negsuc n)) h k = absurd (omega arith)
capped-lem (negsuc m) (some (pos n)) h k = absurd (omega arith)
capped-lem (pos m) (some (pos n)) h k =
    let below : n / unit * unit ≤ n = omega arith in (ground arith, ground arith)

and_true : (b : Bool) → (b && true && true) ≡ b
and_true true = refl
and_true false = refl

-- The amount of the Max button is refused only where it is below the least amount.
pub amount_valid-spend_cap :
    (cfg : AmountConfig)
    → pos 0 ≤ℤ cfg.max
    → IsCovered (pos 0) cfg.balance
    → amount_valid (some cfg) (spend_cap cfg) ≡ leb_ℤ (least cfg) (spend_cap cfg)
unfolding amount_valid over_balance spend_cap
amount_valid-spend_cap cfg h k =
    let (below, within) = capped-lem cfg.max cfg.balance h k in
    rw (below, within) (and_true (leb_ℤ (least cfg) (capped cfg.max cfg.balance)))
