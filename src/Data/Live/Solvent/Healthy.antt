-- ===== src/Data/Live/Solvent/Healthy.antt =====
-- How much has to be owed before the explorer shows it.
use gally.Prelude.{
  ℕ, zero, suc, ◌+◌, ◌-◌, ◌*◌, ◌/◌, sym, leb→le, ◌≤◌, ◌<◌, ◌≡◌, refl, inl, inr, Bool, true, false,
  if◌then◌else◌, Option, List, [], ◌∷◌, arith, All, leb, Bool-cases, ◌==◌, option_map, option_bind,
  ◌otherwise◌,
}
use gally.Prelude.Int.{ℤ, pos, negsuc, pos_part, neg_part, ◌≤ℤ◌, ◌-ℤ◌, sub_ℕ, leb_ℤ, round_div}
use gally.Prelude.Number.{scale, ◌*ℤ◌}
use gally.Domain.{Asset, Accumulator, HolderEntry}
use gally.Data.Wire.{index_scale}
use gally.Data.Position.{pending_units}
use gally.Data.Live.Solvent.{usdc_unit, owed_scale, owed_to_all, solvency_of}

-- What the contract owes the holder, in millionths of USDC, is below half a million USDC.
abbrev pub IsBelowHalfMillion : ℕ → HolderEntry → Type 0
IsBelowHalfMillion index h =
    (neg_part h.share_count ≡ 0)
    × (pending_units index h.yield_claimed_index (pos_part h.share_count) < 500000 * 1000000)

rounds_to_zero :
    (x : ℕ) → x / index_scale < 500000 * 1000000 → (2 * x + owed_scale) / (2 * owed_scale) ≡ 0
rounds_to_zero x h = omega arith

pending_units_lem :
    (index claimed n : ℕ)
    → claimed ≤ index
    → pending_units index claimed n ≡ (index - claimed) * n / index_scale
unfolding pending_units
pending_units_lem index claimed n h = elim (Bool-cases (leb index claimed)) [
  | inl e ↦ let none_left : index - claimed ≡ 0 = ground arith in rw (e, none_left) (omega arith)
  | inr e ↦ elim (Bool-cases (n == 0)) [
    | inl f ↦ let no_count : n ≡ 0 = ground arith in rw (e, no_count) (ground arith)
    | inr f ↦ rw (e, f) refl
  ]
]

below_zero : (m : ℕ) → pos_part (round_div (pos 0 -ℤ pos m) owed_scale) ≡ 0
unfolding round_div ◌-ℤ◌
below_zero zero = refl
below_zero (suc m) = ground arith

owed_to-zero :
    (index claimed n : ℕ)
    → pending_units index claimed n < 500000 * 1000000
    → pos_part (round_div (sub_ℕ index claimed *ℤ pos n) owed_scale) ≡ 0
unfolding round_div ◌*ℤ◌ scale
owed_to-zero index claimed n h = elim (Bool-cases (leb claimed index)) [
  | inl e ↦
      let ahead = leb→le claimed index e in
      rw e (
        rounds_to_zero ((index - claimed) * n)
          (rw (sym (pending_units_lem index claimed n ahead)) h))
  | inr e ↦ rw e (below_zero (suc (claimed - index - 1) * n))
]

owed_to_entry :
    (index claimed : ℕ) (count : ℤ)
    → neg_part count ≡ 0
    → pending_units index claimed (pos_part count) < 500000 * 1000000
    → pos_part (round_div (sub_ℕ index claimed *ℤ count) owed_scale) ≡ 0
owed_to_entry index claimed (pos n) p h = owed_to-zero index claimed n h
owed_to_entry index claimed (negsuc n) p h = absurd (omega arith)

owed_to_all-zero :
    (index : ℕ) (hs : List HolderEntry)
    → All (IsBelowHalfMillion index) hs
    → owed_to_all index hs ≡ 0
owed_to_all-zero index [] b = refl
owed_to_all-zero index (h ∷ hs) b =
    let this = owed_to_entry index h.yield_claimed_index h.share_count b.0.0 b.0.1 in
    omega (arith, this, owed_to_all-zero index hs b.1)

if_zero : (b : Bool) (x : ℕ) → x ≡ 0 → (if b then 0 else x) ≡ 0
if_zero true x h = refl
if_zero false x h = h

backed :
    (owed : ℕ) (pool : ℤ) → owed ≡ 0 → pos 0 ≤ℤ pool → leb_ℤ (pos (usdc_unit * owed)) pool ≡ true
backed owed pool e h = rw e (ground arith)

-- The pool of an asset.
abbrev pub pool_shown : Option Asset → ℤ
pool_shown asset =
    option_map (λ (x : Accumulator). x.reward_pool) (option_bind asset (λ a. a.accumulator))
    otherwise pos 0

abbrev pub index_shown : Option Asset → ℕ
index_shown asset =
    option_map (λ (x : Accumulator). x.cumulative_index) (option_bind asset (λ a. a.accumulator))
    otherwise 0

-- Where the contract owes each holder less than half a million USDC, nothing is shown as owed, and a
-- pool that is not negative is shown as healthy, be it empty.
pub solvency_of-unseen :
    (asset : Option Asset) (hs : List HolderEntry)
    → All (IsBelowHalfMillion (index_shown asset)) hs
    → pos 0 ≤ℤ pool_shown asset
    → ((solvency_of asset hs).owed ≡ 0) × ((solvency_of asset hs).healthy ≡ true)
unfolding solvency_of
solvency_of-unseen asset hs b p =
    let none_owed =
      if_zero (index_shown asset == 0) _ (owed_to_all-zero (index_shown asset) hs b) in
    (none_owed, backed _ (pool_shown asset) none_owed p)
