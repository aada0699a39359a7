-- ===== src/Data/Assets/Derived.antt =====
-- The states that the explorer derives, which have no byte on the chain.
use gally.Prelude.{ℕ, zero, suc, ◌≡◌, ◌↔◌, ◌⊎◌, Bool, true, false, some, arith, ◌otherwise◌}
use gally.Prelude.Int.{ℤ, pos, ◌≤ℤ◌, ◌<ℤ◌}
use gally.Domain.{funded, defaulted, AssetState}
use gally.Data.Wire.{state_of_byte}
use gally.Data.Records.{WireAsset}
use gally.Data.Assets.{AssetExtras, derive_state, map_asset}

-- What the theorem below says of each part: the byte, the amounts and the flag.
abbrev pub IsFunded : ℕ → ℤ → ℤ → Type 0
IsFunded byte raised goal = (byte ≡ 1) × (pos 0 <ℤ goal) × (goal ≤ℤ raised)

abbrev pub IsDefaulted : ℕ → Bool → Type 0
IsDefaulted byte flag = (flag ≡ true) × ((byte ≡ 4) ⊎ (byte ≡ 5))

abbrev pub AsDerived : ℕ → ℤ → ℤ → Bool → AssetState → Type 0
AsDerived byte raised goal flag s =
    ((s ≡ funded) ↔ IsFunded byte raised goal)
    × ((s ≡ defaulted) ↔ IsDefaulted byte flag)
    × ((s ≡ funded) ⊎ ((s ≡ defaulted) ⊎ (s ≡ state_of_byte (some byte))))

derive_state-AsDerived :
    (byte : ℕ) (raised goal : ℤ) (flag : Bool)
    → AsDerived byte raised goal flag (derive_state (state_of_byte (some byte)) raised goal flag)
unfolding derive_state state_of_byte
derive_state-AsDerived zero r g f = (
  ((λ h. ground arith), λ h. ground arith),
  ((λ h. ground arith), λ h. ground arith),
  ground arith,
)
derive_state-AsDerived (suc zero) r g f = (
  ((λ h. ground arith), λ h. ground arith),
  ((λ h. ground arith), λ h. ground arith),
  ground arith,
)
derive_state-AsDerived (suc (suc zero)) r g f = (
  ((λ h. ground arith), λ h. ground arith),
  ((λ h. ground arith), λ h. ground arith),
  ground arith,
)
derive_state-AsDerived (suc (suc (suc zero))) r g f = (
  ((λ h. ground arith), λ h. ground arith),
  ((λ h. ground arith), λ h. ground arith),
  ground arith,
)
derive_state-AsDerived (suc (suc (suc (suc zero)))) r g f = (
  ((λ h. ground arith), λ h. ground arith),
  ((λ h. ground arith), λ h. ground arith),
  ground arith,
)
derive_state-AsDerived (suc (suc (suc (suc (suc zero))))) r g f = (
  ((λ h. ground arith), λ h. ground arith),
  ((λ h. ground arith), λ h. ground arith),
  ground arith,
)
derive_state-AsDerived (suc (suc (suc (suc (suc (suc zero)))))) r g f = (
  ((λ h. ground arith), λ h. ground arith),
  ((λ h. ground arith), λ h. ground arith),
  ground arith,
)
derive_state-AsDerived (suc (suc (suc (suc (suc (suc (suc zero))))))) r g f = (
  ((λ h. ground arith), λ h. ground arith),
  ((λ h. ground arith), λ h. ground arith),
  ground arith,
)
derive_state-AsDerived (suc (suc (suc (suc (suc (suc (suc (suc n)))))))) r g f = (
  ((λ h. ground arith), λ h. ground arith),
  ((λ h. ground arith), λ h. ground arith),
  ground arith,
)

-- An asset is shown as funded exactly where its byte says funding, its goal is not 0 and what is
-- raised reaches it; as defaulted exactly where that is flagged on one that executes or operates; and
-- in the state of its byte otherwise.
pub state-map_asset :
    (w : WireAsset) (x : AssetExtras)
    → AsDerived w.current_state
        (map_asset w x).raised
        (map_asset w x).funding_goal
        (x.is_defaulted otherwise false)
        (map_asset w x).state
unfolding map_asset
state-map_asset w x = derive_state-AsDerived w.current_state _ _ (x.is_defaulted otherwise false)
