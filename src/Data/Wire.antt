-- ===== src/Data/Wire.antt =====
-- frontend-explorer/lib/data/wire.ts: the decoders of amounts and enumerations.
pub mod Amounts
use gally.Prelude.{
  ℕ, zero, suc, ◌+◌, ◌-◌, ◌*◌, Bool, true, false, not, ◌&&◌, Option, none, some, List, [], ◌∷◌,
  Text, leb, nonempty, if◌then◌else◌, ◌==◌, ◌otherwise◌, get_elem?,
}
use gally.Prelude.Int.{ℤ, pos, sub_ℕ}
use gally.Domain.{
  AssetState, pending_vouch, funding, executing, operational, compensating, closed, failed,
  cancelled, Category, housing, machinery, trade_finance, agriculture, energy, infrastructure,
}

-- `/\d/`
abbrev pub is_digit : ℕ → Bool
is_digit c = leb b'0' c && leb c b'9'

abbrev pub all_digits : Text → Bool
all_digits [] = true
all_digits (c ∷ s) = if is_digit c then all_digits s else false

-- `BigInt` of a text of digits, from the value of those before it.
abbrev pub digits_value : ℕ → Text → ℕ
digits_value v [] = v
digits_value v (c ∷ s) = digits_value (10 * v + (c - b'0')) s

-- `usdc` of the digits behind a sign, which `/^\d+$/` asks for: one at least.
abbrev unsigned : Bool → Text → ℤ
unsigned neg digits =
    if nonempty digits && all_digits digits
    then (if neg then sub_ℕ 0 (digits_value 0 digits) else pos (digits_value 0 digits))
    else pos 0

abbrev signed : Text → ℤ
signed [] = pos 0
signed (c ∷ s) = if c == b'-' then unsigned true s else unsigned false (c ∷ s)

-- `usdc`, counted in millionths.
unfoldable pub usdc : Option Text → ℤ
usdc none = pos 0
usdc (some s) = signed s

abbrev state_by_byte : List AssetState
state_by_byte =
    pending_vouch ∷ funding ∷ failed ∷ cancelled ∷ executing ∷ operational ∷ compensating ∷ closed
    ∷ []

unfoldable pub state_of_byte : Option ℕ → AssetState
state_of_byte b = get_elem? state_by_byte (b otherwise 0) otherwise pending_vouch

abbrev category_by_int : List Category
category_by_int = housing ∷ machinery ∷ trade_finance ∷ agriculture ∷ energy ∷ infrastructure ∷ []

unfoldable pub category_of_int : Option ℕ → Category
category_of_int i = get_elem? category_by_int (i otherwise 0) otherwise housing

pub data ValidatorStatus : Type 0 where
  active frozen slashed : ValidatorStatus

unfoldable pub validator_status_of_byte : Option ℕ → ValidatorStatus
validator_status_of_byte none = active
validator_status_of_byte (some b) = if b == 2 then slashed else if b == 1 then frozen else active

-- What divides the raw index to give a number of USDC per share.
abbrev pub index_scale : ℕ
index_scale = 1000000000

-- `indexHuman` counts in 10^-15, the millionths of the raw index's scale.
abbrev index_of_text : Text → ℕ
index_of_text s = if nonempty s && all_digits s then digits_value 0 s else 0

unfoldable pub index_human : Option Text → ℕ
index_human none = 0
index_human (some s) = index_of_text s
