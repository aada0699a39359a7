-- ===== src/Tx/Plan/Moves.antt =====
-- The entry functions of the contract that plans call: their type parameters and parameters, from
-- gally_core/sources/asset.move, accumulator.move, share.move and dispute.move. The transaction
-- context, which the runtime passes, is left out.
use gally.Prelude.{ℕ, Bool, true, false, List, [], ◌∷◌, Text, text}

pub data MoveType : Type 0 where
  asset pool accumulator config dispute : MoveType
  receipt share coin_usdc coin_token walrus_ref clock u64 bytes : MoveType

-- `&T` and `&mut T` (true), or `T`.
pub data Param : Type 0 where
  by_ref : Bool → MoveType → Param
  by_value : MoveType → Param

pub data EntryFunction : Type 0 where
  contribute_capital refund_contribution claim_shares new_walrus_ref : EntryFunction
  abort_failed_raise flag_default : EntryFunction
  claim_rewards wrap_shares unwrap_coins sweep_rollover sweep_compensation : EntryFunction
  split_share initialize_dispute resolve_dispute : EntryFunction

unfoldable pub entry_name : EntryFunction → Text
entry_name contribute_capital = text "asset::contribute_capital"
entry_name refund_contribution = text "asset::refund_contribution"
entry_name claim_shares = text "asset::claim_shares"
entry_name new_walrus_ref = text "asset::new_walrus_ref"
entry_name abort_failed_raise = text "asset::abort_failed_raise"
entry_name flag_default = text "asset::flag_default"
entry_name claim_rewards = text "accumulator::claim_rewards"
entry_name wrap_shares = text "accumulator::wrap_shares"
entry_name unwrap_coins = text "accumulator::unwrap_coins"
entry_name sweep_rollover = text "accumulator::sweep_rollover"
entry_name sweep_compensation = text "accumulator::sweep_compensation"
entry_name split_share = text "share::split_share"
entry_name initialize_dispute = text "dispute::initialize_dispute"
entry_name resolve_dispute = text "dispute::resolve_dispute"

unfoldable pub type_params : EntryFunction → ℕ
type_params contribute_capital = 0
type_params refund_contribution = 0
type_params new_walrus_ref = 0
type_params abort_failed_raise = 0
type_params split_share = 0
type_params claim_shares = 1
type_params flag_default = 1
type_params claim_rewards = 1
type_params wrap_shares = 1
type_params unwrap_coins = 1
type_params sweep_rollover = 1
type_params sweep_compensation = 1
type_params initialize_dispute = 1
type_params resolve_dispute = 1

abbrev mut : MoveType → Param
mut = by_ref true

abbrev ref : MoveType → Param
ref = by_ref false

unfoldable pub params : EntryFunction → List Param
params contribute_capital = mut asset ∷ ref config ∷ ref clock ∷ by_value coin_usdc ∷ []
params refund_contribution = mut asset ∷ ref config ∷ by_value receipt ∷ []
params claim_shares = ref asset ∷ ref accumulator ∷ ref config ∷ by_value receipt ∷ ref clock ∷ []
params new_walrus_ref = by_value bytes ∷ by_value bytes ∷ []
params abort_failed_raise = mut asset ∷ mut pool ∷ ref config ∷ ref clock ∷ []
params flag_default = mut asset ∷ mut accumulator ∷ ref config ∷ ref clock ∷ []
params claim_rewards = mut accumulator ∷ mut share ∷ []
params wrap_shares = mut accumulator ∷ ref config ∷ by_value share ∷ ref clock ∷ []
params unwrap_coins = mut accumulator ∷ by_value coin_token ∷ ref clock ∷ []
params sweep_rollover = mut accumulator ∷ []
params sweep_compensation = mut accumulator ∷ ref clock ∷ []
params split_share = mut share ∷ by_value u64 ∷ []
params initialize_dispute =
    mut asset
    ∷ mut pool
    ∷ ref accumulator
    ∷ ref config
    ∷ by_value coin_usdc
    ∷ by_value walrus_ref
    ∷ by_value bytes
    ∷ ref clock
    ∷ []
params resolve_dispute =
    mut dispute ∷ mut pool ∷ mut asset ∷ mut accumulator ∷ ref config ∷ ref clock ∷ []
