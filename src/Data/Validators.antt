-- ===== src/Data/Validators.antt =====
-- frontend-explorer/lib/data/map.ts: `mapValidator` and `mapHolder`, and `Validator` of
-- frontend-explorer/lib/types.ts.
use gally.Prelude.{
  ℕ, Option, some, List, [], ◌++◌, Text, text, take, ◌otherwise◌, option_map, option_bind,
}
use gally.Prelude.Int.{ℤ}
use gally.Domain.{HolderEntry}
use gally.Data.Wire.{usdc, index_human, ValidatorStatus, validator_status_of_byte}
use gally.Data.Records.{WireValidator, WireValidatorDetail, TrackRecord, WireHolder}

pub record Validator : Type 0 where
  pub pool_id : Text
  pub address : Text
  pub name : Text
  pub status : ValidatorStatus
  pub stake : ℤ
  pub locked : ℤ
  pub active_vouches : ℕ
  pub registered_at_ms : ℕ
  pub assets_vouched : ℕ
  pub milestones_approved : ℕ
  pub disputes_against : ℕ
  pub disputes_upheld : ℕ
  pub reputation : ℕ
  pub stake_spark : List ℤ

-- `intOf(tr?.f)` of a number
abbrev count_of : Option TrackRecord → (TrackRecord → Option ℕ) → ℕ
count_of tr f = option_bind tr f otherwise 0

unfoldable pub map_validator : WireValidator → Option WireValidatorDetail → Validator
unfolding usdc validator_status_of_byte
map_validator w detail =
    let tr = option_bind detail (λ d. d.track_record) in
    record {
      pool_id = w.pool_id;
      address = w.validator;
      name = w.name otherwise (text "Validator " ++ take 8 w.pool_id);
      status = validator_status_of_byte (some w.current_status);
      stake = usdc (some w.initial_stake);
      locked = usdc (option_bind tr (λ t. t.coverage_locked));
      active_vouches = count_of tr (λ t. t.active_vouches);
      registered_at_ms = w.registered_at_ms;
      assets_vouched = count_of tr (λ t. t.assets_vouched);
      milestones_approved = count_of tr (λ t. t.milestones_approved);
      disputes_against = count_of tr (λ t. t.disputes_against);
      disputes_upheld = count_of tr (λ t. t.disputes_upheld);
      reputation = option_map (λ (d : WireValidatorDetail). d.reputation) detail otherwise 0;
      stake_spark = [];
    }

unfoldable pub map_holder : WireHolder → HolderEntry
unfolding usdc index_human
map_holder w = record {
  address = w.address;
  share_count = usdc (some w.share_count);
  wrapped = usdc (some w.wrapped);
  acquired_at_ms = w.acquired_at_ms;
  yield_claimed_index = index_human (some w.yield_claimed_index);
}
