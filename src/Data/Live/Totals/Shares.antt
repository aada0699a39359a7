-- ===== src/Data/Live/Totals/Shares.antt =====
-- What the totals of the home page add up to.
use gally.Prelude.{
  ℕ, ◌+◌, ◌≤◌, ◌≡◌, refl, inl, inr, Bool, true, false, not, List, [], ◌∷◌, arith, keep, length,
  length-keep, map, some, if◌then◌else◌, Bool-cases,
}
use gally.Prelude.Int.{ℤ, pos, ◌+ℤ◌}
use gally.Domain.{AssetState, Dispute}
use gally.Data.Wire.{usdc, state_of_byte}
use gally.Data.Records.{WireAsset}
use gally.Data.Assets.{is_funding, raise_complete, derive_state, no_extras, map_asset}
use gally.Data.Live.{Server, list_disputes}
use gally.Data.Live.Market.{sum_raised, curated_rows, curated_assets}
use gally.Data.Live.Totals.{is_active, is_open, get_protocol_stats}

keep_split :
    {A : Type 0} (p : A → Bool) (xs : List A)
    → length (keep p xs) + length (keep (λ x. not (p x)) xs) ≡ length xs
keep_split p [] = refl
keep_split p (x ∷ xs) = ground (arith, keep_split p xs)

-- A row of the list that is shown as funding is shown with nothing raised.
none_raised :
    (s : AssetState) (goal : ℤ)
    → let raised = if raise_complete s then goal else pos 0 in
      is_funding (derive_state s raised goal false) ≡ true → raised ≡ pos 0
unfolding derive_state
none_raised AssetState.funding goal h = refl
none_raised _ goal h = absurd (cc)

zero_sum : {a b : ℤ} → a ≡ pos 0 → b ≡ pos 0 → a +ℤ b ≡ pos 0
unfolding ◌+ℤ◌
zero_sum e f = rw (e, f) refl

open_raises :
    (ws : List WireAsset)
    → sum_raised (keep (λ a. is_funding a.state) (map (λ w. map_asset w no_extras) ws)) ≡ pos 0
unfolding map_asset
open_raises [] = refl
open_raises (w ∷ ws) = elim (Bool-cases (is_funding (map_asset w no_extras).state)) [
  | inl e ↦
      let nothing = none_raised (state_of_byte (some w.current_state)) (usdc (some w.goal)) e in
      rw e (zero_sum nothing (open_raises ws))
  | inr e ↦ rw e (open_raises ws)
]

-- On the home page the disputes that are open and the others are all disputes, the active assets are
-- among all, and what the open raises have raised is always shown as 0, whatever was contributed.
pub get_protocol_stats-shares :
    (server : Server) (clock : ℕ)
    → ((get_protocol_stats server clock).open_disputes
          + (get_protocol_stats server clock).resolved_disputes
        ≡ length (list_disputes server clock))
      × ((get_protocol_stats server clock).active_assets
          ≤ (get_protocol_stats server clock).total_assets)
      × ((get_protocol_stats server clock).funding_raised_open ≡ pos 0)
unfolding get_protocol_stats curated_assets
get_protocol_stats-shares server clock = (
  keep_split (λ (d : Dispute). is_open d.status) (list_disputes server clock),
  length-keep (λ a. is_active a.state) _,
  open_raises (curated_rows server),
)
