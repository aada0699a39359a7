-- ===== src/Data/Position/Groups.antt =====
-- The holdings of a wallet count each deed once, under its own asset, and what they show as pending is
-- compared with what the contract pays.
use gally.Prelude.{
  ℕ, ◌+◌, ◌-◌, ◌*◌, ◌/◌, ◌≤◌, ◌≡◌, refl, sym, ap, ◌∙◌, inl, inr, true, Option, List, [], ◌∷◌, ◌++◌,
  arith, Text, text_eq, text_eq→eq, Bool-cases, leb, ◌==◌, ◌||◌, if◌then◌else◌,
}
use gally.Prelude.Int.{pos}
use gally.Domain.{Asset}
use gally.Data.Position.{
  pending_units, pending_yield, OwnedDeed, Group, add_deed, add_deeds, by_asset, sum_shares,
  ObjectAnswer, LiveHolding, holding_of, holdings_of, build_connected_holdings,
}

-- An amount where two ids are the same.
abbrev pub counted : Text → Text → ℕ → ℕ
counted asset id n = if text_eq id asset then n else 0

-- The shares of one asset, in deeds, groups and holdings.
module _ (asset : Text) where
  abbrev pub deed_shares_of : List OwnedDeed → ℕ
  deed_shares_of [] = 0
  deed_shares_of (d ∷ ds) = counted asset d.asset_id d.share_count_micro + deed_shares_of ds

  abbrev group_shares_of : List Group → ℕ
  group_shares_of [] = 0
  group_shares_of (g ∷ gs) = counted asset g.asset_id (sum_shares g.deeds) + group_shares_of gs

  abbrev pub holding_shares_of : List LiveHolding → ℕ
  holding_shares_of [] = 0
  holding_shares_of (h ∷ hs) = counted asset h.asset_id h.share_count + holding_shares_of hs

sum_shares-append : (xs ys : List OwnedDeed) → sum_shares (xs ++ ys) ≡ sum_shares xs + sum_shares ys
sum_shares-append [] ys = omega arith
sum_shares-append (x ∷ xs) ys = omega (arith, sum_shares-append xs ys)

counted_add :
    (asset id : Text) (m n : ℕ) → counted asset id (m + n) ≡ counted asset id m + counted asset id n
counted_add asset id m n = elim (Bool-cases (text_eq id asset)) [
  | inl e ↦ rw e refl
  | inr e ↦ rw e (omega arith)
]

counted_merged :
    (asset : Text) (g : Group) (d : OwnedDeed)
    → text_eq g.asset_id d.asset_id ≡ true
    → counted asset g.asset_id (sum_shares (g.deeds ++ d ∷ []))
      ≡ counted asset d.asset_id d.share_count_micro + counted asset g.asset_id (sum_shares g.deeds)
counted_merged asset g d e =
    let same : d.asset_id ≡ g.asset_id = sym (text_eq→eq g.asset_id d.asset_id e) in
    let sum : sum_shares (g.deeds ++ d ∷ []) ≡ d.share_count_micro + sum_shares g.deeds =
      omega (arith, sum_shares-append g.deeds (d ∷ [])) in
    ap (counted asset g.asset_id) sum
    ∙ counted_add asset g.asset_id d.share_count_micro (sum_shares g.deeds)
    ∙ ap (λ i. counted asset i d.share_count_micro + counted asset g.asset_id (sum_shares g.deeds))
        (sym same)

group_shares_of-add_deed :
    (asset : Text) (d : OwnedDeed) (gs : List Group)
    → group_shares_of asset (add_deed d gs)
      ≡ counted asset d.asset_id d.share_count_micro + group_shares_of asset gs
group_shares_of-add_deed asset d [] =
    let one : d.share_count_micro + 0 ≡ d.share_count_micro = omega arith in
    ap (λ n. counted asset d.asset_id n + 0) one
group_shares_of-add_deed asset d (g ∷ gs) = elim (Bool-cases (text_eq g.asset_id d.asset_id)) [
  | inl e ↦ rw (e, add_deed) (omega (arith, counted_merged asset g d e))
  | inr e ↦ rw (e, add_deed) (omega (arith, group_shares_of-add_deed asset d gs))
]

group_shares_of-add_deeds :
    (asset : Text) (ds : List OwnedDeed) (gs : List Group)
    → group_shares_of asset (add_deeds ds gs) ≡ deed_shares_of asset ds + group_shares_of asset gs
group_shares_of-add_deeds asset [] gs = omega arith
group_shares_of-add_deeds asset (d ∷ ds) gs =
    omega (
      arith,
      group_shares_of-add_deeds asset ds (add_deed d gs),
      group_shares_of-add_deed asset d gs,
    )

module _ (get_asset : Text → Option Asset) (get_object : Text → Option ObjectAnswer)
    (balance : Text → Option ℕ) (asset : Text) where
  holding_shares_of-groups :
      (address : Text) (gs : List Group)
      → holding_shares_of asset (holdings_of get_asset get_object balance address gs)
        ≡ group_shares_of asset gs
  unfolding holding_of
  holding_shares_of-groups address [] = refl
  holding_shares_of-groups address (g ∷ gs) =
      ap (λ n. counted asset g.asset_id (sum_shares g.deeds) + n)
        (holding_shares_of-groups address gs)

  -- Whatever the indexer and the node answer, the share counts of the holdings in an asset add up to
  -- those of the wallet's deeds of that asset.
  pub holding_shares_of-deeds :
      (address : Text) (ds : List OwnedDeed)
      → holding_shares_of asset (build_connected_holdings get_asset get_object balance address ds)
        ≡ deed_shares_of asset ds
  unfolding build_connected_holdings by_asset
  holding_shares_of-deeds address ds =
      holding_shares_of-groups address (by_asset ds)
      ∙ omega (arith, group_shares_of-add_deeds asset ds [])

-- `pending_payout` of gally_core/sources/accumulator.move, in millionths of USDC, where the index has
-- not fallen behind the deed's; the assert that it fits 64 bits is left out.
abbrev pub pending_payout : ℕ → ℕ → ℕ → ℕ
pending_payout current share count = (current - share) * count / 1000000000

pending_units_lem :
    (current share count : ℕ)
    → share ≤ current
    → pending_units current share count ≡ pending_payout current share count
unfolding pending_units
pending_units_lem current share count h = elim (Bool-cases (leb current share || count == 0)) [
  | inl e ↦
      let none_left : (current - share) * count ≡ 0 = elim (Bool-cases (count == 0)) [
        | inl z ↦ (let k : count ≡ 0 = ground arith in rw k (omega arith))
        | inr z ↦ (let k : current - share ≡ 0 = ground arith in rw k (omega arith))
      ] in
      rw (e, none_left) (omega arith)
  | inr e ↦ rw e refl
]

-- For a deed whose index is not ahead of the accumulator's, the pending yield shown is the contract's
-- payout, which counts millionths of USDC, divided by a million million: a millionth of the payout.
pub pending_yield-payout :
    (current share count : ℕ)
    → share ≤ current
    → pending_yield current share count
      ≡ record { num = pos (pending_payout current share count); over = 1000000 * 1000000 - 1 }
unfolding pending_yield
pending_yield-payout current share count h =
    ap (λ n. record { num = pos n; over = 999999999999 }) (pending_units_lem current share count h)
