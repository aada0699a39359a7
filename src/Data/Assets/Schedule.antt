-- ===== src/Data/Assets/Schedule.antt =====
-- The tranche that the explorer judges an asset by.
use gally.Prelude.{
  ℕ, ◌≤◌, ◌≡◌, refl, ◌⊎◌, inl, inr, Bool, true, false, not, Option, none, some, List, [], ◌∷◌, map,
  arith, All, All-of, All-at, In, find?, sort_by, sort_by-IsSorted, sort_by-In, IsSorted, IsOrder,
  if◌then◌else◌, leb→le, In-sort_by,
}
use gally.Domain.{Tranche}
use gally.Data.Records.{WireTrancheSchedule}
use gally.Data.Assets.{Approval, is_released, map_tranche, by_index, map_tranches}

by_index-IsOrder : IsOrder by_index
by_index-IsOrder = record { total = λ a b h. ground arith; trans = λ a b c h k. ground arith }

module _ (released : List ℕ) (approvers : List Approval) where
  abbrev pub mapped : WireTrancheSchedule → Tranche
  mapped = map_tranche released approvers

  -- The tranche is of the schedule and not released, and no other of these has a lower index; none
  -- is left where all are released.
  abbrev pub IsNext : Option Tranche → List WireTrancheSchedule → Type 0
  IsNext none schedule = All (λ w. is_released released w.tranche_index ≡ true) schedule
  IsNext (some t) schedule =
      ((w : WireTrancheSchedule) × In w schedule × (t ≡ mapped w))
      × (t.released ≡ false)
      × All (λ w. (is_released released w.tranche_index ≡ true) ⊎ (t.index ≤ w.tranche_index))
          schedule

  pass :
      (w : WireTrancheSchedule) (ws : List WireTrancheSchedule) (o : Option Tranche)
      → is_released released w.tranche_index ≡ true
      → IsNext o ws
      → IsNext o (w ∷ ws)
  pass w ws none e n = (e, n)
  pass w ws (some t) e n = let (v, m, same) = n.0 in ((v, inr m, same), n.1, (inl e, n.2))

  stop_or_pass :
      (w : WireTrancheSchedule) (ws : List WireTrancheSchedule) (o : Option Tranche) (b : Bool)
      → is_released released w.tranche_index ≡ b
      → All (λ v. by_index w v ≡ true) ws
      → IsNext o ws
      → IsNext (if not b then some (mapped w) else o) (w ∷ ws)
  stop_or_pass w ws o true e s n = pass w ws o e n
  stop_or_pass w ws o false e s n = (
    (w, inl refl, refl),
    e,
    (
      inr (omega arith),
      All-of _ ws (λ v m. inr (leb→le w.tranche_index v.tranche_index (All-at _ v ws s m))),
    ),
  )

  find-IsNext :
      (ws : List WireTrancheSchedule)
      → IsSorted by_index ws
      → IsNext (find? (λ t. not t.released) (map mapped ws)) ws
  find-IsNext [] s = tt
  find-IsNext (w ∷ ws) s = stop_or_pass w ws _ _ refl s.0 (find-IsNext ws s.1)

  IsNext-sort_by :
      (o : Option Tranche) (ws : List WireTrancheSchedule)
      → IsNext o (sort_by by_index ws)
      → IsNext o ws
  IsNext-sort_by none ws n = All-of _ ws (λ w m. All-at _ w _ n (sort_by-In by_index w ws m))
  IsNext-sort_by (some t) ws n =
      let (v, m, same) = n.0 in
      (
        (v, In-sort_by by_index v ws m, same),
        n.1,
        All-of _ ws (λ w k. All-at _ w _ n.2 (sort_by-In by_index w ws k)),
      )

  -- The next tranche of an asset, the first that is not released, is the one of the least index in
  -- the schedule of the indexer whatever the order of that is; there is none exactly where all are
  -- released.
  pub map_tranches-IsNext :
      (schedule : List WireTrancheSchedule)
      → IsNext (find? (λ t. not t.released) (map_tranches schedule released approvers)) schedule
  unfolding map_tranches
  map_tranches-IsNext schedule = IsNext-sort_by _ schedule (
      find-IsNext (sort_by by_index schedule) (sort_by-IsSorted by_index by_index-IsOrder schedule))
