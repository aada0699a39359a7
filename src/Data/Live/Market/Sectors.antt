-- ===== src/Data/Live/Market/Sectors.antt =====
-- The sectors of the market split the listing.
use gally.Prelude.{ℕ, suc, ◌+◌, ◌≡◌, refl, ap, ◌∙◌, List, [], ◌∷◌, arith, length}
use gally.Prelude.Int.{ℤ, pos, ◌+ℤ◌, +ℤ_assoc, +ℤ_left_comm}
use gally.Domain.{Asset, Category}
use gally.Data.Live.{Server}
use gally.Data.Live.Market.{
  CategoryStat, category_index, sum_raised, stats_of, categories, list_assets, get_category_stats,
}

abbrev pub sum_counts : List CategoryStat → ℕ
sum_counts [] = 0
sum_counts (s ∷ rest) = s.count + sum_counts rest

abbrev pub sum_of_stats : List CategoryStat → ℤ
sum_of_stats [] = pos 0
sum_of_stats (s ∷ rest) = s.raised +ℤ sum_of_stats rest

-- An asset is counted in one sector.
count_in :
    (c : Category) (a : Asset) (rest : List Asset)
    → a.category ≡ c
    → sum_counts (stats_of (a ∷ rest) categories) ≡ suc (sum_counts (stats_of rest categories))
unfolding category_index
count_in Category.housing a rest e = rw e (omega arith)
count_in Category.machinery a rest e = rw e (omega arith)
count_in Category.trade_finance a rest e = rw e (omega arith)
count_in Category.agriculture a rest e = rw e (omega arith)
count_in Category.energy a rest e = rw e (omega arith)
count_in Category.infrastructure a rest e = rw e (omega arith)

counts : (assets : List Asset) → sum_counts (stats_of assets categories) ≡ length assets
counts [] = refl
counts (a ∷ rest) = count_in a.category a rest refl ∙ ap suc (counts rest)

-- An amount that is added to a later sector is added to the sum.
later : (s x y r : ℤ) → x ≡ r +ℤ y → s +ℤ x ≡ r +ℤ (s +ℤ y)
later s x y r e = ap (λ z. s +ℤ z) e ∙ +ℤ_left_comm s r y

raised_in :
    (c : Category) (a : Asset) (rest : List Asset)
    → a.category ≡ c
    → sum_of_stats (stats_of (a ∷ rest) categories)
      ≡ a.raised +ℤ sum_of_stats (stats_of rest categories)
unfolding category_index
raised_in Category.housing a rest e = rw e (+ℤ_assoc a.raised _ _)
raised_in Category.machinery a rest e = rw e (later _ _ _ a.raised (+ℤ_assoc a.raised _ _))
raised_in Category.trade_finance a rest e =
    rw e (later _ _ _ a.raised (later _ _ _ a.raised (+ℤ_assoc a.raised _ _)))
raised_in Category.agriculture a rest e =
    rw e
      (later _ _ _ a.raised (later _ _ _ a.raised (later _ _ _ a.raised (+ℤ_assoc a.raised _ _))))
raised_in Category.energy a rest e = rw e (
    later _ _ _ a.raised
      (later _ _ _ a.raised (later _ _ _ a.raised (later _ _ _ a.raised (+ℤ_assoc a.raised _ _)))))
raised_in Category.infrastructure a rest e = rw e (
    later _ _ _ a.raised (
      later _ _ _ a.raised (
        later _ _ _ a.raised
          (later _ _ _ a.raised (later _ _ _ a.raised (+ℤ_assoc a.raised _ _))))))

amounts : (assets : List Asset) → sum_of_stats (stats_of assets categories) ≡ sum_raised assets
amounts [] = unfold ◌+ℤ◌ in refl
amounts (a ∷ rest) = raised_in a.category a rest refl ∙ ap (λ z. a.raised +ℤ z) (amounts rest)

-- Over the sectors, the counts add up to the number of the assets listed, and the amounts to what
-- these have raised: no asset is left out or counted twice.
pub get_category_stats-total :
    (server : Server)
    → (sum_counts (get_category_stats server) ≡ length (list_assets server))
      × (sum_of_stats (get_category_stats server) ≡ sum_raised (list_assets server))
unfolding get_category_stats
get_category_stats-total server = (counts (list_assets server), amounts (list_assets server))
