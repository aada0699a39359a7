-- ===== src/Explorer/Listed.antt =====
-- Which assets the list has, and in which order.
use gally.Prelude.{
  ◌≡◌, sym, Bool, true, List, [], ◌∷◌, Text, arith, inl, inr, ◌↔◌, In, keep, length, Bool-cases,
  sort_by-In, In-sort_by, sort_by-IsSorted, IsSorted, IsOrder,
}
use mathlib.Core.Path.{subst}
use gally.Domain.{Asset}
use gally.Pager.{count_pages}
use gally.Pager.Pages.{read_pages, read_pages-all}
use gally.Explorer.{SortKey, Explorer, not_behind, is_wanted, filtered}

module _ {A : Type 0} (p : A → Bool) where
  In-keep : (x : A) (xs : List A) → In x (keep p xs) → In x xs × (p x ≡ true)
  In-keep x [] m = absurd m
  In-keep x (y ∷ ys) m = elim (Bool-cases (p y)) [
    | inl e ↦ elim (rw e at m) [
      | inl same ↦ (inl same, rw same e)
      | inr later ↦ let h = In-keep x ys later in (inr h.0, h.1)
    ]
    | inr e ↦ let h = In-keep x ys (rw e at m) in (inr h.0, h.1)
  ]

  keep-In : (x : A) (xs : List A) → In x xs → p x ≡ true → In x (keep p xs)
  keep-In x [] m h = absurd m
  keep-In x (y ∷ ys) (inl same) h = let e : p y ≡ true = rw (sym same) h in rw e (inl same)
  keep-In x (y ∷ ys) (inr later) h = elim (Bool-cases (p y)) [
    | inl e ↦ rw e (inr (keep-In x ys later h))
    | inr e ↦ rw e (keep-In x ys later h)
  ]

holders-IsOrder : IsOrder (not_behind SortKey.holders)
unfolding not_behind
holders-IsOrder = record { total = λ a b h. ground arith; trans = λ a b c h k. ground arith }

raised-IsOrder : IsOrder (not_behind SortKey.raised)
unfolding not_behind
raised-IsOrder = record { total = λ a b h. ground arith; trans = λ a b c h k. ground arith }

newest-IsOrder : IsOrder (not_behind SortKey.newest)
unfolding not_behind
newest-IsOrder = record { total = λ a b h. ground arith; trans = λ a b c h k. ground arith }

module _ (to_lower : Text → Text) where
  -- The list on the pages.
  abbrev pub all_pages : List Asset → Explorer → List Asset
  all_pages assets e =
      read_pages (filtered to_lower assets e) 12
        (count_pages (length (filtered to_lower assets e)) 12)

  -- An asset is on a page where the filters want it, and nowhere else.
  pub listed_lem :
      (assets : List Asset) (e : Explorer) (a : Asset)
      → In a (all_pages assets e) ↔ (In a assets × (is_wanted to_lower e a ≡ true))
  unfolding filtered
  listed_lem assets e a =
      let shown = read_pages-all (filtered to_lower assets e) 12 (omega arith) in
      (
        λ m.
            In-keep (is_wanted to_lower e) a assets
              (In-sort_by (not_behind e.sort) a _ (subst (In a) shown m)),
        λ h.
            subst (In a) (sym shown) (
              sort_by-In (not_behind e.sort) a _ (keep-In (is_wanted to_lower e) a assets h.0 h.1)),
      )

  -- The pages put those with more holders first, and, of those with as many, those that raised more;
  -- or those that raised more; or the newer ones.
  pub listed-IsSorted :
      (assets : List Asset) (e : Explorer)
      → IsSorted
          (not_behind SortKey.holders)
          (all_pages assets (record e { sort = SortKey.holders }))
        × (IsSorted
              (not_behind SortKey.raised)
              (all_pages assets (record e { sort = SortKey.raised }))
            × IsSorted
                (not_behind SortKey.newest)
                (all_pages assets (record e { sort = SortKey.newest })))
  unfolding filtered
  listed-IsSorted assets e =
      let shown = λ (k : SortKey).
        read_pages-all (filtered to_lower assets (record e { sort = k })) 12 (omega arith) in
      (
        rw (shown SortKey.holders) (sort_by-IsSorted _ holders-IsOrder _),
        (
          rw (shown SortKey.raised) (sort_by-IsSorted _ raised-IsOrder _),
          rw (shown SortKey.newest) (sort_by-IsSorted _ newest-IsOrder _),
        ),
      )
