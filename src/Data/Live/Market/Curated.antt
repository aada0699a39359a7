-- ===== src/Data/Live/Market/Curated.antt =====
-- The listing of the market: each asset once, as the last page that has it says, in order.
use gally.Prelude.{
  ◌≤◌, ◌≡◌, refl, ap, ◌∙◌, Bool, true, false, Option, none, some, List, [], map, Text, text_eq,
  arith, keep, length, find?, last?, find?-map, find?-cong, count-cong, if◌then◌else◌, count-map,
  find?-put_all, put_all-count, put_all, <|>_none, sort_by-find?, sort_by-count, sort_by-IsSorted,
  IsSorted, IsOrder, option_map,
}
use gally.Domain.{Asset}
use gally.Data.Records.{WireAsset, WireHoldersEnvelope}
use gally.Data.Assets.{no_extras, map_asset}
use gally.Data.Live.{Server}
use gally.Data.Live.Market.{
  investable_first, populated_first, with_count, is_holder_bearing, pages, market_state_bytes,
  curated_rows, curated_assets, with_holders, list_assets,
}

investable_first-IsOrder : IsOrder investable_first
investable_first-IsOrder = record {
  total = λ a b h. ground arith;
  trans = λ a b c h k. ground arith;
}

populated_first-IsOrder : IsOrder populated_first
populated_first-IsOrder = record {
  total = λ a b h. ground arith;
  trans = λ a b c h k. ground arith;
}

abbrev pub has_id : Text → Asset → Bool
has_id j a = text_eq a.id j

abbrev pub row_id : WireAsset → Text
row_id w = w.asset_id

module _ (server : Server) where
  with_count-id : (a : Asset) (o : Option WireHoldersEnvelope) → (with_count a o).id ≡ a.id
  with_count-id a none = refl
  with_count-id a (some env) = refl

  either-id : (b : Bool) (x a : Asset) → x.id ≡ a.id → (if b then x else a).id ≡ a.id
  either-id true x a h = h
  either-id false x a h = refl

  with_holders-id : (j : Text) (a : Asset) → has_id j (with_holders server a) ≡ has_id j a
  with_holders-id j a =
      ap (λ k. text_eq k j) (either-id (is_holder_bearing a.state) _ a (with_count-id a _))

  -- The row that the pages give an id: the last one.
  abbrev pub row_of : Text → Option WireAsset
  row_of j = last? (keep (λ w. text_eq w.asset_id j) (pages server market_state_bytes))

  once : (j : Text) → length (keep (λ w. text_eq w.asset_id j) (curated_rows server)) ≤ 1
  unfolding curated_rows
  once j =
      let ws = pages server market_state_bytes in
      omega (
        arith,
        sort_by-count investable_first (λ w. text_eq w.asset_id j) (put_all row_id ws []),
        put_all-count row_id j ws [] (omega arith),
      )

  found : (j : Text) → find? (λ w. text_eq w.asset_id j) (curated_rows server) ≡ row_of j
  unfolding curated_rows
  found j =
      let ws = pages server market_state_bytes in
      sort_by-find? investable_first _ _ (put_all-count row_id j ws [] (omega arith))
      ∙ find?-put_all row_id j ws []
      ∙ <|>_none (row_of j)

  abbrev pub listed : WireAsset → Asset
  listed w = with_holders server (map_asset w no_extras)

  option_map_comp :
      (o : Option WireAsset)
      → option_map (with_holders server) (option_map (λ w. map_asset w no_extras) o)
        ≡ option_map listed o
  option_map_comp none = refl
  option_map_comp (some w) = refl

  abbrev unsorted : List Asset
  unsorted = map (with_holders server) (curated_assets server)

  once-unsorted : (j : Text) → length (keep (has_id j) unsorted) ≤ 1
  unfolding curated_assets map_asset
  once-unsorted j =
      let ws = curated_rows server in
      omega (
        arith,
        once j,
        count-map (has_id j) (with_holders server) (curated_assets server),
        count-cong (λ a. has_id j (with_holders server a)) (has_id j) (with_holders-id j)
            (curated_assets server),
        count-map (has_id j) (λ w. map_asset w no_extras) ws,
      )

  found-unsorted : (j : Text) → find? (has_id j) unsorted ≡ option_map listed (row_of j)
  unfolding curated_assets map_asset
  found-unsorted j =
      find?-map (has_id j) (with_holders server) (curated_assets server)
      ∙ ap (option_map (with_holders server)) (
          find?-cong (λ a. has_id j (with_holders server a)) (has_id j) (with_holders-id j)
            (curated_assets server)
          ∙ find?-map (has_id j) (λ w. map_asset w no_extras) (curated_rows server)
          ∙ ap (option_map (λ w. map_asset w no_extras)) (found j))
      ∙ option_map_comp (row_of j)

  -- The listing shows an id once at most: as the last row of the pages that has it, mapped, with its
  -- holders with_holders; an id that no page has is not shown. It is sorted by the rank of the state, the
  -- holders and what is raised.
  pub list_assets-listed :
      (j : Text)
      → (find? (has_id j) (list_assets server) ≡ option_map listed (row_of j))
        × (length (keep (has_id j) (list_assets server)) ≤ 1)
        × IsSorted populated_first (list_assets server)
  unfolding list_assets
  list_assets-listed j = (
    sort_by-find? populated_first (has_id j) unsorted (once-unsorted j) ∙ found-unsorted j,
    omega (arith, sort_by-count populated_first (has_id j) unsorted, once-unsorted j),
    sort_by-IsSorted populated_first populated_first-IsOrder unsorted,
  )
