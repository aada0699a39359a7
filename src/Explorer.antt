-- ===== src/Explorer.antt =====
-- frontend-explorer/components/asset/AssetsExplorer.tsx: the assets that the list shows. `to_lower`
-- is `toLowerCase`, which is up to the tables of Unicode; `live` is `isLive`. An option is the
-- choice of a filter, and none is `All`. That a menu or the filter bar is open, and whether cards or
-- a table are shown, are left out.
pub mod Listed
pub mod Signature
use gally.Prelude.{
  ℕ, zero, suc, Bool, true, false, ◌&&◌, ◌||◌, not, Option, none, some, List, ◌++◌, Text, text,
  text_eq, trim, nonempty, contains, leb, keep, find?, sort_by, if◌then◌else◌,
}
use gally.Prelude.Int.{ℤ, pos, negsuc, leb_ℤ, ltb_ℤ}
use gally.Prelude.Number.{Number, whole, scale, ◌/ℤ◌}
use gally.Domain.{Asset, AssetState, Category, Accumulator}
use gally.Data.Assets.{category_name}
use gally.Data.Live.Find.{state_name}
use gally.Data.Live.Market.{is_in, category_index, categories}
use gally.Pager.{Paged, use_paged}

-- `Sort`
pub data SortKey : Type 0 where
  holders raised apy newest progress : SortKey

-- The state of the component that decides what is listed, with the page of the hook.
pub record Explorer : Type 0 where
  pub q : Text
  pub cat : Option Category
  pub state : Option AssetState
  pub sort : SortKey
  pub page : ℕ
  pub prev_sig : Text

-- `x <= y`
abbrev pub leb_Number : Number → Number → Bool
leb_Number x y = leb_ℤ (scale (suc y.over) x.num) (scale (suc x.over) y.num)

-- A quotient, by 0 also.
pub data Quotient : Type 0 where
  finite : Number → Quotient
  infinity minus_infinity not_a_number : Quotient

abbrev pub over_zero : ℤ → Quotient
over_zero a =
    if ltb_ℤ (pos 0) a then infinity else if ltb_ℤ a (pos 0) then minus_infinity else not_a_number

unfoldable pub quotient : ℤ → ℤ → Quotient
unfolding ◌/ℤ◌
quotient a (pos zero) = over_zero a
quotient a (pos (suc n)) = finite (a /ℤ pos (suc n))
quotient a (negsuc n) = finite (a /ℤ negsuc n)

-- `y - x > 0` does not hold; the difference of two infinities with one sign is not a number.
abbrev pub not_above : Quotient → Quotient → Bool
not_above (finite x) (finite y) = leb_Number y x
not_above (finite x) infinity = false
not_above minus_infinity (finite y) = false
not_above minus_infinity infinity = false
not_above _ _ = true

-- `a.accumulator?.apy ?? 0`
abbrev pub apy_of : Option Accumulator → Number
apy_of none = whole (pos 0)
apy_of (some acc) = acc.apy

-- The comparator does not put `a` behind `b`. Where a goal of 0 makes the quotients no order, the
-- order of the list is up to the engine, and is that of an insertion here.
unfoldable pub not_behind : SortKey → Asset → Asset → Bool
unfolding scale quotient
not_behind SortKey.holders a b =
    if leb b.holders a.holders
    then (if leb a.holders b.holders then leb_ℤ b.raised a.raised else true)
    else false
not_behind SortKey.raised a b = leb_ℤ b.raised a.raised
not_behind SortKey.apy a b = leb_Number (apy_of b.accumulator) (apy_of a.accumulator)
not_behind SortKey.newest a b = leb b.created_at_ms a.created_at_ms
not_behind SortKey.progress a b =
    not_above (quotient a.raised a.funding_goal) (quotient b.raised b.funding_goal)

abbrev pub of_category : Option Category → Asset → Bool
unfolding category_index
of_category none a = true
of_category (some c) a = is_in c a

abbrev pub of_state : Option AssetState → Asset → Bool
unfolding state_name
of_state none a = true
of_state (some s) a = text_eq (state_name a.state) (state_name s)

-- `cat`, `state` and `sort` in the signature
abbrev pub category_part : Option Category → Text
unfolding category_name
category_part none = text "All"
category_part (some c) = category_name c

abbrev pub state_part : Option AssetState → Text
unfolding state_name
state_part none = text "All"
state_part (some s) = state_name s

abbrev pub sort_part : SortKey → Text
sort_part SortKey.holders = text "holders"
sort_part SortKey.raised = text "raised"
sort_part SortKey.apy = text "apy"
sort_part SortKey.newest = text "newest"
sort_part SortKey.progress = text "progress"

unfoldable pub signature : Explorer → Text
signature e =
    e.q
    ++ text "|"
    ++ category_part e.cat
    ++ text "|"
    ++ state_part e.state
    ++ text "|"
    ++ sort_part e.sort

-- The change of the state during a render.
unfoldable pub settle : Explorer → Explorer
unfolding signature
settle e =
    if text_eq (signature e) e.prev_sig then e else record e { prev_sig = signature e; page = 0 }

-- The category that the address of the page names, where it is one of the choices.
unfoldable pub initial_category : Option Text → Option Category
unfolding category_name
initial_category none = none
initial_category (some named) = find? (λ c. text_eq (category_name c) named) categories

-- The state at the first render.
unfoldable pub first_view : Bool → Option Text → Explorer
unfolding signature initial_category
first_view live named =
    let e : Explorer = record {
      q = text "";
      cat = initial_category named;
      state = none;
      sort = if live then SortKey.holders else SortKey.raised;
      page = 0;
      prev_sig = text "";
    } in
    record e { prev_sig = signature e }

module _ (to_lower : Text → Text) where
  -- `term` is `q.trim().toLowerCase()`.
  abbrev pub of_term : Text → Asset → Bool
  of_term term a =
      not (nonempty term)
      || contains (to_lower a.name) term
      || contains (to_lower a.ticker) term
      || contains (to_lower a.entity_name) term
      || contains (to_lower a.location) term

  abbrev pub is_wanted : Explorer → Asset → Bool
  is_wanted e a = of_category e.cat a && of_state e.state a && of_term (to_lower (trim e.q)) a

  unfoldable pub filtered : List Asset → Explorer → List Asset
  unfolding not_behind
  filtered assets e = sort_by (not_behind e.sort) (keep (is_wanted e) assets)

  -- What is rendered, twelve to a page.
  unfoldable pub explore : List Asset → Explorer → Paged Asset
  unfolding filtered settle use_paged
  explore assets e = use_paged (filtered assets e) 12 (settle e).page
