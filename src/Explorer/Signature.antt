-- ===== src/Explorer/Signature.antt =====
-- The signature tells the choices apart, so that the page starts over whenever the list changes.
use gally.Prelude.{
  ℕ, ◌⊎◌, text_eq→eq, ◌≡◌, refl, sym, ap, ◌∙◌, Bool, true, false, Option, none, some, List, [], ◌∷◌,
  ◌++◌, Text, text, text_eq, any, find?, ◌==◌, arith, if◌then◌else◌, Bool-cases, inl, inr,
}
use gally.Domain.{Asset, AssetState, Category}
use gally.Data.Assets.{category_name}
use gally.Data.Live.Find.{state_name}
use gally.Explorer.{
  SortKey, Explorer, category_part, state_part, sort_part, signature, settle, filtered,
}

abbrev bar : ℕ → Bool
bar c = c == b'|'

-- What stands before the last bar, and after it.
abbrev before_bar : Text → Text
before_bar [] = []
before_bar (c ∷ s) = let rest = before_bar s in if any bar s then c ∷ rest else []

abbrev after_bar : Text → Text
after_bar [] = []
after_bar (c ∷ s) = let rest = after_bar s in if any bar s then rest else s

any-bar : (s u : Text) → any bar (s ++ text "|" ++ u) ≡ true
any-bar [] u = refl
any-bar (c ∷ s) u = ground (arith, any-bar s u)

before_bar_lem : (s u : Text) → any bar u ≡ false → before_bar (s ++ text "|" ++ u) ≡ s
before_bar_lem [] u h = rw h refl
before_bar_lem (c ∷ s) u h = rw (any-bar s u) (ap (λ t. c ∷ t) (before_bar_lem s u h))

after_bar_lem : (s u : Text) → any bar u ≡ false → after_bar (s ++ text "|" ++ u) ≡ u
after_bar_lem [] u h = rw h refl
after_bar_lem (c ∷ s) u h = rw (any-bar s u) (after_bar_lem s u h)

-- A name that the table finds belongs to one value.
module _ {A : Type 0} (name : A → Text) (table : List A) where
  IsTable : Type 0
  IsTable =
      (a : A) → (find? (λ b. text_eq (name b) (name a)) table ≡ some a) × (any bar (name a) ≡ false)

  name-inj : IsTable → (a b : A) → name a ≡ name b → a ≡ b
  unfolding IsTable
  name-inj found a b e =
      let here : some a ≡ some b =
        sym (found a).0 ∙ ap (λ t. find? (λ c. text_eq (name c) t) table) e ∙ (found b).0 in
      cc

  -- The last part of a signature and what stands before it.
  part-inj :
      IsTable
      → (s t : Text) (a b : A) → s ++ text "|" ++ name a ≡ t ++ text "|" ++ name b
      → (s ≡ t) × (a ≡ b)
  unfolding IsTable
  part-inj found s t a b e = (
    sym (before_bar_lem s (name a) (found a).1)
        ∙ ap before_bar e
        ∙ before_bar_lem t (name b) (found b).1,
    name-inj found a b (
        sym (after_bar_lem s (name a) (found a).1)
        ∙ ap after_bar e
        ∙ after_bar_lem t (name b) (found b).1),
  )

abbrev category_table : List (Option Category)
category_table =
    none
    ∷ some Category.housing
    ∷ some Category.machinery
    ∷ some Category.trade_finance
    ∷ some Category.agriculture
    ∷ some Category.energy
    ∷ some Category.infrastructure
    ∷ []

category_table-IsTable : IsTable category_part category_table
unfolding IsTable category_name
category_table-IsTable none = (refl, refl)
category_table-IsTable (some Category.housing) = (refl, refl)
category_table-IsTable (some Category.machinery) = (refl, refl)
category_table-IsTable (some Category.trade_finance) = (refl, refl)
category_table-IsTable (some Category.agriculture) = (refl, refl)
category_table-IsTable (some Category.energy) = (refl, refl)
category_table-IsTable (some Category.infrastructure) = (refl, refl)

abbrev state_table : List (Option AssetState)
state_table =
    none
    ∷ some AssetState.pending_vouch
    ∷ some AssetState.funding
    ∷ some AssetState.funded
    ∷ some AssetState.executing
    ∷ some AssetState.operational
    ∷ some AssetState.defaulted
    ∷ some AssetState.compensating
    ∷ some AssetState.closed
    ∷ some AssetState.failed
    ∷ some AssetState.cancelled
    ∷ []

state_table-IsTable : IsTable state_part state_table
unfolding IsTable state_name
state_table-IsTable none = (refl, refl)
state_table-IsTable (some AssetState.pending_vouch) = (refl, refl)
state_table-IsTable (some AssetState.funding) = (refl, refl)
state_table-IsTable (some AssetState.funded) = (refl, refl)
state_table-IsTable (some AssetState.executing) = (refl, refl)
state_table-IsTable (some AssetState.operational) = (refl, refl)
state_table-IsTable (some AssetState.defaulted) = (refl, refl)
state_table-IsTable (some AssetState.compensating) = (refl, refl)
state_table-IsTable (some AssetState.closed) = (refl, refl)
state_table-IsTable (some AssetState.failed) = (refl, refl)
state_table-IsTable (some AssetState.cancelled) = (refl, refl)

abbrev sort_table : List SortKey
sort_table = SortKey.holders ∷ SortKey.raised ∷ SortKey.apy ∷ SortKey.newest ∷ SortKey.progress ∷ []

sort_table-IsTable : IsTable sort_part sort_table
unfolding IsTable
sort_table-IsTable SortKey.holders = (refl, refl)
sort_table-IsTable SortKey.raised = (refl, refl)
sort_table-IsTable SortKey.apy = (refl, refl)
sort_table-IsTable SortKey.newest = (refl, refl)
sort_table-IsTable SortKey.progress = (refl, refl)

-- States with one signature list the same assets in the same order.
pub signature-filtered :
    (to_lower : Text → Text) (assets : List Asset) (e f : Explorer)
    → signature e ≡ signature f
    → filtered to_lower assets e ≡ filtered to_lower assets f
unfolding signature filtered
signature-filtered to_lower assets e f same =
    let by_sort = part-inj sort_part sort_table sort_table-IsTable _ _ e.sort f.sort same in
    let by_state =
      part-inj state_part state_table state_table-IsTable _ _ e.state f.state by_sort.0 in
    let by_cat =
      part-inj category_part category_table category_table-IsTable e.q f.q e.cat f.cat by_state.0 in
    rw (by_sort.1, by_state.1, by_cat.1, by_cat.0) refl

-- After a render of the choices of `f`, the page starts over, or the list is the one of `f`.
pub settle-starts_over :
    (to_lower : Text → Text) (assets : List Asset) (e f : Explorer)
    → e.prev_sig ≡ signature f
    → (filtered to_lower assets e ≡ filtered to_lower assets f) ⊎ ((settle e).page ≡ 0)
unfolding settle
settle-starts_over to_lower assets e f h = elim (Bool-cases (text_eq (signature e) e.prev_sig)) [
  | inl same ↦
      inl (signature-filtered to_lower assets e f (text_eq→eq (signature e) e.prev_sig same ∙ h))
  | inr other ↦ inr (rw other refl)
]
