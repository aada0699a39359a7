-- ===== src/Pager.antt =====
-- frontend-explorer/components/ui/Pager.tsx: the page of a list that is shown, and the page numbers
-- that can be chosen. `page` is the page that the state holds.
pub mod Pages
pub mod Window
use gally.Prelude.{
  ℕ, zero, suc, ◌+◌, ◌-◌, ◌*◌, ◌/◌, Bool, List, [], ◌∷◌, ◌++◌, length, take, drop, ltb, leb,
  if◌then◌else◌, ◌==◌,
}
use Prim.Native.Nat.{max, min}

pub record Paged {ℓ} (A : Type ℓ) : Type ℓ where
  pub page : ℕ
  pub page_items : List A
  pub page_count : ℕ
  pub total : ℕ

-- `Math.max(1, Math.ceil(total / pageSize))`
unfoldable pub count_pages : ℕ → ℕ → ℕ
count_pages total page_size = max 1 ((total + page_size - 1) / page_size)

-- `items.slice(from, to)`
abbrev pub slice {ℓ} : {A : Type ℓ} → ℕ → ℕ → List A → List A
slice from to items = take (to - from) (drop from items)

unfoldable pub use_paged {ℓ} : {A : Type ℓ} → List A → ℕ → ℕ → Paged A
unfolding count_pages
use_paged items page_size page =
    let total = length items in
    let clamped = min page (count_pages total page_size - 1) in
    record {
      page = clamped;
      page_items = slice (clamped * page_size) ((clamped + 1) * page_size) items;
      page_count = count_pages total page_size;
      total = total;
    }

-- An entry of the list of page numbers: a page, or the sign for a gap.
pub data PageMark : Type 0 where
  number : ℕ → PageMark
  gap : PageMark

-- `n` page numbers, from one on.
abbrev pub numbers : ℕ → ℕ → List PageMark
numbers from zero = []
numbers from (suc n) = number from ∷ numbers (from + 1) n

unfoldable pub page_window : ℕ → ℕ → List PageMark
page_window page page_count =
    let lo = max 1 (page - 1) in
    let hi = min (page_count - 2) (page + 1) in
    if leb page_count 7
    then numbers 0 page_count
    else (number 0 ∷ [])
      ++ (if ltb 1 lo then gap ∷ [] else [])
      ++ numbers lo (hi + 1 - lo)
      ++ (if ltb hi (page_count - 2) then gap ∷ [] else [])
      ++ (number (page_count - 1) ∷ [])
