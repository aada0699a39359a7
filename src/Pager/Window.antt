-- ===== src/Pager/Window.antt =====
-- Which page numbers can be chosen.
use gally.Prelude.{
  Bool-cases, inl, inr, ℕ, zero, suc, ◌+◌, ◌-◌, ◌<◌, ◌≡◌, refl, Bool, true, false, ◌&&◌, ◌||◌, List,
  [], ◌∷◌, ◌++◌, any, ltb, leb, ◌==◌, arith, if◌then◌else◌,
}
use Prim.Native.Nat.{max, min}
use gally.Pager.{PageMark, number, gap, numbers, page_window}

abbrev pub is_number : ℕ → PageMark → Bool
is_number i (number n) = i == n
is_number i gap = false

any-append :
    (i : ℕ) (xs ys : List PageMark)
    → any (is_number i) (xs ++ ys) ≡ (any (is_number i) xs || any (is_number i) ys)
any-append i [] ys = refl
any-append i (x ∷ xs) ys = ground (arith, any-append i xs ys)

any-numbers : (i from n : ℕ) → any (is_number i) (numbers from n) ≡ (leb from i && ltb i (from + n))
any-numbers i from zero = ground arith
any-numbers i from (suc n) = ground (arith, any-numbers i (from + 1) n)

no_gap : (i : ℕ) (b : Bool) → any (is_number i) (if b then gap ∷ [] else []) ≡ false
no_gap i true = refl
no_gap i false = refl

window-any :
    (i a z lo n : ℕ) (p q : Bool)
    → any (is_number i) (
        (number a ∷ [])
        ++ (if p then gap ∷ [] else [])
        ++ numbers lo n
        ++ (if q then gap ∷ [] else [])
        ++ (number z ∷ []))
      ≡ (i == a || ((leb lo i && ltb i (lo + n)) || i == z))
window-any i a z lo n p q =
    let before = if p then gap ∷ [] else [] in
    let after = if q then gap ∷ [] else [] in
    let start = number a ∷ [] in
    let e1 = any-append i (start ++ before ++ numbers lo n ++ after) (number z ∷ []) in
    let e2 = any-append i (start ++ before ++ numbers lo n) after in
    let e3 = any-append i (start ++ before) (numbers lo n) in
    let e4 = any-append i start before in
    rw (e1, e2, e3, e4, any-numbers i lo n, no_gap i p, no_gap i q) (ground arith)

-- The numbers that can be chosen are those of all pages where there are seven at most, and else
-- those of the first page, of the last, of the page that is shown and of those beside it.
pub page_window-numbers :
    (i page page_count : ℕ)
    → page < page_count
    → any (is_number i) (page_window page page_count) ≡ (
        ltb i page_count
        && (leb page_count 7
            || (i == 0 || (suc i == page_count || (leb i (page + 1) && leb page (i + 1))))))
unfolding page_window
page_window-numbers i page count h = elim (Bool-cases (leb count 7)) [
  | inl e ↦ rw e (rw (any-numbers i 0 count) (ground arith))
  | inr e ↦ rw e (
      rw
        (window-any i 0 (count - 1) (max 1 (page - 1))
          (min (count - 2) (page + 1) + 1 - max 1 (page - 1)) (ltb 1 (max 1 (page - 1)))
          (ltb (min (count - 2) (page + 1)) (count - 2)))
        (ground arith))
]
