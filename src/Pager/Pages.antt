-- ===== src/Pager/Pages.antt =====
-- What the pages of a list hold.
use gally.Prelude.{
  ℕ, zero, suc, ◌+◌, ◌-◌, ◌*◌, ◌/◌, ◌≤◌, ◌<◌, ◌≡◌, refl, sym, ap, ◌∙◌, List, [], ◌∷◌, ◌++◌, length,
  take, drop, length-take, length-drop, arith,
}
use Prim.Native.Nat.{max, min}
use native.Mathlib.Nat.{mod-lt}
use native.Mathlib.Omega.{div_any}
use native.Mathlib.Nat.{mul-le-mul_left}
use gally.Pager.{count_pages, use_paged}

module _ {ℓ} {A : Type ℓ} where
  -- The first pages one after the other, as the hook shows them.
  abbrev pub read_pages : List A → ℕ → ℕ → List A
  read_pages items page_size zero = []
  read_pages items page_size (suc n) =
      read_pages items page_size n ++ (use_paged items page_size n).page_items

  take-add : (n m : ℕ) (xs : List A) → take (n + m) xs ≡ take n xs ++ take m (drop n xs)
  take-add zero m xs = let e : 0 + m ≡ m = omega arith in rw e refl
  take-add (suc n) zero [] = let e : suc n + 0 ≡ suc n = omega arith in rw e refl
  take-add (suc n) (suc m) [] = let e : suc n + suc m ≡ suc (n + suc m) = omega arith in rw e refl
  take-add (suc n) m (x ∷ xs) =
      let e : suc n + m ≡ suc (n + m) = omega arith in rw e (ap (λ ys. x ∷ ys) (take-add n m xs))

  take-all : (n : ℕ) (xs : List A) → length xs ≤ n → take n xs ≡ xs
  take-all zero [] h = refl
  take-all zero (x ∷ xs) h = absurd (omega arith)
  take-all (suc n) [] h = refl
  take-all (suc n) (x ∷ xs) h = ap (λ ys. x ∷ ys) (take-all n xs (omega arith))

  read_pages_lem :
      (items : List A) (size n : ℕ)
      → n ≤ count_pages (length items) size
      → read_pages items size n ≡ take (n * size) items
  unfolding use_paged
  read_pages_lem items size zero h = let e : 0 * size ≡ 0 = omega arith in rw e refl
  read_pages_lem items size (suc n) h =
      let same : min n (count_pages (length items) size - 1) ≡ n = omega arith in
      let width : (n + 1) * size - n * size ≡ size = ground arith in
      let next : suc n * size ≡ n * size + size = ground arith in
      rw (same, width, next, read_pages_lem items size n (omega arith))
        (sym (take-add (n * size) size items))

-- The pages cover the list, and the last of them begins before its end.
count_pages-covers : (total size : ℕ) → 1 ≤ size → total ≤ count_pages total size * size
unfolding count_pages
count_pages-covers total size h =
    let q = (total + size - 1) / size in
    ground (
      arith,
      div_any (total + size - 1) size,
      mod-lt (total + size - 1) h,
      mul-le-mul_left {m = q} {n = max 1 q} size (omega arith),
    )

count_pages-last :
    (total size k : ℕ) → 1 ≤ size → 1 ≤ total → k < count_pages total size → k * size < total
unfolding count_pages
count_pages-last total size zero h t b = ground arith
count_pages-last total size (suc k) h t b =
    let q = (total + size - 1) / size in
    ground (
      arith,
      div_any (total + size - 1) size,
      mod-lt (total + size - 1) h,
      mul-le-mul_left {m = suc k + 1} {n = q} size (omega arith),
    )

count_pages-positive : (total size : ℕ) → 1 ≤ count_pages total size
unfolding count_pages
count_pages-positive total size = omega arith

module _ {ℓ} {A : Type ℓ} where
  -- The pages that the hook shows, one after the other, are the list.
  pub read_pages-all :
      (items : List A) (size : ℕ)
      → 1 ≤ size
      → read_pages items size (count_pages (length items) size) ≡ items
  read_pages-all items size h =
      read_pages_lem items size (count_pages (length items) size) (omega arith)
      ∙ take-all (count_pages (length items) size * size) items
          (count_pages-covers (length items) size h)

  -- Whatever page the state holds, a page of a list with a member shows a member, and at most
  -- `size` of them.
  pub use_paged-shows :
      (items : List A) (size page : ℕ)
      → 1 ≤ size
      → 1 ≤ length items
      → (1 ≤ length (use_paged items size page).page_items)
        × (length (use_paged items size page).page_items ≤ size)
  unfolding use_paged
  use_paged-shows items size page h t =
      let k = min page (count_pages (length items) size - 1) in
      let some_page = count_pages-positive (length items) size in
      let width : (k + 1) * size - k * size ≡ size = ground arith in
      let begins : k * size < length items =
        count_pages-last (length items) size k h t (omega arith) in
      rw width
        (omega (arith, length-take size (drop (k * size) items), length-drop (k * size) items))
