-- ===== src/Prelude/Sort.antt =====
-- `Array.prototype.sort`, which is stable: a value that is not after an earlier one stays behind
-- it. `le a b` says that the comparator does not put `a` after `b`.
use native.Mathlib.Omega.{arith}
use mathlib.Core.Path.{◌≡◌, refl, ap, ◌∙◌}
use mathlib.Core.Logic.{◌⊎◌, inl, inr}
use mathlib.Core.Bool.{Bool, true, false}
use mathlib.Core.Option.{some}
use Prim.Native.Nat.{◌≤◌}
use mathlib.Core.List.{List, [], ◌∷◌, Perm}
use mathlib.Core.List.Perm
use gally.Prelude.Tests.{if◌then◌else◌, Bool-cases}
use gally.Prelude.Lists.{All, find?, All-at, All-of, In, any, keep, length}

-- A comparator that answers for any two values, and chains.
pub record IsOrder {ℓ} {A : Type ℓ} (le : A → A → Bool) : Type ℓ where
  pub total : (a b : A) → le a b ≡ false → le b a ≡ true
  pub trans : (a b c : A) → le a b ≡ true → le b c ≡ true → le a c ≡ true

module _ {ℓ} {A : Type ℓ} (le : A → A → Bool) where
  pub insert_sorted : A → List A → List A
  insert_sorted x [] = x ∷ []
  insert_sorted x (y ∷ ys) =
      let rest = insert_sorted x ys in if le x y then x ∷ y ∷ ys else y ∷ rest

  unfoldable pub sort_by : List A → List A
  unfolding insert_sorted
  sort_by [] = []
  sort_by (x ∷ xs) = insert_sorted x (sort_by xs)

  -- Each value is not after any that follows it.
  abbrev pub IsSorted : List A → Type ℓ
  IsSorted [] = Unit
  IsSorted (x ∷ xs) = All (λ y. le x y ≡ true) xs × IsSorted xs

  insert_sorted-perm : (x : A) (xs : List A) → Perm (insert_sorted x xs) (x ∷ xs)
  unfolding insert_sorted
  insert_sorted-perm x [] = Perm.refl _
  insert_sorted-perm x (y ∷ ys) = elim (Bool-cases (le x y)) [
    | inl e ↦ rw e (Perm.refl _)
    | inr e ↦ rw e (Perm.trans (Perm.cons y (insert_sorted-perm x ys)) (Perm.swap x y ys))
  ]

  pub sort_by-perm : (xs : List A) → Perm (sort_by xs) xs
  unfolding sort_by
  sort_by-perm [] = Perm.refl _
  sort_by-perm (x ∷ xs) =
      Perm.trans (insert_sorted-perm x (sort_by xs)) (Perm.cons x (sort_by-perm xs))

  insert_sorted-All {κ} :
      (P : A → Type κ) (x : A) (xs : List A) → P x → All P xs → All P (insert_sorted x xs)
  unfolding insert_sorted
  insert_sorted-All P x [] p h = (p, tt)
  insert_sorted-All P x (y ∷ ys) p h = elim (Bool-cases (le x y)) [
    | inl e ↦ rw e (p, h)
    | inr e ↦ rw e (h.0, insert_sorted-All P x ys p h.1)
  ]

  -- A property of every member is kept by sorting.
  pub sort_by-All {κ} : (P : A → Type κ) (xs : List A) → All P xs → All P (sort_by xs)
  unfolding sort_by
  sort_by-All P [] h = tt
  sort_by-All P (x ∷ xs) h = insert_sorted-All P x (sort_by xs) h.0 (sort_by-All P xs h.1)

  insert_sorted-any :
      (q : A → Bool) (x : A) (xs : List A) → any q (insert_sorted x xs) ≡ any q (x ∷ xs)
  unfolding insert_sorted
  insert_sorted-any q x [] = refl
  insert_sorted-any q x (y ∷ ys) = elim (Bool-cases (le x y)) [
    | inl e ↦ rw e refl
    | inr e ↦ rw e (ground (arith, insert_sorted-any q x ys))
  ]

  -- A member with some quality is there before sorting and after.
  pub sort_by-any : (q : A → Bool) (xs : List A) → any q (sort_by xs) ≡ any q xs
  unfolding sort_by
  sort_by-any q [] = refl
  sort_by-any q (x ∷ xs) =
      insert_sorted-any q x (sort_by xs) ∙ ap (λ b. if q x then true else b) (sort_by-any q xs)

  insert_sorted-count :
      (q : A → Bool) (x : A) (xs : List A)
      → length (keep q (insert_sorted x xs)) ≡ length (keep q (x ∷ xs))
  unfolding insert_sorted
  insert_sorted-count q x [] = refl
  insert_sorted-count q x (y ∷ ys) = elim (Bool-cases (le x y)) [
    | inl e ↦ rw e refl
    | inr e ↦ rw e (ground (arith, insert_sorted-count q x ys))
  ]

  -- Sorting keeps the number of members with some quality.
  pub sort_by-count :
      (q : A → Bool) (xs : List A) → length (keep q (sort_by xs)) ≡ length (keep q xs)
  unfolding sort_by
  sort_by-count q [] = refl
  sort_by-count q (x ∷ xs) =
      let rest = sort_by-count q xs in insert_sorted-count q x (sort_by xs) ∙ ground arith

  insert_sorted-length : (x : A) (xs : List A) → length (insert_sorted x xs) ≡ length (x ∷ xs)
  unfolding insert_sorted
  insert_sorted-length x [] = refl
  insert_sorted-length x (y ∷ ys) = ground (arith, insert_sorted-length x ys)

  pub sort_by-length : (xs : List A) → length (sort_by xs) ≡ length xs
  unfolding sort_by
  sort_by-length [] = refl
  sort_by-length (x ∷ xs) = omega (arith, insert_sorted-length x (sort_by xs), sort_by-length xs)

  insert_sorted-find? :
      (q : A → Bool) (x : A) (xs : List A)
      → length (keep q (x ∷ xs)) ≤ 1
      → find? q (insert_sorted x xs) ≡ find? q (x ∷ xs)
  unfolding insert_sorted
  insert_sorted-find? q x [] h = refl
  insert_sorted-find? q x (y ∷ ys) h = elim (Bool-cases (le x y)) [
    | inl e ↦ rw e refl
    | inr e ↦ rw e (ground (arith, insert_sorted-find? q x ys))
  ]

  -- Sorting does not change which value is found, where one at most can be.
  pub sort_by-find? :
      (q : A → Bool) (xs : List A) → length (keep q xs) ≤ 1 → find? q (sort_by xs) ≡ find? q xs
  unfolding sort_by
  sort_by-find? q [] h = refl
  sort_by-find? q (x ∷ xs) h =
      let same = sort_by-count q xs in
      insert_sorted-find? q x (sort_by xs) (ground arith)
      ∙ ap (λ o. if q x then some x else o) (sort_by-find? q xs (ground arith))

  module _ (o : IsOrder le) where
    below-All :
        (x y : A) (ys : List A)
        → le x y ≡ true
        → All (λ z. le y z ≡ true) ys
        → All (λ z. le x z ≡ true) ys
    below-All x y [] e h = tt
    below-All x y (z ∷ zs) e h = (o.trans x y z e h.0, below-All x y zs e h.1)

    insert_sorted-IsSorted : (x : A) (xs : List A) → IsSorted xs → IsSorted (insert_sorted x xs)
    unfolding insert_sorted
    insert_sorted-IsSorted x [] s = (tt, tt)
    insert_sorted-IsSorted x (y ∷ ys) s = elim (Bool-cases (le x y)) [
      | inl e ↦ rw e ((e, below-All x y ys e s.0), s)
      | inr e ↦ rw e (
        insert_sorted-All (λ z. le y z ≡ true) x ys (o.total x y e) s.0,
        insert_sorted-IsSorted x ys s.1,
      )
    ]

    pub sort_by-IsSorted : (xs : List A) → IsSorted (sort_by xs)
    unfolding sort_by
    sort_by-IsSorted [] = tt
    sort_by-IsSorted (x ∷ xs) = insert_sorted-IsSorted x (sort_by xs) (sort_by-IsSorted xs)

module _ {A : Type 0} (le : A → A → Bool) where
  insert_sorted-In : (x y : A) (xs : List A) → (x ≡ y) ⊎ In x xs → In x (insert_sorted le y xs)
  unfolding insert_sorted
  insert_sorted-In x y [] h = h
  insert_sorted-In x y (z ∷ zs) h = elim (Bool-cases (le y z)) [
    | inl e ↦ rw e h
    | inr e ↦ rw e (elim h [
      | inl a ↦ inr (insert_sorted-In x y zs (inl a))
      | inr (inl a) ↦ inl a
      | inr (inr a) ↦ inr (insert_sorted-In x y zs (inr a))
    ])
  ]

  -- A member is there after sorting.
  pub sort_by-In : (x : A) (xs : List A) → In x xs → In x (sort_by le xs)
  unfolding sort_by
  sort_by-In x [] h = h
  sort_by-In x (y ∷ ys) (inl a) = insert_sorted-In x y (sort_by le ys) (inl a)
  sort_by-In x (y ∷ ys) (inr a) = insert_sorted-In x y (sort_by le ys) (inr (sort_by-In x ys a))

  -- A member is there before sorting.
  pub In-sort_by : (x : A) (xs : List A) → In x (sort_by le xs) → In x xs
  In-sort_by x xs h =
      All-at (λ y. In y xs) x (sort_by le xs) (sort_by-All le _ xs (All-of _ xs (λ y m. m))) h
