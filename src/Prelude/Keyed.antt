-- ===== src/Prelude/Keyed.antt =====
-- A `Map` from the key of a value to the value, as the list of its values in order.
use Prim.Native.Nat.{suc, ◌≤◌}
use native.Mathlib.Omega.{arith}
use mathlib.Core.Path.{◌≡◌, refl, ap, sym, ◌∙◌}
use mathlib.Core.Logic.{inl, inr}
use mathlib.Core.Bool.{Bool, true, false}
use mathlib.Core.Option.{Option, none, some}
use mathlib.Core.List.{List, [], ◌∷◌, map}
use gally.Prelude.Tests.{◌<|>◌, option_map, if◌then◌else◌, Bool-cases}
use gally.Prelude.Lists.{length, keep, find?, last?}
use gally.Prelude.Strings.{Text, text_eq, text_eq→eq, text_eq_iff}

-- Two different names are not both the same third one.
pub apart : (a b j : Text) → text_eq a b ≡ false → text_eq a j ≡ true → text_eq b j ≡ false
apart a b j e f = elim (Bool-cases (text_eq b j)) [
  | inl g ↦ absurd (cc (e, (text_eq_iff a b).1 (text_eq→eq a j f ∙ sym (text_eq→eq b j g))))
  | inr g ↦ g
]

text_ne : (a b : Text) → text_eq a b ≡ false → text_eq b a ≡ false
text_ne a b e = elim (Bool-cases (text_eq b a)) [
  | inl g ↦ absurd (cc (e, (text_eq_iff a b).1 (sym (text_eq→eq b a g))))
  | inr g ↦ g
]

pub <|>_assoc {ℓ} : {A : Type ℓ} (a b c : Option A) → (a <|> b) <|> c ≡ a <|> (b <|> c)
<|>_assoc none b c = refl
<|>_assoc (some x) b c = refl

pub <|>_none {ℓ} : {A : Type ℓ} (a : Option A) → (a <|> none) ≡ a
<|>_none none = refl
<|>_none (some x) = refl

pub find?-map {ℓ κ} :
    {A : Type ℓ} {B : Type κ} (p : B → Bool) (f : A → B) (xs : List A)
    → find? p (map f xs) ≡ option_map f (find? (λ x. p (f x)) xs)
find?-map p f [] = refl
find?-map p f (x ∷ xs) = elim (Bool-cases (p (f x))) [
  | inl e ↦ rw e refl
  | inr e ↦ rw e (find?-map p f xs)
]

pub count-map {ℓ κ} :
    {A : Type ℓ} {B : Type κ} (p : B → Bool) (f : A → B) (xs : List A)
    → length (keep p (map f xs)) ≡ length (keep (λ x. p (f x)) xs)
count-map p f [] = refl
count-map p f (x ∷ xs) = elim (Bool-cases (p (f x))) [
  | inl e ↦ rw e (ap suc (count-map p f xs))
  | inr e ↦ rw e (count-map p f xs)
]

module _ {ℓ} {A : Type ℓ} (p q : A → Bool) (same : (x : A) → p x ≡ q x) where
  pub find?-cong : (xs : List A) → find? p xs ≡ find? q xs
  find?-cong [] = refl
  find?-cong (x ∷ xs) = rw (same x, find?-cong xs) refl

  pub count-cong : (xs : List A) → length (keep p xs) ≡ length (keep q xs)
  count-cong [] = refl
  count-cong (x ∷ xs) = elim (Bool-cases (q x)) [
    | inl e ↦ rw (same x, e) (ap suc (count-cong xs))
    | inr e ↦ rw (same x, e) (count-cong xs)
  ]

module _ {ℓ} {A : Type ℓ} where
  last?-or : (x : A) (xs : List A) (o : Option A) → (last? (x ∷ xs) <|> o) ≡ last? (x ∷ xs)
  last?-or x [] o = refl
  last?-or x (y ∷ ys) o = last?-or y ys o

  pub last?-cons : (x : A) (xs : List A) → last? (x ∷ xs) ≡ (last? xs <|> some x)
  last?-cons x [] = refl
  last?-cons x (y ∷ ys) = sym (last?-or y ys (some x))

module _ {A : Type 0} (key : A → Text) where
  -- `byId.set(key, x)`: a value takes the place of the one with its key.
  abbrev pub put_by : A → List A → List A
  put_by x [] = x ∷ []
  put_by x (y ∷ ys) = let rest = put_by x ys in if text_eq (key y) (key x) then x ∷ ys else y ∷ rest

  abbrev pub put_all : List A → List A → List A
  put_all [] by_id = by_id
  put_all (x ∷ xs) by_id = put_all xs (put_by x by_id)

  abbrev pub has_key : Text → A → Bool
  has_key j x = text_eq (key x) j

  find?-put_by :
      (j : Text) (x : A) (ys : List A)
      → find? (has_key j) (put_by x ys) ≡ (if has_key j x then some x else find? (has_key j) ys)
  find?-put_by j x [] = refl
  find?-put_by j x (y ∷ ys) = elim (Bool-cases (text_eq (key y) (key x))) [
    | inl e ↦ rw (e, text_eq→eq (key y) (key x) e) (ground arith)
    | inr e ↦
        let other = find?-put_by j x ys in
        rw e (elim (Bool-cases (text_eq (key y) j)) [
          | inl f ↦ rw (f, apart (key y) (key x) j e f) refl
          | inr f ↦ rw f other
        ])
  ]

  -- The value of a key is the last that was put under it.
  pub find?-put_all :
      (j : Text) (xs ys : List A)
      → find? (has_key j) (put_all xs ys) ≡ (last? (keep (has_key j) xs) <|> find? (has_key j) ys)
  find?-put_all j [] ys = refl
  find?-put_all j (x ∷ xs) ys =
      find?-put_all j xs (put_by x ys)
      ∙ ap (λ o. last? (keep (has_key j) xs) <|> o) (find?-put_by j x ys)
      ∙ elim (Bool-cases (has_key j x)) [
        | inl e ↦
            let found = find? (has_key j) ys in
            rw e (
              sym (
                ap (λ o. o <|> found) (last?-cons x (keep (has_key j) xs))
                ∙ <|>_assoc (last? (keep (has_key j) xs)) (some x) found))
        | inr e ↦ rw e refl
      ]

  put_by-other :
      (j : Text) (x : A) (ys : List A)
      → has_key j x ≡ false
      → length (keep (has_key j) (put_by x ys)) ≡ length (keep (has_key j) ys)
  put_by-other j x [] n = rw n refl
  put_by-other j x (y ∷ ys) n = elim (Bool-cases (text_eq (key y) (key x))) [
    | inl e ↦ rw (e, text_eq→eq (key y) (key x) e) (rw n refl)
    | inr e ↦ rw e (ground (arith, put_by-other j x ys n))
  ]

  put_by-count :
      (j : Text) (x : A) (ys : List A)
      → length (keep (has_key j) ys) ≤ 1
      → length (keep (has_key j) (put_by x ys)) ≤ 1
  put_by-count j x [] h = ground arith
  put_by-count j x (y ∷ ys) h = elim (Bool-cases (text_eq (key y) (key x))) [
    | inl e ↦
        let same : has_key j x ≡ has_key j y = ap (λ k. text_eq k j) (sym (text_eq→eq _ _ e)) in
        rw e (ground arith)
    | inr e ↦ elim (Bool-cases (has_key j x)) [
      | inl f ↦
          let no = apart (key x) (key y) j (text_ne (key y) (key x) e) f in
          rw e (rw no (put_by-count j x ys (ground arith)))
      | inr f ↦ rw e (ground (arith, put_by-other j x ys f))
    ]
  ]

  -- Each key has one value at most.
  pub put_all-count :
      (j : Text) (xs ys : List A)
      → length (keep (has_key j) ys) ≤ 1
      → length (keep (has_key j) (put_all xs ys)) ≤ 1
  put_all-count j [] ys h = h
  put_all-count j (x ∷ xs) ys h = put_all-count j xs (put_by x ys) (put_by-count j x ys h)
