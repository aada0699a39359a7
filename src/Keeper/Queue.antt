-- ===== src/Keeper/Queue.antt =====
-- The keeper's view: runnable cranks first, and each group by the time from which it can run.
use gally.Prelude.{
  ◌≤◌, refl, ap, Bool, not, [], ◌∷◌, All, keep, Bool-cases, inl, inr, if◌then◌else◌, ℕ, ◌≡◌, true,
  false, Option, none, some, List, ◌++◌, arith, IsOrder, IsSorted, sort_by-IsSorted, sort_by-perm,
}
use mathlib.Core.List.{Perm}
use gally.Domain.{Asset, Dispute}
use gally.Keeper.{CrankOp, no_later, before, asset_cranks, dispute_cranks, all_cranks}

no_later_total : (x y : Option ℕ) → no_later x y ≡ false → no_later y x ≡ true
no_later_total (some x) (some y) h = ground arith
no_later_total (some x) none h = ground arith
no_later_total none (some y) h = ground arith
no_later_total none none h = ground arith

no_later_trans :
    (x y z : Option ℕ) → no_later x y ≡ true → no_later y z ≡ true → no_later x z ≡ true
no_later_trans (some x) (some y) (some z) h k = ground arith
no_later_trans _ _ _ h k = ground arith

before-IsOrder : IsOrder before
before-IsOrder = record {
  total = λ x y h. ground (arith, no_later_total x.available_at_ms y.available_at_ms);
  trans = λ x y z h k.
      ground (arith, no_later_trans x.available_at_ms y.available_at_ms z.available_at_ms);
}

-- One time is not after another; a missing time is after all others.
abbrev pub AtMost : Option ℕ → Option ℕ → Type 0
AtMost (some x) (some y) = x ≤ y
AtMost (some x) none = Unit
AtMost none (some y) = ⊥
AtMost none none = Unit

-- Each time is not after any that follows it.
abbrev pub IsAscending : List (Option ℕ) → Type 0
IsAscending [] = Unit
IsAscending (t ∷ ts) = All (AtMost t) ts × IsAscending ts

-- The cranks that are runnable (true), or are not (false), and their times.
abbrev pub is_of : Bool → CrankOp → Bool
is_of b x = if b then x.eligible else not x.eligible

abbrev pub group : Bool → List CrankOp → List CrankOp
group b xs = keep (is_of b) xs

abbrev pub times : List CrankOp → List (Option ℕ)
times [] = []
times (x ∷ xs) = x.available_at_ms ∷ times xs

no_later→AtMost : (x y : Option ℕ) → no_later x y ≡ true → AtMost x y
no_later→AtMost (some x) (some y) h = ground arith
no_later→AtMost (some x) none h = tt
no_later→AtMost none (some y) h = cc
no_later→AtMost none none h = tt

-- What the comparator says of two cranks of one group.
before→AtMost :
    (b : Bool) (x y : CrankOp)
    → is_of b x ≡ true
    → is_of b y ≡ true
    → before x y ≡ true
    → AtMost x.available_at_ms y.available_at_ms
before→AtMost true x y e f h = no_later→AtMost x.available_at_ms y.available_at_ms (ground arith)
before→AtMost false x y e f h = no_later→AtMost x.available_at_ms y.available_at_ms (ground arith)

group-AtMost :
    (b : Bool) (x : CrankOp) (xs : List CrankOp)
    → is_of b x ≡ true
    → All (λ y. before x y ≡ true) xs
    → All (AtMost x.available_at_ms) (times (group b xs))
group-AtMost b x [] e h = tt
group-AtMost b x (y ∷ ys) e h = elim (Bool-cases (is_of b y)) [
  | inl f ↦ rw f (before→AtMost b x y e f h.0, group-AtMost b x ys e h.1)
  | inr f ↦ rw f (group-AtMost b x ys e h.1)
]

group-IsAscending :
    (b : Bool) (xs : List CrankOp) → IsSorted before xs → IsAscending (times (group b xs))
group-IsAscending b [] s = tt
group-IsAscending b (x ∷ xs) s = elim (Bool-cases (is_of b x)) [
  | inl e ↦ rw e (group-AtMost b x xs e s.0, group-IsAscending b xs s.1)
  | inr e ↦ rw e (group-IsAscending b xs s.1)
]

-- Behind a crank that is not runnable none is.
behind :
    (x : CrankOp) (xs : List CrankOp)
    → x.eligible ≡ false
    → All (λ y. before x y ≡ true) xs
    → (group true xs ≡ []) × (group false xs ≡ xs)
behind x [] e h = (refl, refl)
behind x (y ∷ ys) e h =
    let f : y.eligible ≡ false = ground (arith, h.0) in
    let rest = behind x ys e h.1 in (simp f rest.0, simp f (ap (λ zs. y ∷ zs) rest.1))

groups : (xs : List CrankOp) → IsSorted before xs → xs ≡ group true xs ++ group false xs
groups [] s = refl
groups (x ∷ xs) s = elim (Bool-cases x.eligible) [
  | inl e ↦ simp e (ap (λ ys. x ∷ ys) (groups xs s.1))
  | inr e ↦ let rest = behind x xs e s.0 in simp (e, rest.0, rest.1) refl
]

module _ (now : ℕ) where
  -- The view lists every crank of every asset and dispute, each once: first those that are runnable,
  -- then the others, and in either group the times ascend, those that are missing last.
  pub all_cranks-IsAscending :
      (assets : List Asset) (disputes : List Dispute)
      → (all_cranks now assets disputes
          ≡ group true (all_cranks now assets disputes)
            ++ group false (all_cranks now assets disputes))
        × (IsAscending (times (group true (all_cranks now assets disputes)))
            × (IsAscending (times (group false (all_cranks now assets disputes)))
                × Perm
                    (all_cranks now assets disputes)
                    (asset_cranks now assets ++ dispute_cranks now disputes)))
  unfolding all_cranks
  all_cranks-IsAscending assets disputes =
      let sorted =
        sort_by-IsSorted before before-IsOrder
          (asset_cranks now assets ++ dispute_cranks now disputes) in
      (
        groups _ sorted,
        (
          group-IsAscending true _ sorted,
          (group-IsAscending false _ sorted, sort_by-perm before _),
        ),
      )
