-- ===== src/Tx/Plan/Rules.antt =====
-- Properties of what a builder returns, when it does not throw.
use gally.Prelude.{◌≡◌, refl, Option, none, some, Text}
use gally.Tx.Plan.{Built, built, build_error, need, ◌>>=◌}

-- What is built has the property.
abbrev pub OnBuilt : {A : Type 0} → (A → Type 0) → Built A → Type 0
OnBuilt P (built a) = P a
OnBuilt P (build_error e) = Unit

pub OnBuilt-need :
    {A B : Type 0} (P : B → Type 0) (o : Option A) (what : Text) (f : A → Built B)
    → ((a : A) → o ≡ some a → OnBuilt P (f a))
    → OnBuilt P (need o what >>= f)
OnBuilt-need P none what f h = tt
OnBuilt-need P (some a) what f h = h a refl

pub OnBuilt-at :
    {A : Type 0} (P : A → Type 0) (m : Built A) (a : A) → m ≡ built a → OnBuilt P m → P a
OnBuilt-at P (built b) a e h = let q : b ≡ a = cc in rw q at h
OnBuilt-at P (build_error w) a e h = absurd (cc)

-- The rule for any first step.
pub OnBuilt-bind :
    {A B : Type 0} (P : A → Type 0) (Q : B → Type 0) (m : Built A) (f : A → Built B)
    → OnBuilt P m
    → ((a : A) → P a → OnBuilt Q (f a))
    → OnBuilt Q (m >>= f)
OnBuilt-bind P Q (built a) f h k = k a h
OnBuilt-bind P Q (build_error e) f h k = tt

pub OnBuilt-mono :
    {A : Type 0} (P Q : A → Type 0) (m : Built A)
    → ((a : A) → P a → Q a)
    → OnBuilt P m
    → OnBuilt Q m
OnBuilt-mono P Q (built a) h k = h a k
OnBuilt-mono P Q (build_error e) h k = tt
