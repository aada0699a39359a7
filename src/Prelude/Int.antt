-- ===== src/Prelude/Int.antt =====
-- Signed integers over the native numbers, and JavaScript's rounding of a quotient.
use gally.Prelude.{
  ℕ, suc, ◌+◌, ◌-◌, ◌*◌, ◌/◌, ◌≤◌, ◌<◌, ◌≡◌, refl, ap, ◌⊎◌, inl, inr, arith, Bool, ltb, leb,
  if◌then◌else◌,
}

-- `negsuc n` is -(n + 1).
pub data ℤ : Type 0 where
  pos : ℕ → ℤ
  negsuc : ℕ → ℤ

abbrev pub pos_part : ℤ → ℕ
pos_part (pos n) = n
pos_part (negsuc n) = 0

abbrev pub neg_part : ℤ → ℕ
neg_part (pos n) = 0
neg_part (negsuc n) = suc n

-- a - b, as an integer.
abbrev pub sub_ℕ : ℕ → ℕ → ℤ
sub_ℕ a b = if leb b a then pos (a - b) else negsuc (b - a - 1)

infixl 65 ◌+ℤ◌ ◌-ℤ◌
infix 50 ◌≤ℤ◌
unfoldable pub ◌+ℤ◌ : ℤ → ℤ → ℤ
a +ℤ b = sub_ℕ (pos_part a + pos_part b) (neg_part a + neg_part b)

unfoldable pub ◌-ℤ◌ : ℤ → ℤ → ℤ
a -ℤ b = sub_ℕ (pos_part a + neg_part b) (neg_part a + pos_part b)

abbrev pub ◌≤ℤ◌ : ℤ → ℤ → Type 0
a ≤ℤ b = pos_part a + neg_part b ≤ pos_part b + neg_part a

infix 50 ◌<ℤ◌
abbrev pub ◌<ℤ◌ : ℤ → ℤ → Type 0
a <ℤ b = pos_part a + neg_part b < pos_part b + neg_part a

abbrev pub ltb_ℤ : ℤ → ℤ → Bool
ltb_ℤ a b = ltb (pos_part a + neg_part b) (pos_part b + neg_part a)

abbrev pub leb_ℤ : ℤ → ℤ → Bool
leb_ℤ a b = leb (pos_part a + neg_part b) (pos_part b + neg_part a)

-- `Math.round(a / b)` for `0 < b`: the nearest integer, and the greater of two that are as near.
-- Below 0 a remainder of more than one half rounds away from 0.
unfoldable pub round_div : ℤ → ℕ → ℤ
round_div (pos a) b = pos ((2 * a + b) / (2 * b))
round_div (negsuc a) b = sub_ℕ 0 ((2 * suc a + b - 1) / (2 * b))

-- Integers are equal where their parts balance.
pub balance→eq : (a b : ℤ) → pos_part a + neg_part b ≡ pos_part b + neg_part a → a ≡ b
balance→eq (pos n) (pos m) h = ap pos (omega arith)
balance→eq (pos n) (negsuc m) h = absurd (omega arith)
balance→eq (negsuc n) (pos m) h = absurd (omega arith)
balance→eq (negsuc n) (negsuc m) h = ap negsuc (omega arith)

sub_ℕ-balance : (a b : ℕ) → pos_part (sub_ℕ a b) + b ≡ a + neg_part (sub_ℕ a b)
sub_ℕ-balance a b = ground arith

pub +ℤ-balance :
    (a b : ℤ)
    → pos_part (a +ℤ b) + (neg_part a + neg_part b) ≡ pos_part a + pos_part b + neg_part (a +ℤ b)
unfolding ◌+ℤ◌
+ℤ-balance a b = sub_ℕ-balance (pos_part a + pos_part b) (neg_part a + neg_part b)

pub -ℤ-balance :
    (a b : ℤ)
    → pos_part (a -ℤ b) + (neg_part a + pos_part b) ≡ pos_part a + neg_part b + neg_part (a -ℤ b)
unfolding ◌-ℤ◌
-ℤ-balance a b = sub_ℕ-balance (pos_part a + neg_part b) (neg_part a + pos_part b)

pub +ℤ_assoc : (a b c : ℤ) → a +ℤ b +ℤ c ≡ a +ℤ (b +ℤ c)
+ℤ_assoc a b c =
    balance→eq _ _
      (omega (arith, +ℤ-balance (a +ℤ b) c, +ℤ-balance a b, +ℤ-balance a (b +ℤ c), +ℤ-balance b c))

pub +ℤ_comm : (a b : ℤ) → a +ℤ b ≡ b +ℤ a
+ℤ_comm a b = balance→eq _ _ (omega (arith, +ℤ-balance a b, +ℤ-balance b a))

pub +ℤ_left_comm : (a b c : ℤ) → a +ℤ (b +ℤ c) ≡ b +ℤ (a +ℤ c)
+ℤ_left_comm a b c =
    balance→eq _ _
      (omega (arith, +ℤ-balance a (b +ℤ c), +ℤ-balance b c, +ℤ-balance b (a +ℤ c), +ℤ-balance a c))

-- A difference compares as its terms do.
pub leb_ℤ-diff : (a b : ℤ) → leb_ℤ (pos 0) (a -ℤ b) ≡ leb_ℤ b a
leb_ℤ-diff a b = ground (arith, -ℤ-balance a b)

-- One of the parts is 0.
pub one_sided : (a : ℤ) → (pos_part a ≡ 0) ⊎ (neg_part a ≡ 0)
one_sided (pos n) = inr refl
one_sided (negsuc n) = inl refl
