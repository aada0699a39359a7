-- ===== src/Prelude/Number.antt =====
-- JavaScript numbers that are no whole numbers, as the exact fractions that they stand for.
-- Rounding of a 64-bit float is not modelled: products and sums are exact.
use gally.Prelude.{ℕ, suc, ◌-◌, ◌*◌, Bool}
use gally.Prelude.Int.{ℤ, pos, negsuc, ◌+ℤ◌, ◌-ℤ◌, sub_ℕ, leb_ℤ, round_div}

infixl 70 ◌*ℤ◌ ◌/ℤ◌
-- The number `num / (over + 1)`.
pub record Number : Type 0 where
  pub num : ℤ
  pub over : ℕ

abbrev pub whole : ℤ → Number
whole n = record { num = n; over = 0 }

-- `k * n`
unfoldable pub scale : ℕ → ℤ → ℤ
scale k (pos n) = pos (k * n)
scale k (negsuc n) = sub_ℕ 0 (k * suc n)

-- `x <= 0`
unfoldable pub not_positive : Number → Bool
not_positive x = leb_ℤ x.num (pos 0)

-- `Math.round(x * k)`
unfoldable pub round_times : Number → ℕ → ℤ
unfolding scale round_div
round_times x k = round_div (scale k x.num) (suc x.over)

-- `a * b`
unfoldable pub ◌*ℤ◌ : ℤ → ℤ → ℤ
unfolding scale ◌-ℤ◌
pos a *ℤ b = scale a b
negsuc a *ℤ b = pos 0 -ℤ scale (suc a) b

-- `a / b`, where `b` is not 0
unfoldable pub ◌/ℤ◌ : ℤ → ℤ → Number
unfolding ◌-ℤ◌
a /ℤ pos b = record { num = a; over = b - 1 }
a /ℤ negsuc b = record { num = pos 0 -ℤ a; over = b }

-- `x + y`
unfoldable pub add_Number : Number → Number → Number
unfolding scale ◌+ℤ◌
add_Number x y = record {
  num = scale (suc y.over) x.num +ℤ scale (suc x.over) y.num;
  over = suc x.over * suc y.over - 1;
}

-- `x / n` for a count that is not 0
unfoldable pub over_count : Number → ℕ → Number
over_count x n = record { num = x.num; over = suc x.over * n - 1 }
