-- ===== src/Data/Wire/Amounts.antt =====
-- `usdc` reads the numbers that the indexer writes.
use gally.Prelude.{ℕ, ◌≡◌, true, ◌∷◌, Text}
use gally.Data.Wire.{is_digit}

-- The numeral begins with a digit.
Begun : Text → Type 0
Begun t = (c : ℕ) × (rest : Text) × (t ≡ c ∷ rest) × (is_digit c ≡ true)
