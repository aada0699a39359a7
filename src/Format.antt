-- ===== src/Format.antt =====
-- frontend-explorer/lib/format.ts: the fixed present of the explorer, and amounts as text.
use gally.Prelude.{
  ℕ, zero, suc, ◌+◌, ◌-◌, ◌/◌, ◌%◌, ◌≡◌, refl, ltb, ◌++◌, Text, text, decimal, length, take,
  if◌then◌else◌,
}

-- `Date.parse("2026-06-14T12:00:00Z")`
abbrev pub present : ℕ
present = 1781438400000

abbrev pub hour : ℕ
hour = 3600000

-- A comma before every group of three digits but the first; `f` bounds the number of groups.
abbrev grouped : ℕ → ℕ → Text
grouped zero n = decimal n
grouped (suc f) n =
    let high = grouped f (n / 1000) in
    let low = n % 1000 in
    if ltb n 1000
    then decimal n
    else high ++ text "," ++ take (3 - length (decimal low)) (text "00") ++ decimal low

-- `usd` of an amount that is not negative, counted in millionths, without the sign option: nine
-- groups of digits are set apart at most.
unfoldable pub usd : ℕ → Text
usd n = text "$" ++ grouped 9 ((n + 500000) / 1000000)

grouped_thousands : usd 1234007000000 ≡ text "$1,234,007"
unfolding usd decimal
grouped_thousands = refl
