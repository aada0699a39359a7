-- ===== src/Tx/Transaction/Hex.antt =====
-- `hexBytes` reads back the bytes that a hexadecimal text stands for.
use gally.Prelude.{
  ℕ, zero, suc, ◌+◌, ◌*◌, ◌/◌, ◌%◌, ◌<◌, ◌≡◌, refl, Bool, inl, inr, Bool-cases, true, false, Option,
  none, some, List, [], ◌∷◌, ◌++◌, map, arith, Text, text, length, All, starts_with, ltb, ◌==◌,
  if◌then◌else◌,
}
use gally.Prelude.Int.{ℤ, pos, negsuc}
use gally.Tx.Transaction.{parse_int16, pairs, padded, hex_bytes}

abbrev digit : ℕ → ℕ
digit d = if ltb d 10 then 48 + d else 87 + d

-- Two lower-case digits for each byte.
abbrev pub hex_text : List ℕ → Text
hex_text [] = []
hex_text (n ∷ ns) = digit (n / 16) ∷ digit (n % 16) ∷ hex_text ns

is_byte : ℕ → Option ℤ → Bool
is_byte n none = false
is_byte n (some (pos m)) = m == n
is_byte n (some (negsuc m)) = false

is_byte→eq : (n : ℕ) (o : Option ℤ) → is_byte n o ≡ true → o ≡ some (pos n)
unfolding is_byte
is_byte→eq n none h = ground arith
is_byte→eq n (some (pos m)) h = ground arith
is_byte→eq n (some (negsuc m)) h = ground arith

abbrev reads_back : ℕ → Bool
reads_back n = is_byte n (parse_int16 (digit (n / 16) ∷ digit (n % 16) ∷ []))

-- How many of the first `n` values do not read back.
failures : ℕ → ℕ
failures zero = 0
failures (suc n) = failures n + (if reads_back n then 0 else 1)

reads_back_below : (n k : ℕ) → k < n → failures n ≡ 0 → reads_back k ≡ true
unfolding failures
reads_back_below zero k small none_fail = absurd (omega arith)
reads_back_below (suc n) k small none_fail = elim (Bool-cases (reads_back n)) [
  | inl e ↦ ground (arith, reads_back_below n k)
  | inr e ↦ absurd (ground arith)
]

no_failures : failures 256 ≡ 0
unfolding failures parse_int16 is_byte
no_failures = refl

parse_pair : (n : ℕ) → n < 256 → parse_int16 (digit (n / 16) ∷ digit (n % 16) ∷ []) ≡ some (pos n)
parse_pair n h = is_byte→eq n _ (reads_back_below 256 n h no_failures)

abbrev pub as_bytes : List ℕ → List (Option ℤ)
as_bytes ns = map (λ n. some (pos n)) ns

pairs-hex_text : (ns : List ℕ) → All (λ n. n < 256) ns → pairs (hex_text ns) ≡ as_bytes ns
unfolding pairs
pairs-hex_text [] h = refl
pairs-hex_text (n ∷ ns) h = cc (parse_pair n h.0, pairs-hex_text ns h.1)

length-hex_text : (ns : List ℕ) → length (hex_text ns) ≡ 2 * length ns
length-hex_text [] = refl
length-hex_text (n ∷ ns) = omega (arith, length-hex_text ns)

padded-hex_text : (ns : List ℕ) → padded (hex_text ns) ≡ hex_text ns
padded-hex_text ns = ground (arith, length-hex_text ns)

no_prefix : (ns : List ℕ) → All (λ n. n < 256) ns → starts_with (hex_text ns) (text "0x") ≡ false
no_prefix [] h = refl
no_prefix (n ∷ ns) h = ground arith

module _ (ns : List ℕ) (small : All (λ n. n < 256) ns) where
  -- Bytes written as two lower-case digits each are read back, whether or not 0x stands before them.
  pub hex_bytes-hex_text :
      (hex_bytes (hex_text ns) ≡ as_bytes ns) × (hex_bytes (text "0x" ++ hex_text ns) ≡ as_bytes ns)
  hex_bytes-hex_text = (
    unfold hex_bytes in simp (no_prefix ns small, padded-hex_text ns) (pairs-hex_text ns small),
    unfold hex_bytes in simp (padded-hex_text ns) (pairs-hex_text ns small),
  )
