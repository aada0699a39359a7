-- ===== src/Tx/Digest.antt =====
-- `fnv` and `mockDigest` of frontend-explorer/lib/tx/executor.ts, on the JSON text of an intent.
use Prim.Native.Nat.{bit_xor}
use gally.Prelude.{
  ℕ, zero, suc, ◌+◌, ◌-◌, ◌*◌, ◌/◌, ◌%◌, ◌^◌, ◌≤◌, ◌<◌, ◌≡◌, refl, List, [], ◌∷◌, ◌++◌, arith, Text,
  text, length, length-append, All, All-append, ltb, ltb→lt, Bool-cases, inl, inr, ◌⊎◌,
  if◌then◌else◌,
}

abbrev u32 : ℕ
u32 = 2 ^ 32

-- `Math.imul(h ^ c, 16777619) >>> 0`
fnv_step : ℕ → ℕ → ℕ
fnv_step h c = (bit_xor h c * 16777619) % u32

fnv_loop : Text → ℕ → ℕ
unfolding fnv_step
fnv_loop [] h = h
fnv_loop (c ∷ s) h = fnv_loop s (fnv_step h c)

unfoldable pub fnv : Text → ℕ → ℕ
unfolding fnv_loop
fnv s seed = fnv_loop s (seed % u32) % u32

abbrev hex_digit : ℕ → ℕ
hex_digit d = if ltb d 10 then 48 + d else 87 + d

-- `x.toString(16)`, on fuel
hex_digits : ℕ → ℕ → Text → Text
hex_digits zero n acc = acc
hex_digits (suc f) n acc =
    let rest = hex_digits f (n / 16) (hex_digit (n % 16) ∷ acc) in
    if ltb n 16 then hex_digit n ∷ acc else rest

to_hex : ℕ → Text
unfolding hex_digits
to_hex n = hex_digits (suc n) n []

abbrev zeros : ℕ → Text
zeros zero = []
zeros (suc n) = 48 ∷ zeros n

-- `s.padStart(w, "0")`
abbrev pad_start : ℕ → Text → Text
pad_start w s = zeros (w - length s) ++ s

abbrev hex8 : ℕ → Text
unfolding to_hex
hex8 x = pad_start 8 (to_hex x)

-- `.map((x) => …).join("")`
join_hex : List ℕ → Text
join_hex [] = []
join_hex (x ∷ xs) = hex8 x ++ join_hex xs

unfoldable pub digest_of : Text → Text
unfolding fnv to_hex join_hex
digest_of s =
    let a = fnv s 2166136261 in
    let b = fnv s 0x9e3779b1 in
    let c = fnv (s ++ text "|c") a in
    let d = fnv (s ++ text "|d") b in text "0x" ++ join_hex (a ∷ b ∷ c ∷ d ∷ [])

-- 16 ^ k, by recursion
pow16 : ℕ → ℕ
pow16 zero = 1
pow16 (suc k) = 16 * pow16 k

length-hex_digits :
    (f k n : ℕ) (acc : Text) → n < pow16 (suc k) → length (hex_digits f n acc) ≤ length acc + suc k
unfolding hex_digits pow16
length-hex_digits zero k n acc h = omega arith
length-hex_digits (suc f) zero n acc h = ground arith
length-hex_digits (suc f) (suc k) n acc h =
    ground (arith, length-hex_digits f k (n / 16) (hex_digit (n % 16) ∷ acc))

-- A digit of a hexadecimal number in lower case.
abbrev pub IsHex : ℕ → Type 0
IsHex c = (48 ≤ c) × (c ≤ 57) ⊎ (97 ≤ c) × (c ≤ 102)

hex_digit-IsHex : (d : ℕ) → d < 16 → IsHex (hex_digit d)
hex_digit-IsHex d h = ground arith

hex_digits-IsHex : (f n : ℕ) (acc : Text) → All IsHex acc → All IsHex (hex_digits f n acc)
unfolding hex_digits
hex_digits-IsHex zero n acc h = h
hex_digits-IsHex (suc f) n acc h = elim (Bool-cases (ltb n 16)) [
  | inl e ↦ rw e (hex_digit-IsHex n (ltb→lt _ _ e), h)
  | inr e ↦ rw e (
      hex_digits-IsHex f (n / 16) (hex_digit (n % 16) ∷ acc)
        (hex_digit-IsHex (n % 16) (omega arith), h))
]

length-zeros : (n : ℕ) → length (zeros n) ≡ n
length-zeros zero = refl
length-zeros (suc n) = omega (arith, length-zeros n)

zeros-IsHex : (n : ℕ) → All IsHex (zeros n)
zeros-IsHex zero = tt
zeros-IsHex (suc n) = (inl (omega arith, omega arith), zeros-IsHex n)

fnv-lt : (s : Text) (seed : ℕ) → fnv s seed < u32
unfolding fnv
fnv-lt s seed = omega arith

length-hex8 : (x : ℕ) → x < u32 → length (hex8 x) ≡ 8
unfolding to_hex pow16
length-hex8 x h = omega (
  arith,
  length-append {0} (zeros (8 - length (to_hex x))) (to_hex x),
  length-zeros (8 - length (to_hex x)),
  length-hex_digits (suc x) 7 x [],
)

hex8-IsHex : (x : ℕ) → All IsHex (hex8 x)
unfolding to_hex
hex8-IsHex x =
    All-append IsHex (zeros (8 - length (to_hex x))) (to_hex x) (zeros-IsHex _)
      (hex_digits-IsHex (suc x) x [] tt)

abbrev pub IsDigest : Text → Type 0
IsDigest d = (h : Text) × (d ≡ text "0x" ++ h) × (length h ≡ 32) × All IsHex h

length-join_hex : (xs : List ℕ) → All (λ x. x < u32) xs → length (join_hex xs) ≡ 8 * length xs
unfolding join_hex
length-join_hex [] h = omega arith
length-join_hex (x ∷ xs) h =
    omega
      (arith, length-append {0} (hex8 x) (join_hex xs), length-hex8 x h.0, length-join_hex xs h.1)

join_hex-IsHex : (xs : List ℕ) → All IsHex (join_hex xs)
unfolding join_hex
join_hex-IsHex [] = tt
join_hex-IsHex (x ∷ xs) = All-append IsHex (hex8 x) (join_hex xs) (hex8-IsHex x) (join_hex-IsHex xs)

-- Whatever the text, the digest is 0x and then 32 hexadecimal digits: the four hashes stay below
-- 2^32, and padding makes each of them eight digits long.
digest_of-IsDigest : (s : Text) → IsDigest (digest_of s)
unfolding digest_of
digest_of-IsDigest s =
    let a = fnv s 2166136261 in
    let b = fnv s 0x9e3779b1 in
    let c = s ++ text "|c" in
    let d = s ++ text "|d" in
    let hashes = a ∷ b ∷ fnv c a ∷ fnv d b ∷ [] in
    (
      join_hex hashes,
      refl,
      length-join_hex hashes
          (fnv-lt s 2166136261, (fnv-lt s 0x9e3779b1, (fnv-lt c a, (fnv-lt d b, tt)))),
      join_hex-IsHex hashes,
    )
