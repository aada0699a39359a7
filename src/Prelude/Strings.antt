-- ===== src/Prelude/Strings.antt =====
-- JavaScript strings as lists of UTF-16 code units, and the string methods that the program calls.
use Prim.Native.Nat.{ℕ, zero, suc, ◌+◌, ◌-◌, ◌/◌, ◌%◌}
use Prim.Native.Char.{code}
use Prim.Native.String.{String}
use mathlib.Core.Path.{◌≡◌, refl}
use mathlib.Core.Logic.{◌↔◌}
use mathlib.Core.Bool.{Bool, true, false, ◌&&◌, ◌||◌}
use mathlib.Core.List.{List, [], ◌∷◌, ◌++◌}
use native.Mathlib.Omega.{arith}
use gally.Prelude.Tests.{ltb, leb, ◌==◌, if◌then◌else◌}
use gally.Prelude.Lists.{length, drop}

abbrev pub Text : Type 0
Text = List ℕ

abbrev pub text : String → Text
text String.[] = []
text (String.◌∷◌ c s) = code c ∷ text s

-- `a === b`
abbrev pub text_eq : Text → Text → Bool
text_eq [] [] = true
text_eq [] (d ∷ t) = false
text_eq (c ∷ s) [] = false
text_eq (c ∷ s) (d ∷ t) = if c == d then text_eq s t else false

pub text_eq→eq : (s t : Text) → text_eq s t ≡ true → s ≡ t
text_eq→eq [] [] h = refl
text_eq→eq [] (d ∷ t) h = cc
text_eq→eq (c ∷ s) [] h = cc
text_eq→eq (c ∷ s) (d ∷ t) h = ground (arith, text_eq→eq s t)

pub text_eq_refl : (s : Text) → text_eq s s ≡ true
text_eq_refl [] = refl
text_eq_refl (c ∷ s) = ground (arith, text_eq_refl s)

pub text_eq_iff : (s t : Text) → (text_eq s t ≡ true) ↔ (s ≡ t)
text_eq_iff s t = (text_eq→eq s t, λ e. rw e (text_eq_refl t))

-- `keys.includes(k)`, and `has` of a `Set`
abbrev pub includes : List Text → Text → Bool
includes [] k = false
includes (x ∷ xs) k = if text_eq x k then true else includes xs k

-- `s.startsWith(p)`
abbrev pub starts_with : Text → Text → Bool
starts_with s [] = true
starts_with [] (d ∷ p) = false
starts_with (c ∷ s) (d ∷ p) = if c == d then starts_with s p else false

-- `if (s)` on a string
abbrev pub nonempty : Text → Bool
nonempty [] = false
nonempty (c ∷ s) = true

-- `s.slice(-n)`
abbrev pub slice_end : ℕ → Text → Text
slice_end n s = drop (length s - n) s

-- What follows two equal beginnings is equal where the texts are.
pub append_cancel : (p s t : Text) → p ++ s ≡ p ++ t → s ≡ t
append_cancel [] s t h = h
append_cancel (c ∷ p) s t h = append_cancel p s t (cc)

-- White space, as `trim`, `parseInt` and `\s` of a regular expression have it.
abbrev pub is_space : ℕ → Bool
is_space c =
    leb 9 c && leb c 13
    || c == 32
    || c == 0xa0
    || c == 0x1680
    || leb 0x2000 c && leb c 0x200a
    || c == 0x2028
    || c == 0x2029
    || c == 0x202f
    || c == 0x205f
    || c == 0x3000
    || c == 0xfeff

abbrev pub trim_start : Text → Text
trim_start [] = []
trim_start (c ∷ s) = let rest = trim_start s in if is_space c then rest else c ∷ s

abbrev pub trim_end : Text → Text
trim_end [] = []
trim_end (c ∷ s) = elim (trim_end s) [ [] ↦ if is_space c then [] else c ∷ [] | d ∷ t ↦ c ∷ d ∷ t ]

abbrev pub trim : Text → Text
trim s = trim_end (trim_start s)

-- Some end of the text passes the test.
abbrev pub any_end : (Text → Bool) → Text → Bool
any_end p [] = p []
any_end p (c ∷ s) = p (c ∷ s) || any_end p s

-- `s.includes(p)`
abbrev pub contains : Text → Text → Bool
contains s p = any_end (λ t. starts_with t p) s

-- `s.toLowerCase()`, on ASCII
abbrev pub lower : Text → Text
lower [] = []
lower (c ∷ s) = (if leb b'A' c && leb c b'Z' then c + 32 else c) ∷ lower s

-- A natural number in decimal, on fuel.
abbrev pub decimal_from : ℕ → ℕ → Text → Text
decimal_from zero n acc = acc
decimal_from (suc f) n acc =
    let rest = decimal_from f (n / 10) ((48 + n % 10) ∷ acc) in
    if ltb n 10 then (48 + n) ∷ acc else rest

-- `${n}`
unfoldable pub decimal : ℕ → Text
decimal n = decimal_from (suc n) n []
