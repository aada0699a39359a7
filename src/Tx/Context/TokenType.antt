-- ===== src/Tx/Context/TokenType.antt =====
-- The token type is what stands between the first `<` and the last `>` of the accumulator's type.
use mathlib.Core.List.{append_assoc}
use gally.Prelude.{
  ℕ, suc, ◌+◌, ◌-◌, ◌≡◌, ◌≢◌, refl, ap, ◌∙◌, sym, false, some, [], ◌∷◌, ◌++◌, Text, text, trim,
  take, drop, length, length-append, leb, All, arith,
}
use gally.Tx.Context.{
  index_of, last_index_of, or_undefined, between, token_type_from_accumulator_type,
}

index_of_lem : (c : ℕ) (s t : Text) → All (λ d. d ≢ c) s → index_of c (s ++ c ∷ t) ≡ some (length s)
index_of_lem c [] t h = ground arith
index_of_lem c (d ∷ s) t h = ground (arith, index_of_lem c s t h.1, h.0)

last_index_of_lem : (c : ℕ) (s : Text) → last_index_of c (s ++ c ∷ []) ≡ some (length s)
last_index_of_lem c [] = ground arith
last_index_of_lem c (d ∷ s) = ground (arith, last_index_of_lem c s)

drop_all : (s t : Text) → drop (length s) (s ++ t) ≡ t
drop_all [] t = refl
drop_all (d ∷ s) t = drop_all s t

take_all : (s t : Text) → take (length s) (s ++ t) ≡ s
take_all [] t = refl
take_all (d ∷ s) t = ap (◌∷◌ d) (take_all s t)

drop_past : (s t : Text) (c : ℕ) → drop (length s + 1) (s ++ c ∷ t) ≡ t
drop_past [] t c = refl
drop_past (d ∷ s) t c =
    let e : suc (length s) + 1 ≡ suc (length s + 1) = omega arith in rw e (drop_past s t c)

module _ (t arg : Text) (lt gt : ℕ) where
  between_lem :
      gt ≡ lt + 1 + length arg
      → drop (lt + 1) t ≡ arg ++ text ">"
      → between t (some lt) (some gt) ≡ or_undefined (trim arg)
  between_lem e f =
      let later : leb gt lt ≡ false = ground arith in
      let size : gt - (lt + 1) ≡ length arg = omega arith in
      rw (later, size, f) (ap (λ u. or_undefined (trim u)) (take_all arg (text ">")))

-- The type of a generic object is its head, which has no <, then < its argument >: the argument is
-- found, trimmed, also where it is generic itself; an argument of white space alone gives nothing.
pub token_type-of_generic :
    (head arg : Text)
    → All (λ d. d ≢ b'<') head
    → token_type_from_accumulator_type (head ++ (text "<" ++ (arg ++ text ">")))
      ≡ or_undefined (trim arg)
unfolding token_type_from_accumulator_type
token_type-of_generic head arg h =
    let t = head ++ (text "<" ++ (arg ++ text ">")) in
    let last : last_index_of b'>' t ≡ some (length (head ++ (text "<" ++ arg))) =
      ap (last_index_of b'>') (sym (append_assoc head (b'<' ∷ arg) (text ">")))
      ∙ last_index_of_lem b'>' (head ++ (text "<" ++ arg)) in
    rw (index_of_lem b'<' head (arg ++ text ">") h, last)
      (between_lem t arg (length head) (length (head ++ (text "<" ++ arg)))
        (omega (arith, length-append {0} head (text "<" ++ arg)))
        (drop_past head (arg ++ text ">") b'<'))
