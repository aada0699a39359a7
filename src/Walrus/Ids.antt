-- ===== src/Walrus/Ids.antt =====
-- The ids of blobs, which the indexer writes in hexadecimal.
use gally.Prelude.{
  ℕ, ◌+◌, ◌*◌, ◌/◌, ◌%◌, ◌≤◌, ◌<◌, ◌≡◌, refl, inl, inr, true, false, List, [], ◌∷◌, ◌++◌, Text,
  text, arith, All, length, starts_with, Bool-cases, leb, ◌==◌,
}
use gally.Walrus.{
  nibble_digit, hex_of, is_hex, all_hex, nibble, bytes_of, all_printable, is_hex_text,
  without_prefix, normalize_blob_id,
}

abbrev pub IsPrintable : ℕ → Type 0
IsPrintable b = (0x20 ≤ b) × (b < 0x7f)

length-hex_of : (bs : List ℕ) → length (hex_of bs) ≡ 2 * length bs
length-hex_of [] = refl
length-hex_of (b ∷ bs) = omega (arith, length-hex_of bs)

bytes_of-hex_of : (bs : List ℕ) → All IsPrintable bs → bytes_of (hex_of bs) ≡ bs
bytes_of-hex_of [] h = refl
bytes_of-hex_of (b ∷ bs) h =
    let same : 16 * nibble (nibble_digit (b / 16)) + nibble (nibble_digit (b % 16)) ≡ b =
      ground arith in
    cc (same, bytes_of-hex_of bs h.1)

all_hex-hex_of : (bs : List ℕ) → All IsPrintable bs → all_hex (hex_of bs) ≡ true
all_hex-hex_of [] h = refl
all_hex-hex_of (b ∷ bs) h =
    let high : is_hex (nibble_digit (b / 16)) ≡ true = ground arith in
    let low : is_hex (nibble_digit (b % 16)) ≡ true = ground arith in
    rw (high, low) (all_hex-hex_of bs h.1)

all_printable-lem : (bs : List ℕ) → All IsPrintable bs → all_printable bs ≡ true
all_printable-lem [] h = refl
all_printable-lem (b ∷ bs) h = ground (arith, all_printable-lem bs)

is_hex_text-hex_of :
    (bs : List ℕ) → All IsPrintable bs → 4 ≤ length bs → is_hex_text (hex_of bs) ≡ true
is_hex_text-hex_of bs h n =
    let long : leb 8 (length (hex_of bs)) ≡ true = ground (arith, length-hex_of bs) in
    let even : (length (hex_of bs) % 2 == 0) ≡ true = ground (arith, length-hex_of bs) in
    rw (long, even) (all_hex-hex_of bs h)

without_prefix-hex_of : (bs : List ℕ) → All IsPrintable bs → without_prefix (hex_of bs) ≡ hex_of bs
without_prefix-hex_of [] h = refl
without_prefix-hex_of (b ∷ bs) h =
    let other : (nibble_digit (b / 16) == b'0') ≡ false = ground arith in rw other refl

module _ (bs : List ℕ) (h : All IsPrintable bs) (n : 4 ≤ length bs) where
  decoded : (raw : Text) → without_prefix raw ≡ hex_of bs → normalize_blob_id raw ≡ bs
  unfolding normalize_blob_id
  decoded raw e =
      rw (e, is_hex_text-hex_of bs h n, bytes_of-hex_of bs h) (rw (all_printable-lem bs h) refl)

  -- An id of four or more printable characters that the indexer wrote in hexadecimal, with or without
  -- 0x, is read back.
  pub normalize_blob_id-hex_of :
      (normalize_blob_id (hex_of bs) ≡ bs) × (normalize_blob_id (text "0x" ++ hex_of bs) ≡ bs)
  normalize_blob_id-hex_of =
      (decoded (hex_of bs) (without_prefix-hex_of bs h), decoded (text "0x" ++ hex_of bs) refl)

-- An id of odd length, as those of the publisher are, is left as it is unless it begins with 0x.
pub normalize_blob_id-odd :
    (raw : Text)
    → starts_with raw (text "0x") ≡ false
    → length raw % 2 ≡ 1
    → normalize_blob_id raw ≡ raw
unfolding normalize_blob_id
normalize_blob_id-odd raw e odd =
    let no : (length raw % 2 == 0) ≡ false = ground arith in
    elim (Bool-cases (leb 8 (length raw))) [ inl g ↦ rw (e, g, no) refl | inr g ↦ rw (e, g) refl ]
