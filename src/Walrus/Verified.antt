-- ===== src/Walrus/Verified.antt =====
-- What a file that is shown as verified is.
use gally.Prelude.{
  ◌≡◌, refl, inl, inr, ◌↔◌, ℕ, Bool, true, false, Option, none, some, List, Text, text_eq,
  text_eq_iff, if◌then◌else◌, Bool-cases,
}
use gally.Data.Client.{is_ok}
use gally.Walrus.{
  Reply, no_reply, replied, strip_hex, sha256_hex, verified, Verification, checked, check_error,
  check, after_get, walrus_url, fetch_and_verify,
}

-- The bytes of an answer that is ok and can be read.
abbrev pub bytes_in : Reply (List ℕ) → Option (List ℕ)
bytes_in (no_reply e) = none
bytes_in (replied status body) = if is_ok status then body else none

-- The answer is ok and its body cannot be read.
abbrev pub is_cut_off : Reply (List ℕ) → Bool
is_cut_off (no_reply e) = false
is_cut_off (replied status none) = is_ok status
is_cut_off (replied status (some bytes)) = false

abbrev pub is_verified : Verification → Bool
is_verified (checked verified computed) = true
is_verified _ = false

abbrev pub throws : Verification → Bool
throws check_error = true
throws (checked status computed) = false

module _ (sha256 : List ℕ → List ℕ) where
  -- The digest of the bytes is the expected one.
  abbrev pub Matches : Text → Option (List ℕ) → Type 0
  Matches expected none = ⊥
  Matches expected (some bytes) = sha256_hex sha256 bytes ≡ strip_hex expected

  check-lem :
      (expected : Text) (bytes : List ℕ)
      → ((is_verified (check sha256 expected bytes) ≡ true) ↔ Matches expected (some bytes))
        × (throws (check sha256 expected bytes) ≡ false)
  check-lem expected bytes =
      let same = text_eq_iff (sha256_hex sha256 bytes) (strip_hex expected) in
      elim (Bool-cases (text_eq (sha256_hex sha256 bytes) (strip_hex expected))) [
        | inl e ↦ rw e (((λ h. same.0 e), λ h. refl), refl)
        | inr e ↦ rw e (((λ h. absurd (cc)), λ h. absurd (cc (e, same.1 h))), refl)
      ]

  refused : (false ≡ true) ↔ ⊥
  refused = ((λ h. absurd (cc)), λ m. absurd m)

  after_get-lem :
      (expected : Text) (r : Reply (List ℕ))
      → ((is_verified (after_get sha256 expected r) ≡ true) ↔ Matches expected (bytes_in r))
        × (throws (after_get sha256 expected r) ≡ is_cut_off r)
  after_get-lem expected (no_reply e) = (refused, refl)
  after_get-lem expected (replied status none) = elim (Bool-cases (is_ok status)) [
    | inl e ↦ rw e (refused, refl)
    | inr e ↦ rw e (refused, refl)
  ]
  after_get-lem expected (replied status (some bytes)) = elim (Bool-cases (is_ok status)) [
    | inl e ↦ rw e (check-lem expected bytes)
    | inr e ↦ rw e (refused, refl)
  ]

  -- A blob is shown as verified exactly where the aggregator's answer is ok and the digest of its bytes
  -- is the expected one, without 0x and in lower case; the check throws exactly where the answer is ok
  -- and its body cannot be read.
  pub fetch_and_verify-Matches :
      (encode : Text → Text) (aggregator : Text) (get : Text → Reply (List ℕ))
      (blob_id expected : Text)
      → let answer = get (walrus_url encode aggregator blob_id) in
        let result = fetch_and_verify sha256 encode aggregator get blob_id expected in
        ((is_verified result ≡ true) ↔ Matches expected (bytes_in answer))
        × (throws result ≡ is_cut_off answer)
  unfolding fetch_and_verify
  fetch_and_verify-Matches encode aggregator get blob_id expected =
      after_get-lem expected (get (walrus_url encode aggregator blob_id))
