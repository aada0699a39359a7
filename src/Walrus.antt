-- ===== src/Walrus.antt =====
-- frontend-explorer/lib/walrus/client.ts: uploads to a publisher, and checks against the hash that
-- the chain holds. The requests, SHA-256 and `encodeURIComponent` are parameters.
pub mod Ids
pub mod Verified
use gally.Prelude.{
  ℕ, ◌+◌, ◌-◌, ◌*◌, ◌/◌, ◌%◌, Bool, true, false, ◌&&◌, ◌||◌, Option, none, some, List, [], ◌∷◌,
  ◌++◌, Text, text, text_eq, lower, starts_with, drop, length, nonempty, decimal, ltb, leb, ◌<|>◌,
  ◌==◌, if◌then◌else◌,
}
use gally.Data.Client.{is_ok}

abbrev pub nibble_digit : ℕ → ℕ
nibble_digit d = if ltb d 10 then b'0' + d else 87 + d

-- `[...bytes].map((b) => b.toString(16).padStart(2, "0")).join("")`
abbrev pub hex_of : List ℕ → Text
hex_of [] = []
hex_of (b ∷ bs) = nibble_digit (b / 16) ∷ nibble_digit (b % 16) ∷ hex_of bs

abbrev pub without_prefix : Text → Text
without_prefix s = if starts_with s (text "0x") then drop 2 s else s

unfoldable pub strip_hex : Text → Text
strip_hex s = lower (without_prefix s)

-- `/[0-9a-fA-F]/`
abbrev is_hex : ℕ → Bool
is_hex c = leb b'0' c && leb c b'9' || leb b'a' c && leb c b'f' || leb b'A' c && leb c b'F'

abbrev all_hex : Text → Bool
all_hex [] = true
all_hex (c ∷ s) = is_hex c && all_hex s

abbrev nibble : ℕ → ℕ
nibble c = if leb c b'9' then c - b'0' else if leb c b'F' then c - 55 else c - 87

-- `parseInt(h, 16)` of each pair of digits, of a text of even length
abbrev bytes_of : Text → List ℕ
bytes_of (a ∷ b ∷ s) = (16 * nibble a + nibble b) ∷ bytes_of s
bytes_of _ = []

abbrev pub is_printable : ℕ → Bool
is_printable b = leb 0x20 b && ltb b 0x7f

abbrev pub all_printable : List ℕ → Bool
all_printable [] = true
all_printable (b ∷ bs) = is_printable b && all_printable bs

abbrev is_hex_text : Text → Bool
is_hex_text h = leb 8 (length h) && length h % 2 == 0 && all_hex h

unfoldable pub normalize_blob_id : Text → Text
normalize_blob_id raw =
    let bytes = bytes_of (without_prefix raw) in
    if is_hex_text (without_prefix raw) && all_printable bytes then bytes else raw

unfoldable pub walrus_url : (Text → Text) → Text → Text → Text
unfolding normalize_blob_id
walrus_url encode aggregator blob_id =
    aggregator ++ text "/v1/blobs/" ++ encode (normalize_blob_id blob_id)

pub record WalrusUpload : Type 0 where
  pub blob_id : Text
  pub sha256 : Text
  pub size : ℕ

-- The ids in what the publisher answers.
pub record Published : Type 0 where
  pub newly_created : Option Text
  pub already_certified : Option Text

-- A request fails, or is answered with a status and a body, which is missing where it cannot be read.
pub data Reply {ℓ} (A : Type ℓ) : Type ℓ where
  no_reply : Text → Reply A
  replied : ℕ → Option A → Reply A

pub data Uploaded : Type 0 where
  uploaded : WalrusUpload → Uploaded
  upload_error : Text → Uploaded

pub data VerifyStatus : Type 0 where
  verified mismatch unavailable : VerifyStatus

pub data Verification : Type 0 where
  checked : VerifyStatus → Option Text → Verification
  check_error : Verification

abbrev pub published_id : Option Published → Option Text
published_id none = none
published_id (some p) = p.newly_created <|> p.already_certified

abbrev no_blob_id : Uploaded
no_blob_id = upload_error (text "Walrus upload returned no blob id")

module _ (sha256 : List ℕ → List ℕ) where
  unfoldable pub sha256_hex : List ℕ → Text
  sha256_hex bytes = hex_of (sha256 bytes)

  abbrev pub upload_of : List ℕ → Option Text → Uploaded
  upload_of bytes none = no_blob_id
  upload_of bytes (some id) =
      if nonempty id
      then uploaded (record { blob_id = id; sha256 = sha256_hex bytes; size = length bytes })
      else no_blob_id

  abbrev pub after_put : List ℕ → Reply Published → Uploaded
  after_put bytes (no_reply e) = upload_error e
  after_put bytes (replied status body) =
      if is_ok status
      then upload_of bytes (published_id body)
      else upload_error (text "Walrus upload failed (HTTP " ++ decimal status ++ text ")")

  -- `put` is the request to the publisher.
  unfoldable pub upload_blob : (Text → List ℕ → Reply Published) → Text → List ℕ → ℕ → Uploaded
  unfolding sha256_hex decimal
  upload_blob put publisher bytes epochs =
      after_put bytes (put (publisher ++ text "/v1/blobs?epochs=" ++ decimal epochs) bytes)

  abbrev check : Text → List ℕ → Verification
  check expected bytes =
      let computed = sha256_hex bytes in
      checked (if text_eq computed (strip_hex expected) then verified else mismatch) (some computed)

  -- The body is read outside of the `try`.
  abbrev check_body : Text → Option (List ℕ) → Verification
  check_body expected none = check_error
  check_body expected (some bytes) = check expected bytes

  abbrev after_get : Text → Reply (List ℕ) → Verification
  after_get expected (no_reply e) = checked unavailable none
  after_get expected (replied status body) =
      if is_ok status then check_body expected body else checked unavailable none

  -- `get` is the request to the aggregator.
  unfoldable pub fetch_and_verify :
      (Text → Text) → Text → (Text → Reply (List ℕ)) → Text → Text → Verification
  unfolding walrus_url sha256_hex strip_hex
  fetch_and_verify encode aggregator get blob_id expected =
      after_get expected (get (walrus_url encode aggregator blob_id))
