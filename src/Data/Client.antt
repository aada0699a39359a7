-- ===== src/Data/Client.antt =====
-- frontend-explorer/lib/data/client.ts: requests to the indexer, and `safe` of live.ts beside it.
-- `fetch` is a parameter: what the request of a path comes to.
use gally.Prelude.{
  ℕ, Bool, ◌&&◌, Option, none, some, List, [], ◌++◌, Text, text, decimal, leb, if◌then◌else◌, ◌==◌,
}

-- A request is aborted by the timer, or fails, or is answered with a status and a body, which is
-- missing where it does not parse.
pub data Response {ℓ} (A : Type ℓ) : Type ℓ where
  aborted unreachable : Response A
  answered : ℕ → Option A → Response A

pub record IndexerError : Type 0 where
  pub message : Text
  pub status : Option ℕ
  pub path : Text

pub data Outcome {ℓ} (A : Type ℓ) : Type ℓ where
  returned : A → Outcome A
  threw : IndexerError → Outcome A

pub record Envelope {ℓ} (A : Type ℓ) : Type ℓ where
  pub data_rows : List A
  pub next_cursor : Option Text
  pub has_next_page : Bool

-- `res.ok`
abbrev pub is_ok : ℕ → Bool
is_ok status = leb 200 status && leb status 299

abbrev pub refused_status : Text → ℕ → IndexerError
refused_status path status = record {
  message = text "indexer " ++ decimal status ++ text " for " ++ path;
  status = some status;
  path = path;
}

abbrev pub lost : Text → Text → IndexerError
lost what path = record { message = what ++ path; status = none; path = path }

module _ {ℓ} {A : Type ℓ} where
  abbrev read_body : Text → Option A → Outcome (Option A)
  read_body path none = threw (lost (text "indexer unreachable for ") path)
  read_body path (some a) = returned (some a)

  abbrev pub read_response : Text → Response A → Outcome (Option A)
  read_response path aborted = threw (lost (text "indexer timeout for ") path)
  read_response path unreachable = threw (lost (text "indexer unreachable for ") path)
  read_response path (answered status body) =
      if status == 404
      then returned none
      else if is_ok status
      then read_body path body
      else threw (refused_status path status)

  unfoldable pub get_json : (Text → Response A) → Text → Outcome (Option A)
  get_json fetch path = read_response path (fetch path)

  abbrev rows_of : Outcome (Option (Envelope A)) → Outcome (List A)
  rows_of (returned none) = returned []
  rows_of (returned (some env)) = returned env.data_rows
  rows_of (threw e) = threw e

  abbrev pub safe : Outcome A → A → A
  safe (returned a) fallback = a
  safe (threw e) fallback = fallback

module _ {ℓ} {A : Type ℓ} where
  unfoldable pub get_list : (Text → Response (Envelope A)) → Text → Outcome (List A)
  unfolding get_json
  get_list fetch path = rows_of (get_json fetch path)

  unfoldable pub get_envelope : (Text → Response A) → Text → Outcome (Option A)
  unfolding get_json
  get_envelope fetch path = get_json fetch path

  -- The reads of the live source: a failure is an empty list, or nothing.
  unfoldable pub rows : (Text → Response (Envelope A)) → Text → List A
  unfolding get_list
  rows fetch path = safe (get_list fetch path) []

  unfoldable pub one : (Text → Response A) → Text → Option A
  unfolding get_json
  one fetch path = safe (get_json fetch path) none
