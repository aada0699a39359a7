-- ===== src/Challenge/Evidence.antt =====
-- What the evidence of a dispute is.
use gally.Prelude.{
  ◌∷◌, ℕ, nonempty, Bool-cases, inl, inr, ◌≡◌, refl, ap, sym, Bool, true, false, Option, none, some,
  List, [], Text,
}
use gally.Prelude.Number.{Number}
use gally.Walrus.{
  Reply, Published, WalrusUpload, Uploaded, uploaded, upload_error, upload_blob, sha256_hex,
  upload_of, after_put, published_id, no_reply, replied,
}
use gally.Data.Client.{is_ok}
use gally.Store.Optimistic.{is_applied}
use gally.Tx.Intents.{optimistic_key}
use gally.Session.Driver.{Driver, reset_tx}
use gally.Tx.Lifecycle.{is_busy, idle}
use gally.Session.{reset}
use gally.Challenge.{
  Content, readable, unreadable, File, Attachment, no_file, uploading, attached, upload_failed,
  Challenge, upload_file, attachment, answer_file, pick_file, close_challenge, open_challenge,
  set_reason, try_again, run_challenge, resume_challenge, filed_chip, Step, opens, writes, picks,
  answers, confirms, resumes, retries, closes, Reach, here, next, busy, done, is_uploading,
  base_intent, first_reason,
}

abbrev hash_of : Uploaded → Text
hash_of (uploaded up) = up.sha256
hash_of (upload_error e) = []

no_upload : {e : Text} {up : WalrusUpload} → upload_error e ≡ uploaded up → ⊥
no_upload h = cc

-- A dialog that was closed, and so reset, while the upload of a file is on its way.
pub record IsClosedOn (f : File) (others : List File) (b : Challenge) : Type 0 where
  pub closed : b.is_open ≡ false
  pub no_evidence : b.ev ≡ no_file
  pub first : b.reason ≡ first_reason
  pub on_its_way : b.uploads ≡ f ∷ others

module _ (sha256 : List ℕ → List ℕ) (put : Text → List ℕ → Reply Published) (publisher : Text)
    (epochs : ℕ) where
  -- What is attached is the upload of some bytes that the publisher took, with their own hash.
  pub data IsGenuine : Attachment → Type 0 where
    nothing : IsGenuine no_file
    waiting : (name : Text) → IsGenuine (uploading name)
    refused : (name e : Text) → IsGenuine (upload_failed name e)
    sent :
        (name : Text) (up : WalrusUpload) (bytes : List ℕ)
        → upload_blob sha256 put publisher bytes epochs ≡ uploaded up
        → up.sha256 ≡ sha256_hex sha256 bytes
        → IsGenuine (attached name up)

  upload_of-hash :
      (bytes : List ℕ) (o : Option Text) (up : WalrusUpload)
      → upload_of sha256 bytes o ≡ uploaded up
      → up.sha256 ≡ sha256_hex sha256 bytes
  upload_of-hash bytes none up h = absurd (cc)
  upload_of-hash bytes (some id) up h = elim (Bool-cases (nonempty id)) [
    | inl e ↦ sym (ap hash_of (rw e at h))
    | inr e ↦ absurd (no_upload (rw e at h))
  ]

  after_put-hash :
      (bytes : List ℕ) (r : Reply Published) (up : WalrusUpload)
      → after_put sha256 bytes r ≡ uploaded up
      → up.sha256 ≡ sha256_hex sha256 bytes
  after_put-hash bytes (no_reply e) up h = absurd (no_upload h)
  after_put-hash bytes (replied status body) up h = elim (Bool-cases (is_ok status)) [
    | inl e ↦ upload_of-hash bytes (published_id body) up (rw e at h)
    | inr e ↦ absurd (no_upload (rw e at h))
  ]

  attachment-IsGenuine :
      (name : Text) (bytes : List ℕ) (u : Uploaded)
      → upload_blob sha256 put publisher bytes epochs ≡ u
      → IsGenuine (attachment sha256 put publisher epochs name u)
  unfolding upload_blob
  attachment-IsGenuine name bytes (uploaded up) h =
      sent name up bytes h (after_put-hash bytes (put _ bytes) up h)
  attachment-IsGenuine name bytes (upload_error e) h = refused name e

  file-IsGenuine :
      (name : Text) (content : Content)
      → IsGenuine (
          attachment sha256 put publisher epochs name
            (upload_file sha256 put publisher epochs content))
  unfolding upload_file
  file-IsGenuine name (readable bytes) = attachment-IsGenuine name bytes _ refl
  file-IsGenuine name (unreadable e) = refused name e

  module _ (driver : Driver) (pool_id validator_name asset_id : Text) (bond : Number)
      (connected : Bool) where
    abbrev pub Reaches : Challenge → Challenge → Type 0
    Reaches =
        Reach sha256 put publisher epochs driver pool_id validator_name asset_id bond connected

    abbrev pub Steps : Challenge → Challenge → Type 0
    Steps = Step sha256 put publisher epochs driver pool_id validator_name asset_id bond connected

    step-IsGenuine : {c d : Challenge} → IsGenuine c.ev → Steps c d → IsGenuine d.ev
    unfolding open_challenge set_reason pick_file answer_file run_challenge resume_challenge
        try_again close_challenge
    step-IsGenuine g (opens c a b) = g
    step-IsGenuine g (writes t c a b h) = g
    step-IsGenuine g (picks f c a b h k) = waiting f.name
    step-IsGenuine g (answers f before after c e) = file-IsGenuine f.name f.content
    step-IsGenuine g (confirms c a b h k l m n) = g
    step-IsGenuine g (resumes r c e) = g
    step-IsGenuine g (retries c a b h k) = g
    step-IsGenuine g (closes c a b) = nothing

    -- Whatever happens, what is attached is the upload of some bytes that the publisher took, with the
    -- hash of those bytes.
    pub Reach-IsGenuine : {c d : Challenge} → IsGenuine c.ev → Reaches c d → IsGenuine d.ev
    Reach-IsGenuine g (here c) = g
    Reach-IsGenuine g (next r s) = step-IsGenuine (Reach-IsGenuine g r) s

    abbrev pub filed : Challenge → Bool
    filed c = is_applied true c.applied (
        optimistic_key (
          base_intent sha256 put publisher epochs driver pool_id validator_name asset_id bond
            connected))

    -- From an open dialog that is idle and not uploading, where no dispute is filed, and for any file: a
    -- dialog is reached that is closed while the upload of the file is on its way, with no evidence.
    -- Two steps from there, to open it and one more, lead to an open dialog that has what the upload
    -- came to as its evidence.
    pub late_answer :
        (c : Challenge) (f : File)
        → c.is_open ≡ true
        → c.tx.session.status ≡ idle
        → is_uploading c.ev ≡ false
        → filed c ≡ false
        → (b : Challenge) × Reaches c b
          × IsClosedOn f c.uploads b
          × Steps b (open_challenge b)
          × ((d : Challenge) × Steps (open_challenge b) d
              × (d.is_open ≡ true)
              × (d.ev
                  ≡ attachment sha256 put publisher epochs f.name
                      (upload_file sha256 put publisher epochs f.content)))
    unfolding open_challenge pick_file answer_file close_challenge filed_chip is_busy reset reset_tx
        upload_file
    late_answer c f is_open at_rest free unfiled =
        let rested : busy c ≡ false = rw at_rest refl in
        let unfinished : done c ≡ false = rw at_rest refl in
        let picked = pick_file f c in
        let closed = close_challenge picked in
        let reopened = open_challenge closed in
        (
          closed,
          next (next (here c) (picks f c is_open rested unfinished free))
              (closes picked is_open rested),
          record { closed = refl; no_evidence = refl; first = refl; on_its_way = refl },
          opens closed unfiled refl,
          (
            answer_file sha256 put publisher epochs f c.uploads reopened,
            answers f [] c.uploads reopened refl,
            refl,
            refl,
          ),
        )
