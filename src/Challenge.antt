-- ===== src/Challenge.antt =====
-- frontend-explorer/components/tx/DisputeAction.tsx: the dialog that raises a dispute, with a file as
-- evidence. The dialog is that of Action.antt otherwise; the answer to an
-- upload comes at any time. What is only displayed is left out.
pub mod Evidence
use gally.Prelude.{
  ℕ, Bool, true, false, not, ◌&&◌, ◌≡◌, Option, none, some, List, [], ◌∷◌, ◌++◌, Text, text, trim,
  if◌then◌else◌,
}
use gally.Prelude.Number.{Number, not_positive}
use gally.Tx.Intents.{TxIntent, raise_dispute, optimistic_key}
use gally.Tx.Context.{or_undefined}
use gally.Store.Local.{Storage}
use gally.Store.Optimistic.{apply_optimistic, is_applied}
use gally.Tx.Lifecycle.{TxResult, is_busy}
use gally.Session.Driver.{Driver, Running, TxState, start_run, resume_run, reset_tx}
use gally.Walrus.{Reply, Published, WalrusUpload, Uploaded, uploaded, upload_error, upload_blob}
use gally.Action.{is_ok_result, is_success, is_error}

-- A file that is picked; its bytes may not be readable.
pub data Content : Type 0 where
  readable : List ℕ → Content
  unreadable : Text → Content

pub record File : Type 0 where
  pub name : Text
  pub content : Content

pub data Attachment : Type 0 where
  no_file : Attachment
  uploading : Text → Attachment
  attached : Text → WalrusUpload → Attachment
  upload_failed : Text → Text → Attachment

-- The state of the component, with the files whose upload is not answered yet.
pub record Challenge : Type 0 where
  pub is_open : Bool
  pub reason : Text
  pub ev : Attachment
  pub tx : TxState
  pub applied : Storage Text
  pub uploads : List File

abbrev pub is_uploading : Attachment → Bool
is_uploading (uploading name) = true
is_uploading _ = false

abbrev pub busy : Challenge → Bool
busy c = is_busy c.tx.session.status

abbrev pub done : Challenge → Bool
done c = is_success c.tx.session.status && is_ok_result c.tx.session.result

abbrev pub failed : Challenge → Bool
failed c = is_error c.tx.session.status

abbrev pub first_reason : Text
first_reason = text "Challenged via explorer"

unfoldable pub open_challenge : Challenge → Challenge
open_challenge c = record c { is_open = true }

unfoldable pub set_reason : Text → Challenge → Challenge
set_reason t c = record c { reason = t }

unfoldable pub try_again : Challenge → Challenge
unfolding reset_tx
try_again c = record c { tx = reset_tx c.tx }

unfoldable pub close_challenge : Challenge → Challenge
unfolding reset_tx
close_challenge c = record c {
  is_open = false;
  tx = reset_tx c.tx;
  ev = no_file;
  reason = first_reason;
}

-- `onPickFile` until the upload is sent
unfoldable pub pick_file : File → Challenge → Challenge
pick_file f c = record c { ev = uploading f.name; uploads = f ∷ c.uploads }

abbrev pub evidence_id : Attachment → Option Text
evidence_id (attached name up) = some up.blob_id
evidence_id _ = none

abbrev pub evidence_hash : Attachment → Option Text
evidence_hash (attached name up) = some up.sha256
evidence_hash _ = none

module _ (sha256 : List ℕ → List ℕ) (put : Text → List ℕ → Reply Published) (publisher : Text)
    (epochs : ℕ) where
  unfoldable pub upload_file : Content → Uploaded
  unfolding upload_blob
  upload_file (readable bytes) = upload_blob sha256 put publisher bytes epochs
  upload_file (unreadable e) = upload_error e

  abbrev pub attachment : Text → Uploaded → Attachment
  attachment name (uploaded up) = attached name up
  attachment name (upload_error e) = upload_failed name e

  -- `onPickFile` from the answer to the upload on; `others` are the uploads that are not answered.
  unfoldable pub answer_file : File → List File → Challenge → Challenge
  unfolding upload_file
  answer_file f others c = record c {
    ev = attachment f.name (upload_file f.content);
    uploads = others;
  }

  -- The properties of the component, and whether a wallet is connected.
  module _ (driver : Driver) (pool_id validator_name asset_id : Text) (bond : Number)
      (connected : Bool) where
    abbrev pub base_intent : TxIntent
    base_intent = raise_dispute (record {
      pool_id = pool_id;
      validator_name = validator_name;
      asset_id = asset_id;
      bond = bond;
      reason = none;
      evidence_blob_id = none;
      evidence_sha256 = none;
    })

    unfoldable pub challenge_intent : Challenge → TxIntent
    challenge_intent c = raise_dispute (record {
      pool_id = pool_id;
      validator_name = validator_name;
      asset_id = asset_id;
      bond = bond;
      reason = or_undefined (trim c.reason);
      evidence_blob_id = evidence_id c.ev;
      evidence_sha256 = evidence_hash c.ev;
    })

    unfoldable pub filed_chip : Challenge → Bool
    unfolding is_applied
    filed_chip c = not c.is_open && is_applied true c.applied (optimistic_key base_intent)

    -- What follows `await run(intent)`, where it returns.
    abbrev pub filed_after : TxIntent → Option TxResult → Storage Text → Storage Text
    unfolding apply_optimistic
    filed_after intent none s = s
    filed_after intent (some res) s = if res.ok then (apply_optimistic intent s).0 else s

    -- The call of `run`, up to its first await, and from one await to the next.
    unfoldable pub run_challenge : Challenge → Challenge
    unfolding challenge_intent start_run apply_optimistic
    run_challenge c =
        let (t, o) = start_run driver (challenge_intent c) c.tx in
        record c { tx = t; applied = filed_after (challenge_intent c) o c.applied }

    unfoldable pub resume_challenge : Running → Challenge → Challenge
    unfolding resume_run apply_optimistic
    resume_challenge r c =
        let (t, o) = resume_run driver r c.tx in
        record c { tx = t; applied = filed_after r.intent o c.applied }

    -- What can happen: the controls that are shown and not disabled, runs in flight, and
    -- answers to uploads.
    pub data Step : Challenge → Challenge → Type 0 where
      opens : (c : Challenge) → filed_chip c ≡ false → c.is_open ≡ false → Step c (open_challenge c)
      writes :
          (t : Text) (c : Challenge)
          → c.is_open ≡ true
          → busy c ≡ false
          → done c ≡ false
          → Step c (set_reason t c)
      picks :
          (f : File) (c : Challenge)
          → c.is_open ≡ true
          → busy c ≡ false
          → done c ≡ false
          → is_uploading c.ev ≡ false
          → Step c (pick_file f c)
      answers :
          (f : File) (before after : List File) (c : Challenge)
          → c.uploads ≡ before ++ f ∷ after
          → Step c (answer_file f (before ++ after) c)
      confirms :
          (c : Challenge)
          → c.is_open ≡ true
          → connected ≡ true
          → busy c ≡ false
          → done c ≡ false
          → failed c ≡ false
          → is_uploading c.ev ≡ false
          → not_positive bond ≡ false
          → Step c (run_challenge c)
      resumes :
          (r : Running) (c : Challenge) → c.tx.running ≡ some r → Step c (resume_challenge r c)
      retries :
          (c : Challenge)
          → c.is_open ≡ true
          → connected ≡ true
          → done c ≡ false
          → failed c ≡ true
          → Step c (try_again c)
      closes : (c : Challenge) → c.is_open ≡ true → busy c ≡ false → Step c (close_challenge c)

    pub data Reach : Challenge → Challenge → Type 0 where
      here : (c : Challenge) → Reach c c
      next : {a b c : Challenge} → Reach a b → Step b c → Reach a c
