-- ===== src/Tx/Lifecycle.antt =====
-- frontend-explorer/lib/tx/types.ts: the states of a transaction and its result.
use gally.Prelude.{Bool, true, false, Option, none, some, Text, text}

pub data TxStatus : Type 0 where
  idle building signing pending success error : TxStatus

pub record TxLifecycle : Type 0 where
  pub status : TxStatus
  pub digest : Option Text
  pub error : Option Text

pub record TxResult : Type 0 where
  pub ok : Bool
  pub digest : Option Text
  pub error : Option Text

unfoldable pub status_label : TxStatus → Text
status_label idle = text "Ready"
status_label building = text "Building transaction…"
status_label signing = text "Awaiting signature…"
status_label pending = text "Submitting…"
status_label success = text "Confirmed"
status_label error = text "Failed"

unfoldable pub is_busy : TxStatus → Bool
is_busy building = true
is_busy signing = true
is_busy pending = true
is_busy _ = false

-- The steps that the executors report.
abbrev pub at : TxStatus → TxLifecycle
at s = record { status = s; digest = none; error = none }

abbrev pub at_digest : TxStatus → Text → TxLifecycle
at_digest s d = record { status = s; digest = some d; error = none }

abbrev pub failed_with : Text → TxLifecycle
failed_with e = record { status = error; digest = none; error = some e }

abbrev pub ok_result : Text → TxResult
ok_result d = record { ok = true; digest = some d; error = none }

abbrev pub error_result : Text → TxResult
error_result e = record { ok = false; digest = none; error = some e }
