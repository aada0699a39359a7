-- ===== src/Tests/Browser.antt =====
-- The dialog of an action, runs through a wallet and files of the storage network, on concrete inputs.
use gally.Prelude.{
  ℕ, ◌≡◌, refl, inl, ◌↔◌, inr, true, false, none, some, List, [], ◌∷◌, ◌++◌, Text, text, arith,
}
use gally.Prelude.Int.{ℤ, pos, ◌≤ℤ◌}
use gally.Tx.Intents.{TxIntent}
use gally.Tx.Live.{threw}
use gally.Session.Wallet.{run_live}
use gally.Session.Wallet.Settled.{Ends, settles, run_live-Ends}
use gally.Walrus.{Reply, replied, hex_of, normalize_blob_id, walrus_url, fetch_and_verify}
use gally.Walrus.Ids.{normalize_blob_id-hex_of}
use gally.Walrus.Verified.{
  bytes_in, is_cut_off, Matches, is_verified, throws, fetch_and_verify-Matches,
}
use gally.Action.{
  AmountConfig, Dialog, amount_valid, clamped, least, first_value, busy, open_dialog, close_dialog,
  here, next, opens,
}
use gally.Action.Amounts.{IsCovered, amount_valid-clamped}
use gally.Session.Driver.{Driver, mock, start_run, reported}
use gally.Tx.Executor.{execute_intent, execute_valid, wait}
use gally.Tx.Lifecycle.{signing, pending, success, is_busy}
use gally.Tx.Intents.{validate_intent}
use gally.Prelude.Number.{not_positive}
use gally.Action.{handle_run, resume_dialog, set_value, types, confirms, resumes}
use gally.Action.Reachable.{IsCoherent, Reaches, Reach-IsCoherent}
use gally.Tests.Data.{buy, applied}
use gally.Tests.Context.{reader, settings}
use gally.Tests.Session.{key_of, at_once, fresh}

run_live-Ends_example :
    Ends (settles (some (text "0x5e")) settings) 7 buy fresh (
      run_live reader settings
        (λ tx. threw (text "User rejected"))
        7
        (some (text "0x5e"))
        buy
        fresh)
run_live-Ends_example =
    run_live-Ends reader settings (λ tx. threw (text "User rejected")) 7 (some (text "0x5e")) buy
      fresh

normalize_blob_id-hex_of_example :
    (normalize_blob_id (hex_of (text "Ab-_")) ≡ text "Ab-_")
    × (normalize_blob_id (text "0x" ++ hex_of (text "Ab-_")) ≡ text "Ab-_")
normalize_blob_id-hex_of_example =
    normalize_blob_id-hex_of (text "Ab-_")
      (
        (omega arith, omega arith),
        (
          (omega arith, omega arith),
          ((omega arith, omega arith), ((omega arith, omega arith), tt)),
        ),
      )
      (omega arith)

-- An aggregator that answers with two bytes, and a digest that is the text itself.
abbrev two_bytes : Text → Reply (List ℕ)
two_bytes url = replied 200 (some (7 ∷ 255 ∷ []))

fetch_and_verify-Matches_example :
    ((is_verified (fetch_and_verify (λ bs. bs) (λ s. s) [] two_bytes (text "b1") (text "0x07FF"))
        ≡ true)
      ↔ Matches
          (λ bs. bs)
          (text "0x07FF")
          (bytes_in (two_bytes (walrus_url (λ s. s) [] (text "b1")))))
    × (throws (fetch_and_verify (λ bs. bs) (λ s. s) [] two_bytes (text "b1") (text "0x07FF"))
        ≡ is_cut_off (two_bytes (walrus_url (λ s. s) [] (text "b1"))))
fetch_and_verify-Matches_example =
    fetch_and_verify-Matches (λ bs. bs) (λ s. s) [] two_bytes (text "b1") (text "0x07FF")

abbrev limits : AmountConfig
limits = record {
  max = pos 9000000;
  default_value = none;
  min = none;
  balance = some (pos 5500000);
}

amount_valid-clamped_example :
    (clamped limits (pos 5000000) ≡ pos 5000000)
    × (least limits ≤ℤ pos 5000000)
    × (pos 5000000 ≤ℤ limits.max)
    × IsCovered (pos 5000000) limits.balance
unfolding amount_valid gally.Action.over_balance
amount_valid-clamped_example = amount_valid-clamped limits (pos 5000000) refl

-- The intent of the tests, whatever the amount.
abbrev buying : ℤ → TxIntent
buying v = buy

abbrev closed_dialog : Dialog
closed_dialog = record {
  is_open = false;
  value = pos 9000000;
  tx = record { session = fresh; running = none };
  applied = record applied { cell = gally.Store.Local.absent };
}

closed-IsCoherent : (driver : Driver) → IsCoherent driver (some limits) closed_dialog
unfolding first_value
closed-IsCoherent driver = record {
  fits = inl refl;
  at_rest = inr (record { unstarted = refl; idles = refl; silent = refl; first = refl });
}

abbrev mock_mode : Driver
mock_mode = mock key_of 7 at_once

abbrev typed : Dialog
typed = set_value (pos 5000000) (open_dialog closed_dialog)

abbrev confirmed : Dialog
confirmed = handle_run mock_mode buying (some limits) true false typed

-- The dialog is opened, an amount typed in and the purchase confirmed, and the run goes on to the signature.
signs : Reaches mock_mode buying (some limits) true false closed_dialog (
    resume_dialog mock_mode buying
      (some limits)
      true
      false
      (record { intent = buy; rest = signing ∷ pending ∷ success ∷ [] })
      confirmed)
unfolding gally.Action.applied_chip amount_valid gally.Action.over_balance handle_run start_run
    reported execute_intent execute_valid wait validate_intent not_positive is_busy open_dialog
    set_value gally.Action.clamped
signs =
    next
      (next
        (next (next (here closed_dialog) (opens closed_dialog refl refl refl))
          (types (pos 5000000) (open_dialog closed_dialog) refl refl refl))
        (confirms typed refl refl refl refl refl))
      (resumes (record { intent = buy; rest = signing ∷ pending ∷ success ∷ [] }) confirmed refl)

Reach-IsCoherent_example : IsCoherent mock_mode (some limits) (
    resume_dialog mock_mode buying
      (some limits)
      true
      false
      (record { intent = buy; rest = signing ∷ pending ∷ success ∷ [] })
      confirmed)
Reach-IsCoherent_example =
    Reach-IsCoherent mock_mode buying (some limits) true false (closed-IsCoherent mock_mode) signs
