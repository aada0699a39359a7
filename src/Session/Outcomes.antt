-- ===== src/Session/Outcomes.antt =====
-- What a run leaves in the bell.
use gally.Prelude.{ℕ, ◌≡◌, refl, ◌∙◌, false, not, none, ◌++◌, Text, text, text_eq_refl, includes}
use gally.Tx.Intents.{TxIntent, validate_intent}
use gally.Tx.Lifecycle.{ok_result}
use gally.Tx.Executor.{ExecuteOpts, execute_intent, mock_digest}
use gally.Tx.Executor.Runs.{execute_intent-ok_iff}
use gally.Store.Local.{IsOpen, read_list}
use gally.Store.Notifications.{Account, build, ids}
use gally.Store.Notifications.Laws.{includes-push_notification}
use gally.Session.{Session, notification_for, run}

module _ (json : TxIntent → Text) (clock : ℕ) where
  -- A run of a valid intent that the wallet does not refuse succeeds, and the bell then shows its
  -- outcome under the digest of the intent, unless that id had been cleared; the storage of the
  -- outcomes can be written.
  pub run-shown :
      (a : Account) (i : TxIntent) (o : ExecuteOpts) (s : Session)
      → validate_intent i ≡ none
      → o.force_error ≡ false
      → IsOpen s.bell.outcomes
      → ((run json clock i o s).1 ≡ ok_result (mock_digest json i))
        × (includes (ids (build a (run json clock i o s).0.bell)) (text "tx-" ++ mock_digest json i)
            ≡ not (includes (read_list s.bell.cleared_ids) (text "tx-" ++ mock_digest json i)))
  unfolding run
  run-shown a i o s valid willing h =
      let ok : (execute_intent json i o).1 ≡ ok_result (mock_digest json i) =
        (execute_intent-ok_iff json i o).1 (valid, willing) in
      let id = text "tx-" ++ mock_digest json i in
      let n = notification_for clock i (ok_result (mock_digest json i)) in
      let named : n.id ≡ id = unfold notification_for in refl in
      (
        ok,
        rw ok (includes-push_notification a s.bell n id h ∙ rw named (rw (text_eq_refl id) refl)),
      )
