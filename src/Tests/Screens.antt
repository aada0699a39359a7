-- ===== src/Tests/Screens.antt =====
-- The list of assets and the dialog of a dispute, on concrete inputs.
use gally.Prelude.{
  ℕ, ◌≡◌, ◌≤◌, length, All, false, refl, ◌↔◌, ◌⊎◌, true, some, none, List, [], ◌∷◌, Text, text, In,
}
use gally.Prelude.Number.{whole}
use gally.Prelude.Int.{pos}
use gally.Domain.{Category}
use gally.Tx.Lifecycle.{idle, success, pending, TxResult, ok_result}
use gally.Tx.Executor.{mock_digest}
use gally.Explorer.{
  Explorer, SortKey, is_wanted, filtered, settle, signature, first_view, initial_category,
}
use gally.Explorer.Listed.{all_pages, listed_lem}
use gally.Explorer.Signature.{settle-starts_over}
use gally.Walrus.{Reply, Published, replied}
use gally.Session.Driver.{Driver, mock, Running, resume_run}
use gally.Challenge.{
  open_challenge, Challenge, File, readable, no_file, attachment, upload_file, first_reason,
  pick_file, here, next, picks,
}
use gally.Challenge.Evidence.{
  IsGenuine, IsClosedOn, nothing, Reaches, Steps, Reach-IsGenuine, late_answer,
}
use gally.Action.{Dialog}
use gally.Action.ClaimAll.{ClaimAll, claim_all_intent, claim_key, resume_claim_all}
use gally.Action.ClaimAll.OneCall.{calls_of, claim_all-one_call}
use gally.Store.Optimistic.{is_applied}
use gally.Tx.Plan.{build_plan}
use gally.Store.Notifications.{AppNotification, Kind}
use gally.Store.Toaster.{Toaster, watch, mounted, watches}
use gally.Store.Toaster
use gally.Store.Toaster.Fresh.{IsNew, Reach-IsNew}
use gally.Tests.Data.{mill, applied, context}
use gally.Tests.Session.{key_of, at_once, fresh}

abbrev view : Explorer
view = first_view true (some (text "Energy"))

named : view.cat ≡ some Category.energy
unfolding first_view initial_category gally.Data.Assets.category_name
named = refl

listed_lem_example :
    In mill (all_pages (λ t. t) (mill ∷ []) view)
    ↔ (In mill (mill ∷ []) × (is_wanted (λ t. t) view mill ≡ true))
listed_lem_example = listed_lem (λ t. t) (mill ∷ []) view mill

-- The second page was shown when the order was changed.
abbrev turned : Explorer
turned = record view { page = 1; sort = SortKey.newest }

view_sig : turned.prev_sig ≡ signature view
unfolding first_view signature initial_category
view_sig = refl

settle-starts_over_example :
    (filtered (λ t. t) (mill ∷ []) turned ≡ filtered (λ t. t) (mill ∷ []) view)
    ⊎ ((settle turned).page ≡ 0)
settle-starts_over_example = settle-starts_over (λ t. t) (mill ∷ []) turned view view_sig

starts_over : (settle turned).page ≡ 0
unfolding settle signature first_view initial_category gally.Data.Assets.category_name
    gally.Data.Live.Find.state_name
starts_over = refl

abbrev publisher_of : Text → List ℕ → Reply Published
publisher_of url bytes =
    replied 200 (some (record { newly_created = some (text "blob"); already_certified = none }))

abbrev photo : File
photo = record { name = text "photo.png"; content = readable (1 ∷ 2 ∷ []) }

abbrev mock_mode : Driver
mock_mode = mock key_of 7 at_once

abbrev open_at_rest : Challenge
open_at_rest = record {
  is_open = true;
  reason = first_reason;
  ev = no_file;
  tx = record { session = fresh; running = none };
  applied = record applied { cell = gally.Store.Local.absent };
  uploads = [];
}

Reach-IsGenuine_example :
    IsGenuine (λ bs. bs) publisher_of (text "https://p") 5 (pick_file photo open_at_rest).ev
unfolding pick_file gally.Tx.Lifecycle.is_busy
Reach-IsGenuine_example =
    Reach-IsGenuine (λ bs. bs) publisher_of (text "https://p") 5 mock_mode (text "0x1")
      (text "Vera") (text "0x2") (whole (pos 5)) true nothing
      (next (here open_at_rest) (picks photo open_at_rest refl refl refl refl))

late_answer_example :
    (b : Challenge) × Reaches
      (λ bs. bs)
      publisher_of
      (text "https://p")
      5
      mock_mode
      (text "0x1")
      (text "Vera")
      (text "0x2")
      (whole (pos 5))
      true
      open_at_rest
      b
    × IsClosedOn photo [] b
    × Steps
        (λ bs. bs)
        publisher_of
        (text "https://p")
        5
        mock_mode
        (text "0x1")
        (text "Vera")
        (text "0x2")
        (whole (pos 5))
        true
        b
        (open_challenge b)
    × ((d : Challenge) × Steps
          (λ bs. bs)
          publisher_of
          (text "https://p")
          5
          mock_mode
          (text "0x1")
          (text "Vera")
          (text "0x2")
          (whole (pos 5))
          true
          (open_challenge b)
          d
        × (d.is_open ≡ true)
        × (d.ev
            ≡ attachment
                (λ bs. bs)
                publisher_of
                (text "https://p")
                5
                (text "photo.png")
                (upload_file (λ bs. bs) publisher_of (text "https://p") 5 (readable (1 ∷ 2 ∷ [])))))
unfolding gally.Store.Optimistic.is_applied gally.Store.Optimistic.read_applied
late_answer_example =
    late_answer (λ bs. bs) publisher_of (text "https://p") 5 mock_mode (text "0x1") (text "Vera")
      (text "0x2") (whole (pos 5)) true open_at_rest photo refl refl refl refl

abbrev claiming : ClaimAll
claiming = record {
  total = whole (pos 20);
  positions = 2;
  asset_ids = text "0xa" ∷ text "0xb" ∷ [];
  primary_asset_id = text "0xa";
  primary_asset_name = text "Mill";
}

-- The last status is still to come.
abbrev claim_run : Running
claim_run = record { intent = claim_all_intent claiming; rest = success ∷ [] }

abbrev claim_dialog : Dialog
claim_dialog = record {
  is_open = true;
  value = pos 0;
  tx = record { session = record fresh { status = pending }; running = some claim_run };
  applied = record applied { cell = gally.Store.Local.absent };
}

abbrev claim_result : TxResult
claim_result = ok_result (mock_digest key_of (claim_all_intent claiming))

claim_ends : (resume_run mock_mode claim_run claim_dialog.tx).1 ≡ some claim_result
unfolding resume_run gally.Session.Driver.ended claim_all_intent gally.Tx.Executor.execute_intent
    gally.Tx.Executor.execute_valid gally.Tx.Intents.validate_intent
    gally.Prelude.Number.not_positive
claim_ends = refl

claim_all-one_call_example :
    (length (calls_of (build_plan context (claim_all_intent claiming))) ≤ 1)
    × All
        (λ id.
          is_applied true
            (resume_claim_all mock_mode claiming claim_run claim_dialog).applied
            (claim_key id)
          ≡ true)
        claiming.asset_ids
claim_all-one_call_example =
    claim_all-one_call context mock_mode claiming claim_run claim_dialog claim_result (refl, refl)
      claim_ends refl

abbrev outcome : Text → AppNotification
outcome id = record {
  id = id;
  kind = Kind.tx;
  tone = gally.Tx.Intents.positive;
  title = text "Wrap confirmed";
  body = none;
  route = none;
  ts_ms = 5;
  read = false;
}

abbrev shown : Toaster
shown =
    watch (outcome (text "tx-2") ∷ outcome (text "tx-1") ∷ [])
      (watch (outcome (text "tx-1") ∷ []) mounted)

-- The second outcome is shown, and the first is not.
second_only : shown.toasts ≡ outcome (text "tx-2") ∷ []
unfolding watch
second_only = refl

Reach-IsNew_example :
    (length shown.toasts ≤ 4) × All (IsNew (outcome (text "tx-1") ∷ [])) shown.toasts
Reach-IsNew_example = Reach-IsNew (outcome (text "tx-1") ∷ []) shown (
    Toaster.next (Toaster.here (watch (outcome (text "tx-1") ∷ []) mounted)) (
      watches (outcome (text "tx-2") ∷ outcome (text "tx-1") ∷ [])
        (watch (outcome (text "tx-1") ∷ []) mounted)))
