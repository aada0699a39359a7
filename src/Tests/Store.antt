-- ===== src/Tests/Store.antt =====
-- The stores on concrete contents.
use gally.Prelude.{
  ◌≡◌, refl, true, false, not, ◌&&◌, none, [], ◌∷◌, Text, text, includes, IsSorted, sort_by,
}
use gally.Domain.{operational, funded}
use gally.Tx.Intents.{positive}
use gally.Store.Local.{absent, stored, read_list}
use gally.Store.Optimistic.{read_applied}
use gally.Store.Notifications.{
  AppNotification, Kind, Holding, Receipt, Account, Bell, newer, sources, build, ids, seed,
  clear_all,
}
use gally.Store.Notifications.Laws.{build-IsSorted, includes-clear_all}

abbrev holding : Holding
holding = record {
  asset_id = text "0xa1";
  ticker = text "MIL";
  token_symbol = none;
  state = operational;
  wrapped = 0;
  pending_yield = 3000000;
}

abbrev receipt : Receipt
receipt = record {
  asset_id = text "0xa2";
  asset_name = text "Dam";
  state = funded;
  amount = 5000000;
}

abbrev account : Account
account = record {
  is_live = false;
  holdings = holding ∷ [];
  receipts = receipt ∷ [];
  applied = record { on_server = false; full = false; cell = absent };
}

abbrev outcome : AppNotification
outcome = record {
  id = text "tx-1";
  kind = Kind.tx;
  tone = positive;
  title = text "Bought";
  body = none;
  route = none;
  ts_ms = 1781438400000;
  read = false;
}

abbrev bell : Bell
bell = record {
  outcomes = record { on_server = false; full = false; cell = stored (outcome ∷ []) };
  read_ids = record { on_server = false; full = false; cell = absent };
  cleared_ids = record {
    on_server = false;
    full = false;
    cell = stored (text "seed-deeds-0xa2" ∷ []);
  };
}

shown : ids (build account bell) ≡ text "tx-1" ∷ text "seed-claim-0xa1" ∷ []
unfolding build seed read_applied sort_by
shown = refl

build-IsSorted_example :
    IsSorted newer (build account bell)
    × ((j : Text)
        → includes (ids (build account bell)) j ≡ (
            includes (ids (sources account bell)) j
            && not (includes (read_list bell.cleared_ids) j)))
build-IsSorted_example = build-IsSorted account bell

includes-clear_all_example :
    includes (ids (build account (clear_all account bell))) (text "seed-deeds-0xa2") ≡ (
      includes (ids (sources account bell)) (text "seed-deeds-0xa2")
      && includes (read_list bell.cleared_ids) (text "seed-deeds-0xa2"))
includes-clear_all_example = includes-clear_all account bell (text "seed-deeds-0xa2") (refl, refl)

-- Clearing brings the alert back that was cleared before.
cleared_again :
    includes (ids (build account (clear_all account bell))) (text "seed-deeds-0xa2") ≡ true
unfolding build seed read_applied sort_by clear_all
cleared_again = refl
