-- ===== src/Store/Notifications.antt =====
-- frontend-explorer/lib/notifications.ts: the bell. The holdings and receipts of the demo account
-- are given, with the storage of the applied actions.
pub mod Alerts
pub mod Laws
use gally.Prelude.{
  ℕ, ◌-◌, ◌*◌, ◌<◌, ◌≡◌, Bool, true, false, not, ◌&&◌, ◌||◌, Option, none, some, List, [], ◌∷◌,
  ◌++◌, map, keep, Text, text, text_eq, includes, leb, ltb, sort_by, length, if◌then◌else◌,
  ◌otherwise◌,
}
use gally.Domain.{
  AssetState, pending_vouch, funding, funded, executing, operational, defaulted, compensating,
  closed, failed, cancelled,
}
use gally.Format.{present, hour, usd}
use gally.Tx.Intents.{Tone, positive, danger, info, warning}
use gally.Store.Local.{Storage, Cell, stored, read_list, write_list, add, set_of}
use gally.Store.Optimistic.{read_applied}

pub data Kind : Type 0 where
  tx alert : Kind

pub record AppNotification : Type 0 where
  pub id : Text
  pub kind : Kind
  pub tone : Tone
  pub title : Text
  pub body : Option Text
  pub route : Option Text
  pub ts_ms : ℕ
  pub read : Bool

-- What the seeds use of a `Holding` and of a `Receipt`.
pub record Holding : Type 0 where
  pub asset_id : Text
  pub ticker : Text
  pub token_symbol : Option Text
  pub state : AssetState
  pub wrapped : ℕ
  pub pending_yield : ℕ

pub record Receipt : Type 0 where
  pub asset_id : Text
  pub asset_name : Text
  pub state : AssetState
  pub amount : ℕ

abbrev is_compensating_state : AssetState → Bool
is_compensating_state compensating = true
is_compensating_state _ = false

abbrev is_failed : AssetState → Bool
is_failed failed = true
is_failed _ = false

abbrev is_finalized : AssetState → Bool
is_finalized funding = false
is_finalized failed = false
is_finalized cancelled = false
is_finalized _ = true

abbrev alert_about : Text → Tone → Text → Text → Text → ℕ → AppNotification
alert_about id tone title body asset ago = record {
  id = id;
  kind = alert;
  tone = tone;
  title = title;
  body = some body;
  route = some (text "/assets/" ++ asset);
  ts_ms = present - ago;
  read = false;
}

abbrev claim_alert : Holding → AppNotification
claim_alert h =
    alert_about (text "seed-claim-" ++ h.asset_id) positive (text "Yield ready to claim")
      (usd h.pending_yield
        ++ text " has accrued on your "
        ++ h.ticker
        ++ text " deeds via the lazy index.")
      h.asset_id (2 * hour)

abbrev grace_alert : Holding → AppNotification
grace_alert h =
    alert_about (text "seed-grace-" ++ h.asset_id) danger (text "Unwrap before the grace deadline")
      (text "Your wrapped "
        ++ (h.token_symbol otherwise h.ticker)
        ++ text " is not eligible for compensation until you unwrap it to deeds.")
      h.asset_id (35 * 60000)

abbrev deeds_alert : Receipt → AppNotification
deeds_alert r =
    alert_about (text "seed-deeds-" ++ r.asset_id) info (text "Raise finalized — claim your deeds")
      (r.asset_name
        ++ text " reached its goal. Convert your "
        ++ usd r.amount
        ++ text " receipt into GallyShare deeds.")
      r.asset_id (5 * hour)

abbrev refund_alert : Receipt → AppNotification
refund_alert r =
    alert_about (text "seed-refund-" ++ r.asset_id) warning (text "Refund available")
      (r.asset_name
        ++ text " did not reach its goal. Liquidate your "
        ++ usd r.amount
        ++ text " position.")
      r.asset_id (6 * hour)

-- When each alert is due, given the applied keys.
module _ (applied : List Text) where
  abbrev claim_is_due : Holding → Bool
  claim_is_due h = ltb 0 h.pending_yield && not (includes applied (text "claim:" ++ h.asset_id))

  abbrev unwrap_is_due : Holding → Bool
  unwrap_is_due h =
      ltb 0 h.wrapped
      && (is_compensating_state h.state && not (includes applied (text "unwrap:" ++ h.asset_id)))

  abbrev deeds_are_due : Receipt → Bool
  deeds_are_due r =
      is_finalized r.state && not (includes applied (text "claim_shares:" ++ r.asset_id))

  abbrev refund_is_due : Receipt → Bool
  refund_is_due r = is_failed r.state && not (includes applied (text "refund:" ++ r.asset_id))

  abbrev alerts_of_holding : Holding → List AppNotification
  alerts_of_holding h =
      (if claim_is_due h then claim_alert h ∷ [] else [])
      ++ (if unwrap_is_due h then grace_alert h ∷ [] else [])

  abbrev alerts_of_receipt : Receipt → List AppNotification
  alerts_of_receipt r =
      if deeds_are_due r
      then deeds_alert r ∷ []
      else if refund_is_due r
      then refund_alert r ∷ []
      else []

abbrev of_holdings : List Text → List Holding → List AppNotification
of_holdings applied [] = []
of_holdings applied (h ∷ hs) = alerts_of_holding applied h ++ of_holdings applied hs

abbrev of_receipts : List Text → List Receipt → List AppNotification
of_receipts applied [] = []
of_receipts applied (r ∷ rs) = alerts_of_receipt applied r ++ of_receipts applied rs

-- What `seed` reads.
pub record Account : Type 0 where
  pub is_live : Bool
  pub holdings : List Holding
  pub receipts : List Receipt
  pub applied : Storage Text

unfoldable pub seed : Account → List AppNotification
unfolding read_applied
seed a =
    let applied = read_applied a.applied in
    if a.is_live then [] else of_holdings applied a.holdings ++ of_receipts applied a.receipts

-- The three entries of localStorage.
pub record Bell : Type 0 where
  pub outcomes : Storage AppNotification
  pub read_ids : Storage Text
  pub cleared_ids : Storage Text

-- `byId.set(n.id, n)`: the last value of an id takes the place of the first.
abbrev put : AppNotification → List AppNotification → List AppNotification
put n [] = n ∷ []
put n (m ∷ ms) = let rest = put n ms in if text_eq m.id n.id then n ∷ ms else m ∷ rest

-- The loop of `build` over the notifications.
abbrev collect :
    List Text → List Text → List AppNotification → List AppNotification → List AppNotification
collect cleared seen [] by_id = by_id
collect cleared seen (n ∷ ns) by_id =
    collect cleared seen ns
      (if includes cleared n.id then by_id else put (record n { read = includes seen n.id }) by_id)

abbrev pub newer : AppNotification → AppNotification → Bool
newer a b = leb b.ts_ms a.ts_ms

abbrev pub sources : Account → Bell → List AppNotification
sources a b = seed a ++ read_list b.outcomes

unfoldable pub build : Account → Bell → List AppNotification
build a b =
    sort_by newer
      (collect (set_of (read_list b.cleared_ids)) (set_of (read_list b.read_ids)) (sources a b) [])

abbrev pub ids : List AppNotification → List Text
ids ns = map (λ (n : AppNotification). n.id) ns

unfoldable pub push_notification : AppNotification → Bell → Bell
push_notification n b = record b {
  outcomes =
      (write_list
        (record n { read = false } ∷ keep (λ x. not (text_eq x.id n.id)) (read_list b.outcomes))
        b.outcomes).0;
}

unfoldable pub mark_read : Text → Bell → Bell
mark_read id b = record b {
  read_ids = (write_list (add id (set_of (read_list b.read_ids))) b.read_ids).0;
}

unfoldable pub mark_all_read : Account → Bell → Bell
unfolding build
mark_all_read a b = record b { read_ids = (write_list (ids (build a b)) b.read_ids).0 }

unfoldable pub clear_all : Account → Bell → Bell
unfolding build
clear_all a b = record b { cleared_ids = (write_list (ids (build a b)) b.cleared_ids).0 }

-- `unread` of the hook, once hydrated
unfoldable pub unread : List AppNotification → ℕ
unread items = length (keep (λ n. not n.read) items)
