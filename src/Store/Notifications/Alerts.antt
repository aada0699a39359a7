-- ===== src/Store/Notifications/Alerts.antt =====
-- An alert goes once its action is submitted.
use gally.Prelude.{
  ◌≡◌, ◌≢◌, refl, ◌∙◌, inl, inr, Bool, true, false, List, [], ◌∷◌, ◌++◌, Text, text, text_eq_refl,
  includes, arith, All, All-append, Bool-cases, append_cancel, if◌then◌else◌,
}
use gally.Tx.Intents.{AssetIntent, claim_rewards, optimistic_key}
use gally.Store.Local.{Storage, IsOpen}
use gally.Store.Optimistic.{read_applied, apply_optimistic, includes-mark_applied}
use gally.Store.Notifications.{
  AppNotification, Holding, Receipt, Account, alerts_of_holding, alerts_of_receipt, of_holdings,
  of_receipts, seed, claim_alert, grace_alert, deeds_alert, refund_alert, claim_is_due,
  unwrap_is_due, deeds_are_due, refund_is_due,
}

module _ (applied : List Text) (asset : Text)
    (known : includes applied (text "claim:" ++ asset) ≡ true) where
  -- The notification is not the alert on the asset's yield.
  abbrev IsOther : AppNotification → Type 0
  IsOther n = n.id ≢ text "seed-claim-" ++ asset

  claim-IsOther :
      (h : Holding)
      → includes applied (text "claim:" ++ h.asset_id) ≡ false
      → IsOther (claim_alert h)
  claim-IsOther h e i =
      let same : h.asset_id ≡ asset = append_cancel (text "seed-claim-") h.asset_id asset i in
      let here : includes applied (text "claim:" ++ h.asset_id) ≡ true = rw same known in
      absurd (cc)

  one_or_none :
      (c : Bool) (n : AppNotification) (rest : List AppNotification)
      → (c ≡ true → IsOther n)
      → All IsOther rest
      → All IsOther (if c then n ∷ [] else rest)
  one_or_none true n rest h k = (h refl, tt)
  one_or_none false n rest h k = k

  alerts_of_holding-IsOther : (h : Holding) → All IsOther (alerts_of_holding applied h)
  alerts_of_holding-IsOther h =
      All-append IsOther _ _
        (one_or_none (claim_is_due applied h) (claim_alert h) []
          (λ e. claim-IsOther h (ground arith)) tt)
        (one_or_none (unwrap_is_due applied h) (grace_alert h) [] (λ e i. ground arith) tt)

  alerts_of_receipt-IsOther : (r : Receipt) → All IsOther (alerts_of_receipt applied r)
  alerts_of_receipt-IsOther r =
      let due = refund_is_due applied r in
      one_or_none (deeds_are_due applied r) (deeds_alert r)
        (if due then refund_alert r ∷ [] else []) (λ e i. ground arith)
        (one_or_none due (refund_alert r) [] (λ e i. ground arith) tt)

  of_holdings-IsOther : (hs : List Holding) → All IsOther (of_holdings applied hs)
  of_holdings-IsOther [] = tt
  of_holdings-IsOther (h ∷ hs) =
      All-append IsOther _ _ (alerts_of_holding-IsOther h) (of_holdings-IsOther hs)

  of_receipts-IsOther : (rs : List Receipt) → All IsOther (of_receipts applied rs)
  of_receipts-IsOther [] = tt
  of_receipts-IsOther (r ∷ rs) =
      All-append IsOther _ _ (alerts_of_receipt-IsOther r) (of_receipts-IsOther rs)

-- The account with the claim submitted.
abbrev pub claimed : AssetIntent → Account → Account
claimed i a = record a { applied = (apply_optimistic (claim_rewards i) a.applied).0 }

claim_applied :
    (i : AssetIntent) (s : Storage Text)
    → IsOpen s
    → includes (read_applied (apply_optimistic (claim_rewards i) s).0) (text "claim:" ++ i.asset_id)
      ≡ true
unfolding apply_optimistic optimistic_key
claim_applied i s h =
    let key = text "claim:" ++ i.asset_id in
    includes-mark_applied (key ∷ []) s key h ∙ ground (arith, text_eq_refl key)

-- Once the claim of an asset's yield is submitted, in a storage that can be written, no alert says
-- that this yield is ready.
pub seed-claimed :
    (a : Account) (i : AssetIntent)
    → IsOpen a.applied
    → All (λ n. n.id ≢ text "seed-claim-" ++ i.asset_id) (seed (claimed i a))
unfolding seed
seed-claimed a i h =
    let applied = read_applied (claimed i a).applied in
    let known = claim_applied i a.applied h in
    elim (Bool-cases a.is_live) [
      | inl e ↦ rw e tt
      | inr e ↦ rw e (
          All-append (λ n. n.id ≢ text "seed-claim-" ++ i.asset_id) (of_holdings applied a.holdings)
            _ (of_holdings-IsOther applied i.asset_id known a.holdings)
            (of_receipts-IsOther applied i.asset_id known a.receipts))
    ]
