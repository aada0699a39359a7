-- ===== src/Action.antt =====
-- frontend-explorer/components/tx/ActionButton.tsx: the button of an action and its dialog. The
-- amounts that are typed in are counted in millionths.
pub mod Amounts
pub mod ClaimAll
pub mod Reachable
pub mod Settles
use gally.Prelude.{
  ℕ, suc, ◌+◌, ◌*◌, ◌/◌, Bool, true, false, not, ◌&&◌, Option, none, some, ◌≡◌, includes, Text,
  ◌otherwise◌, if◌then◌else◌, ◌==◌,
}
use gally.Prelude.Int.{ℤ, pos, negsuc, sub_ℕ, leb_ℤ, ltb_ℤ}
use gally.Tx.Intents.{TxIntent, optimistic_key}
use gally.Tx.Lifecycle.{TxStatus, idle, success, error, TxResult, is_busy}
use gally.Store.Local.{Storage}
use gally.Store.Optimistic.{apply_optimistic, is_applied}
use gally.Session.Driver.{Driver, Running, TxState, start_run, resume_run, reset_tx}

-- Members that are only displayed are left out.
pub record AmountConfig : Type 0 where
  pub max : ℤ
  pub default_value : Option ℤ
  pub min : Option ℤ
  pub balance : Option ℤ

abbrev pub unit : ℕ
unit = 1000000

-- `Math.floor` to a whole unit
abbrev pub floor : ℤ → ℤ
floor (pos n) = pos (n / unit * unit)
floor (negsuc n) = sub_ℕ 0 ((suc n + 999999) / unit * unit)

abbrev pub min_ℤ : ℤ → ℤ → ℤ
min_ℤ a b = if leb_ℤ a b then a else b

abbrev pub max_ℤ : ℤ → ℤ → ℤ
max_ℤ a b = if leb_ℤ a b then b else a

-- `a || b` on numbers
abbrev or_else : ℤ → ℤ → ℤ
or_else (pos n) b = if n == 0 then b else pos n
or_else (negsuc n) b = negsuc n

abbrev pub least : AmountConfig → ℤ
least cfg = cfg.min otherwise pos unit

abbrev capped : ℤ → Option ℤ → ℤ
capped max none = max
capped max (some b) = max_ℤ (pos 0) (min_ℤ max (floor b))

unfoldable pub spend_cap : AmountConfig → ℤ
spend_cap cfg = capped cfg.max cfg.balance

unfoldable pub clamped : AmountConfig → ℤ → ℤ
clamped cfg value = max_ℤ (least cfg) (min_ℤ (or_else cfg.max value) value)

abbrev exceeds : ℤ → Option ℤ → Bool
exceeds value none = false
exceeds value (some b) = ltb_ℤ b value

unfoldable pub over_balance : AmountConfig → ℤ → Bool
over_balance cfg value = exceeds value cfg.balance

unfoldable pub amount_valid : Option AmountConfig → ℤ → Bool
unfolding over_balance
amount_valid none value = true
amount_valid (some cfg) value =
    leb_ℤ (least cfg) value && leb_ℤ value cfg.max && not (over_balance cfg value)

-- `amount?.default ?? amount?.max ?? 0`
unfoldable pub first_value : Option AmountConfig → ℤ
first_value none = pos 0
first_value (some cfg) = cfg.default_value otherwise cfg.max

-- The state of the button, and the storage of the actions that were submitted.
pub record Dialog : Type 0 where
  pub is_open : Bool
  pub value : ℤ
  pub tx : TxState
  pub applied : Storage Text

abbrev pub is_ok_result : Option TxResult → Bool
is_ok_result none = false
is_ok_result (some r) = r.ok

abbrev pub is_success : TxStatus → Bool
is_success success = true
is_success _ = false

abbrev pub is_error : TxStatus → Bool
is_error error = true
is_error _ = false

abbrev pub busy : Dialog → Bool
busy d = is_busy d.tx.session.status

abbrev pub done : Dialog → Bool
done d = is_success d.tx.session.status && is_ok_result d.tx.session.result

abbrev pub failed : Dialog → Bool
failed d = is_error d.tx.session.status

unfoldable pub open_dialog : Dialog → Dialog
open_dialog d = record d { is_open = true }

unfoldable pub set_value : ℤ → Dialog → Dialog
set_value v d = record d { value = v }

unfoldable pub try_again : Dialog → Dialog
unfolding reset_tx
try_again d = record d { tx = reset_tx d.tx }

-- The properties of the component: `enabled` says that a wallet is connected and no reason against
-- the action is given.
module _ (driver : Driver) (get_intent : ℤ → TxIntent) (amount : Option AmountConfig)
    (enabled reconcile : Bool) where
  abbrev amount_for : Option AmountConfig → ℤ → ℤ
  amount_for none value = pos 0
  amount_for (some cfg) value = clamped cfg value

  unfoldable pub intent_of : Dialog → TxIntent
  unfolding clamped
  intent_of d = get_intent (amount_for amount d.value)

  -- The trigger has turned into the applied chip.
  unfoldable pub applied_chip : Dialog → Bool
  unfolding intent_of is_applied
  applied_chip d =
      reconcile && not d.is_open && is_applied true d.applied (optimistic_key (intent_of d))

  -- What follows `await run(intent)`, where it returns.
  abbrev pub submitted : TxIntent → Option TxResult → Storage Text → Storage Text
  unfolding apply_optimistic
  submitted intent none s = s
  submitted intent (some res) s = if res.ok && reconcile then (apply_optimistic intent s).0 else s

  -- The call of `run`, up to its first await, and from one await to the next.
  unfoldable pub handle_run : Dialog → Dialog
  unfolding intent_of start_run apply_optimistic
  handle_run d =
      let (t, o) = start_run driver (intent_of d) d.tx in
      record d { tx = t; applied = submitted (intent_of d) o d.applied }

  unfoldable pub resume_dialog : Running → Dialog → Dialog
  unfolding resume_run apply_optimistic
  resume_dialog r d =
      let (t, o) = resume_run driver r d.tx in
      record d { tx = t; applied = submitted r.intent o d.applied }

  unfoldable pub close_dialog : Dialog → Dialog
  unfolding reset_tx first_value
  close_dialog d = record d { is_open = false; tx = reset_tx d.tx; value = first_value amount }

  -- What can happen: a control is used that is shown and not disabled, or a run in flight goes on.
  pub data Step : Dialog → Dialog → Type 0 where
    opens :
        (d : Dialog)
        → enabled ≡ true
        → applied_chip d ≡ false
        → d.is_open ≡ false
        → Step d (open_dialog d)
    types :
        (v : ℤ) (d : Dialog)
        → d.is_open ≡ true
        → busy d ≡ false
        → done d ≡ false
        → Step d (set_value v d)
    confirms :
        (d : Dialog)
        → d.is_open ≡ true
        → busy d ≡ false
        → done d ≡ false
        → failed d ≡ false
        → amount_valid amount d.value ≡ true
        → Step d (handle_run d)
    resumes : (r : Running) (d : Dialog) → d.tx.running ≡ some r → Step d (resume_dialog r d)
    retries :
        (d : Dialog) → d.is_open ≡ true → done d ≡ false → failed d ≡ true → Step d (try_again d)
    closes : (d : Dialog) → d.is_open ≡ true → busy d ≡ false → Step d (close_dialog d)

  pub data Reach : Dialog → Dialog → Type 0 where
    here : (d : Dialog) → Reach d d
    next : {a b c : Dialog} → Reach a b → Step b c → Reach a c
