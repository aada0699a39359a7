-- ===== src/Action/Reachable.antt =====
-- What the dialog of an action can come to.
use gally.Prelude.{◌≡◌, refl, inl, inr, ◌⊎◌, Bool, true, false, Option, none, some}
use gally.Prelude.Int.{ℤ}
use gally.Tx.Intents.{TxIntent}
use gally.Tx.Lifecycle.{TxStatus, idle, building, signing, pending, success, error, is_busy}
use gally.Session.{reset}
use gally.Session.Driver.{Driver, Running, reset_tx}
use gally.Session.Driver.Fit.{Fits, start_run-Fits, resume_run-Fits, no_run, reset_tx-Fits}
use gally.Action.{
  AmountConfig, Dialog, busy, is_error, first_value, intent_of, handle_run, resume_dialog,
  close_dialog, open_dialog, set_value, try_again, Step, opens, types, confirms, resumes, retries,
  closes, Reach, here, next,
}

-- A closed dialog: no run is in flight, there is no status nor result, and the amount is the first.
pub record IsAtRest (amount : Option AmountConfig) (d : Dialog) : Type 0 where
  pub unstarted : d.tx.running ≡ none
  pub idles : d.tx.session.status ≡ idle
  pub silent : d.tx.session.result ≡ none
  pub first : d.value ≡ first_value amount

-- The status fits the run, and a closed dialog is at rest.
pub record IsCoherent (driver : Driver) (amount : Option AmountConfig) (d : Dialog) : Type 0 where
  pub fits : Fits driver d.tx
  pub at_rest : (d.is_open ≡ true) ⊎ IsAtRest amount d

error_is_final : (s : TxStatus) → is_error s ≡ true → is_busy s ≡ false
unfolding is_busy
error_is_final error h = refl
error_is_final idle h = cc
error_is_final building h = cc
error_is_final signing h = cc
error_is_final pending h = cc
error_is_final success h = cc

module _ (driver : Driver) (get_intent : ℤ → TxIntent) (amount : Option AmountConfig)
    (enabled reconcile : Bool) where
  abbrev Steps : Dialog → Dialog → Type 0
  Steps = Step driver get_intent amount enabled reconcile

  abbrev pub Reaches : Dialog → Dialog → Type 0
  Reaches = Reach driver get_intent amount enabled reconcile

  pub closed-IsAtRest :
      (d : Dialog)
      → Fits driver d.tx
      → busy d ≡ false
      → IsAtRest amount (close_dialog driver get_intent amount enabled reconcile d)
  unfolding close_dialog reset_tx reset
  closed-IsAtRest d f b = record {
    unstarted = no_run driver d.tx f b;
    idles = refl;
    silent = refl;
    first = refl;
  }

  -- A dialog at rest has no run that could go on.
  pub open_while :
      (r : Running) (d : Dialog)
      → IsCoherent driver amount d
      → d.tx.running ≡ some r
      → d.is_open ≡ true
  open_while r d c e = elim c.at_rest [
    | inl o ↦ o
    | inr rest ↦ let n = rest.unstarted in absurd (cc)
  ]

  step-IsCoherent :
      {d e : Dialog} → IsCoherent driver amount d → Steps d e → IsCoherent driver amount e
  unfolding handle_run resume_dialog close_dialog open_dialog set_value try_again
  step-IsCoherent c (opens d a b h) = record { fits = c.fits; at_rest = inl refl }
  step-IsCoherent c (types v d a b h) = record { fits = c.fits; at_rest = inl a }
  step-IsCoherent c (confirms d a b h k l) = record {
    fits = start_run-Fits driver (intent_of driver get_intent amount enabled reconcile d) d.tx;
    at_rest = inl a;
  }
  step-IsCoherent c (resumes r d e) = record {
    fits = resume_run-Fits driver r d.tx e c.fits;
    at_rest = inl (open_while r d c e);
  }
  step-IsCoherent c (retries d a b h) = record {
    fits = reset_tx-Fits driver d.tx c.fits (error_is_final d.tx.session.status h);
    at_rest = inl a;
  }
  step-IsCoherent c (closes d a b) = record {
    fits = reset_tx-Fits driver d.tx c.fits b;
    at_rest = inr (closed-IsAtRest d c.fits b);
  }

  -- Whatever happens in the dialog of an action, over the mock driver and over the live one, from a
  -- coherent state: while a run is in flight the dialog is open, the status is busy, and there is no
  -- result; while none is, the status is that of the result, or a run threw and the status stays busy;
  -- and a closed dialog has no run in flight, is idle without a result and has the first amount.
  pub Reach-IsCoherent :
      {d e : Dialog} → IsCoherent driver amount d → Reaches d e → IsCoherent driver amount e
  Reach-IsCoherent c (here d) = c
  Reach-IsCoherent c (next r s) = step-IsCoherent (Reach-IsCoherent c r) s
