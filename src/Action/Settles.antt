-- ===== src/Action/Settles.antt =====
-- How a run in the dialog of an action ends.
use gally.Prelude.{
  ◌≡◌, refl, ◌⊎◌, inl, inr, Bool, true, false, Option, none, some, List, [], ◌∷◌, Bool-cases,
}
use gally.Prelude.Int.{ℤ}
use gally.Tx.Intents.{TxIntent}
use gally.Tx.Lifecycle.{TxStatus, TxResult, is_busy}
use gally.Session.Driver.{Driver, Running, TxState, ended, settle_run, resume_run}
use gally.Session.Driver.Whole.{returns, returns-ended}
use gally.Session.Driver.Fit.{implied_status, IsFit, Fits}
use gally.Action.{AmountConfig, Dialog, busy, resume_dialog, close_dialog, resumes, closes, next}
use gally.Action.Reachable.{
  IsAtRest, IsCoherent, Reaches, Reach-IsCoherent, open_while, closed-IsAtRest,
}

not_busy : (o : Option TxResult) → is_busy (implied_status o) ≡ false
unfolding is_busy
not_busy none = refl
not_busy (some r) = elim (Bool-cases r.ok) [ inl e ↦ rw e refl | inr e ↦ rw e refl ]

settled_run :
    (driver : Driver) (i : TxIntent) (s : TxStatus) (o : Option TxResult) (t : TxState)
    → (settle_run driver i s o t).running ≡ none
settled_run driver i s none t = refl
settled_run driver i s (some r) t = refl

-- A run in flight that goes on has ended, or has one status less to set.
abbrev Goes : TxIntent → List TxStatus → Option Running → Type 0
Goes i rest o = (o ≡ none) ⊎ (o ≡ some (record { intent = i; rest = rest }))

module _ (driver : Driver) (get_intent : ℤ → TxIntent) (amount : Option AmountConfig)
    (enabled reconcile : Bool) where
  abbrev To : Dialog → Dialog → Type 0
  To = Reaches driver get_intent amount enabled reconcile

  abbrev resumed : Running → Dialog → Dialog
  resumed = resume_dialog driver get_intent amount enabled reconcile

  -- A run in flight comes to its end.
  drain :
      (i : TxIntent) (rest : List TxStatus) (d e : Dialog)
      → To d e
      → e.is_open ≡ true
      → e.tx.running ≡ some (record { intent = i; rest = rest })
      → (f : Dialog) × To d f × (f.is_open ≡ true) × (f.tx.running ≡ none)
  unfolding resume_dialog resume_run
  drain i [] d e r o h =
      (resumed (record { intent = i; rest = [] }) e, next r (resumes _ e h), o, refl)
  drain i (s ∷ []) d e r o h = (
    resumed (record { intent = i; rest = s ∷ [] }) e,
    next r (resumes _ e h),
    o,
    settled_run driver i s (ended driver i) e.tx,
  )
  drain i (s ∷ u ∷ rest) d e r o h =
      drain i (u ∷ rest) d (resumed (record { intent = i; rest = s ∷ u ∷ rest }) e)
        (next r (resumes _ e h)) o refl

  -- Where no run is in flight and runs return, the status is not busy.
  unstuck :
      (e : Dialog) → returns driver ≡ true → Fits driver e.tx → e.tx.running ≡ none → busy e ≡ false
  unstuck e total f n =
      let g : IsFit driver e.tx.session none = rw n at f in
      elim g [
        | inl a ↦ rw a (not_busy e.tx.session.result)
        | inr b ↦ absurd (returns-ended driver total b.intent b.throws)
      ]

  Ended : Dialog → Type 0
  Ended d = (f : Dialog) × To d f × (f.is_open ≡ false) × IsAtRest amount f

  -- A dialog with no run in flight is at rest, or can be closed.
  closed_or_closes :
      (d e : Dialog)
      → IsCoherent driver amount d
      → returns driver ≡ true
      → To d e
      → e.tx.running ≡ none
      → Ended d
  unfolding Ended
  closed_or_closes d e c total r n =
      let kept = Reach-IsCoherent driver get_intent amount enabled reconcile c r in
      let free = unstuck e total kept.fits n in
      elim (Bool-cases e.is_open) [
        | inl o ↦ (
          close_dialog driver get_intent amount enabled reconcile e,
          next r (closes e o free),
          unfold close_dialog in refl,
          closed-IsAtRest driver get_intent amount enabled reconcile e kept.fits free,
        )
        | inr o ↦ (e, r, o, elim kept.at_rest [ inl p ↦ absurd (cc) | inr a ↦ a ])
      ]

  -- Where runs return, from wherever a coherent dialog has got to, also in the middle of a run, it
  -- comes to be closed and at rest: no run is in flight, it is idle without a result and has the first
  -- amount.
  pub Reach-IsAtRest :
      (d e : Dialog)
      → IsCoherent driver amount d
      → returns driver ≡ true
      → Reaches driver get_intent amount enabled reconcile d e
      → (f : Dialog) × Reaches driver get_intent amount enabled reconcile d f
        × (f.is_open ≡ false)
        × IsAtRest amount f
  unfolding Ended
  Reach-IsAtRest d e c total r = by_run e.tx.running refl
    where
      by_run : (o : Option Running) → e.tx.running ≡ o → Ended d
      by_run none n = closed_or_closes d e c total r n
      by_run (some u) h =
          let (f, s, o, n) =
            drain u.intent u.rest d e r
              (open_while driver get_intent amount enabled reconcile u e
                (Reach-IsCoherent driver get_intent amount enabled reconcile c r) h)
              h in
          closed_or_closes d f c total s n
