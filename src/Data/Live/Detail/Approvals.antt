-- ===== src/Data/Live/Detail/Approvals.antt =====
-- The approvals of an asset's tranches, from the events of its milestones.
use gally.Prelude.{
  ℕ, ◌<◌, ◌≡◌, refl, ap, sym, ◌∙◌, inl, inr, Bool, true, not, ◌&&◌, Option, none, some, List, [],
  ◌∷◌, map, arith, All, find?, keep, last?, <|>_none, ◌<|>◌, ◌==◌, option_map, option_bind, Text,
  sort_by, if◌then◌else◌, Bool-cases,
}
use gally.Domain.{Asset, Tranche, executing}
use gally.Tx.Intents.{flag_default}
use gally.Keeper.{next_tranche}
use gally.Keeper.Ready.{runnable, offered, offered-iff_Ready}
use gally.Data.Records.{WireTrancheSchedule, WireTrancheEvent}
use gally.Data.Assets.{Approval, is_released, approval_of, map_tranche, map_tranches, by_index}
use gally.Data.Live.Detail.{
  released_of, put_approval, approves, approval_in, approvers_of, with_schedule,
}

abbrev pub IsSilent : WireTrancheEvent → Type 0
IsSilent ev = (ev.approver ≡ none) × (ev.proof_blob_id ≡ none)

approvers_of-silent : (evs : List WireTrancheEvent) → All IsSilent evs → approvers_of evs [] ≡ []
approvers_of-silent [] h = refl
approvers_of-silent (ev ∷ evs) h = rw (h.0.0, h.0.1) (approvers_of-silent evs h.1)

abbrev approver_of : Option Tranche → Option Text
approver_of o = option_bind o (λ t. t.approved_by)

find?-unapproved :
    (released : List ℕ) (approvers : List Approval) (ws : List WireTrancheSchedule)
    → approvers ≡ []
    → approver_of (find? (λ x. not x.released) (map (map_tranche released approvers) ws)) ≡ none
find?-unapproved released approvers [] h = refl
find?-unapproved released approvers (w ∷ ws) h =
    elim (Bool-cases (is_released released w.tranche_index)) [
      | inl e ↦ rw e (find?-unapproved released approvers ws h)
      | inr e ↦ rw (e, h) refl
    ]

-- Where no event of the milestones carries an approver or a proof, an executing asset is offered for
-- default as soon as the deadline of its next tranche has passed, whatever was approved.
pub flag_default-silent :
    (now : ℕ) (a : Asset) (first : WireTrancheSchedule) (schedule : List WireTrancheSchedule)
    (evs : List WireTrancheEvent) (t : Tranche)
    → All IsSilent evs
    → a.state ≡ executing
    → next_tranche (with_schedule (first ∷ schedule) evs a) ≡ some t
    → t.deadline_ms < now
    → runnable flag_default (offered now (with_schedule (first ∷ schedule) evs a) flag_default)
      ≡ true
flag_default-silent now a first schedule evs t silent state next late =
    let approvers = approvers_of evs [] in
    let free : t.approved_by ≡ none =
      sym (ap approver_of next)
      ∙ unfold map_tranches in
        find?-unapproved (released_of evs) approvers (sort_by by_index (first ∷ schedule))
          (approvers_of-silent evs silent) in
    (offered-iff_Ready now (with_schedule (first ∷ schedule) evs a) flag_default).1
      (state, rw next (late, rw free refl))

abbrev approves_at : ℕ → WireTrancheEvent → Bool
approves_at i ev = approves ev && ev.tranche_index == i

approval_of-put_approval :
    (i : ℕ) (a : Approval) (bs : List Approval)
    → approval_of (put_approval a bs) i
      ≡ (if a.tranche_index == i then some a else approval_of bs i)
approval_of-put_approval i a [] = refl
approval_of-put_approval i a (b ∷ bs) = ground (arith, approval_of-put_approval i a bs)

-- What the last of a list gives, after a first one.
last-approval :
    (ev : WireTrancheEvent) (evs : List WireTrancheEvent) (o : Option Approval)
    → (option_map approval_in (last? evs) <|> some (approval_in ev))
      ≡ (option_map approval_in (last? (ev ∷ evs)) <|> o)
last-approval ev [] o = refl
last-approval ev (f ∷ []) o = refl
last-approval ev (f ∷ g ∷ gs) o = last-approval ev (g ∷ gs) o

approval_of-from :
    (i : ℕ) (evs : List WireTrancheEvent) (bs : List Approval)
    → approval_of (approvers_of evs bs) i
      ≡ (option_map approval_in (last? (keep (approves_at i) evs)) <|> approval_of bs i)
approval_of-from i [] bs = refl
approval_of-from i (ev ∷ evs) bs =
    let earlier = option_map approval_in (last? (keep (approves_at i) evs)) in
    elim (Bool-cases (approves ev)) [
      | inl e ↦
          let put =
            approval_of-from i evs (put_approval (approval_in ev) bs)
            ∙ ap (λ o. earlier <|> o) (approval_of-put_approval i (approval_in ev) bs) in
          rw e (
            put ∙ elim (Bool-cases (ev.tranche_index == i)) [
              | inl f ↦ rw f (last-approval ev (keep (approves_at i) evs) (approval_of bs i))
              | inr f ↦ rw f refl
            ])
      | inr e ↦ rw e (approval_of-from i evs bs)
    ]

-- The approval of a tranche is taken from the last of its events that has an approver or a proof.
pub approval_of-approvers_of :
    (i : ℕ) (evs : List WireTrancheEvent)
    → approval_of (approvers_of evs []) i
      ≡ option_map approval_in (last? (keep (λ ev. approves ev && ev.tranche_index == i) evs))
approval_of-approvers_of i evs = approval_of-from i evs [] ∙ <|>_none _
