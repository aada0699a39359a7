-- ===== src/Data/Updates/Settles.antt =====
-- What the hooks return after any events.
use gally.Prelude.{
  ◌≤◌, ◌≡◌, refl, ◌⊎◌, inl, inr, Bool, true, false, none, some, List, [], ◌∷◌, arith, Bool-cases,
  nonempty,
}
use gally.Data.Updates.{
  LiveEvent, fulfilled, rejected, unmounted, Loadable, unloaded, live_step, live_steps,
  use_live_loadable, Ticks, TickEvent, subscribe, clean_up, message, is_open_socket, tick, tick_all,
}

module _ {A : Type 0} (fallback : A) where
  -- While it loads, the value is the fallback.
  abbrev IsHonest : Loadable A → Type 0
  IsHonest s = (s.loading ≡ false) ⊎ (s.value ≡ fallback)

  live_step-IsHonest :
      (s : Loadable A) (e : LiveEvent A) → IsHonest s → IsHonest (live_step true fallback s e)
  unfolding live_step
  live_step-IsHonest s (fulfilled r) h = elim (Bool-cases s.alive) [
    | inl e ↦ rw e (inl refl)
    | inr e ↦ rw e h
  ]
  live_step-IsHonest s rejected h = elim (Bool-cases s.alive) [
    | inl e ↦ rw e (inl refl)
    | inr e ↦ rw e h
  ]
  live_step-IsHonest s unmounted h = h

  live_steps-IsHonest :
      (es : List (LiveEvent A)) (s : Loadable A)
      → IsHonest s
      → IsHonest (live_steps true fallback s es)
  live_steps-IsHonest [] s h = h
  live_steps-IsHonest (e ∷ es) s h =
      live_steps-IsHonest es (live_step true fallback s e) (live_step-IsHonest s e h)

  -- After any events, a live value that is shown as loaded is the fetched one or the fallback of a
  -- failure, and one that loads is the fallback.
  pub use_live_loadable-honest :
      (es : List (LiveEvent A))
      → ((use_live_loadable true fallback (live_steps true fallback (unloaded true fallback) es)).1
          ≡ false)
        ⊎ ((use_live_loadable true fallback
              (live_steps true fallback (unloaded true fallback) es)).0
            ≡ fallback)
  use_live_loadable-honest es = live_steps-IsHonest es (unloaded true fallback) (inr refl)

-- The counter never goes back.
tick-grows : (live : Bool) (t : Ticks) (e : TickEvent) → t.ticks ≤ (tick live t e).ticks
unfolding tick
tick-grows true t (subscribe none) = omega arith
tick-grows false t (subscribe none) = omega arith
tick-grows true t (subscribe (some id)) = elim (Bool-cases (nonempty id)) [
  | inl e ↦ rw e (omega arith)
  | inr e ↦ rw e (omega arith)
]
tick-grows false t (subscribe (some id)) = omega arith
tick-grows live t clean_up = omega arith
tick-grows live t (message k) = elim (Bool-cases (is_open_socket t.open_socket k)) [
  | inl e ↦ rw e (omega arith)
  | inr e ↦ rw e (omega arith)
]

pub tick_all-grows :
    (live : Bool) (t : Ticks) (es : List TickEvent) → t.ticks ≤ (tick_all live t es).ticks
tick_all-grows live t [] = omega arith
tick_all-grows live t (e ∷ es) =
    omega (arith, tick-grows live t e, tick_all-grows live (tick live t e) es)

-- In mock mode no message is ever counted.
pub tick_all-inert :
    (t : Ticks) (es : List TickEvent) → t.open_socket ≡ none → (tick_all false t es).ticks ≡ t.ticks
unfolding tick
tick_all-inert t [] h = refl
tick_all-inert t (subscribe none ∷ es) h = tick_all-inert t es h
tick_all-inert t (subscribe (some id) ∷ es) h = tick_all-inert t es h
tick_all-inert t (clean_up ∷ es) h = tick_all-inert (record t { open_socket = none }) es refl
tick_all-inert t (message k ∷ es) h = simp h (tick_all-inert t es h)
