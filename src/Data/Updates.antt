-- ===== src/Data/Updates.antt =====
-- frontend-explorer/lib/data/useLive.ts and ws.ts: values that are fetched once, and the counter of
-- the messages of a socket. `live` is `isLive`.
pub mod Settles
use gally.Prelude.{
  ℕ, suc, ◌+◌, Bool, true, false, Option, none, some, List, [], ◌∷◌, ◌++◌, Text, text, nonempty,
  drop, starts_with, if◌then◌else◌, ◌==◌,
}

-- What becomes of the request and of the component.
pub data LiveEvent {ℓ} (A : Type ℓ) : Type ℓ where
  fulfilled : A → LiveEvent A
  rejected unmounted : LiveEvent A

-- The state of the hook in live mode, with the flag of its effect.
pub record Loadable {ℓ} (A : Type ℓ) : Type ℓ where
  pub value : A
  pub loading : Bool
  pub alive : Bool

module _ {ℓ} {A : Type ℓ} (live : Bool) (fallback : A) where
  abbrev pub unloaded : Loadable A
  unloaded = record { value = fallback; loading = live; alive = true }

  -- `then` or `catch`, and `finally`; in mock mode there is no request.
  unfoldable pub live_step : Loadable A → LiveEvent A → Loadable A
  live_step s (fulfilled r) =
      if live then (if s.alive then record s { value = r; loading = false } else s) else s
  live_step s rejected = if live then (if s.alive then record s { loading = false } else s) else s
  live_step s unmounted = if live then record s { alive = false } else s

  abbrev pub live_steps : Loadable A → List (LiveEvent A) → Loadable A
  live_steps s [] = s
  live_steps s (e ∷ es) = live_steps (live_step s e) es

  -- What `useLive` returns, and `useLiveLoadable`.
  abbrev pub use_live : Loadable A → A
  use_live s = if live then s.value else fallback

  abbrev pub use_live_loadable : Loadable A → A × Bool
  use_live_loadable s = if live then (s.value, s.loading) else (fallback, false)

-- `url.replace(/^http/, "ws")`
abbrev pub socket_base : Text → Text
socket_base url = if starts_with url (text "http") then text "ws" ++ drop 4 url else url

unfoldable pub ws_url : Text → Text → Text → Text
ws_url indexer_url channel id = socket_base indexer_url ++ text "/ws/" ++ channel ++ text "/" ++ id

-- The counter, the socket whose messages count, if any, and how many sockets were opened.
pub record Ticks : Type 0 where
  pub ticks : ℕ
  pub open_socket : Option ℕ
  pub sockets : ℕ

-- The effect runs for an id, or is cleaned up; a message comes on a socket, also on one that is being
-- closed.
pub data TickEvent : Type 0 where
  subscribe : Option Text → TickEvent
  clean_up : TickEvent
  message : ℕ → TickEvent

abbrev pub is_open_socket : Option ℕ → ℕ → Bool
is_open_socket none k = false
is_open_socket (some j) k = j == k

-- `live && id`, in a browser where sockets can be opened
abbrev pub subscribed : Bool → Option Text → Ticks → Ticks
subscribed live none t = t
subscribed live (some id) t =
    if live
    then (if nonempty id
        then record t { open_socket = some t.sockets; sockets = suc t.sockets }
        else t)
    else t

unfoldable pub tick : Bool → Ticks → TickEvent → Ticks
tick live t (subscribe id) = subscribed live id t
tick live t clean_up = record t { open_socket = none }
tick live t (message k) =
    if is_open_socket t.open_socket k then record t { ticks = suc t.ticks } else t

abbrev pub tick_all : Bool → Ticks → List TickEvent → Ticks
tick_all live t [] = t
tick_all live t (e ∷ es) = tick_all live (tick live t e) es
