-- ===== src/Store/Toaster.antt =====
-- frontend-explorer/components/notifications/Toaster.tsx: the outcomes that are shown for a while
-- when they come to the bell.
pub mod Fresh
use gally.Prelude.{
  ℕ, Bool, true, false, not, ◌&&◌, ◌≡◌, Option, none, some, List, [], ◌∷◌, ◌++◌, keep, map, take,
  length, Text, text_eq, includes, if◌then◌else◌,
}
use gally.Store.Local.{add_all}
use gally.Store.Notifications.{AppNotification, Kind}

-- The state of the component, with the ids whose time is running.
pub record Toaster : Type 0 where
  pub seen : Option (List Text)
  pub toasts : List AppNotification
  pub timers : List Text

abbrev pub mounted : Toaster
mounted = record { seen = none; toasts = []; timers = [] }

abbrev pub is_tx : Kind → Bool
is_tx Kind.tx = true
is_tx Kind.alert = false

-- `i.kind === "tx"`
abbrev pub is_outcome : AppNotification → Bool
is_outcome n = is_tx n.kind

abbrev pub id_of : AppNotification → Text
id_of n = n.id

abbrev pub is_fresh : List Text → AppNotification → Bool
is_fresh seen n = is_outcome n && not (includes seen n.id)

-- `fresh` is not empty.
abbrev pub show_fresh : List AppNotification → List Text → Toaster → Toaster
show_fresh [] seen t = t
show_fresh (n ∷ ns) seen t =
    let ids = map id_of (n ∷ ns) in
    record {
      seen = some (add_all ids seen);
      toasts = take 4 ((n ∷ ns) ++ t.toasts);
      timers = ids ++ t.timers;
    }

abbrev pub after_seen : List AppNotification → Option (List Text) → Toaster → Toaster
after_seen items none t = record t { seen = some (map id_of items) }
after_seen items (some seen) t = show_fresh (keep (is_fresh seen) items) seen t

-- The effect on new items of the bell.
unfoldable pub watch : List AppNotification → Toaster → Toaster
watch items t = after_seen items t.seen t

unfoldable pub dismiss : Text → Toaster → Toaster
dismiss id t = record t { toasts = keep (λ n. not (text_eq n.id id)) t.toasts }

-- What can happen: the bell changes, a toast is clicked or closed, or its time is over.
pub data Step : Toaster → Toaster → Type 0 where
  watches : (items : List AppNotification) (t : Toaster) → Step t (watch items t)
  closes :
      (id : Text) (t : Toaster) → includes (map id_of t.toasts) id ≡ true → Step t (dismiss id t)
  ends :
      (id : Text) (before after : List Text) (t : Toaster)
      → t.timers ≡ before ++ id ∷ after
      → Step t (record (dismiss id t) { timers = before ++ after })

pub data Reach : Toaster → Toaster → Type 0 where
  here : (t : Toaster) → Reach t t
  next : {a b c : Toaster} → Reach a b → Step b c → Reach a c
