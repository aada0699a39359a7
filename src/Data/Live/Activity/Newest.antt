-- ===== src/Data/Live/Activity/Newest.antt =====
-- The feeds show the newest events.
use Prim.Native.Nat.{min}
use mathlib.Core.List.{Perm}
use gally.Prelude.{
  ℕ, ◌≡◌, ap, ◌∙◌, List, ◌++◌, Text, arith, length, take, drop, length-take, take-append-drop,
  sort_by, sort_by-IsSorted, sort_by-length, sort_by-perm, IsSorted, IsOrder,
}
use gally.Prelude.Int.{ℤ}
use gally.Data.Feeds.{ProtocolEvent}
use gally.Data.Live.{Server}
use gally.Data.Live.Activity.{
  newest_first, asset_feed, events_for_asset, global_feed, recent_events,
}

-- The first events of the whole feed, newest first: the limit, or all where there are fewer.
abbrev pub IsNewest : ℕ → List ProtocolEvent → List ProtocolEvent → Type 0
IsNewest limit whole shown =
    (length shown ≡ min limit (length whole))
    × ((rest : List ProtocolEvent) × Perm (shown ++ rest) whole
        × IsSorted newest_first (shown ++ rest))

newest_first-IsOrder : IsOrder newest_first
newest_first-IsOrder = record { total = λ a b h. ground arith; trans = λ a b c h k. ground arith }

take-sort_by-IsNewest :
    (limit : ℕ) (whole : List ProtocolEvent)
    → IsNewest limit whole (take limit (sort_by newest_first whole))
take-sort_by-IsNewest limit whole =
    let sorted = sort_by newest_first whole in
    (
      length-take limit sorted ∙ ap (min limit) (sort_by-length newest_first whole),
      (
        drop limit sorted,
        rw (take-append-drop limit sorted) (sort_by-perm newest_first whole),
        rw (take-append-drop limit sorted)
            (sort_by-IsSorted newest_first newest_first-IsOrder whole),
      ),
    )

-- The feed of an asset shows its newest contributions and yields, and the home page's feed the newest
-- of what was read, each newest first and up to the limit: nothing that is left out is newer than
-- what is shown.
pub feeds-IsNewest :
    (locale : ℤ → Text) (server : Server) (asset_id : Text) (limit : ℕ)
    → IsNewest limit
        (asset_feed locale server asset_id limit)
        (events_for_asset locale server asset_id limit)
      × IsNewest limit (global_feed locale server) (recent_events locale server limit)
unfolding events_for_asset recent_events
feeds-IsNewest locale server asset_id limit =
    (take-sort_by-IsNewest limit _, take-sort_by-IsNewest limit _)
