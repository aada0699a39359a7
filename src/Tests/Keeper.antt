-- ===== src/Tests/Keeper.antt =====
-- The cranks and deadlines of concrete assets and disputes.
use gally.Prelude.{◌≡◌, ◌↔◌, ◌++◌, true, false, List, [], ◌∷◌}
use mathlib.Core.List.{Perm}
use gally.Tx.Intents.{flag_default}
use gally.Keeper.{CrankOp, asset_cranks, dispute_cranks, all_cranks}
use gally.Keeper.Ready.{runnable, offered, Ready, offered-iff_Ready}
use gally.Keeper.Queue.{IsAscending, group, times, all_cranks-IsAscending}
use gally.Tests.Data.{mill, dispute}

offered-iff_Ready_example :
    (runnable flag_default (offered 60 mill flag_default) ≡ true) ↔ Ready 60 mill flag_default
offered-iff_Ready_example = offered-iff_Ready 60 mill flag_default

abbrev view : List CrankOp
view = all_cranks 60 (mill ∷ []) (dispute ∷ [])

all_cranks-IsAscending_example :
    (view ≡ group true view ++ group false view)
    × (IsAscending (times (group true view))
        × (IsAscending (times (group false view))
            × Perm view (asset_cranks 60 (mill ∷ []) ++ dispute_cranks 60 (dispute ∷ []))))
all_cranks-IsAscending_example = all_cranks-IsAscending 60 (mill ∷ []) (dispute ∷ [])
