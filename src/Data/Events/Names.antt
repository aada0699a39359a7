-- ===== src/Data/Events/Names.antt =====
-- The names of events are read back.
use gally.Prelude.{◌≡◌, refl, ◌++◌, text}
use gally.Data.Events.{EventType, asset_created, event_name, event_type_of}

-- Every kind of event is read from its name, with and without the suffix of the contract's structs.
event_type_of-event_name :
    (t : EventType)
    → (event_type_of (event_name t) ≡ t) × (event_type_of (event_name t ++ text "Event") ≡ t)
unfolding event_type_of event_name
event_type_of-event_name asset_created = (refl, refl)
event_type_of-event_name _ = (refl, refl)
