-- ===== src/SlotSetup/Examples.antt =====
-- The theorems on slots at a concrete synchronizer.
use goldnet_godot.Common.{
  ◌≡◌, true, false, String, some, List, [], ◌∷◌, HashMap, length, take, keep, ltb,
}
use goldnet_godot.SlotSetup.{Property, is_replicated_slot, should_intercept, get_sync_slots}
use goldnet_godot.SlotSetup.Slots.{get_sync_slots_lem}

abbrev yaw : Property
yaw = record { leaf = "net_yaw"; sync = false; watch = true }

abbrev props : List Property
props =
    record { leaf = "skin"; sync = false; watch = false }
    ∷ yaw
    ∷ record { leaf = "net_pos"; sync = true; watch = false }
    ∷ []

abbrev hints : HashMap String String
hints = ("net_yaw", "half") ∷ []

get_sync_slots_lem_example :
    (get_sync_slots 2 (some props) ≡ take 2 (keep is_replicated_slot props))
    × (should_intercept (some props) ≡ ltb 0 (length (get_sync_slots 2 (some props))))
get_sync_slots_lem_example = get_sync_slots_lem 1 props
