-- ===== src/Slot/Manager/Tests.antt =====
-- The slots of two configurations.
use mcsm.Common.{◌≡◌, some, List, [], ◌∷◌, String, pos}
use mcsm.Slot.Record.{SlotConfig, new}
use mcsm.Slot.Manager.{new_manager, get, slots_in_order}
use mcsm.Slot.Manager.Named.{last_named, new_manager-finds}

abbrev slot : String → SlotConfig
slot name = record {
  name = name;
  port = 25565;
  public_address = "";
  auto_mount = "";
  accept_types = [];
  max_memory_mb = pos 0;
}

abbrev configs : List SlotConfig
configs = slot "lobby" ∷ slot "games" ∷ []

games_found :
    (get (new_manager configs "alpha" "host" 5) "games"
      ≡ some (new (slot "games") "alpha" "host" 5))
    × (slots_in_order (new_manager configs "alpha" "host" 5)
        ≡ some (new (slot "lobby") "alpha" "host" 5)
          ∷ some (new (slot "games") "alpha" "host" 5)
          ∷ [])
unfolding last_named
games_found = new_manager-finds "alpha" "host" 5 configs "games"
