-- ===== src/Slot/Manager.antt =====
-- internal/slot/manager.go: the slots of an instance under their names. The map is the list of its
-- entries; a later entry with the same name replaces an earlier one.
pub mod Named
mod Tests
use mcsm.Common.{ℕ, Option, none, some, String, str_eq, List, [], ◌∷◌, ◌++◌, map, if◌then◌else◌}
use mathlib.Core.Option
use mcsm.Slot.State.{Snapshot}
use mcsm.Slot.Record.{Slot, SlotConfig, new, snapshot}

pub record Manager : Type 0 where
  pub slots : List (String × Slot)
  pub order : List String

put : String → Slot → List (String × Slot) → List (String × Slot)
put name s [] = (name, s) ∷ []
put name s ((n, old) ∷ rest) =
    let later = put name s rest in if str_eq n name then (name, s) ∷ rest else (n, old) ∷ later

find : String → List (String × Slot) → Option Slot
find name [] = none
find name ((n, s) ∷ rest) = if str_eq n name then some s else find name rest

add_slots : String → String → ℕ → List SlotConfig → Manager → Manager
unfolding put
add_slots instance_name host now [] m = m
add_slots instance_name host now (sc ∷ scs) m = add_slots instance_name host now scs (record {
  slots = put sc.name (new sc instance_name host now) m.slots;
  order = m.order ++ sc.name ∷ [];
})

unfoldable pub new_manager : List SlotConfig → String → String → ℕ → Manager
unfolding add_slots
new_manager configs instance_name host now =
    add_slots instance_name host now configs (record { slots = []; order = [] })

-- `none` is ErrSlotNotFound.
unfoldable pub get : Manager → String → Option Slot
unfolding find
get m name = find name m.slots

-- The zero value of the map, a nil slot, is `none`.
unfoldable pub slots_in_order : Manager → List (Option Slot)
unfolding find
slots_in_order m = map (λ (n : String). find n m.slots) m.order

-- A nil slot would panic here.
unfoldable pub snapshots : (ℕ → ℕ) → Manager → List (Option Snapshot)
unfolding slots_in_order snapshot
snapshots pid m = map (Option.map (snapshot pid)) (slots_in_order m)
