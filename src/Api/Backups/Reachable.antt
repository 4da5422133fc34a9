-- ===== src/Api/Backups/Reachable.antt =====
-- In which states of a slot a backup can be restored, or made offline.
use mcsm.Common.{◌≡◌, true, some, err}
use mcsm.Slot.State.{State}
use mcsm.Slot.Record.{Slot}
use mcsm.Api.Backups.{Refusal, restore_gate, create_gate}

-- The restore and the offline backup are both refused, for a handler that reads the slot as `s` and then as
-- `later`.
abbrev pub AreRefused : Slot → Slot → Type 0
AreRefused s later =
    ((x : Refusal) × (restore_gate true (some s) later ≡ err x))
    × ((x : Refusal) × (create_gate true true (some s) later ≡ err x))
