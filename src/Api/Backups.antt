-- ===== src/Api/Backups.antt =====
-- internal/api/handlers_backups.go: the conditions under which the handlers call the store. What is
-- read of the request is an argument. A handler reads the slot twice: for the mounted server, and `later` for
-- the state or the save control.
pub mod Reachable
use mcsm.Common.{
  ℕ, Bool, true, false, not, Option, none, some, if◌then◌else◌, Result, ok, err, ◌>>=◌,
}
use mcsm.Slot.State.{State, is_terminal}
use mcsm.Slot.Record.{Slot, Server, mounted_server, save_control_for_backup}
use mcsm.Backup.Create.{Mode, online, offline}

pub data Refusal : Type 0 where
  backups_disabled slot_not_found server_not_running slot_busy : Refusal

server_of : Slot → Option Server → Result Refusal (Slot × Server)
server_of s none = err server_not_running
server_of s (some srv) = ok (s, srv)

-- The slot that the name stands for, if there is one.
unfoldable pub require_slot_and_server : Option Slot → Result Refusal (Slot × Server)
unfolding server_of mounted_server
require_slot_and_server none = err slot_not_found
require_slot_and_server (some s) = server_of s (mounted_server s)

if_enabled : Bool → Option Slot → Result Refusal (Slot × Server)
unfolding require_slot_and_server
if_enabled enabled o = if enabled then require_slot_and_server o else err backups_disabled

unless_busy : Slot → Slot × Server → Result Refusal Server
unfolding is_terminal
unless_busy later (s, srv) = if is_terminal later.state then ok srv else err slot_busy

-- The server whose directory handleBackupRestore restores.
unfoldable pub restore_gate : Bool → Option Slot → Slot → Result Refusal Server
unfolding if_enabled unless_busy
restore_gate enabled o later = if_enabled enabled o >>= unless_busy later

is_connected : Option ℕ → Bool
is_connected none = false
is_connected (some c) = true

create_options : Bool → Slot → Slot × Server → Result Refusal (Server × Mode × Bool)
unfolding is_terminal is_connected save_control_for_backup
create_options stop_server later (s, srv) =
    if stop_server
    then (if is_terminal later.state then ok (srv, offline, false) else err slot_busy)
    else ok (srv, online, is_connected (save_control_for_backup later))

-- The server, the mode and whether there is a save control, with which handleBackupCreate calls
-- Create.
unfoldable pub create_gate :
    Bool → Bool → Option Slot → Slot → Result Refusal (Server × Mode × Bool)
unfolding if_enabled create_options
create_gate enabled stop_server o later = if_enabled enabled o >>= create_options stop_server later

-- handleBackupsList, handleBackupGet and handleBackupDelete ask for a mounted server only.
unfoldable pub store_gate : Bool → Option Slot → Result Refusal Server
unfolding if_enabled
store_gate enabled o = if_enabled enabled o >>= λ p. ok p.1
