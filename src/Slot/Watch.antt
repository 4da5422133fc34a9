-- ===== src/Slot/Watch.antt =====
-- internal/slot/slot.go: the goroutines `watchExit`, `healthLoop` and `rconConnectLoop`, section by
-- section, and `closeDiscordBot` of discord_adapter.go.
pub mod Release
pub mod Exits
use mcsm.Common.{
  ℕ, Bool, true, false, ◌&&◌, Option, none, some, List, [], ◌∷◌, ◌++◌, String, if◌then◌else◌,
}
use mcsm.Lock.Owner.{McsmDir}
use mcsm.Lock.Acquire.{Held, release}
use mcsm.Process.Exit.{ExitInfo, Reason, normal, killed}
use mcsm.Slot.State.{State, idle, starting, running, crashed, error, LastError, SlpInfo}
use mcsm.Slot.Record.{Server, Slot, transition}

-- `s.lock.Release()` in the directory of the lock.
release_lock : Bool → Option Held → McsmDir → McsmDir
release_lock fails none d = d
release_lock fails (some h) d = (release fails h d).1

-- `watchExit` under the mutex, once the exit channel has given a value.
unfoldable pub teardown : Bool → Slot → McsmDir → Slot × McsmDir
unfolding release_lock
teardown fails s d = (
  record s {
    cancel_ctx = none;
    rcon_client = none;
    lock = none;
    process = none;
    server = none;
    mounted_id = "";
    slp = none;
  },
  release_lock fails s.lock d,
)

name_of : Option Server → String
name_of none = ""
name_of (some srv) = srv.name

-- The name that the stop message shows is read here.
unfoldable pub close_discord_bot : Slot → Slot
unfolding name_of
close_discord_bot s =
    if s.bot then record s { bot = false; notices = s.notices ++ (name_of s.server ∷ []) } else s

-- The `switch` of `watchExit`, on `stopping` as it was at the teardown.
unfoldable pub land : ℕ → Bool → ExitInfo → Slot → Slot
land now true info s = elim info.reason [
  | normal ↦ transition now idle none s
  | killed ↦ transition now idle (some (record { code = "killed_after_grace"; at = info.at })) s
  | _ ↦ transition now crashed (some (record { code = "process_exited_nonzero"; at = info.at })) s
]
land now false info s =
    transition now crashed (some (record { code = "process_exited_nonzero"; at = info.at })) s

offline : ℕ → Option SlpInfo → Option SlpInfo
offline now none = none
offline now (some i) = some (record i { online = false; sampled_at = now })

slp_after : ℕ → Option SlpInfo → State → Option SlpInfo → Option SlpInfo
slp_after now (some i) st old = some i
slp_after now none running old = offline now old
slp_after now none _ old = old

-- `healthLoop` under the mutex: the probe's result goes into the slot, and the state is read.
unfoldable pub probed : ℕ → Option SlpInfo → Slot → Slot × State
unfolding slp_after offline
probed now result s = (record s { slp = slp_after now result s.state s.slp }, s.state)

-- The two tests that follow it, on that state.
unfoldable pub healthy : ℕ → Bool → State → Slot → Slot
healthy now answered starting s = if answered then transition now running none s else s
healthy now answered _ s = s

unfoldable pub expired : ℕ → Bool → State → Slot → Slot × Bool
expired now late starting s =
    if late
    then (transition now error (some (record { code = "startup_timeout"; at = now })) s, true)
    else (s, false)
expired now late _ s = (s, false)

-- One round of the loop with nothing in between; the flag tells that the loop ends and kills.
unfoldable pub health_round : ℕ → Option SlpInfo → Bool → Slot → Slot × Bool
unfolding probed healthy expired
health_round now result late s =
    let (s', st) = probed now result s in
    expired now late st (healthy now (elim result [ none ↦ false | some _ ↦ true ]) st s')

-- `rconConnectLoop` stores the connection that it made.
unfoldable pub store_rcon : ℕ → Slot → Slot
store_rcon c s = record s { rcon_client = some c }
