-- ===== src/Slot/Mount.antt =====
-- internal/slot/slot.go: `Start`, and `failMount`. What the rest of the system answers to one call
-- is the record `Answers`; the lock is taken and released in the server's directory by
-- internal/lock. All times read in one call are the same number.
pub mod Outcome
use mcsm.Common.{
  ℕ, suc, Bool, true, false, Option, none, some, List, Bytes, String, ℤ, pos, if◌then◌else◌, Result,
  ok, err,
}
use mcsm.Lock.Owner.{McsmDir, LockError}
use mcsm.Lock.Acquire.{Fault, Held, try_acquire, release}
use mcsm.Slot.State.{State, mounting, starting, error, can_start_from, LastError}
use mcsm.Slot.Record.{Server, Slot}
use mcsm.Slot.Memory.{check_accepts}

pub data StartError : Type 0 where
  slot_busy server_not_found server_incompatible config_error internal : StartError
  properties_error launch_plan spawn : StartError
  server_in_use : LockError → StartError

-- The code that `failMount` records.
pub code_of : StartError → String
code_of slot_busy = "slot_busy"
code_of server_not_found = "server_not_found"
code_of server_incompatible = "server_incompatible"
code_of config_error = "config_error"
code_of internal = "internal"
code_of properties_error = "properties_error"
code_of launch_plan = "launch_plan"
code_of spawn = "spawn"
code_of (server_in_use e) = "server_in_use"

-- `found` and `refreshed`: FindByID in the catalog, and in a fresh one. `java_args`: the first read
-- of the server's config, `accept_args` the one in `checkAccepts`. `spawned` names the process, and
-- `context` the context of its goroutines.
pub record Answers : Type 0 where
  pub now : ℕ
  pub pid : ℤ
  pub found : Option Server
  pub refreshed : Option Server
  pub accept_args : Option (List Bytes)
  pub java_args : Option (List Bytes)
  pub password : Option String
  pub patched : Bool
  pub write_fault : Fault
  pub planned : Bool
  pub spawned : Option ℕ
  pub remove_fails : Bool
  pub context : ℕ

-- The slot, the server's directory, and the outcome.
abbrev pub Outcome : Type 0
Outcome = Slot × McsmDir × Result StartError (Unit {0})

unfoldable pub fail_mount : ℕ → StartError → Slot → Slot
unfolding code_of
fail_mount now e s = record s {
  state = error;
  state_since = now;
  last_err = some (record { code = code_of e; at = now });
  server = none;
  process = none;
  lock = none;
  rcon_client = none;
}

unfoldable pub begin_mount : ℕ → Slot → Slot
begin_mount now s = record s {
  state = mounting;
  state_since = now;
  last_err = none;
  stopping = false;
}

-- The last section under the mutex.
commit : Answers → Server → String → Held → ℕ → Slot → Slot
commit a srv pass held proc s = record s {
  state = starting;
  state_since = a.now;
  server = some srv;
  process = some proc;
  lock = some held;
  rcon_pass = pass;
  started_at = a.now;
  mounted_id = srv.id;
  cancel_ctx = some (a.context);
  slp = none;
  tailer = some srv.path;
}

failed : Answers → StartError → Slot → McsmDir → Outcome
unfolding fail_mount
failed a e s d = (fail_mount a.now e s, d, err e)

-- A failure after the lock was taken releases it.
failed_held : Answers → StartError → Held → Slot → McsmDir → Outcome
unfolding failed
failed_held a e held s d = failed a e s (release a.remove_fails held d).1

spawned_as : Option ℕ → Answers → Server → String → Held → Slot → McsmDir → Outcome
unfolding failed_held commit
spawned_as none a srv pass held s d = failed_held a spawn held s d
spawned_as (some p) a srv pass held s d = (commit a srv pass held p s, d, ok tt)

launch : Answers → Server → String → Slot → McsmDir × Result LockError Held → Outcome
unfolding spawned_as failed
launch a srv pass s (d, err e) = failed a (server_in_use e) s d
launch a srv pass s (d, ok held) =
    if a.planned
    then spawned_as a.spawned a srv pass held s d
    else failed_held a launch_plan held s d

-- From `PatchProperties` on.
prepared : Option String → Answers → Bool → Server → Slot → McsmDir → Outcome
unfolding launch failed
prepared none a force srv s d = failed a internal s d
prepared (some pass) a force srv s d =
    if a.patched
    then launch a srv pass s
        (try_acquire a.write_fault a.now d s.instance_name s.cfg.name s.host a.pid force)
    else failed a properties_error s d

-- From the read of the server's config on.
configured : Option (List Bytes) → Answers → Bool → Server → Slot → McsmDir → Outcome
unfolding prepared
configured none a force srv s d = failed a config_error s d
configured (some args) a force srv s d = prepared a.password a force srv s d

mount : Option Server → Answers → Bool → Slot → McsmDir → Outcome
unfolding configured
mount none a force s d = failed a server_not_found s d
mount (some srv) a force s d =
    if check_accepts s.cfg srv a.accept_args
    then configured a.java_args a force srv s d
    else failed a server_incompatible s d

-- The server to mount: from the catalog, or else from a fresh one.
abbrev chosen : Option Server → Option Server → Option Server
chosen (some srv) fresh = some srv
chosen none fresh = fresh

unfoldable pub start : Answers → Bool → Slot → McsmDir → Outcome
unfolding mount begin_mount
start a force s d =
    if can_start_from s.state
    then mount (chosen a.found a.refreshed) a force (begin_mount a.now s) d
    else (s, d, err slot_busy)
