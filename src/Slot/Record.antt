-- ===== src/Slot/Record.antt =====
-- internal/slot/slot.go: the `Slot` struct, `New`, `Snapshot`, `transition` and the readers. A
-- process, a connection, a context and an abort channel are numbers that name them. The mutex makes
-- each function below that the source runs under it one step.
use mcsm.Common.{
  ℕ, Bool, true, false, Option, none, some, List, [], ◌∷◌, ◌++◌, String, ℤ, Result, ok, err,
}
use mcsm.Lock.Acquire.{Held}
use mcsm.Slot.State.{State, idle, running, LastError, SlpInfo, Mounted, Snapshot}

-- discovery.Server, as far as a slot reads it; `flavor` is the field `Type`.
pub record Server : Type 0 where
  pub id : String
  pub name : String
  pub flavor : String
  pub version : String
  pub path : String

-- config.Slot with its `accepts`; the memory limit is positive where there is one.
pub record SlotConfig : Type 0 where
  pub name : String
  pub port : ℕ
  pub public_address : String
  pub auto_mount : String
  pub accept_types : List String
  pub max_memory_mb : ℤ

-- events.Event of the type "state".
pub record StateEvent : Type 0 where
  pub from_state : State
  pub to_state : State

-- `tailer` is the path that the tailer reads; `bot` that a Discord session is open. `published`
-- lists what the bus was given, oldest first, and `notices` the server names in stop messages.
pub record Slot : Type 0 where
  pub cfg : SlotConfig
  pub instance_name : String
  pub host : String
  pub state : State
  pub state_since : ℕ
  pub last_err : Option LastError
  pub server : Option Server
  pub process : Option ℕ
  pub lock : Option Held
  pub rcon_client : Option ℕ
  pub rcon_pass : String
  pub started_at : ℕ
  pub mounted_id : String
  pub cancel_ctx : Option ℕ
  pub slp : Option SlpInfo
  pub tailer : Option String
  pub bot : Bool
  pub stopping : Bool
  pub stop_abort : Option ℕ
  pub published : List StateEvent
  pub notices : List String

unfoldable pub new : SlotConfig → String → String → ℕ → Slot
new cfg instance_name host now = record {
  cfg = cfg;
  instance_name = instance_name;
  host = host;
  state = idle;
  state_since = now;
  last_err = none;
  server = none;
  process = none;
  lock = none;
  rcon_client = none;
  rcon_pass = "";
  started_at = 0;
  mounted_id = "";
  cancel_ctx = none;
  slp = none;
  tailer = none;
  bot = false;
  stopping = false;
  stop_abort = none;
  published = [];
  notices = [];
}

abbrev is_some {ℓ} : {A : Type ℓ} → Option A → Bool
is_some none = false
is_some (some a) = true

pid_of : (ℕ → ℕ) → Option ℕ → ℕ
pid_of pids none = 0
pid_of pids (some p) = pids p

mounted_of : (ℕ → ℕ) → Slot → Option Server → Option Mounted
unfolding pid_of
mounted_of pids s none = none
mounted_of pids s (some srv) = some (record {
  id = srv.id;
  name = srv.name;
  flavor = srv.flavor;
  version = srv.version;
  path = srv.path;
  pid = pid_of pids s.process;
  started_at = s.started_at;
  rcon_connected = is_some s.rcon_client;
  slp = s.slp;
})

server_id_of : Option Server → String
server_id_of none = ""
server_id_of (some srv) = srv.id

-- `pids` gives the operating system's id of each process.
unfoldable pub snapshot : (ℕ → ℕ) → Slot → Snapshot
unfolding mounted_of server_id_of
snapshot pids s = record {
  name = s.cfg.name;
  port = s.cfg.port;
  public_address = s.cfg.public_address;
  state = s.state;
  state_since = s.state_since;
  mounted_server_id = server_id_of s.server;
  mounted_server = mounted_of pids s s.server;
  auto_mount = s.cfg.auto_mount;
  last_error = s.last_err;
}

-- The error that is kept: a new one, or none on the way to idle, or the old one.
err_after : State → Option LastError → Option LastError → Option LastError
err_after to (some e) old = some e
err_after idle none old = none
err_after _ none old = old

unfoldable pub transition : ℕ → State → Option LastError → Slot → Slot
unfolding err_after
transition now to last s = record s {
  state = to;
  state_since = now;
  last_err = err_after to last s.last_err;
  published = s.published ++ (record { from_state = s.state; to_state = to } ∷ []);
}

pub data CommandError : Type 0 where
  server_not_running rcon_not_connected : CommandError

-- `Command` up to the call on the connection, which it hands over.
unfoldable pub command : Slot → Result CommandError ℕ
command s = elim s.state [
  | running ↦ elim s.rcon_client [ none ↦ err rcon_not_connected | some c ↦ ok c ]
  | _ ↦ err server_not_running
]

-- The connection that a backup may pause the world through.
unfoldable pub save_control_for_backup : Slot → Option ℕ
save_control_for_backup s = elim s.state [ running ↦ s.rcon_client | _ ↦ none ]

unfoldable pub mounted_server : Slot → Option Server
mounted_server s = s.server
