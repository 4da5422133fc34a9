-- ===== src/Slot/State.antt =====
-- internal/slot/state.go: the states of a slot and what a client is shown of one.
use mcsm.Common.{ℕ, Bool, true, false, Option, String, ℤ}

pub data State : Type 0 where
  idle mounting starting running stopping crashed error : State

unfoldable pub is_terminal : State → Bool
is_terminal idle = true
is_terminal crashed = true
is_terminal error = true
is_terminal _ = false

unfoldable pub can_start_from : State → Bool
can_start_from idle = true
can_start_from crashed = true
can_start_from error = true
can_start_from _ = false

unfoldable pub can_stop_from : State → Bool
can_stop_from running = true
can_stop_from starting = true
can_stop_from _ = false

-- Error codes; the free-text message of a `LastError` is left out.
pub record LastError : Type 0 where
  pub code : String
  pub at : ℕ

pub record SlpInfo : Type 0 where
  pub online : Bool
  pub players_online : ℤ
  pub players_max : ℤ
  pub motd : String
  pub latency_ms : ℕ
  pub sampled_at : ℕ

pub record Mounted : Type 0 where
  pub id : String
  pub name : String
  pub flavor : String
  pub version : String
  pub path : String
  pub pid : ℕ
  pub started_at : ℕ
  pub rcon_connected : Bool
  pub slp : Option SlpInfo

pub record Snapshot : Type 0 where
  pub name : String
  pub port : ℕ
  pub public_address : String
  pub state : State
  pub state_since : ℕ
  pub mounted_server_id : String
  pub mounted_server : Option Mounted
  pub auto_mount : String
  pub last_error : Option LastError
