-- ===== src/Api/Commands/Requests.antt =====
-- internal/api/handlers_server.go, errors.go: the requests for the server's console, and what comes of them.
use mcsm.Common.{ℕ, Bool, Option, List, Bytes}

-- What comes of a line that is given to a connection: the reply; nothing is written, since the connection is
-- closed or the writing fails; or it is written, and no reply of its own comes in time.
pub data ConsoleReply : Type 0 where
  replied : Bytes → ConsoleReply
  unwritten lost : ConsoleReply

pub data Code : Type 0 where
  slot_not_found not_running bad_request validation_failed : Code
  player_not_online rcon_unreachable : Code

pub data Answer : Type 0 where
  done : Answer
  listed : List Bytes → Answer
  failed : Code → Answer

-- What a request brings about: the commands that are sent, the command that is to be sent later, with its
-- delay, and the responses that are written.
pub record Run : Type 0 where
  pub sent : List Bytes
  pub later : Option (ℕ × Bytes)
  pub answers : List Answer

-- No content, content that cannot be decoded, or a value.
pub data Content (A : Type 0) : Type 0 where
  no_content undecodable : Content A
  content : A → Content A

pub record Ban : Type 0 where
  pub reason : Bytes
  pub duration : Bytes
  pub ban_ip : Bool

-- The requests; `Content` where the body may be left out, `none` for a body that cannot be decoded.
pub data ConsoleRequest : Type 0 where
  command_request say_request : Option Bytes → ConsoleRequest
  players_request : ConsoleRequest
  kick_request : Bytes → Content Bytes → ConsoleRequest
  ban_request : Bytes → Content Ban → ConsoleRequest
  unban_request : Bytes → ConsoleRequest
  op_request : Bytes → Content ℕ → ConsoleRequest
  deop_request whitelist_add_request whitelist_remove_request : Bytes → ConsoleRequest
  whitelist_reload_request : ConsoleRequest
