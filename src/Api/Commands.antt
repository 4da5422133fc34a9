-- ===== src/Api/Commands.antt =====
-- internal/api/handlers_server.go: the handlers that send commands to the server's console. What the
-- console answers is an argument; a handler finds the slot in one state.
pub mod Requests
pub mod Expected
pub mod Served
mod Tests
use Requests.{
  ConsoleReply, replied, unwritten, lost, Code, slot_not_found, not_running, bad_request,
  validation_failed, player_not_online, rcon_unreachable, Answer, done, listed, failed, Run,
  Content, no_content, undecodable, content, Ban, ConsoleRequest, command_request, say_request,
  players_request, kick_request, ban_request, unban_request, op_request, deop_request,
  whitelist_add_request, whitelist_remove_request, whitelist_reload_request,
}
use mcsm.Common.{
  ℕ, Bool, true, false, not, ◌&&◌, ◌||◌, Option, none, some, List, [], ◌∷◌, ◌++◌, Bytes, codes,
  has_prefix, ltb, length, if◌then◌else◌, Result, ok, err, ◌>>=◌,
}
use mcsm.Slot.State.{State, running}
use mcsm.Slot.Record.{Slot, CommandError, server_not_running, rcon_not_connected, command}
use mcsm.Slot.Players.{player_names}

pub refuse : Code → Run
refuse c = record { sent = []; later = none; answers = failed c ∷ [] }

when_running : State → Slot → Result Code Slot
when_running running s = ok s
when_running _ s = err not_running

unfoldable pub require_running : Option Slot → Result Code Slot
unfolding when_running
require_running none = err slot_not_found
require_running (some s) = when_running s.state s

-- mapRconError
error_code : CommandError → Code
error_code server_not_running = not_running
error_code rcon_not_connected = rcon_unreachable

-- No error of `Cmd` is context.DeadlineExceeded: a deadline of the socket is os.ErrDeadlineExceeded.
of_reply : ConsoleReply → Result Code Bytes
of_reply (replied resp) = ok resp
of_reply unwritten = err rcon_unreachable
of_reply lost = err rcon_unreachable

-- The lines that reach the console.
line_written : Bytes → ConsoleReply → List Bytes
line_written line (replied resp) = line ∷ []
line_written line unwritten = []
line_written line lost = line ∷ []

-- `Cmd` refuses a line of more than 1413 bytes.
cmd_reply : Bytes → ConsoleReply → ConsoleReply
cmd_reply line r = if ltb 1413 (length line) then unwritten else r

-- strings.Contains
contains : Bytes → Bytes → Bool
unfolding has_prefix
contains part [] = has_prefix part []
contains part (c ∷ cs) = has_prefix part (c ∷ cs) || contains part cs

-- The answers of the console by connection and command; strings.ToLower; time.ParseDuration with a result
-- above zero.
module _ (console : ℕ → Bytes → ConsoleReply) (lower : Bytes → Bytes)
    (duration : Bytes → Option ℕ) where
  run_on : Bytes → Result CommandError ℕ → List Bytes × Result Code Bytes
  unfolding error_code of_reply line_written cmd_reply
  run_on line (err e) = ([], err (error_code e))
  run_on line (ok c) = let r = cmd_reply line (console c line) in (line_written line r, of_reply r)

  run_cmd : Slot → Bytes → List Bytes × Result Code Bytes
  unfolding run_on
  run_cmd s line = run_on line (command s)

  -- A command whose failure is the answer, and what follows its reply.
  then_answer : (Bytes → Answer) → List Bytes × Result Code Bytes → Run
  then_answer k (sent, err c) = record { sent = sent; later = none; answers = failed c ∷ [] }
  then_answer k (sent, ok resp) = record { sent = sent; later = none; answers = k resp ∷ [] }

  on_line : Slot → Option Bytes → Bytes → Run
  unfolding refuse then_answer
  on_line s none prefix = refuse bad_request
  on_line s (some []) prefix = refuse validation_failed
  on_line s (some (c ∷ cs)) prefix = then_answer (λ r. done) (run_cmd s (prefix ++ (c ∷ cs)))

  handle_command : Slot → Option Bytes → Run
  unfolding on_line
  handle_command s body = on_line s body []

  handle_say : Slot → Option Bytes → Run
  unfolding on_line
  handle_say s body = on_line s body (codes "say ")

  names_of_list : List Bytes × Result Code Bytes → Run
  names_of_list (sent, err c) = record { sent = sent; later = none; answers = listed [] ∷ [] }
  names_of_list (sent, ok resp) = record {
    sent = sent;
    later = none;
    answers = listed (player_names resp) ∷ [];
  }

  handle_players : Slot → Run
  unfolding names_of_list
  handle_players s = names_of_list (run_cmd s (codes "list"))

  with_reason : Bytes → Bytes → Bytes
  with_reason line [] = line
  with_reason line (c ∷ cs) = line ++ (b' ' ∷ c ∷ cs)

  kicked : Bytes → Answer
  unfolding contains
  kicked resp = if contains (codes "no player") (lower resp) then failed player_not_online else done

  kick : Slot → Bytes → Bytes → Run
  unfolding then_answer kicked with_reason
  kick s target reason =
      then_answer kicked (run_cmd s (with_reason (codes "kick " ++ target) reason))

  handle_kick : Slot → Bytes → Content Bytes → Run
  unfolding kick refuse
  handle_kick s target no_content = kick s target []
  handle_kick s target undecodable = refuse bad_request
  handle_kick s target (content reason) = kick s target reason

  -- A second command, whose result is ignored.
  and_send : Slot → Bool → Bytes → Run → Run
  and_send s b line r = if b then record r { sent = r.sent ++ (run_cmd s line).0 } else r

  pardon_later : Bytes → Bytes → Option (ℕ × Bytes)
  pardon_later target [] = none
  pardon_later target (c ∷ cs) = elim (duration (c ∷ cs)) [
    | none ↦ none
    | some d ↦ some (d, codes "pardon " ++ target)
  ]

  banned : Slot → Bytes → Ban → List Bytes × Result Code Bytes → Run
  unfolding and_send pardon_later
  banned s target b (sent, err c) = record { sent = sent; later = none; answers = failed c ∷ [] }
  banned s target b (sent, ok resp) =
      and_send s b.ban_ip (codes "ban-ip " ++ target)
        (record { sent = sent; later = pardon_later target b.duration; answers = done ∷ [] })

  ban : Slot → Bytes → Ban → Run
  unfolding banned with_reason
  ban s target b = banned s target b (run_cmd s (with_reason (codes "ban " ++ target) b.reason))

  handle_ban : Slot → Bytes → Content Ban → Run
  unfolding ban refuse
  handle_ban s target no_content =
      ban s target (record { reason = []; duration = []; ban_ip = false })
  handle_ban s target undecodable = refuse bad_request
  handle_ban s target (content b) = ban s target b

  unbanned : Slot → Bytes → List Bytes × Result Code Bytes → Run
  unfolding and_send
  unbanned s target (sent, err c) = record { sent = sent; later = none; answers = failed c ∷ [] }
  unbanned s target (sent, ok resp) =
      and_send s true (codes "pardon-ip " ++ target)
        (record { sent = sent; later = none; answers = done ∷ [] })

  handle_unban : Slot → Bytes → Run
  unfolding unbanned
  handle_unban s target = unbanned s target (run_cmd s (codes "pardon " ++ target))

  -- The error of the body is written, and the handler goes on.
  handle_op : Slot → Bytes → Content ℕ → Run
  unfolding then_answer
  handle_op s target undecodable =
      let r = then_answer (λ resp. done) (run_cmd s (codes "op " ++ target)) in
      record r { answers = failed bad_request ∷ r.answers }
  handle_op s target no_content = then_answer (λ resp. done) (run_cmd s (codes "op " ++ target))
  handle_op s target (content level) =
      then_answer (λ resp. done) (run_cmd s (codes "op " ++ target))

  handle_deop : Slot → Bytes → Run
  unfolding then_answer
  handle_deop s target = then_answer (λ resp. done) (run_cmd s (codes "deop " ++ target))

  handle_whitelist_add : Slot → Bytes → Run
  unfolding then_answer
  handle_whitelist_add s target =
      then_answer (λ resp. done) (run_cmd s (codes "whitelist add " ++ target))

  handle_whitelist_remove : Slot → Bytes → Run
  unfolding then_answer
  handle_whitelist_remove s target =
      then_answer (λ resp. done) (run_cmd s (codes "whitelist remove " ++ target))

  handle_whitelist_reload : Slot → Run
  unfolding then_answer
  handle_whitelist_reload s = then_answer (λ resp. done) (run_cmd s (codes "whitelist reload"))

  -- The handler behind the route of a request.
  dispatch : Slot → ConsoleRequest → Run
  unfolding handle_command handle_say handle_players handle_kick handle_ban handle_unban handle_op
      handle_deop handle_whitelist_add handle_whitelist_remove handle_whitelist_reload
  dispatch s (command_request body) = handle_command s body
  dispatch s (say_request body) = handle_say s body
  dispatch s players_request = handle_players s
  dispatch s (kick_request target body) = handle_kick s target body
  dispatch s (ban_request target body) = handle_ban s target body
  dispatch s (unban_request target) = handle_unban s target
  dispatch s (op_request target body) = handle_op s target body
  dispatch s (deop_request target) = handle_deop s target
  dispatch s (whitelist_add_request target) = handle_whitelist_add s target
  dispatch s (whitelist_remove_request target) = handle_whitelist_remove s target
  dispatch s whitelist_reload_request = handle_whitelist_reload s

  served : ConsoleRequest → Result Code Slot → Run
  unfolding dispatch refuse run_cmd
  served q (err c) = refuse c
  served q (ok s) = dispatch s q

  unfoldable pub serve : Option Slot → ConsoleRequest → Run
  unfolding served require_running
  serve o q = served q (require_running o)
