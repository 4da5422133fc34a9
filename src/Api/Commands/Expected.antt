-- ===== src/Api/Commands/Expected.antt =====
-- internal/api/handlers_server.go: what each request for the server's console stands for, and the ends that
-- it may have.
use mathlib.Core.Option
use mcsm.Common.{
  Bool, true, false, ◌≤◌, ◌<◌, leb, length, ℕ, ◌≡◌, ◌⊎◌, Option, none, some, List, [], ◌∷◌, ◌++◌,
  Bytes, codes, if◌then◌else◌, Result, ok, err,
}
use mcsm.Slot.Record.{Slot}
use mcsm.Slot.Players.{player_names}
use mcsm.Api.Commands.Requests.{
  ConsoleReply, replied, unwritten, lost, Code, bad_request, validation_failed, player_not_online,
  rcon_unreachable, Answer, done, listed, failed, Run, no_content, undecodable, content,
  ConsoleRequest, command_request, say_request, players_request, kick_request, ban_request,
  unban_request, op_request, deop_request, whitelist_add_request, whitelist_remove_request,
  whitelist_reload_request,
}
use mcsm.Api.Commands.{refuse}

text_of : Bytes → Option Bytes → Result Code Bytes
text_of prefix none = err bad_request
text_of prefix (some []) = err validation_failed
text_of prefix (some (c ∷ cs)) = ok (prefix ++ (c ∷ cs))

-- The reason of a body that may be left out.
unfoldable pub reasoned : Bytes → Bytes → Bytes
reasoned line [] = line
reasoned line (c ∷ cs) = line ++ (b' ' ∷ c ∷ cs)

-- The command that a request stands for, or why it is refused.
unfoldable pub command_of : ConsoleRequest → Result Code Bytes
unfolding text_of reasoned
command_of (command_request body) = text_of [] body
command_of (say_request body) = text_of (codes "say ") body
command_of players_request = ok (codes "list")
command_of (kick_request t no_content) = ok (codes "kick " ++ t)
command_of (kick_request t undecodable) = err bad_request
command_of (kick_request t (content reason)) = ok (reasoned (codes "kick " ++ t) reason)
command_of (ban_request t no_content) = ok (codes "ban " ++ t)
command_of (ban_request t undecodable) = err bad_request
command_of (ban_request t (content b)) = ok (reasoned (codes "ban " ++ t) b.reason)
command_of (unban_request t) = ok (codes "pardon " ++ t)
command_of (op_request t body) = ok (codes "op " ++ t)
command_of (deop_request t) = ok (codes "deop " ++ t)
command_of (whitelist_add_request t) = ok (codes "whitelist add " ++ t)
command_of (whitelist_remove_request t) = ok (codes "whitelist remove " ++ t)
command_of whitelist_reload_request = ok (codes "whitelist reload")

-- What is given to the console after a reply to it.
unfoldable pub afterwards : ConsoleRequest → List Bytes
afterwards (ban_request t (content b)) = if b.ban_ip then (codes "ban-ip " ++ t) ∷ [] else []
afterwards (unban_request t) = (codes "pardon-ip " ++ t) ∷ []
afterwards _ = []

-- Only the response to an `op` whose body cannot be decoded has an answer in front.
unfoldable pub before : ConsoleRequest → List Answer
before (op_request t undecodable) = failed bad_request ∷ []
before _ = []

unfoldable pub failure : ConsoleRequest → Code → Answer
failure players_request c = listed []
failure _ c = failed c

-- A byte string within another one.
abbrev pub Within : Bytes → Bytes → Type 0
Within part s = (front rest : Bytes) × (s ≡ front ++ (part ++ rest))

is_written : ConsoleReply → Bool
is_written (replied resp) = true
is_written unwritten = false
is_written lost = true

-- A line reaches the console if it is short enough and is written.
unfoldable pub reaches : ConsoleReply → Bytes → Bool
unfolding is_written
reaches r line = if leb (length line) 1413 then is_written r else false

module _ (console : ℕ → Bytes → ConsoleReply) (lower : Bytes → Bytes)
    (duration : Bytes → Option ℕ) where
  -- The answer after the reply.
  abbrev pub IsSuccess : ConsoleRequest → Bytes → Answer → Type 0
  IsSuccess players_request resp a = a ≡ listed (player_names resp)
  IsSuccess (kick_request t body) resp a =
      (Within (codes "no player") (lower resp) × (a ≡ failed player_not_online))
      ⊎ ((¬ Within (codes "no player") (lower resp)) × (a ≡ done))
  IsSuccess _ resp a = a ≡ done

  -- A ban's pardon, if a duration is given and can be read.
  unfoldable pub pardon : Bytes → Bytes → Option (ℕ × Bytes)
  pardon t [] = none
  pardon t (c ∷ cs) = Option.map (λ d. (d, codes "pardon " ++ t)) (duration (c ∷ cs))

  unfoldable pub later_of : ConsoleRequest → Option (ℕ × Bytes)
  unfolding pardon
  later_of (ban_request t (content b)) = pardon t b.duration
  later_of _ = none

  unfoldable pub failed_run : ConsoleRequest → List Bytes → Run
  unfolding before failure
  failed_run q sent = record {
    sent = sent;
    later = none;
    answers = before q ++ failure q rcon_unreachable ∷ [];
  }

  unfoldable pub reaching : ℕ → List Bytes → List Bytes
  unfolding reaches
  reaching conn [] = []
  reaching conn (line ∷ lines) =
      let more = reaching conn lines in
      if reaches (console conn line) line then line ∷ more else more

  unfoldable pub done_run : ConsoleRequest → ℕ → Bytes → Answer → Run
  unfolding before afterwards later_of reaching
  done_run q conn line a = record {
    sent = line ∷ reaching conn (afterwards q);
    later = later_of q;
    answers = before q ++ a ∷ [];
  }

  -- The ends of a request that finds the slot running: it is refused for itself; the console is not
  -- connected; the command is too long or is not written; it is written and not answered; or it is answered.
  pub data Outcome (s : Slot) (q : ConsoleRequest) (r : Run) : Type 0 where
    refused : (c : Code) → command_of q ≡ err c → r ≡ refuse c → Outcome s q r
    unconnected :
        (line : Bytes)
        → command_of q ≡ ok line
        → s.rcon_client ≡ none
        → r ≡ failed_run q []
        → Outcome s q r
    unsent :
        (line : Bytes) (conn : ℕ)
        → command_of q ≡ ok line
        → s.rcon_client ≡ some conn
        → (1413 < length line) ⊎ (console conn line ≡ unwritten)
        → r ≡ failed_run q []
        → Outcome s q r
    unanswered :
        (line : Bytes) (conn : ℕ)
        → command_of q ≡ ok line
        → s.rcon_client ≡ some conn
        → length line ≤ 1413
        → console conn line ≡ lost
        → r ≡ failed_run q (line ∷ [])
        → Outcome s q r
    answered :
        (line : Bytes) (conn : ℕ) (resp : Bytes) (a : Answer)
        → command_of q ≡ ok line
        → s.rcon_client ≡ some conn
        → length line ≤ 1413
        → console conn line ≡ replied resp
        → IsSuccess q resp a
        → r ≡ done_run q conn line a
        → Outcome s q r
