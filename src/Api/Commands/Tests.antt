-- ===== src/Api/Commands/Tests.antt =====
-- The theorems of Api.Commands at concrete inputs, and tests of it and of Slot.Players.
use mcsm.Common.{
  ℕ, ◌≡◌, refl, true, Option, none, some, [], ◌∷◌, Bytes, codes, has_prefix, if◌then◌else◌,
}
use mcsm.Slot.State.{running}
use mcsm.Slot.Record.{Slot, new, command}
use mcsm.Slot.Tests.{up}
use mcsm.Slot.Players.{player_names}
use mcsm.Api.Commands.Requests.{
  ConsoleReply, replied, lost, ConsoleRequest, done, failed, listed, bad_request, undecodable,
  content, ban_request, op_request, players_request,
}
use mcsm.Api.Commands.{serve}

abbrev connected : Slot
connected = record up { state = running; rcon_client = some 1 }

-- A console that never answers an unban.
abbrev console : ℕ → Bytes → ConsoleReply
console c line =
    if has_prefix (codes "pardon") line
    then lost
    else replied (codes "There are 1 of a max of 9 players online: Steve")

abbrev seconds : Bytes → Option ℕ
seconds d = some 60

abbrev timed_ban : Bytes → Bytes → Bytes → ConsoleRequest
timed_ban target reason d =
    ban_request target (content (record { reason = reason; duration = d; ban_ip = true }))

ban_run :
    serve console
      (λ t. t)
      seconds
      (some connected)
      (timed_ban (codes "Steve") (codes "x") (codes "1m"))
    ≡ record {
      sent = codes "ban Steve x" ∷ codes "ban-ip Steve" ∷ [];
      later = some (60, codes "pardon Steve");
      answers = done ∷ [];
    }
unfolding serve command has_prefix new
ban_run = refl

-- The request is answered twice.
op_run :
    serve console (λ t. t) seconds (some connected) (op_request (codes "Steve") undecodable)
    ≡ record {
      sent = codes "op Steve" ∷ [];
      later = none;
      answers = failed bad_request ∷ done ∷ [];
    }
unfolding serve command has_prefix new
op_run = refl

players_run :
    serve console (λ t. t) seconds (some connected) players_request
    ≡ record { sent = codes "list" ∷ []; later = none; answers = listed (codes "Steve" ∷ []) ∷ [] }
unfolding serve command has_prefix new player_names
players_run = refl
