-- ===== src/Api/Commands/Served.antt =====
-- internal/api/handlers_server.go: the handlers keep to what their requests stand for.
use mcsm.Common.{ℕ, ◌≡◌, ◌≢◌, ◌⊎◌, inl, inr, Option-cases, Option, none, some, Bytes, ok, arith}
use mcsm.Slot.State.{running}
use mcsm.Slot.Record.{Slot, command}
use mcsm.Api.Commands.Requests.{ConsoleReply, slot_not_found, not_running, Run, ConsoleRequest}
use mcsm.Api.Commands.{refuse}
use mcsm.Api.Commands.Expected.{Outcome}

module _ (console : ℕ → Bytes → ConsoleReply) (lower : Bytes → Bytes)
    (duration : Bytes → Option ℕ) where
  command-running :
      (s : Slot)
      → s.state ≡ running
      → (s.rcon_client ≡ none) ⊎ ((c : ℕ) × (s.rcon_client ≡ some c) × (command s ≡ ok c))
  unfolding command
  command-running s h = elim (Option-cases s.rcon_client) [
    | inl n ↦ inl n
    | inr (c, e) ↦ inr (c, e, ground (h, e, arith))
  ]

  -- A request for the server's console ends in one of these ways: there is no slot of the name, or it is
  -- not running, and nothing is sent; or it ends as `Outcome` says.
  pub Ends : Option Slot → ConsoleRequest → Run → Type 0
  Ends o q r =
      ((o ≡ none) × (r ≡ refuse slot_not_found))
      ⊎ ((s : Slot) × (o ≡ some s)
          × (((s.state ≢ running) × (r ≡ refuse not_running))
              ⊎ ((s.state ≡ running) × Outcome console lower duration s q r)))
