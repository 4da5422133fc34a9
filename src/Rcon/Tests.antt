-- ===== src/Rcon/Tests.antt =====
-- The theorems of Rcon at concrete inputs, and tests.
use mcsm.Common.{◌≡◌, refl, List, [], ◌∷◌, Bytes, codes, arith, pos, ok, err}
use mcsm.Rcon.Packet.{id_mismatch}
use mcsm.Rcon.Packet.RoundTrip.{IsPayload}
use mcsm.Rcon.Client.{next_id}
use mcsm.Rcon.Client.Sync.{response, open_client, server, cmds, cmds-in_step, cmds-behind}

wrapped : next_id (pos 2147483647) ≡ pos 1
unfolding next_id
wrapped = refl

abbrev hello : Bytes
hello = codes "hi"

hello-IsPayload : IsPayload hello
hello-IsPayload = ground arith

-- A server that greets.
abbrev greet : Bytes → Bytes
greet command = hello

abbrev commands : List Bytes
commands = codes "list" ∷ codes "stop" ∷ []

cmds-in_step_example :
    cmds (server greet) (open_client (pos 7) []) commands ≡ ok hello ∷ ok hello ∷ []
cmds-in_step_example = cmds-in_step greet commands (pos 7) (omega arith) (ground arith)

cmds-behind_example :
    cmds (server greet) (open_client (pos 7) (response (pos 7) hello)) commands
    ≡ err id_mismatch ∷ err id_mismatch ∷ []
cmds-behind_example =
    cmds-behind greet commands (pos 7) hello (omega arith) hello-IsPayload (ground arith)
