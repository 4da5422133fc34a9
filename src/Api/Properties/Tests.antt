-- ===== src/Api/Properties/Tests.antt =====
-- The theorems of Api.Properties at concrete inputs, and tests.
use mcsm.Common.{◌≡◌, refl, false, some, [], ◌∷◌, Bytes, codes, equal, feed, ok, arith}
use mcsm.ServerId.Properties.{trim_left, written, parse_line, trim_right}
use mcsm.ServerId.Properties.Text.{scan}
use mcsm.Slot.Tests.{up}
use mcsm.Slot.Record.{new}
use mcsm.Api.Properties.{json_text, stringify, is_reserved, needs_restart, PatchReply, handle_patch}
use mcsm.Api.Properties.Body.{Body, read_file}
use mcsm.Api.Properties.Reserved.{handle_patch-smuggling}

abbrev file : Bytes
file = feed (codes "motd=old" ∷ codes "rcon.password=secret" ∷ [])

abbrev body : Body
body = (codes "motd", json_text (codes "hi")) ∷ (codes "rcon.password", json_text (codes "x")) ∷ []

patched_file : handle_patch false (some body) (some up) (some file) ≡ (
  some (feed (codes "motd=hi" ∷ codes "rcon.password=secret" ∷ [])),
  ok (record {
    applied = codes "motd" ∷ [];
    requires_restart = codes "motd" ∷ [];
    rejected = codes "rcon.password" ∷ [];
  }),
)
unfolding handle_patch new is_reserved needs_restart equal parse_line trim_left trim_right stringify
patched_file = refl

-- The password is set under the name of another key.
abbrev spare : Bytes
spare = codes "a"

handle_patch-smuggling_example :
    let (after, r) =
      handle_patch false
        (some ((spare, json_text (codes "1\nrcon.password=x")) ∷ []))
        (some up)
        (some file) in
    (read_file after (codes "rcon.password") ≡ some (codes "x"))
    × (reply : PatchReply) × (r ≡ ok reply)
    × (reply.rejected ≡ [])
unfolding feed trim_left written scan is_reserved equal parse_line trim_right new
handle_patch-smuggling_example =
    handle_patch-smuggling spare (codes "1") (codes "rcon.password") (codes "x") file up refl refl
      refl (ground arith) refl (ground arith) (ground arith)
