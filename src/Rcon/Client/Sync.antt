-- ===== src/Rcon/Client/Sync.antt =====
-- Ids, and when a client and its server stay in step.
use mcsm.Common.{
  ℕ, suc, ◌^◌, ◌<◌, ◌≤◌, ◌≡◌, refl, sym, ap, ◌∙◌, true, false, Option, some, List, [], ◌∷◌, ◌++◌,
  map, append-nil, Bytes, ltb, arith, dec_lt, subst, All, ℤ, pos, negsuc, IsInt32, Result, ok, err,
  length,
}
use mcsm.Rcon.Packet.{RconError, id_mismatch, Packet, write_packet, read_packet}
use mcsm.Rcon.Packet.RoundTrip.{IsPayload, read-write_packet}
use mcsm.Rcon.Client.{Client, next_id, same_id, answer, cmd}

next_id-pos : (n : ℕ) → suc n < 2 ^ 31 → next_id (pos n) ≡ pos (suc n)
unfolding next_id
next_id-pos n h = ground arith

next_id-last : (n : ℕ) → n < 2 ^ 31 → 2 ^ 31 ≤ suc n → next_id (pos n) ≡ pos 1
unfolding next_id
next_id-last n h l = ground arith

next_id-negsuc : (n : ℕ) → n < 2 ^ 31 → next_id (negsuc n) ≡ pos 1
unfolding next_id
next_id-negsuc n h = ground arith

-- The id that follows is positive, fits an int32, and is not the id before it.
next_id_lem :
    (id : ℤ)
    → IsInt32 id
    → (n : ℕ) × (next_id id ≡ pos (suc n)) × (suc n < 2 ^ 31) × (same_id id (next_id id) ≡ false)
unfolding same_id
next_id_lem (pos n) h = elim (dec_lt (suc n) (2 ^ 31)) [
  | yes l ↦ (n, next_id-pos n l, l, rw (next_id-pos n l) (ground arith))
  | no g ↦ let e = next_id-last n h (omega arith) in (0, e, omega arith, rw e (ground arith))
]
next_id_lem (negsuc n) h =
    (0, next_id-negsuc n h, omega arith, rw (next_id-negsuc n h) (ground arith))

next_id-IsInt32 : (id : ℤ) → IsInt32 id → IsInt32 (next_id id)
next_id-IsInt32 id h = let (n, e, l, d) = next_id_lem id h in subst IsInt32 (sym e) l

same_id_refl : (id : ℤ) → same_id id id ≡ true
unfolding same_id
same_id_refl id = ground arith

-- What the server sends for the command with this id.
abbrev pub response : ℤ → Bytes → Bytes
response id text = write_packet id (pos 0) text

-- A client that is not closed.
abbrev pub open_client : ℤ → Bytes → Client
open_client id unread = record { id = id; is_closed = false; unread = unread }

replied : (Bytes → Bytes) → Result RconError Packet → Option Bytes
replied reply (ok p) = some (response p.id (reply p.payload))
replied reply (err e) = some []

-- A server that answers each packet under the packet's id.
pub server : (Bytes → Bytes) → Bytes → Option Bytes
unfolding replied
server reply sent = replied reply (read_packet sent).0

-- A command that Cmd takes, with a reply that a packet can carry.
abbrev pub IsExchange : (Bytes → Bytes) → Bytes → Type 0
IsExchange reply command = (length command ≤ 1413) × IsPayload command × IsPayload (reply command)

-- The results of commands that are each sent after the one before has returned.
pub cmds : (Bytes → Option Bytes) → Client → List Bytes → List (Result RconError Bytes)
cmds wire c [] = []
cmds wire c (command ∷ commands) = let (r, c') = cmd wire c command in r ∷ cmds wire c' commands

module _ (reply : Bytes → Bytes) where
  server-write_packet :
      (id : ℤ) (command : Bytes)
      → IsInt32 id
      → IsExchange reply command
      → server reply (write_packet id (pos 2) command) ≡ some (response id (reply command))
  unfolding server
  server-write_packet id command h (hl, hc, hr) =
      ap (λ o. replied reply (read_packet o).0) (sym (append-nil (write_packet id (pos 2) command)))
      ∙ ap (λ o. replied reply o.0) (read-write_packet id (pos 2) command [] h (omega arith) hc)

  cmd-read_packet :
      (id : ℤ) (unread command rest : Bytes) (p : Packet)
      → IsInt32 id
      → IsExchange reply command
      → read_packet (unread ++ response (next_id id) (reply command)) ≡ (ok p, rest)
      → cmd (server reply) (open_client id unread) command
        ≡ (answer (next_id id) (ok p), open_client (next_id id) rest)
  unfolding cmd
  cmd-read_packet id unread command rest p h hx hr =
      let small : ltb 1413 (length command) ≡ false = ground (arith, hx.0) in
      rw (small, server-write_packet (next_id id) command (next_id-IsInt32 id h) hx, hr) refl

  own_response :
      (id : ℤ) (command : Bytes)
      → IsInt32 id
      → IsExchange reply command
      → cmd (server reply) (open_client id []) command
        ≡ (ok (reply command), open_client (next_id id) [])
  unfolding answer
  own_response id command h hx =
      cmd-read_packet id [] command [] _ h hx (
        ap read_packet (sym (append-nil (response (next_id id) (reply command))))
        ∙ read-write_packet (next_id id) (pos 0) (reply command) [] (next_id-IsInt32 id h)
            (omega arith) hx.2)
      ∙ rw (same_id_refl (next_id id)) refl

  late_response :
      (id : ℤ) (command late : Bytes)
      → IsInt32 id
      → IsPayload late
      → IsExchange reply command
      → cmd (server reply) (open_client id (response id late)) command
        ≡ (err id_mismatch, open_client (next_id id) (response (next_id id) (reply command)))
  unfolding answer
  late_response id command late h he hx =
      let (n, e, l, d) = next_id_lem id h in
      cmd-read_packet id (response id late) command _ _ h hx (
        read-write_packet id (pos 0) late (response (next_id id) (reply command)) h (omega arith)
          he)
      ∙ rw d refl

  -- With a server that answers each packet under its id, and no response left to read, each command
  -- of at most 1413 bytes gets the reply to it, for commands and replies that a packet can carry.
  pub cmds-in_step :
      (commands : List Bytes) (id : ℤ)
      → IsInt32 id
      → All (IsExchange reply) commands
      → cmds (server reply) (open_client id []) commands
        ≡ map (λ (x : Bytes). ok (reply x)) commands
  unfolding cmds
  cmds-in_step [] id h hs = refl
  cmds-in_step (x ∷ xs) id h hs =
      ap (λ o. o.0 ∷ cmds (server reply) o.1 xs) (own_response id x h hs.0)
      ∙ ap (◌∷◌ (ok (reply x))) (cmds-in_step xs (next_id id) (next_id-IsInt32 id h) hs.1)

  -- With the same server, once the response of the last command is still to be read (its call gave
  -- up before it came), every later command fails with an id mismatch: it reads the response of the
  -- command before it.
  pub cmds-behind :
      (commands : List Bytes) (id : ℤ) (late : Bytes)
      → IsInt32 id
      → IsPayload late
      → All (IsExchange reply) commands
      → cmds (server reply) (open_client id (response id late)) commands
        ≡ map (λ (x : Bytes). err id_mismatch) commands
  unfolding cmds
  cmds-behind [] id late h hl hs = refl
  cmds-behind (x ∷ xs) id late h hl hs =
      ap (λ o. o.0 ∷ cmds (server reply) o.1 xs) (late_response id x late h hl hs.0)
      ∙ ap (◌∷◌ (err id_mismatch))
          (cmds-behind xs (next_id id) (reply x) (next_id-IsInt32 id h) hs.0.2 hs.1)
