-- ===== src/Rcon/Client.antt =====
-- internal/rcon/rcon.go: the client's state and its calls. What the other side does is an argument: for
-- the bytes that a call writes, nothing if the write fails, or else the bytes that arrive before the
-- deadline.
pub mod Sync
use mcsm.Common.{
  ℕ, zero, suc, ◌+◌, ◌%◌, ◌^◌, Bool, true, false, not, ◌&&◌, Option, none, some, List, [], ◌∷◌,
  ◌++◌, Bytes, ltb, ltb_ℤ, if◌then◌else◌, equal, ℤ, pos, negsuc, int32, uint32, Result, ok, err,
  length,
}
use mcsm.Rcon.Packet.{
  RconError, closed, too_large, write_failed, implausible, unexpected_eof, id_mismatch, auth_failed,
  Packet, write_packet, read_packet,
}

-- `unread` are the bytes that have arrived and that no call has read yet.
pub record Client : Type 0 where
  pub id : ℤ
  pub is_closed : Bool
  pub unread : Bytes

abbrev type_login : ℤ
type_login = pos 3

abbrev type_exec_cmd : ℤ
type_exec_cmd = pos 2

abbrev max_payload : ℕ
max_payload = 1413

abbrev positive : ℤ → Bool
positive = ltb_ℤ (pos 0)

-- `c.id.Add(1)` wraps; the new value of the counter is the id that is returned.
unfoldable pub next_id : ℤ → ℤ
next_id id = let id' = int32 ((uint32 id + 1) % 2 ^ 32) in if positive id' then id' else pos 1

-- The comparison of two int32.
same_id : ℤ → ℤ → Bool
same_id a b = not (ltb_ℤ a b) && not (ltb_ℤ b a)

answer : ℤ → Result RconError Packet → Result RconError Bytes
unfolding same_id
answer id (err e) = err e
answer id (ok p) = if same_id p.id id then ok p.payload else err id_mismatch

-- From the write to the answer.
exchange :
    (Result RconError Packet → Result RconError Bytes)
    → ℤ
    → Client
    → Option Bytes
    → Result RconError Bytes × Client
exchange judge id c none =
    (err write_failed, record { id = id; is_closed = c.is_closed; unread = c.unread })
exchange judge id c (some arrived) =
    let (p, rest) = read_packet (c.unread ++ arrived) in
    (judge p, record { id = id; is_closed = c.is_closed; unread = rest })

unfoldable pub cmd : (Bytes → Option Bytes) → Client → Bytes → Result RconError Bytes × Client
unfolding exchange answer next_id
cmd wire c command =
    let id = next_id c.id in
    if c.is_closed
    then (err closed, c)
    else (if ltb max_payload (length command)
        then (err too_large, c)
        else exchange (answer id) id c (wire (write_packet id type_exec_cmd command)))

login : ℤ → Result RconError Packet → Result RconError Bytes
unfolding same_id
login id (err e) = err e
login id (ok p) =
    if same_id p.id (negsuc 0)
    then err auth_failed
    else (if same_id p.id id then ok [] else err id_mismatch)

-- A successful login returns no text.
unfoldable pub authenticate :
    (Bytes → Option Bytes) → Client → Bytes → Result RconError Bytes × Client
unfolding exchange login next_id
authenticate wire c password =
    let id = next_id c.id in exchange (login id) id c (wire (write_packet id type_login password))

close : Client → Client
close c = record { id = c.id; is_closed = true; unread = c.unread }

dialed : Result RconError Bytes × Client → Result RconError Client
dialed (ok text, c) = ok c
dialed (err e, c) = err e

-- A new connection, logged in; it is closed if the login fails.
unfoldable pub dial : (Bytes → Option Bytes) → Bytes → Result RconError Client
unfolding dialed authenticate
dial wire password =
    dialed (authenticate wire (record { id = pos 0; is_closed = false; unread = [] }) password)
