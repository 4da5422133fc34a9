-- ===== src/Slp/Reply.antt =====
-- internal/slp/slp.go: the packets, and how Probe takes the status text out of the server's answer.
-- The connection is the list of the bytes that arrive before it ends.
pub mod Probe
use mathlib.Core.Option
use mcsm.Common.{
  ℕ, zero, suc, ◌/◌, ◌%◌, Bool, true, false, Option, none, some, List, [], ◌∷◌, ◌++◌, Bytes, ltb,
  ◌==◌, if◌then◌else◌, ℤ, pos, negsuc, Result, ok, err, length, take,
}
use mcsm.Slp.VarInt.{ReadError, write_var_int, read_var_int}

-- `append(writeVarInt(n), b...)`
with_var_int : ℤ → Bytes → Option Bytes
with_var_int n bs = Option.map (λ (out : Bytes). out ++ bs) (write_var_int n)

unfoldable pub write_string : Bytes → Option Bytes
unfolding with_var_int
write_string s = with_var_int (pos (length s)) s

with_length : Option Bytes → Option Bytes
unfolding with_var_int
with_length none = none
with_length (some body) = with_var_int (pos (length body)) body

-- `parts` is the list of the parts, joined.
unfoldable pub build_packet : ℕ → Bytes → Option Bytes
unfolding with_length
build_packet id parts = with_length (with_var_int (pos id) parts)

-- The status text, an error, or a panic of the Go runtime.
pub data Reply : Type 0 where
  status : Bytes → Reply
  failed panicked : Reply

is_zero : ℤ → Bool
is_zero (pos n) = n == 0
is_zero (negsuc n) = false

-- A negative length passes the test `int(jsonLen) > len(r.buf)-r.pos`, and the slice has its end
-- before its start.
status_text : Result ReadError (ℤ × Bytes) → Reply
status_text (err e) = failed
status_text (ok (pos n, bs)) = if ltb (length bs) n then failed else status (take n bs)
status_text (ok (negsuc n, bs)) = panicked

packet_id : Result ReadError (ℤ × Bytes) → Reply
unfolding is_zero status_text
packet_id (err e) = failed
packet_id (ok (pid, bs)) = if is_zero pid then status_text (read_var_int bs) else failed

-- `make([]byte, pktLen)` panics at a negative length.
packet_body : Result ReadError (ℤ × Bytes) → Reply
unfolding packet_id
packet_body (err e) = failed
packet_body (ok (negsuc n, conn)) = panicked
packet_body (ok (pos n, conn)) =
    if ltb (length conn) n then failed else packet_id (read_var_int (take n conn))

unfoldable pub read_reply : Bytes → Reply
unfolding packet_body
read_reply conn = packet_body (read_var_int conn)
