-- ===== src/Slp/Tests.antt =====
-- The theorems of Slp at concrete inputs, and tests.
use mcsm.Common.{◌≡◌, refl, some, [], ◌∷◌, ◌++◌, Bytes, codes, arith, pos, negsuc}
use mcsm.Slp.VarInt.{write_var_int}
use mcsm.Slp.Reply.{status, panicked, write_string, build_packet, read_reply}
use mcsm.Slp.Reply.Probe.{negative_length, read_reply-build_packet}

-- The bytes of -1 and of 300.
minus_one : write_var_int (negsuc 0) ≡ some (255 ∷ 255 ∷ 255 ∷ 255 ∷ 15 ∷ [])
unfolding write_var_int
minus_one = refl

three_hundred : write_var_int (pos 300) ≡ some (172 ∷ 2 ∷ [])
unfolding write_var_int
three_hundred = refl

negative_test :
    (out : Bytes) × (write_var_int (negsuc 4) ≡ some out) × (read_reply (out ++ 0 ∷ []) ≡ panicked)
negative_test = negative_length 4 (0 ∷ []) (omega arith)

read_reply-build_packet_example :
    (string packet : Bytes) × (write_string (codes "{}") ≡ some string)
    × (build_packet 0 string ≡ some packet)
    × (read_reply (packet ++ 9 ∷ []) ≡ status (codes "{}"))
read_reply-build_packet_example = read_reply-build_packet (codes "{}") (9 ∷ []) (omega arith)
