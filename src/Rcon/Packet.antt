-- ===== src/Rcon/Packet.antt =====
-- internal/rcon/rcon.go: the packets of the protocol. A connection is the list of the bytes that can
-- be read from it before it ends or the deadline passes.
pub mod RoundTrip
use mcsm.Common.{
  ℕ, ◌+◌, ◌*◌, ◌/◌, ◌%◌, ◌^◌, Bool, ◌||◌, List, [], ◌∷◌, ◌++◌, Bytes, ltb, ◌==◌, if◌then◌else◌, ℤ,
  int32, uint32, Result, ok, err, length, take, drop,
}

pub data RconError : Type 0 where
  closed too_large write_failed implausible unexpected_eof id_mismatch auth_failed : RconError

-- binary.LittleEndian
put_uint32 : ℕ → Bytes
put_uint32 u = u % 256 ∷ u / 256 % 256 ∷ u / 65536 % 256 ∷ u / 16777216 % 256 ∷ []

get_uint32 : ℕ → ℕ → ℕ → ℕ → ℕ
get_uint32 a b c d = a + b * 256 + c * 65536 + d * 16777216

-- `buf[4:]`
abbrev body_bytes : ℤ → ℤ → Bytes → Bytes
body_bytes id packet_type payload =
    put_uint32 (uint32 id) ++ (put_uint32 (uint32 packet_type) ++ (payload ++ 0 ∷ 0 ∷ []))

-- The bytes of the packet. The length is at most 2 ^ 31 - 15, or the buffer could not be made.
unfoldable pub write_packet : ℤ → ℤ → Bytes → Bytes
unfolding put_uint32
write_packet id packet_type payload =
    put_uint32 ((length payload + 10) % 2 ^ 32) ++ body_bytes id packet_type payload

pub record Packet : Type 0 where
  pub id : ℤ
  pub ptype : ℤ
  pub payload : Bytes

-- The bytes before the first zero.
until_zero : Bytes → Bytes
until_zero [] = []
until_zero (b ∷ bs) = let rest = until_zero bs in if b == 0 then [] else b ∷ rest

-- A body has at least the ten bytes that its length is checked for, so that the second clause is not
-- reached.
body_packet : Bytes → Result RconError Packet
unfolding get_uint32 until_zero
body_packet (a ∷ b ∷ c ∷ d ∷ e ∷ f ∷ g ∷ h ∷ rest) = ok (record {
  id = int32 (get_uint32 a b c d);
  ptype = int32 (get_uint32 e f g h);
  payload = until_zero rest;
})
body_packet _ = err unexpected_eof

sized : ℕ → Bytes → Result RconError Packet × Bytes
unfolding body_packet
sized n rest =
    if ltb n 10 || ltb 4096 n
    then (err implausible, rest)
    else (if ltb (length rest) n
        then (err unexpected_eof, [])
        else (body_packet (take n rest), drop n rest))

-- The packet, and what is left to read.
unfoldable pub read_packet : Bytes → Result RconError Packet × Bytes
unfolding sized get_uint32
read_packet (a ∷ b ∷ c ∷ d ∷ rest) = sized (get_uint32 a b c d) rest
read_packet _ = (err unexpected_eof, [])
