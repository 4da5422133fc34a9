-- ===== src/Rcon/Packet/RoundTrip.antt =====
-- What a packet is read back as.
use mcsm.Common.{
  ℕ, ◌+◌, ◌/◌, ◌%◌, ◌^◌, ◌<◌, ◌≤◌, ◌≡◌, refl, sym, ap, ◌∙◌, false, ◌||◌, [], ◌∷◌, ◌++◌, Bytes, ltb,
  ◌==◌, arith, ℤ, uint32, IsInt32, int32-uint32, uint32-lt, ok, length, All, length-append,
  take-append_length, drop-append_length,
}
use mcsm.Rcon.Packet.{
  put_uint32, get_uint32, body_bytes, write_packet, until_zero, body_packet, sized, read_packet,
}

get-put_uint32 :
    (u : ℕ)
    → u < 2 ^ 32
    → get_uint32 (u % 256) (u / 256 % 256) (u / 65536 % 256) (u / 16777216 % 256) ≡ u
unfolding get_uint32
get-put_uint32 u h = omega arith

-- A text that the protocol can carry in one packet.
abbrev pub IsPayload : Bytes → Type 0
IsPayload p = All (λ (b : ℕ). (b == 0) ≡ false) p × (length p ≤ 4086)

until_zero-payload :
    (p rest : Bytes) → All (λ (b : ℕ). (b == 0) ≡ false) p → until_zero (p ++ 0 ∷ rest) ≡ p
unfolding until_zero
until_zero-payload [] rest h = refl
until_zero-payload (b ∷ p) rest h = rw h.0 (ap (◌∷◌ b) (until_zero-payload p rest h.1))

body_packet-fields :
    (id packet_type : ℤ) (payload : Bytes)
    → IsInt32 id
    → IsInt32 packet_type
    → All (λ (b : ℕ). (b == 0) ≡ false) payload
    → body_packet (body_bytes id packet_type payload)
      ≡ ok (record { id = id; ptype = packet_type; payload = payload })
unfolding body_packet put_uint32
body_packet-fields id packet_type payload hi ht hp =
    rw
      (
        get-put_uint32 (uint32 id) (uint32-lt id hi),
        get-put_uint32 (uint32 packet_type) (uint32-lt packet_type ht),
        int32-uint32 id hi,
        int32-uint32 packet_type ht,
        until_zero-payload payload (0 ∷ []) hp,
      )
      refl

sized_body :
    (n : ℕ) (body rest : Bytes)
    → n ≡ length body
    → ltb n 10 || ltb 4096 n ≡ false
    → sized n (body ++ rest) ≡ (body_packet body, rest)
unfolding sized
sized_body n body rest e h =
    rw (h, e, length-append body rest, take-append_length body rest, drop-append_length body rest)
      (ground arith)

read_packet-sized :
    (n : ℕ) (body rest : Bytes)
    → n < 2 ^ 32
    → read_packet ((put_uint32 n ++ body) ++ rest) ≡ sized n (body ++ rest)
unfolding read_packet put_uint32
read_packet-sized n body rest h = ap (λ m. sized m (body ++ rest)) (get-put_uint32 n h)

body_length :
    (id packet_type : ℤ) (payload : Bytes)
    → length (body_bytes id packet_type payload) ≡ length payload + 10
unfolding put_uint32
body_length id packet_type payload = omega (arith, length-append payload (0 ∷ 0 ∷ []))

length_fits : (n : ℕ) → n ≤ 4086 → (n + 10) % 2 ^ 32 ≡ n + 10
length_fits n h = omega arith

-- A packet with a text of at most 4086 bytes, none of them zero, is read back, and what follows it
-- is left to read.
pub read-write_packet :
    (id packet_type : ℤ) (payload rest : Bytes)
    → IsInt32 id
    → IsInt32 packet_type
    → IsPayload payload
    → read_packet (write_packet id packet_type payload ++ rest)
      ≡ (ok (record { id = id; ptype = packet_type; payload = payload }), rest)
unfolding write_packet
read-write_packet id packet_type payload rest hi ht (hp, hl) =
    let n : ℕ = (length payload + 10) % 2 ^ 32 in
    read_packet-sized n (body_bytes id packet_type payload) rest
      (omega (arith, length_fits (length payload) hl))
    ∙ sized_body n (body_bytes id packet_type payload) rest
        (length_fits (length payload) hl ∙ sym (body_length id packet_type payload))
        (rw (length_fits (length payload) hl) (ground arith))
    ∙ ap (λ b. (b, rest)) (body_packet-fields id packet_type payload hi ht hp)
