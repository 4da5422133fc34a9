-- ===== src/Slp/Reply/Probe.antt =====
-- What Probe makes of the answers that a server may send.
use mcsm.Common.{
  ℕ, suc, ◌^◌, ◌<◌, ◌≡◌, refl, ap, ◌∙◌, some, [], ◌∷◌, ◌++◌, append-nil, append_assoc, Bytes, arith,
  pos, negsuc, ok, length, length-append, take, take-append_length, subst,
}
use mcsm.Slp.VarInt.{write_var_int, read_var_int}
use mcsm.Slp.VarInt.RoundTrip.{read-write_var_int}
use mcsm.Slp.Reply.{
  status, panicked, write_string, build_packet, status_text, packet_id, packet_body, read_reply,
}

-- A packet whose announced length is negative makes Probe panic, whatever follows.
pub negative_length :
    (n : ℕ) (rest : Bytes)
    → n < 2 ^ 31
    → (out : Bytes) × (write_var_int (negsuc n) ≡ some out) × (read_reply (out ++ rest) ≡ panicked)
unfolding read_reply
negative_length n rest h =
    let (out, w, l, r) = read-write_var_int (negsuc n) rest h in (out, w, rw r refl)

take_all : (xs : Bytes) → take (length xs) xs ≡ xs
take_all xs = subst (λ ys. take (length xs) ys ≡ xs) (append-nil xs) (take-append_length xs [])

whole_text : (text : Bytes) → status_text (ok (pos (length text), text)) ≡ status text
unfolding status_text
whole_text text = rw (take_all text) (ground arith)

whole_body :
    (body conn : Bytes)
    → packet_body (ok (pos (length body), body ++ conn)) ≡ packet_id (read_var_int body)
unfolding packet_body
whole_body body conn = rw (take-append_length body conn, length-append body conn) (ground arith)

id_zero : (bs : Bytes) → packet_id (read_var_int (0 ∷ bs)) ≡ status_text (read_var_int bs)
unfolding packet_id read_var_int
id_zero bs = refl

read_packet :
    (string out text conn : Bytes)
    → read_var_int string ≡ ok (pos (length text), text)
    → read_var_int (out ++ ((0 ∷ string) ++ conn))
      ≡ ok (pos (suc (length string)), (0 ∷ string) ++ conn)
    → read_reply ((out ++ (0 ∷ string)) ++ conn) ≡ status text
unfolding read_reply
read_packet string out text conn r1 r2 =
    ap (λ b. packet_body (read_var_int b)) (append_assoc out (0 ∷ string) conn)
    ∙ ap packet_body r2
    ∙ whole_body (0 ∷ string) conn
    ∙ id_zero string
    ∙ ap status_text r1
    ∙ whole_text text

write_zero : write_var_int (pos 0) ≡ some (0 ∷ [])
unfolding write_var_int
write_zero = refl

packet_bytes :
    (string out : Bytes)
    → write_var_int (pos (suc (length string))) ≡ some out
    → build_packet 0 string ≡ some (out ++ (0 ∷ string))
unfolding build_packet
packet_bytes string out w = rw (write_zero, w) refl

string_bytes :
    (text out : Bytes)
    → write_var_int (pos (length text)) ≡ some out
    → write_string text ≡ some (out ++ text)
unfolding write_string
string_bytes text out w = rw w refl

-- The answer of a server, a packet with id 0 around a text that is shorter than 2 ^ 30 bytes, gives
-- Probe that text, whatever follows the packet.
pub read_reply-build_packet :
    (text conn : Bytes)
    → length text < 2 ^ 30
    → (string packet : Bytes) × (write_string text ≡ some string)
      × (build_packet 0 string ≡ some packet)
      × (read_reply (packet ++ conn) ≡ status text)
read_reply-build_packet text conn h =
    let (o1, w1, l1, r1) = read-write_var_int (pos (length text)) text (omega arith) in
    let body : Bytes = 0 ∷ (o1 ++ text) in
    let (o2, w2, l2, r2) =
      read-write_var_int (pos (length body)) ((0 ∷ (o1 ++ text)) ++ conn)
        (omega (arith, length-append o1 text, l1)) in
    (
      o1 ++ text,
      o2 ++ body,
      string_bytes text o1 w1,
      packet_bytes (o1 ++ text) o2 w2,
      read_packet (o1 ++ text) o2 text conn r1 r2,
    )
