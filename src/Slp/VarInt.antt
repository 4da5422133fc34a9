-- ===== src/Slp/VarInt.antt =====
-- internal/slp/slp.go: the variable-length integers and the packets. A `uint32` is a number below
-- 2 ^ 32. The writing loop has fuel for the five bytes that 32 bits need.
pub mod RoundTrip
use mcsm.Common.{
  ℕ, zero, suc, ◌+◌, ◌*◌, ◌/◌, ◌%◌, ◌^◌, Option, none, some, List, [], ◌∷◌, ◌++◌, Bytes, ltb,
  if◌then◌else◌, ℤ, int32, uint32, Result, ok, err,
}
use mathlib.Core.Option

pub data ReadError : Type 0 where
  unexpected_eof too_long : ReadError

-- `uv&^0x7F == 0` is `uv < 128`; `byte(uv&0x7F|0x80)` is `uv % 128 + 128`.
write_loop : ℕ → ℕ → Option Bytes
write_loop zero uv = none
write_loop (suc f) uv =
    let more = Option.map (◌∷◌ (uv % 128 + 128)) (write_loop f (uv / 128)) in
    if ltb uv 128 then some (uv ∷ []) else more

unfoldable pub write_var_int : ℤ → Option Bytes
unfolding write_loop
write_var_int v = write_loop 5 (uint32 v)

-- The loop of `readVarInt` and of `byteReader.varInt`, with the rounds left and `unit`, which is
-- `1 << shift`. `num` has no bit at `shift` or above it, so `|=` adds.
read_loop : ℕ → ℕ → ℕ → Bytes → Result ReadError (ℕ × Bytes)
read_loop zero num unit bs = err too_long
read_loop (suc k) num unit [] = err unexpected_eof
read_loop (suc k) num unit (b ∷ bs) =
    let num' = num + b % 128 * unit % 2 ^ 32 in
    let more = read_loop k num' (unit * 128) bs in if ltb b 128 then ok (num', bs) else more

signed : Result ReadError (ℕ × Bytes) → Result ReadError (ℤ × Bytes)
signed (ok (u, bs)) = ok (int32 u, bs)
signed (err e) = err e

unfoldable pub read_var_int : Bytes → Result ReadError (ℤ × Bytes)
unfolding read_loop signed
read_var_int bs = signed (read_loop 5 0 1 bs)
