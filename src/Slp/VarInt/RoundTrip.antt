-- ===== src/Slp/VarInt/RoundTrip.antt =====
-- What the writing loop has written is read back by the reading loop.
use native.Mathlib.Nat.{mod-add-div'}
use mcsm.Common.{
  ℕ, zero, suc, ◌+◌, ◌*◌, ◌/◌, ◌%◌, ◌^◌, ◌<◌, ◌≡◌, refl, ap, ◌∙◌, Bool-cases, true, false, inl, inr,
  some, [], ◌∷◌, ◌++◌, Bytes, ltb, arith, ℤ, int32, uint32, IsInt32, int32-uint32, uint32-lt, ok,
  length, ◌≤◌,
}
use mcsm.Slp.VarInt.{write_loop, write_var_int, read_loop, signed, read_var_int}

-- What `f` bytes have room for.
room : ℕ → ℕ
room zero = 1
room (suc f) = 128 * room f

distribute : (q r unit : ℕ) → r * unit + q * (unit * 128) ≡ (r + q * 128) * unit
distribute q r unit = omega arith

digit_sum : (uv unit : ℕ) → uv % 128 * unit + uv / 128 * (unit * 128) ≡ uv * unit
digit_sum uv unit = distribute (uv / 128) (uv % 128) unit ∙ ap (λ x. x * unit) (mod-add-div' uv 128)

low_bits : (uv : ℕ) → (uv % 128 + 128) % 128 ≡ uv % 128
low_bits uv = omega arith

digit_lt :
    (uv num unit : ℕ)
    → num + uv * unit < 2 ^ 32
    → (uv % 128 + 128) % 128 * unit % 2 ^ 32 ≡ uv % 128 * unit
digit_lt uv num unit h = rw (low_bits uv) (omega (arith, digit_sum uv unit))

next_lt : (uv f : ℕ) → uv < room (suc (suc f)) → uv / 128 < room (suc f)
unfolding room
next_lt uv f h = omega arith

-- The bytes of a number, and that they are read back.
abbrev Written : ℕ → ℕ → Type 0
Written f uv =
    (out : Bytes) × (write_loop f uv ≡ some out)
    × (length out ≤ f)
    × ((num unit : ℕ) (rest : Bytes)
        → num + uv * unit < 2 ^ 32
        → read_loop f num unit (out ++ rest) ≡ ok (num + uv * unit, rest))

small_digit : (uv : ℕ) → ltb uv 128 ≡ true → uv % 128 ≡ uv
small_digit uv t = ground (arith, t)

high_byte : (uv : ℕ) → ltb (uv % 128 + 128) 128 ≡ false
high_byte uv = ground arith

sum_digits : (num uv unit : ℕ) → num + uv % 128 * unit + uv / 128 * (unit * 128) ≡ num + uv * unit
sum_digits num uv unit = omega (arith, digit_sum uv unit)

last_digit :
    (uv num unit : ℕ)
    → ltb uv 128 ≡ true
    → num + uv * unit < 2 ^ 32
    → uv % 128 * unit % 2 ^ 32 ≡ uv * unit
last_digit uv num unit t h = rw (small_digit uv t) (omega arith)

last_byte : (f uv : ℕ) → ltb uv 128 ≡ true → Written (suc f) uv
unfolding write_loop read_loop
last_byte f uv t =
    (uv ∷ [], rw t refl, omega arith, λ num unit rest h. rw (t, last_digit uv num unit t h) refl)

more_bytes : (f uv : ℕ) → ltb uv 128 ≡ false → Written f (uv / 128) → Written (suc f) uv
unfolding write_loop read_loop
more_bytes f uv n (more, w, l, r) = (
  (uv % 128 + 128) ∷ more,
  rw (n, w) refl,
  omega (arith, l),
  λ num unit rest h.
      rw (high_byte uv, digit_lt uv num unit h)
        (r (num + uv % 128 * unit) (unit * 128) rest (rw (sum_digits num uv unit) h)
          ∙ ap (λ x. ok (x, rest)) (sum_digits num uv unit)),
)

write_loop-Written : (f uv : ℕ) → uv < room (suc f) → Written (suc f) uv
unfolding room
write_loop-Written zero uv h = last_byte zero uv (ground arith)
write_loop-Written (suc f) uv h = elim (Bool-cases (ltb uv 128)) [
  | inl t ↦ last_byte (suc f) uv t
  | inr n ↦ more_bytes (suc f) uv n (write_loop-Written f (uv / 128) (next_lt uv f h))
]

room_five : (u : ℕ) → u < 2 ^ 32 → u < room 5
unfolding room
room_five u h = omega arith

first_sum : (u : ℕ) → 0 + u * 1 ≡ u
first_sum u = omega arith

-- An int32 is written in the five bytes that the loop has fuel for, and both readers give it back
-- with what stands behind it.
pub read-write_var_int :
    (v : ℤ) (rest : Bytes)
    → IsInt32 v
    → (out : Bytes) × (write_var_int v ≡ some out)
      × (length out ≤ 5)
      × (read_var_int (out ++ rest) ≡ ok (v, rest))
unfolding write_var_int read_var_int
read-write_var_int v rest h =
    let (out, w, l, r) = write_loop-Written 4 (uint32 v) (room_five (uint32 v) (uint32-lt v h)) in
    (
      out,
      w,
      l,
      ap signed (r 0 1 rest (omega (arith, uint32-lt v h)))
          ∙ ap (λ x. ok (x, rest)) (ap int32 (first_sum (uint32 v)) ∙ int32-uint32 v h),
    )
