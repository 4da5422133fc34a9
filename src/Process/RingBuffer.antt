-- ===== src/Process/RingBuffer.antt =====
-- internal/process/ringbuf.go. A buffer operation returns the new buffer; the mutex makes each
-- one atomic. Times are numbers.
pub mod Refine
use mcsm.Common.{
  ℕ, zero, suc, ◌+◌, ◌-◌, ◌%◌, Bool, true, false, List, [], ◌∷◌, String, ltb, ◌==◌, not,
  if◌then◌else◌, get_or, set, replicate, ℤ, pos, negsuc,
}

pub record LogLine : Type 0 where
  pub at : ℕ
  pub stream : String
  pub text : String

-- What `make([]LogLine, n)` fills the slice with.
abbrev pub zero_line : LogLine
zero_line = record { at = 0; stream = ""; text = "" }

-- `lines` is the field `data`.
pub record RingBuffer : Type 0 where
  pub lines : List LogLine
  pub head : ℕ
  pub full : Bool
  pub cap : ℕ

abbrev make : ℕ → RingBuffer
make c = record { lines = replicate c zero_line; head = 0; full = false; cap = c }

unfoldable pub new_ring_buffer : ℤ → RingBuffer
new_ring_buffer (pos c) = if ltb c 1 then make 1 else make c
new_ring_buffer (negsuc _) = make 1

unfoldable pub push : RingBuffer → LogLine → RingBuffer
push r l =
    let head' = (r.head + 1) % r.cap in
    record r {
      lines = set r.lines r.head l;
      head = head';
      full = if head' == 0 then true else r.full;
    }

-- The loop `out[i] = r.data[(start+i)%r.cap]`, with the rounds left and `i`.
read_from : RingBuffer → ℕ → ℕ → ℕ → List LogLine
read_from r start zero i = []
read_from r start (suc k) i =
    get_or r.lines ((start + i) % r.cap) zero_line ∷ read_from r start k (i + 1)

-- The number of lines that the buffer holds.
abbrev have : RingBuffer → ℕ
have r = if not r.full then r.head else r.cap

tail_of : RingBuffer → ℕ → List LogLine
unfolding read_from
tail_of r n = if n == 0 then [] else read_from r ((r.head + r.cap - n) % r.cap) n 0

unfoldable pub tail : RingBuffer → ℤ → List LogLine
unfolding tail_of
tail r (negsuc _) = []
tail r (pos n) = tail_of r (if ltb (have r) n then have r else n)

-- Lines pushed one after another, as `pump` does.
unfoldable pub push_all : RingBuffer → List LogLine → RingBuffer
push_all r [] = r
push_all r (l ∷ ls) = push_all (push r l) ls
