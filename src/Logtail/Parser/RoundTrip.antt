-- ===== src/Logtail/Parser/RoundTrip.antt =====
-- What is read of a line that the server wrote.

use mcsm.Common.{
  ℕ, ◌+◌, ◌*◌, ◌<◌, ◌≡◌, refl, Bool, true, false, not, ◌||◌, some, [], ◌∷◌, ◌++◌, Bytes, ◌==◌, All,
}
use mcsm.Logtail.Parser.{
  LogEntry, is_digit, span, skip, rest_of_line, Clock, two_digits, merge_time,
}

-- The line that a server writes for a record, with the digits of its time.
pub record Stamp : Type 0 where
  pub h1 : ℕ
  pub h2 : ℕ
  pub m1 : ℕ
  pub m2 : ℕ
  pub s1 : ℕ
  pub s2 : ℕ

abbrev pub IsStamp : Stamp → Type 0
IsStamp t =
    (is_digit t.h1 ≡ true)
    × (is_digit t.h2 ≡ true)
    × (is_digit t.m1 ≡ true)
    × (is_digit t.m2 ≡ true)
    × (is_digit t.s1 ≡ true)
    × (is_digit t.s2 ≡ true)

abbrev pub clock_of : Stamp → Clock
clock_of t = record {
  hour = two_digits t.h1 t.h2;
  minute = two_digits t.m1 t.m2;
  second = two_digits t.s1 t.s2;
}

-- The time of the day.
abbrev pub IsTime : Clock → Type 0
IsTime c = (c.hour < 24) × (c.minute < 60) × (c.second < 60)

abbrev pub nanoseconds : Clock → ℕ
nanoseconds c = (c.hour * 3600 + c.minute * 60 + c.second) * 1_000_000_000

abbrev stamped : Stamp → Bytes → Bytes
stamped t rest = t.h1 ∷ t.h2 ∷ b':' ∷ t.m1 ∷ t.m2 ∷ b':' ∷ t.s1 ∷ t.s2 ∷ rest

abbrev after_thread : Bytes → Bytes → Bytes
after_thread level message = b'/' ∷ (level ++ (b']' ∷ b':' ∷ b' ' ∷ message))

abbrev pub line_of : Stamp → Bytes → Bytes → Bytes → Bytes
line_of t thread level message =
    b'[' ∷ stamped t (b']' ∷ b' ' ∷ b'[' ∷ (thread ++ after_thread level message))

abbrev pub is_thread_byte : ℕ → Bool
is_thread_byte x = not (x == b'/' || x == b']')

abbrev pub IsFilled : (ℕ → Bool) → Bytes → Type 0
IsFilled p [] = ⊥
IsFilled p (c ∷ cs) = All (λ (x : ℕ). p x ≡ true) (c ∷ cs)

pub span-end :
    (p : ℕ → Bool) (xs : Bytes) (y : ℕ) (ys : Bytes)
    → All (λ (x : ℕ). p x ≡ true) xs
    → p y ≡ false
    → span p (xs ++ (y ∷ ys)) ≡ (xs, y ∷ ys)
unfolding span
span-end p [] y ys h k = rw k refl
span-end p (x ∷ xs) y ys h k = rw (h.0, span-end p xs y ys h.1 k) refl

pub rest_of_line-All : (m : Bytes) → All (λ (c : ℕ). (c == 10) ≡ false) m → rest_of_line m ≡ some m
unfolding rest_of_line
rest_of_line-All [] h = refl
rest_of_line-All (c ∷ m) h = rw (h.0, rest_of_line-All m h.1) refl

skip-space : (m : Bytes) → skip (b' ' ∷ m) ≡ skip m
unfolding skip
skip-space m = refl

module _ (captured : ℕ) (t : Stamp) (thread level message : Bytes) where
  entry_of : LogEntry
  entry_of = record {
    ts = merge_time captured (clock_of t);
    thread = thread;
    level = level;
    message = message;
    raw = line_of t thread level message;
  }
