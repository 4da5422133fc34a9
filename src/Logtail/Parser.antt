-- ===== src/Logtail/Parser.antt =====
-- internal/logtail/parser.go: a log line as an entry. The two regular expressions are read from left
-- to right, since each of their parts ends where the next one starts. A time is its nanoseconds on a
-- clock that counts 24 hours for each day.
pub mod RoundTrip
use mathlib.Core.Option
use mcsm.Common.{
  ℕ, zero, suc, ◌+◌, ◌-◌, ◌*◌, ◌/◌, Bool, true, false, not, ◌&&◌, ◌||◌, Option, none, some, List,
  [], ◌∷◌, ◌++◌, Bytes, ltb, leb, ◌==◌, if◌then◌else◌, codes,
}

pub record LogEntry : Type 0 where
  pub ts : ℕ
  pub thread : Bytes
  pub level : Bytes
  pub message : Bytes
  pub raw : Bytes

infixl 5 ◌>>=◌
abbrev ◌>>=◌ : {A B : Type 0} → Option A → (A → Option B) → Option B
none >>= k = none
some a >>= k = k a

abbrev is_digit : ℕ → Bool
is_digit c = leb b'0' c && leb c b'9'

abbrev is_upper : ℕ → Bool
is_upper c = leb b'A' c && leb c b'Z'

abbrev pub is_space : ℕ → Bool
is_space c = c == b' ' || c == 9 || c == 10 || c == 12 || c == 13

-- The longest start of bytes that pass the test, and the rest.
unfoldable pub span : (ℕ → Bool) → Bytes → Bytes × Bytes
span p [] = ([], [])
span p (c ∷ cs) = let (more, rest) = span p cs in if p c then (c ∷ more, rest) else ([], c ∷ cs)

-- One byte or more.
span_some : (ℕ → Bool) → Bytes → Option (Bytes × Bytes)
unfolding span
span_some p [] = none
span_some p (c ∷ cs) = if p c then some (span p (c ∷ cs)) else none

expect : ℕ → Bytes → Option Bytes
expect c [] = none
expect c (d ∷ ds) = if c == d then some ds else none

unfoldable pub skip : Bytes → Bytes
unfolding span
skip bs = (span is_space bs).1

-- `(.*)$`: no line feed.
unfoldable pub rest_of_line : Bytes → Option Bytes
rest_of_line [] = some []
rest_of_line (c ∷ cs) =
    let rest = rest_of_line cs in if c == 10 then none else Option.map (◌∷◌ c) rest

-- The six digits of `\d{2}:\d{2}:\d{2}`, as hours, minutes and seconds.
pub record Clock : Type 0 where
  pub hour : ℕ
  pub minute : ℕ
  pub second : ℕ

abbrev two_digits : ℕ → ℕ → ℕ
two_digits a b = (a - b'0') * 10 + (b - b'0')

clock : Bytes → Option (Clock × Bytes)
clock (a ∷ b ∷ c ∷ d ∷ e ∷ f ∷ g ∷ h ∷ rest) =
    if is_digit a
      && is_digit b
      && c == b':'
      && is_digit d
      && is_digit e
      && f == b':'
      && is_digit g
      && is_digit h
    then some
        (record { hour = two_digits a b; minute = two_digits d e; second = two_digits g h }, rest)
    else none
clock _ = none

-- time.ParseInLocation("15:04:05", hms)
of_day : Clock → Option ℕ
of_day c =
    if ltb c.hour 24 && ltb c.minute 60 && ltb c.second 60
    then some ((c.hour * 3600 + c.minute * 60 + c.second) * 1_000_000_000)
    else none

abbrev pub hour_ns : ℕ
hour_ns = 3_600_000_000_000

abbrev pub day_ns : ℕ
day_ns = 86_400_000_000_000

merged : ℕ → Option ℕ → ℕ
merged captured none = captured
merged captured (some t) =
    let m = captured / day_ns * day_ns + t in if ltb (captured + hour_ns) m then m - day_ns else m

unfoldable pub merge_time : ℕ → Clock → ℕ
unfolding merged of_day
merge_time captured c = merged captured (of_day c)

-- mcLineRe
mc_line : ℕ → Bytes → Option LogEntry
unfolding expect clock skip span_some rest_of_line merge_time
mc_line captured line = do
  r0 ← expect b'[' line
  (c, r1) ← clock r0
  r2 ← expect b']' r1
  r3 ← expect b'[' (skip r2)
  (thread, r4) ← span_some (λ x. not (x == b'/' || x == b']')) r3
  r5 ← expect b'/' r4
  (level, r6) ← span_some is_upper r5
  r7 ← expect b']' r6
  r8 ← expect b':' r7
  message ← rest_of_line (skip r8)
  some (record {
    ts = merge_time captured c;
    thread = thread;
    level = level;
    message = message;
    raw = line;
  })

-- shortLineRe
short_line : ℕ → Bytes → Option LogEntry
unfolding expect clock skip span_some rest_of_line merge_time
short_line captured line = do
  r0 ← expect b'[' line
  (c, r1) ← clock r0
  (blanks, r2) ← span_some is_space r1
  (level, r3) ← span_some is_upper r2
  r4 ← expect b']' r3
  r5 ← expect b':' r4
  message ← rest_of_line (skip r5)
  some (record {
    ts = merge_time captured c;
    thread = [];
    level = level;
    message = message;
    raw = line;
  })

unless_last : (ℕ → Bool) → ℕ → Bytes → Bytes
unless_last p c [] = if p c then [] else c ∷ []
unless_last p c (d ∷ ds) = c ∷ d ∷ ds

-- strings.TrimRight with the bytes that pass the test.
unfoldable pub trim_end : (ℕ → Bool) → Bytes → Bytes
unfolding unless_last
trim_end p [] = []
trim_end p (c ∷ cs) = unless_last p c (trim_end p cs)

first_of : Option LogEntry → Option LogEntry → LogEntry → LogEntry
first_of (some e) o d = e
first_of none (some e) d = e
first_of none none d = d

unfoldable pub parse : Bytes → ℕ → LogEntry
unfolding mc_line short_line trim_end first_of
parse text captured =
    let line = trim_end (λ c. c == 13) text in
    first_of (mc_line captured line) (short_line captured line)
      (record { ts = captured; thread = []; level = []; message = line; raw = line })
