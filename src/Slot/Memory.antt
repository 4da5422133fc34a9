-- ===== src/Slot/Memory.antt =====
-- internal/slot/slot.go: `parseXmxMB` and `checkAccepts`. An argument of the JVM is its bytes;
-- `int` has 64 bits.
use mcsm.Common.{
  ℕ, suc, ◌+◌, ◌-◌, ◌*◌, ◌/◌, ◌%◌, ◌^◌, Bool, true, false, not, ◌&&◌, ◌||◌, Option, none, some,
  List, [], ◌∷◌, Bytes, String, str_eq, ltb, leb, ◌==◌, ℤ, pos, negsuc, ltb_ℤ, minus, if◌then◌else◌,
}
use mcsm.Slot.Record.{Server, SlotConfig}

abbrev is_digit : ℕ → Bool
is_digit c = leb b'0' c && leb c b'9'

-- The number that the digits stand for after `acc`; none at any other byte.
digits_from : ℕ → Bytes → Option ℕ
digits_from acc [] = some acc
digits_from acc (c ∷ cs) =
    let rest = digits_from (acc * 10 + (c - b'0')) cs in if is_digit c then rest else none

-- At least one digit.
unsigned : Bytes → Option ℕ
unfolding digits_from
unsigned [] = none
unsigned (c ∷ cs) = digits_from 0 (c ∷ cs)

positive : Option ℕ → Option ℤ
positive none = none
positive (some n) = if ltb n (2 ^ 63) then some (pos n) else none

negative : Option ℕ → Option ℤ
negative none = none
negative (some n) = if leb n (2 ^ 63) then some (minus n) else none

-- strconv.Atoi: an optional sign, digits, and a value in the range of `int`.
atoi : Bytes → Option ℤ
unfolding unsigned positive negative
atoi [] = none
atoi (c ∷ cs) =
    if c == b'-'
    then negative (unsigned cs)
    else if c == b'+'
    then positive (unsigned cs)
    else positive (unsigned (c ∷ cs))

-- The `int` with a given bit pattern.
abbrev of_bits : ℕ → ℤ
of_bits u = if ltb u (2 ^ 63) then pos u else minus (2 ^ 64 - u)

-- `n * 1024`, which wraps.
times_1024 : ℤ → ℤ
times_1024 (pos n) = of_bits (n * 1024 % 2 ^ 64)
times_1024 (negsuc n) = of_bits ((2 ^ 64 - suc n * 1024 % 2 ^ 64) % 2 ^ 64)

-- `n / 1024`, which rounds towards 0.
div_1024 : ℤ → ℤ
div_1024 (pos n) = pos (n / 1024)
div_1024 (negsuc n) = minus (suc n / 1024)

abbrev in_unit : ℕ → ℤ → Option ℤ
in_unit unit n =
    if unit == b'g' || unit == b'G'
    then some (times_1024 n)
    else if unit == b'm' || unit == b'M'
    then some n
    else if unit == b'k' || unit == b'K'
    then some (div_1024 n)
    else none

-- All but the last byte, and the last byte.
abbrev split_last : ℕ → Bytes → Bytes × ℕ
split_last c [] = ([], c)
split_last c (d ∷ ds) = let (init, last) = split_last d ds in (c ∷ init, last)

-- What follows `-Xmx`: two bytes at least, a number and its unit.
xmx_body : Bytes → Option ℤ
unfolding atoi times_1024 div_1024
xmx_body [] = none
xmx_body (c ∷ []) = none
xmx_body (c ∷ d ∷ ds) =
    let (digits, unit) = split_last c (d ∷ ds) in
    elim (atoi digits) [ none ↦ none | some n ↦ in_unit unit n ]

-- One argument: the megabytes if the loop returns at it, none if it goes on.
pub xmx_arg : Bytes → Option ℤ
unfolding xmx_body
xmx_arg (a ∷ b ∷ c ∷ d ∷ body) =
    if a == b'-' && b == b'X' && c == b'm' && d == b'x' then xmx_body body else none
xmx_arg _ = none

unfoldable pub parse_xmx_mb : List Bytes → ℤ
unfolding xmx_arg
parse_xmx_mb [] = pos 0
parse_xmx_mb (a ∷ rest) = elim (xmx_arg a) [ some mb ↦ mb | none ↦ parse_xmx_mb rest ]

contains : String → List String → Bool
contains t [] = false
contains t (x ∷ xs) = str_eq x t || contains t xs

abbrev accepts_type : List String → String → Bool
accepts_type [] t = true
accepts_type (x ∷ xs) t = contains t (x ∷ xs)

-- The JVM arguments come from the server's config, if it can be read.
accepts_memory : ℤ → Option (List Bytes) → Bool
accepts_memory limit none = true
accepts_memory limit (some args) =
    let mb = parse_xmx_mb args in not (ltb_ℤ (pos 0) mb && ltb_ℤ limit mb)

unfoldable pub check_accepts : SlotConfig → Server → Option (List Bytes) → Bool
unfolding accepts_memory contains
check_accepts cfg srv java_args =
    accepts_type cfg.accept_types srv.flavor
    && (if ltb_ℤ (pos 0) cfg.max_memory_mb
        then accepts_memory cfg.max_memory_mb java_args
        else true)
