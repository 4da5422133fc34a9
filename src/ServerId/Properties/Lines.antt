-- ===== src/ServerId/Properties/Lines.antt =====
-- One line: what the patched form of a line is read back as.

use mcsm.Common.{
  ℕ, ◌≡◌, refl, Bool, true, false, ◌||◌, some, [], ◌∷◌, ◌++◌, Bytes, ◌==◌, arith, All, Option-cases,
  inl, inr,
}
use mcsm.ServerId.Properties.{
  is_blank, is_sep, trim_left, trim_right, Split, split_sep, keyed, parse_line, line_with,
}

-- A byte that needs no care in a key.
abbrev pub PlainByte : ℕ → Type 0
PlainByte c =
    (is_sep c ≡ false)
    × (is_blank c ≡ false)
    × ((c == b'\\') ≡ false)
    × ((c == b'#' || c == b'!') ≡ false)

-- A key such as `server-port`: not empty, and of plain bytes.
abbrev pub IsPlain : Bytes → Type 0
IsPlain [] = ⊥
IsPlain (c ∷ cs) = PlainByte c × All PlainByte cs

trim_right-plain : (k : Bytes) → All PlainByte k → trim_right k ≡ k
unfolding trim_right
trim_right-plain [] h = refl
trim_right-plain (c ∷ []) h = ground arith
trim_right-plain (c ∷ d ∷ ds) h = ground (arith, trim_right-plain (d ∷ ds) h.1)

split_sep-plain :
    (k : Bytes) (sep : ℕ) (v : Bytes)
    → All PlainByte k
    → is_sep sep ≡ true
    → split_sep false (k ++ sep ∷ v) ≡ some (k, sep, v)
unfolding split_sep
split_sep-plain [] sep v h s = ground arith
split_sep-plain (c ∷ cs) sep v h s = ground (arith, split_sep-plain cs sep v h.1 s)

pub parse_line-line_with :
    (k : Bytes) (sep : ℕ) (v : Bytes)
    → IsPlain k
    → is_sep sep ≡ true
    → parse_line (line_with k sep v) ≡ some (k, sep, v)
unfolding parse_line trim_left keyed
parse_line-line_with [] sep v h s = elim h [ ]
parse_line-line_with (c ∷ cs) sep v h s =
    ground (arith, split_sep-plain (c ∷ cs) sep v h s, trim_right-plain (c ∷ cs) h)

split_sep-is_sep : (e : Bool) (l : Bytes) {s : Split} → split_sep e l ≡ some s → is_sep s.1 ≡ true
unfolding split_sep
split_sep-is_sep e [] q = cc
split_sep-is_sep e (c ∷ cs) q = elim (Option-cases (split_sep (c == b'\\') cs)) [
  | inl n ↦ ground (arith, n)
  | inr (t, p) ↦ ground (arith, p, split_sep-is_sep (c == b'\\') cs p)
]

pub parse_line-is_sep : (l : Bytes) {s : Split} → parse_line l ≡ some s → is_sep s.1 ≡ true
unfolding parse_line
parse_line-is_sep l q = keyed-is_sep (trim_left l) q
  where
    keyed-is_sep : (l : Bytes) {s : Split} → keyed l ≡ some s → is_sep s.1 ≡ true
    keyed-is_sep [] q = cc
    keyed-is_sep (c ∷ cs) q = elim (Option-cases (split_sep false (c ∷ cs))) [
      | inl n ↦ ground (arith, n)
      | inr (t, p) ↦ ground (arith, p, split_sep-is_sep false (c ∷ cs) p)
    ]
