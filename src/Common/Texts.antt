-- ===== src/Common/Texts.antt =====
-- Bytes as numbers; a text that is walked is a list of them, a text that is only compared a String.
use Prim.Native.Char.{code}
use Prim.Native.Nat.{ℕ}
use Prim.Native.String.{String}
use mathlib.Core.Bool.{Bool, true, false, ◌&&◌, ◌||◌}
use mathlib.Core.List.{List, [], ◌∷◌, ◌++◌, append_assoc}
use mathlib.Core.Logic.{◌↔◌}
use mathlib.Core.Path.{◌≡◌, refl, sym, ap, ◌∙◌}
use native.Mathlib.Omega.{arith}
use mcsm.Common.Lists.{reverse_onto, reverse_onto-append, reverse_onto-append_right}
use mcsm.Common.Tests.{◌==◌, leb, if◌then◌else◌}

abbrev pub Bytes : Type 0
Bytes = List ℕ

-- The code points of a text: its bytes, if it is ASCII.
abbrev pub codes : String → Bytes
codes String.[] = []
codes (String.◌∷◌ c s) = code c ∷ codes s

-- `==` on Go strings that are walked.
unfoldable pub equal : (k j : Bytes) → Bool
equal (c ∷ k) (d ∷ j) = if c == d then equal k j else false
equal [] (d ∷ j) = false
equal (c ∷ k) [] = false
equal [] [] = true

pub equal_iff : (k j : Bytes) → (equal k j ≡ true) ↔ (k ≡ j)
unfolding equal
equal_iff [] [] = ground arith
equal_iff (c ∷ k) (d ∷ j) = ground (equal_iff k j, arith)
equal_iff [] (d ∷ j) = ground arith
equal_iff (c ∷ k) [] = ground arith

pub equal_refl : (k : Bytes) → equal k k ≡ true
equal_refl k = (equal_iff k k).1 refl

-- strings.HasPrefix and strings.HasSuffix, with the text last.
unfoldable pub has_prefix : Bytes → Bytes → Bool
has_prefix [] s = true
has_prefix (p ∷ ps) [] = false
has_prefix (p ∷ ps) (c ∷ cs) = p == c && has_prefix ps cs

unfoldable pub has_suffix : Bytes → Bytes → Bool
unfolding has_prefix
has_suffix p s = has_prefix (reverse_onto p []) (reverse_onto s [])

-- strings.TrimSpace, of ASCII's white space.
abbrev pub is_white : ℕ → Bool
is_white c = leb 9 c && leb c 13 || c == b' '

unfoldable pub trim_front : Bytes → Bytes
trim_front [] = []
trim_front (c ∷ cs) = let rest = trim_front cs in if is_white c then rest else c ∷ cs

unfoldable pub trim_space : Bytes → Bytes
unfolding trim_front
trim_space s = reverse_onto (trim_front (reverse_onto (trim_front s) [])) []

-- Lines, each with its line feed.
unfoldable pub feed : List Bytes → Bytes
feed [] = []
feed (l ∷ ls) = l ++ (b'\n' ∷ feed ls)

pub feed-append : (ls ms : List Bytes) → feed (ls ++ ms) ≡ feed ls ++ feed ms
unfolding feed
feed-append [] ms = refl
feed-append (l ∷ ls) ms =
    ap (λ t. l ++ (b'\n' ∷ t)) (feed-append ls ms)
    ∙ sym (append_assoc l (b'\n' ∷ feed ls) (feed ms))

pub has_prefix-append : (p s : Bytes) → has_prefix p (p ++ s) ≡ true
unfolding has_prefix
has_prefix-append [] s = refl
has_prefix-append (c ∷ p) s =
    let same : (c == c) ≡ true = ground arith in rw (same, has_prefix-append p s) refl

pub has_suffix-append : (p s : Bytes) → has_suffix p (s ++ p) ≡ true
unfolding has_suffix
has_suffix-append p s =
    ap (has_prefix (reverse_onto p []))
      (reverse_onto-append s p [] ∙ reverse_onto-append_right p [] (reverse_onto s []))
    ∙ has_prefix-append (reverse_onto p []) (reverse_onto s [])
