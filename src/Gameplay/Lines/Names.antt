-- ===== src/Gameplay/Lines/Names.antt =====
-- internal/gameplay/death.go: how a line that starts with a player's name is read.
use mcsm.Common.{
  ℕ, ◌≤◌, ◌≡◌, refl, sym, ap, ap₂, subst, ◌∙◌, Bool, true, false, ◌&&◌, Bool-cases, inl, inr,
  Option, none, some, [], ◌∷◌, ◌++◌, Bytes, codes, has_prefix, length, leb, ◌==◌, if◌then◌else◌,
  All, arith,
}
use mcsm.Logtail.Parser.{span}
use mcsm.Logtail.Parser.RoundTrip.{span-end}
use mcsm.Gameplay.Lines.{
  strip, is_word_byte, name_first, death_patterns, first_death, parse_death, ◌>>=◌,
}

-- A player's name.
abbrev pub IsName : Bytes → Type 0
IsName n = All (λ (c : ℕ). is_word_byte c ≡ true) n × (1 ≤ length n) × (length n ≤ 16)

pub strip-append : (p r : Bytes) → strip p (p ++ r) ≡ some r
unfolding strip
strip-append [] r = refl
strip-append (c ∷ p) r =
    let same : (c == c) ≡ true = ground arith in rw (same, strip-append p r) refl

pub strip-some : (p s r : Bytes) → strip p s ≡ some r → s ≡ p ++ r
unfolding strip
strip-some [] s r h = cc h
strip-some (c ∷ p) [] r h = ground (h, arith)
strip-some (c ∷ p) (d ∷ s) r h = elim (Bool-cases (c == d)) [
  | inl t ↦
      let same : c ≡ d = ground (t, arith) in
      let rest : strip p s ≡ some r = ground (t, h, arith) in
      ap (◌∷◌ d) (strip-some p s r rest) ∙ ap (λ x. x ∷ (p ++ r)) (sym same)
  | inr f ↦ ground (f, h, arith)
]

span-parts :
    (p : ℕ → Bool) (s : Bytes)
    → (s ≡ (span p s).0 ++ (span p s).1) × All (λ (c : ℕ). p c ≡ true) (span p s).0
unfolding span
span-parts p [] = (refl, tt)
span-parts p (c ∷ s) = elim (Bool-cases (p c)) [
  | inl t ↦ let (e, a) = span-parts p s in rw t (ap (◌∷◌ c) e, (t, a))
  | inr f ↦ rw f (refl, tt)
]

pub name_first-IsName :
    (n : Bytes) (c : ℕ) (r : Bytes)
    → IsName n
    → is_word_byte c ≡ false
    → name_first (n ++ c ∷ r) ≡ some (n, c ∷ r)
unfolding name_first
name_first-IsName n c r (a, l, u) f =
    let low : leb 1 (length n) ≡ true = ground (l, arith) in
    let high : leb (length n) 16 ≡ true = ground (u, arith) in
    rw (span-end is_word_byte n c r a f, low, high) refl

named_if :
    (s name rest n r : Bytes)
    → s ≡ name ++ rest
    → All (λ (c : ℕ). is_word_byte c ≡ true) name
    → if◌then◌else◌ {A = Option (Bytes × Bytes)}
        (leb 1 (length name) && leb (length name) 16)
        (some (name, rest))
        none
      ≡ some (n, r)
    → (s ≡ n ++ r) × IsName n
named_if s name rest n r e a h = elim (Bool-cases (leb 1 (length name) && leb (length name) 16)) [
  | inl t ↦
      let whole : ◌≡◌ {A = Option (Bytes × Bytes)} (some (name, rest)) (some (n, r)) =
        ground (t, h, arith) in
      let same : name ≡ n = cc whole in
      let after : rest ≡ r = cc whole in
      let low : 1 ≤ length name = ground (t, arith) in
      let high : length name ≤ 16 = ground (t, arith) in
      (e ∙ ap₂ (λ x y. x ++ y) same after, subst IsName same (a, low, high))
  | inr f ↦ ground (f, h, arith)
]

pub named : (s n r : Bytes) → name_first s ≡ some (n, r) → (s ≡ n ++ r) × IsName n
unfolding name_first
named s n r h =
    let (e, a) = span-parts is_word_byte s in
    named_if s (span is_word_byte s).0 (span is_word_byte s).1 n r e a h

pub not_bracket : (n r : Bytes) → IsName n → has_prefix (codes "<") (n ++ r) ≡ false
unfolding has_prefix
not_bracket [] r (a, l, u) = let none_at : 1 ≤ 0 = l in ground (none_at, arith)
not_bracket (c ∷ n) r (a, l, u) = let first : is_word_byte c ≡ true = a.0 in ground (first, arith)

pub name_first-phrase :
    (n q rest s : Bytes)
    → IsName n
    → q ≡ b' ' ∷ s
    → name_first (n ++ (q ++ rest)) ≡ some (n, q ++ rest)
name_first-phrase n q rest s h e =
    subst (λ q. name_first (n ++ (q ++ rest)) ≡ some (n, q ++ rest)) (sym e)
      (name_first-IsName n b' ' (s ++ rest) h refl)

pub parse_death_named :
    (m n r : Bytes)
    → IsName n
    → m ≡ n ++ r
    → name_first m ≡ some (n, r)
    → parse_death m ≡ first_death death_patterns n r
unfolding parse_death
parse_death_named m n r h e f =
    let outside : has_prefix (codes "<") m ≡ false =
      ap (has_prefix (codes "<")) e ∙ not_bracket n r h in
    rw outside (ap (λ o. o >>= λ p. first_death death_patterns p.0 p.1) f)
