-- ===== src/Audit/Files/Back.antt =====
-- internal/audit/audit.go: reading lines from the end of a file gives its last lines.
use mcsm.Common.{
  if_rule, ◌⊎◌, subst, Option, not, ℕ, zero, suc, ◌-◌, ◌≤◌, ◌<◌, ◌≡◌, refl, sym, ap, ◌∙◌, true,
  false, ◌||◌, Bool-cases, inl, inr, some, List, [], ◌∷◌, ◌++◌, Bytes, feed, length, length-append,
  reverse_onto, reverse_onto-append, reverse_onto-append_right, length-reverse_onto, take, take-nil,
  take-reverse_onto, last_n, ltb, ◌==◌, All, arith, append-nil, reverse_onto-reverse_onto,
}
use mcsm.Audit.Files.{skip_ends, until_feed, lines_back, split_lines_last, last_line}

-- A line that stands whole in a file: no line feed in it, and at its end no carriage return either.
abbrev IsPlainFirst : Bytes → Type 0
IsPlainFirst [] = ⊥
IsPlainFirst (c ∷ s) = (c == b'\n' || c == b'\r') ≡ false

abbrev pub IsLine : Bytes → Type 0
IsLine l = All (λ (c : ℕ). (c == b'\n') ≡ false) l × IsPlainFirst (reverse_onto l [])

-- The bytes of lines from the last to the first, each from its end.
back_bytes : List Bytes → Bytes
back_bytes [] = []
back_bytes (l ∷ rs) = b'\n' ∷ reverse_onto l (back_bytes rs)

reverse_onto-feed :
    (ls rs : List Bytes) → reverse_onto (feed ls) (back_bytes rs) ≡ back_bytes (reverse_onto ls rs)
unfolding feed back_bytes
reverse_onto-feed [] rs = refl
reverse_onto-feed (l ∷ ls) rs =
    reverse_onto-append l (b'\n' ∷ feed ls) (back_bytes rs) ∙ reverse_onto-feed ls (l ∷ rs)

until_feed-back :
    (s : Bytes) (rs : List Bytes)
    → All (λ (c : ℕ). (c == b'\n') ≡ false) s
    → until_feed (s ++ back_bytes rs) ≡ (s, back_bytes rs)
unfolding until_feed back_bytes
until_feed-back [] [] h = refl
until_feed-back [] (l ∷ rs) h = refl
until_feed-back (c ∷ s) rs h = rw (h.0, until_feed-back s rs h.1) refl

skip_ends-plain : (s t : Bytes) → IsPlainFirst s → skip_ends (s ++ t) ≡ s ++ t
unfolding skip_ends
skip_ends-plain [] t h = absurd h
skip_ends-plain (c ∷ s) t h = rw h refl

reverse_onto-nil : (l b : Bytes) → reverse_onto l b ≡ reverse_onto l [] ++ b
reverse_onto-nil l b = reverse_onto-append_right l [] b

All-reverse_onto :
    {A : Type 0} (P : A → Type 0) (l b : List A) → All P l → All P b → All P (reverse_onto l b)
All-reverse_onto P [] b h k = k
All-reverse_onto P (c ∷ l) b h k = All-reverse_onto P l (c ∷ b) h.1 (h.0, k)

-- One round at a line.
skip_ends-back :
    (l : Bytes) (rs : List Bytes)
    → IsLine l
    → skip_ends (back_bytes (l ∷ rs)) ≡ reverse_onto l [] ++ back_bytes rs
unfolding skip_ends back_bytes
skip_ends-back l rs h =
    ap skip_ends (reverse_onto-nil l (back_bytes rs))
    ∙ skip_ends-plain (reverse_onto l []) (back_bytes rs) h.1

until_feed-line :
    (l : Bytes) (rs : List Bytes)
    → IsLine l
    → until_feed (reverse_onto l [] ++ back_bytes rs) ≡ (reverse_onto l [], back_bytes rs)
until_feed-line l rs h = until_feed-back (reverse_onto l []) rs (All-reverse_onto _ l [] h.0 tt)

lines_back-step :
    (fuel n : ℕ) (c : ℕ) (r r' line rest : Bytes) (out : List Bytes)
    → skip_ends (c ∷ r) ≡ r'
    → (length r' == 0) ≡ false
    → until_feed r' ≡ (line, rest)
    → ltb (length out) n ≡ true
    → lines_back (suc fuel) n (c ∷ r) out ≡ lines_back fuel n rest (reverse_onto line [] ∷ out)
unfolding lines_back
lines_back-step fuel n c r r' line rest out s z u l =
    let some_left : (length (c ∷ r) == 0) ≡ false = ground arith in rw (some_left, s, z, u, l) refl

lines_back-full :
    (fuel n : ℕ) (r : Bytes) (out : List Bytes)
    → ltb (length out) n ≡ false
    → lines_back (suc fuel) n r out ≡ some out
unfolding lines_back
lines_back-full fuel n [] out l = refl
lines_back-full fuel n (c ∷ r) out l =
    let some_left : (length (c ∷ r) == 0) ≡ false = ground arith in rw (some_left, l) refl

not_empty : (s t : Bytes) → IsPlainFirst s → (length (s ++ t) == 0) ≡ false
not_empty [] t h = absurd h
not_empty (c ∷ s) t h = ground arith

lines_back-lines :
    (fuel n : ℕ) (rs out : List Bytes)
    → length rs < fuel
    → All IsLine rs
    → lines_back fuel n (back_bytes rs) out ≡ some (reverse_onto (take (n - length out) rs) out)
unfolding lines_back back_bytes
lines_back-lines zero n rs out h k = ground (arith, h)
lines_back-lines (suc fuel) n [] out h k =
    ap (λ xs. some (reverse_onto xs out)) (sym (take-nil (n - length out)))
lines_back-lines (suc fuel) n (l ∷ rs) out h k = elim (Bool-cases (ltb (length out) n)) [
  | inr f ↦
      lines_back-full fuel n (back_bytes (l ∷ rs)) out f
      ∙ ap (λ m. some (reverse_onto (take m (l ∷ rs)) out)) (none_left f)
  | inl t ↦
      lines_back-step fuel n b'\n' (reverse_onto l (back_bytes rs)) _ _ _ out
        (skip_ends-back l rs k.0) (not_empty (reverse_onto l []) (back_bytes rs) k.0.1)
        (until_feed-line l rs k.0) t
      ∙ ap (λ m. lines_back fuel n (back_bytes rs) (m ∷ out))
          (reverse_onto-reverse_onto l [] [] ∙ append-nil l)
      ∙ lines_back-lines fuel n rs (l ∷ out) (omega arith) k.1
      ∙ ap (λ m. some (reverse_onto (take m (l ∷ rs)) out)) (one_more t)
]
  where
    none_left : ltb (length out) n ≡ false → 0 ≡ n - length out
    none_left f = ground (arith, f)

    one_more : ltb (length out) n ≡ true → suc (n - suc (length out)) ≡ n - length out
    one_more t = ground (arith, t)

length-feed : (ls : List Bytes) → length ls ≤ length (feed ls)
unfolding feed
length-feed [] = omega arith
length-feed (l ∷ ls) = omega (arith, length-feed ls, length-append l (b'\n' ∷ feed ls))

-- The last n of a file's lines.
pub split_lines_last-feed :
    (n : ℕ) (ls : List Bytes) → All IsLine ls → split_lines_last (feed ls) n ≡ some (last_n n ls)
unfolding split_lines_last back_bytes
split_lines_last-feed n ls h =
    let enough : length (reverse_onto ls []) < suc (length (feed ls)) =
      omega (arith, length-feed ls, length-reverse_onto ls []) in
    ap (λ r. lines_back (suc (length (feed ls))) n r []) (reverse_onto-feed ls [])
    ∙ lines_back-lines (suc (length (feed ls))) n (reverse_onto ls []) [] enough
        (All-reverse_onto IsLine ls [] h tt)
    ∙ ap (λ m. some (reverse_onto (take m (reverse_onto ls [])) [])) (omega arith)
    ∙ ap some (take-reverse_onto n ls)

skip_ends-shorter : (r : Bytes) → length (skip_ends r) ≤ length r
unfolding skip_ends
skip_ends-shorter [] = omega arith
skip_ends-shorter (c ∷ r) =
    if_rule (λ (s : Bytes). length s ≤ length (c ∷ r)) (c == b'\n' || c == b'\r')
      (λ t. omega (arith, skip_ends-shorter r)) (λ f. omega arith)

until_feed-shorter : (r : Bytes) → length (until_feed r).1 ≤ length r
unfolding until_feed
until_feed-shorter [] = omega arith
until_feed-shorter (c ∷ r) = elim (Bool-cases (c == b'\n')) [
  | inl t ↦ rw t (omega arith)
  | inr f ↦ rw f (omega (arith, until_feed-shorter r))
]

-- What is left after the line ends starts with none.
skip_ends-cases :
    (r : Bytes)
    → (skip_ends r ≡ []) ⊎ ((c : ℕ) × (s : Bytes) × (skip_ends r ≡ c ∷ s) × ((c == b'\n') ≡ false))
unfolding skip_ends
skip_ends-cases [] = inl refl
skip_ends-cases (c ∷ r) = elim (Bool-cases (c == b'\n' || c == b'\r')) [
  | inl t ↦ rw t (skip_ends-cases r)
  | inr f ↦ rw f (inr (c, r, refl, ground (f, arith)))
]

-- A round that goes on has a line, so that less is left.
rest-shorter :
    (r : Bytes)
    → (length (skip_ends r) == 0) ≡ false
    → length (until_feed (skip_ends r)).1 < length r
unfolding until_feed
rest-shorter r h = elim (skip_ends-cases r) [
  | inl e ↦ absurd (ground (e, h, arith))
  | inr (c, s, e, f) ↦
      let rest : (until_feed (skip_ends r)).1 ≡ (until_feed s).1 = rw (e, f) refl in
      let long : suc (length s) ≤ length r =
        subst (λ x. length x ≤ length r) e (skip_ends-shorter r) in
      subst (λ x. length x < length r) (sym rest) (omega (arith, long, until_feed-shorter s))
]

abbrev Some : ℕ → Option (List Bytes) → Type 0
Some n o = (out : List Bytes) × (o ≡ some out) × (length out ≤ n)

lines_back-Some :
    (fuel n : ℕ) (r : Bytes) (out : List Bytes)
    → length r < fuel
    → length out ≤ n
    → Some n (lines_back fuel n r out)
unfolding lines_back
lines_back-Some zero n r out h k = absurd (omega (arith, h))
lines_back-Some (suc fuel) n r out h k =
    if_rule (Some n) (length r == 0 || not (ltb (length out) n)) (λ _. (out, refl, k))
      (λ more.
        if_rule (Some n) (length (skip_ends r) == 0) (λ _. (out, refl, k))
          (λ f.
            lines_back-Some fuel n _ _ (omega (arith, h, rest-shorter r f)) (ground (more, arith))))

-- Reading lines back from a file's end ends within as many rounds as the file has bytes and one, whatever it holds,
-- with at most n lines; from a file whose lines are not empty and each end in a line feed with no carriage
-- return before it, with its last n lines in order.
pub split_lines_last-Ends :
    (n : ℕ) (b : Bytes) (ls : List Bytes)
    → All IsLine ls
    → ((out : List Bytes) × (split_lines_last b n ≡ some out) × (length out ≤ n))
      × (split_lines_last (feed ls) n ≡ some (last_n n ls))
unfolding split_lines_last
split_lines_last-Ends n b ls h = (
  lines_back-Some (suc (length b)) n (reverse_onto b []) []
      (omega (arith, length-reverse_onto b [])) (omega arith),
  split_lines_last-feed n ls h,
)

-- The last line of a file that has one.
pub last_line-feed :
    (ls : List Bytes) (l : Bytes) → All IsLine ls → IsLine l → last_line (feed (ls ++ l ∷ [])) ≡ l
unfolding last_line back_bytes
last_line-feed ls l h k =
    let rs = reverse_onto ls [] in
    ap (λ r. reverse_onto (until_feed (skip_ends r)).0 [])
      (reverse_onto-feed (ls ++ l ∷ []) [] ∙ ap back_bytes (reverse_onto-append ls (l ∷ []) []))
    ∙ ap (λ r. reverse_onto (until_feed r).0 []) (skip_ends-back l rs k)
    ∙ ap (λ (p : Bytes × Bytes). reverse_onto p.0 []) (until_feed-line l rs k)
    ∙ reverse_onto-reverse_onto l [] []
    ∙ append-nil l
