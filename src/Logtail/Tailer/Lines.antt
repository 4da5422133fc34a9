-- ===== src/Logtail/Tailer/Lines.antt =====
-- Reading a file while it grows.
use mcsm.Common.{
  ℕ, ◌≡◌, refl, sym, ap, ap₂, ◌∙◌, false, ◌||◌, Bool-cases, inl, inr, List, [], ◌∷◌, ◌++◌, Bytes,
  ltb, ◌==◌, arith, length, length-append, drop-append_length,
}
use mcsm.Logtail.Parser.{trim_end}
use mcsm.Logtail.Tailer.{joined, read_strings, kept_line, filled_lines, read_until_eof}

joined-append :
    (c : ℕ) (ls ms : List Bytes) {l : Bytes} {rest : List Bytes}
    → ls ≡ l ∷ rest
    → joined c (ls ++ ms) ≡ joined c ls ++ ms
unfolding joined
joined-append c ls ms e = rw e refl

-- A text that ends in a line feed has a line.
read_strings-filled :
    (xs : Bytes) → (l : Bytes) × (rest : List Bytes) × (read_strings (xs ++ 10 ∷ []) ≡ l ∷ rest)
unfolding read_strings joined
read_strings-filled [] = (10 ∷ [], [], refl)
read_strings-filled (c ∷ xs) =
    let (l, rest, e) = read_strings-filled xs in
    elim (Bool-cases (c == 10)) [
      | inl t ↦ (c ∷ [], read_strings (xs ++ 10 ∷ []), rw t refl)
      | inr f ↦ (c ∷ l, rest, rw (f, e) refl)
    ]

-- After a line feed the reader starts afresh.
read_strings-append :
    (xs ys : Bytes)
    → read_strings ((xs ++ 10 ∷ []) ++ ys) ≡ read_strings (xs ++ 10 ∷ []) ++ read_strings ys
unfolding read_strings
read_strings-append [] ys = refl
read_strings-append (c ∷ xs) ys =
    let (l, rest, e) = read_strings-filled xs in
    elim (Bool-cases (c == 10)) [
      | inl t ↦ rw t (ap (◌∷◌ (c ∷ [])) (read_strings-append xs ys))
      | inr f ↦ rw f (
          ap (joined c) (read_strings-append xs ys)
          ∙ joined-append c (read_strings (xs ++ 10 ∷ [])) (read_strings ys) e)
    ]

kept_line-append : (l : Bytes) (ls ms : List Bytes) → kept_line l (ls ++ ms) ≡ kept_line l ls ++ ms
unfolding kept_line
kept_line-append [] ls ms = refl
kept_line-append (c ∷ cs) ls ms = refl

filled_lines-append :
    (ls ms : List Bytes) → filled_lines (ls ++ ms) ≡ filled_lines ls ++ filled_lines ms
unfolding filled_lines
filled_lines-append [] ms = refl
filled_lines-append (l ∷ ls) ms =
    ap (kept_line _) (filled_lines-append ls ms)
    ∙ kept_line-append (trim_end (λ c. c == 13 || c == 10) l) (filled_lines ls) (filled_lines ms)

from_start : (file : Bytes) → (read_until_eof file 0).0 ≡ filled_lines (read_strings file)
unfolding read_until_eof
from_start file = ground arith

grown : (a ys : Bytes) → (read_until_eof (a ++ ys) (length a)).0 ≡ filled_lines (read_strings ys)
unfolding read_until_eof
grown a ys =
    let longer : ltb (length (a ++ ys)) (length a) ≡ false = ground (arith, length-append a ys) in
    rw (longer, drop-append_length a ys) refl

-- A file that ends in a line feed when it is first read gives the same lines, read again when it has
-- grown, as in one reading.
pub read_until_eof-append :
    (xs ys : Bytes)
    → (read_until_eof (xs ++ 10 ∷ []) 0).0
        ++ (read_until_eof ((xs ++ 10 ∷ []) ++ ys) (read_until_eof (xs ++ 10 ∷ []) 0).1).0
      ≡ (read_until_eof ((xs ++ 10 ∷ []) ++ ys) 0).0
unfolding read_until_eof
read_until_eof-append xs ys =
    ap₂ ◌++◌ (from_start (xs ++ 10 ∷ [])) (grown (xs ++ 10 ∷ []) ys)
    ∙ sym (filled_lines-append (read_strings (xs ++ 10 ∷ [])) (read_strings ys))
    ∙ ap filled_lines (sym (read_strings-append xs ys))
    ∙ sym (from_start ((xs ++ 10 ∷ []) ++ ys))
