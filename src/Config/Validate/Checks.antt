-- ===== src/Config/Validate/Checks.antt =====
-- internal/config/validate.go: what the single tests of `Validate` decide, and how its list of problems
-- is empty.
use mathlib.Core.Logic.Iff
use mcsm.Common.{
  ℕ, ◌≤◌, ◌≡◌, ◌≢◌, ◌↔◌, ◌⊎◌, refl, sym, ap₂, Bool, true, false, not, ◌&&◌, ◌||◌, List, [], ◌∷◌,
  ◌++◌, Bytes, leb, ◌==◌, ==_iff, equal_iff, has_prefix, length, All, arith, ℤ, pos, negsuc, ltb_ℤ,
}
use mcsm.Config.Validate.{
  Problem, when, is_name_byte, all_name_bytes, matches_name, is_empty, has_none, one_of, seen,
  same_port,
}

not_iff : (b : Bool) → (not b ≡ false) ↔ (b ≡ true)
not_iff true = ground arith
not_iff false = ground arith

pub or_iff : (a b : Bool) → ((a || b) ≡ false) ↔ ((a ≡ false) × (b ≡ false))
or_iff true b = ground arith
or_iff false b = ground arith

and_iff : (a b : Bool) → ((a && b) ≡ true) ↔ ((a ≡ true) × (b ≡ true))
and_iff true b = ground arith
and_iff false b = ground arith

pub when_iff : (b : Bool) (p : Problem) → (when b p ≡ []) ↔ (b ≡ false)
when_iff true p = ground arith
when_iff false p = ground arith

append_iff : {A : Type 0} (xs ys : List A) → (xs ++ ys ≡ []) ↔ ((xs ≡ []) × (ys ≡ []))
append_iff [] ys = ((λ e. (refl, e)), λ e. e.1)
append_iff (x ∷ xs) ys = ground arith

-- The problems of two parts, and of a test and what follows.
pub parts_iff :
    {P Q : Type 0} (xs ys : List Problem)
    → (xs ≡ []) ↔ P
    → (ys ≡ []) ↔ Q
    → (xs ++ ys ≡ []) ↔ (P × Q)
parts_iff xs ys f g = Iff.trans (append_iff xs ys) (Iff.and f g)

pub test_iff : {P : Type 0} (b : Bool) (p : Problem) → (b ≡ false) ↔ P → (when b p ≡ []) ↔ P
test_iff b p f = Iff.trans (when_iff b p) f

pub unless_iff : {P : Type 0} (b : Bool) (p : Problem) → (b ≡ true) ↔ P → (when (not b) p ≡ []) ↔ P
unless_iff b p f = test_iff (not b) p (Iff.trans (not_iff b) f)

pub is_empty_iff : (s : Bytes) → (is_empty s ≡ false) ↔ (s ≢ [])
unfolding is_empty
is_empty_iff [] = ground arith
is_empty_iff (c ∷ cs) = ground arith

pub has_none_iff : {A : Type 0} (xs : List A) → (has_none xs ≡ false) ↔ (xs ≢ [])
unfolding has_none
has_none_iff [] = ground arith
has_none_iff (x ∷ xs) = ground arith

-- Between one byte and `n`, each a small letter, a digit or `-`.
abbrev pub IsName : ℕ → Bytes → Type 0
IsName n s = ((1 ≤ length s) × (length s ≤ n)) × All (λ (c : ℕ). is_name_byte c ≡ true) s

all_name_bytes_iff :
    (s : Bytes) → (all_name_bytes s ≡ true) ↔ All (λ (c : ℕ). is_name_byte c ≡ true) s
unfolding all_name_bytes
all_name_bytes_iff [] = ((λ _. tt), λ _. refl)
all_name_bytes_iff (c ∷ cs) =
    Iff.trans (and_iff (is_name_byte c) (all_name_bytes cs))
      (Iff.and Iff.rfl (all_name_bytes_iff cs))

leb_iff : (a b : ℕ) → (leb a b ≡ true) ↔ (a ≤ b)
leb_iff a b = ground arith

pub matches_name_iff : (n : ℕ) (s : Bytes) → (matches_name n s ≡ true) ↔ IsName n s
unfolding matches_name
matches_name_iff n s =
    Iff.trans (and_iff (leb 1 (length s) && leb (length s) n) (all_name_bytes s)) (
      Iff.and
        (Iff.trans (and_iff (leb 1 (length s)) (leb (length s) n))
          (Iff.and (leb_iff 1 (length s)) (leb_iff (length s) n)))
        (all_name_bytes_iff s))

-- One of the texts.
abbrev pub IsOneOf : Bytes → List Bytes → Type 0
IsOneOf s [] = ⊥
IsOneOf s (t ∷ ts) = (s ≡ t) ⊎ IsOneOf s ts

pub one_of_iff : (s : Bytes) (ts : List Bytes) → (one_of s ts ≡ true) ↔ IsOneOf s ts
unfolding one_of
one_of_iff s [] = ((λ e. ground (e, arith)), λ e. absurd e)
one_of_iff s (t ∷ ts) = ground (equal_iff s t, one_of_iff s ts, arith)

pub has_prefix_iff : (p s : Bytes) → (has_prefix p s ≡ true) ↔ ((rest : Bytes) × (s ≡ p ++ rest))
unfolding has_prefix
has_prefix_iff [] s = ((λ _. (s, refl)), λ _. refl)
has_prefix_iff (p ∷ ps) [] = ((λ e. ground (e, arith)), λ r. ground (r.1, arith))
has_prefix_iff (p ∷ ps) (c ∷ cs) = Iff.trans (and_iff (p == c) (has_prefix ps cs)) (
  (λ h.
      let (rest, e) = (has_prefix_iff ps cs).0 h.1 in
      (rest, ap₂ (λ d ds. d ∷ ds) (sym ((==_iff p c).0 h.0)) e)),
  (λ r.
      ((==_iff p c).1 (ground (r.1, arith)), (has_prefix_iff ps cs).1 (r.0, ground (r.1, arith)))),
)

pub no_iff : {P : Type 0} (b : Bool) → (b ≡ true) ↔ P → (b ≡ false) ↔ (¬ P)
no_iff true f = ((λ e. ground (e, arith)), λ n. absurd (n (f.0 refl)))
no_iff false f = ((λ _ x. ground (f.1 x, arith)), λ _. refl)

-- The keys of the earlier entries.
pub seen_iff :
    {A K : Type 0} (same : K → K → Bool) (key : A → K)
    → ((a b : K) → (same a b ≡ true) ↔ (a ≡ b))
    → (k : K) (xs : List A) → (seen same key k xs ≡ false) ↔ All (λ x. key x ≢ k) xs
unfolding seen
seen_iff same key f k [] = ((λ _. tt), λ _. refl)
seen_iff same key f k (x ∷ xs) =
    Iff.trans (or_iff (same (key x) k) (seen same key k xs))
      (Iff.and (no_iff (same (key x) k) (f (key x) k)) (seen_iff same key f k xs))

pub same_port_iff : (a b : ℤ) → (same_port a b ≡ true) ↔ (a ≡ b)
same_port_iff (pos n) (pos m) = ground arith
same_port_iff (pos n) (negsuc m) = ground arith
same_port_iff (negsuc n) (pos m) = ground arith
same_port_iff (negsuc n) (negsuc m) = ground arith

abbrev pub IsPort : ℤ → Type 0
IsPort p = (n : ℕ) × ((p ≡ pos n) × ((1 ≤ n) × (n ≤ 65535)))

pub IsPort-iff : (p : ℤ) → ((ltb_ℤ p (pos 1) || ltb_ℤ (pos 65535) p) ≡ false) ↔ IsPort p
IsPort-iff (pos n) =
    ((λ e. (n, (refl, (ground arith, ground arith)))), λ (m, (e, (l, u))). ground arith)
IsPort-iff (negsuc n) = ((λ e. ground arith), λ (m, (e, (l, u))). ground arith)
