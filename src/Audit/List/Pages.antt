-- ===== src/Audit/List/Pages.antt =====
-- What a caller sees who follows the cursors.
use mcsm.Common.{
  ℕ, zero, suc, ◌≤◌, ◌<◌, ◌≡◌, refl, sym, ap, subst, ◌∙◌, Bool, true, false, Bool-cases, inl, inr,
  List, [], ◌∷◌, ◌++◌, ◌==◌, if◌then◌else◌, arith, All, length, take, drop, length-drop,
  take-append-drop, ℤ, pos, negsuc, min,
}
use mcsm.Audit.Logger.{Entry, Logger}
use mcsm.Audit.List.{Query, limit_of, matches, older, walk, last_id, newest_first, list}

unfoldable pub keep : (Entry → Bool) → List Entry → List Entry
keep p [] = []
keep p (e ∷ es) = let rest = keep p es in if p e then e ∷ rest else rest

-- Newest first, with ids from 1.
abbrev pub IsDescending : List Entry → Type 0
IsDescending [] = Unit
IsDescending (e ∷ es) = (0 < e.id) × All (λ (d : Entry). d.id < e.id) es × IsDescending es

abbrev at_cursor : Query → ℕ → Query
at_cursor q c = record q { cursor = c }

matches-at_cursor : (e : Entry) (q : Query) (c : ℕ) → matches e (at_cursor q c) ≡ matches e q
unfolding matches
matches-at_cursor e q c = refl

walk-take :
    (q : Query) (c room : ℕ) (es : List Entry)
    → walk (at_cursor q c) room es
      ≡ take room (keep (older c) (keep (λ (e : Entry). matches e q) es))
unfolding walk keep
walk-take q c zero [] = refl
walk-take q c (suc room) [] = refl
walk-take q c zero (e ∷ es) = refl
walk-take q c (suc room) (e ∷ es) = elim (Bool-cases (matches e q)) [
  | inl m ↦ elim (Bool-cases (older c e)) [
    | inl o ↦ rw (matches-at_cursor e q c, m, o) (ap (◌∷◌ e) (walk-take q c room es))
    | inr o ↦ rw (matches-at_cursor e q c, m, o) (walk-take q c (suc room) es)
  ]
  | inr m ↦ rw (matches-at_cursor e q c, m) (ground (arith, walk-take q c (suc room) es))
]

keep-older : (c : ℕ) (es : List Entry) → All (λ (d : Entry). d.id < c) es → keep (older c) es ≡ es
unfolding keep older
keep-older c [] h = refl
keep-older c (e ∷ es) h = ground (arith, keep-older c es h.1)

All-keep : (p : Entry → Bool) (es : List Entry) → All (λ (e : Entry). p e ≡ true) (keep p es)
unfolding keep
All-keep p [] = tt
All-keep p (e ∷ es) = elim (Bool-cases (p e)) [
  | inl t ↦ rw t (t, All-keep p es)
  | inr f ↦ rw f (All-keep p es)
]

keep-All : (p : Entry → Bool) (P : Entry → Type 0) (es : List Entry) → All P es → All P (keep p es)
unfolding keep
keep-All p P [] h = h
keep-All p P (e ∷ es) h = elim (Bool-cases (p e)) [
  | inl t ↦ rw t (h.0, keep-All p P es h.1)
  | inr f ↦ rw f (keep-All p P es h.1)
]

IsDescending-keep :
    (p : Entry → Bool) (es : List Entry) → IsDescending es → IsDescending (keep p es)
unfolding keep
IsDescending-keep p [] h = h
IsDescending-keep p (e ∷ es) h = elim (Bool-cases (p e)) [
  | inl t ↦ rw t (h.0, keep-All p (λ (d : Entry). d.id < e.id) es h.1, IsDescending-keep p es h.2)
  | inr f ↦ rw f (IsDescending-keep p es h.2)
]

keep-keep :
    (p q : Entry → Bool) (es : List Entry)
    → ((e : Entry) → q e ≡ true → p e ≡ true)
    → keep q (keep p es) ≡ keep q es
unfolding keep
keep-keep p q [] h = refl
keep-keep p q (e ∷ es) h = elim (Bool-cases (p e)) [
  | inl t ↦ rw (t, keep) (rw (keep-keep p q es h) refl)
  | inr f ↦ elim (Bool-cases (q e)) [
    | inl u ↦ cc (f, h e u)
    | inr u ↦ rw (f, u) (keep-keep p q es h)
  ]
]

skip_newer :
    (c : ℕ) (e : Entry) (es : List Entry)
    → 0 < c
    → c ≤ e.id
    → keep (older c) (e ∷ es) ≡ keep (older c) es
unfolding keep older
skip_newer c e es p l = ground arith

next_page :
    (room : ℕ) (e : Entry) (es : List Entry)
    → IsDescending (e ∷ es)
    → let c = last_id (take (suc room) (e ∷ es)) in
      (0 < c) × (c ≤ e.id) × (keep (older c) (e ∷ es) ≡ drop (suc room) (e ∷ es))
unfolding last_id older keep
next_page zero e [] h = (h.0, omega arith, skip_newer e.id e [] h.0 (omega arith))
next_page (suc room) e [] h = (h.0, omega arith, skip_newer e.id e [] h.0 (omega arith))
next_page zero e (d ∷ es) h =
    (h.0, omega arith, skip_newer e.id e (d ∷ es) h.0 (omega arith) ∙ keep-older e.id (d ∷ es) h.1)
next_page (suc room) e (d ∷ es) h =
    let (p, l, k) = next_page room d es h.2 in
    let m : last_id (take (suc room) (d ∷ es)) ≤ e.id = omega (arith, l, h.1.0) in
    (p, m, skip_newer (last_id (take (suc room) (d ∷ es))) e (d ∷ es) p m ∙ k)

limit_of-pos : (n : ℤ) → (r : ℕ) × (limit_of n ≡ suc r)
unfolding limit_of
limit_of-pos (negsuc n) = (199, refl)
limit_of-pos (pos zero) = (199, refl)
limit_of-pos (pos (suc n)) = (min n 999, omega arith)

-- The pages that follow one another, with the calls that are left.
pub pages : ℕ → Query → Logger → ℕ → List Entry
pages zero q l c = []
pages (suc n) q l c =
    let (out, next) = list (at_cursor q c) l in
    let rest = pages n q l next in if next == 0 then out else out ++ rest

older_mono :
    (c m : ℕ) (e d : Entry)
    → older c e ≡ true
    → m ≤ e.id
    → older m d ≡ true
    → 0 < m
    → older c d ≡ true
unfolding older
older_mono c m e d h l o p = ground arith

first_older :
    (c : ℕ) (es : List Entry) {e : Entry} {ds : List Entry}
    → keep (older c) es ≡ e ∷ ds
    → older c e ≡ true
first_older c es h = (subst (All (λ d. older c d ≡ true)) h (All-keep (older c) es)).0

no_cursor : (es : List Entry) → keep (older 0) es ≡ es
unfolding keep older
no_cursor [] = refl
no_cursor (e ∷ es) = ap (◌∷◌ e) (no_cursor es)

length-keep : (p : Entry → Bool) (es : List Entry) → length (keep p es) ≤ length es
unfolding keep
length-keep p [] = omega arith
length-keep p (e ∷ es) = elim (Bool-cases (p e)) [
  | inl t ↦ rw t (omega (arith, length-keep p es))
  | inr f ↦ rw f (omega (arith, length-keep p es))
]

module _ (q : Query) (l : Logger) where
  abbrev matching : List Entry
  matching = keep (λ (e : Entry). matches e q) (newest_first l.ring)

  page :
      (c : ℕ)
      → (r : ℕ) × (list (at_cursor q c) l ≡ (
        take (suc r) (keep (older c) matching),
        last_id (take (suc r) (keep (older c) matching)),
      ))
  unfolding list
  page c =
      let (r, e) = limit_of-pos q.limit in
      (r, rw (walk-take q c (limit_of q.limit) (newest_first l.ring), e) refl)

  rest_of :
      (n c : ℕ) (es : List Entry)
      → IsDescending es
      → keep (older c) matching ≡ es
      → length es < n
      → pages n q l c ≡ es
  unfolding pages last_id
  rest_of zero c es h e le = ground arith
  rest_of (suc n) c [] h e le = let (r, p) = page c in rw (p, e) refl
  rest_of (suc n) c (x ∷ xs) h e le =
      let (r, p) = page c in
      let m : ℕ = last_id (take (suc r) (x ∷ xs)) in
      let (pm, lm, k) = next_page r x xs h in
      let mono : (d : Entry) → older m d ≡ true → older c d ≡ true =
        λ d o. older_mono c m x d (first_older c matching e) lm o pm in
      let tail =
        rest_of n m (drop r xs) (subst IsDescending k (IsDescending-keep (older m) (x ∷ xs) h))
          (sym (keep-keep (older c) (older m) matching mono) ∙ ap (keep (older m)) e ∙ k)
          (omega (arith, length-drop r xs)) in
      let more : m == 0 ≡ false = ground (arith, pm) in
      rw (p, e) (rw more (ap (◌∷◌ x) (ap (◌++◌ (take r xs)) tail ∙ take-append-drop r xs)))

  -- If the ids in the ring descend from the newest entry to the oldest and are not 0, a caller who
  -- follows the cursors, once more than there are entries, gets all entries of the ring that match,
  -- each once and newest first.
  pub pages_lem :
      IsDescending (newest_first l.ring)
      → pages (suc (length (newest_first l.ring))) q l 0
        ≡ keep (λ (e : Entry). matches e q) (newest_first l.ring)
  pages_lem h =
      rest_of (suc (length (newest_first l.ring))) 0 matching
        (IsDescending-keep (λ (e : Entry). matches e q) (newest_first l.ring) h)
        (no_cursor matching)
        (omega (arith, length-keep (λ (e : Entry). matches e q) (newest_first l.ring)))
