-- ===== src/Backup/Paths/Plain.antt =====
-- Clean paths that do not go up.
use mcsm.Common.{
  ℕ, ◌≡◌, refl, ap, ◌∙◌, ◌⊎◌, Bool, true, false, ◌||◌, Bool-cases, inl, inr, List, [], ◌∷◌, ◌++◌,
  Bytes, ◌==◌, equal, reverse_onto, reverse_onto-reverse_onto, arith, All, append-nil, if_rule,
}
use mcsm.Backup.Paths.{
  CleanPath, put_in, split_slash, dot, dot_dot, go_up, push, push_all, clean, join,
}

-- An element that names something in its directory.
abbrev pub IsPlain : Bytes → Type 0
IsPlain p =
    (equal p [] ≡ false)
    × (equal p dot ≡ false)
    × (equal p dot_dot ≡ false)
    × All (λ (c : ℕ). (c == b'/') ≡ false) p

abbrev NoSlash : Bytes → Type 0
NoSlash = All (λ (c : ℕ). (c == b'/') ≡ false)

put_in-All :
    (c : ℕ) (ps : List Bytes) → (c == b'/') ≡ false → All NoSlash ps → All NoSlash (put_in c ps)
unfolding put_in
put_in-All c [] n h = ((n, tt), tt)
put_in-All c (p ∷ ps) n h = ((n, h.0), h.1)

split_slash-All : (path : Bytes) → All NoSlash (split_slash path)
unfolding split_slash
split_slash-All [] = (tt, tt)
split_slash-All (c ∷ cs) = elim (Bool-cases (c == b'/')) [
  | inl t ↦ rw t (tt, split_slash-All cs)
  | inr f ↦ rw f (put_in-All c (split_slash cs) f (split_slash-All cs))
]

IsUp : Bytes → Type 0
IsUp p = equal p dot_dot ≡ true

-- Plain elements, above some `..`.
abbrev Stacked : List Bytes → Type 0
Stacked [] = Unit
Stacked (p ∷ ps) = (IsPlain p × Stacked ps) ⊎ (IsUp p × All IsUp ps)

go_up-Stacked : (stack : List Bytes) → Stacked stack → Stacked (go_up false stack)
unfolding go_up IsUp equal
go_up-Stacked [] h = inr (refl, tt)
go_up-Stacked (top ∷ stack) h = elim (Bool-cases (equal top dot_dot)) [
  | inl t ↦ rw t (elim h [ inl (p, q) ↦ ground (arith, t, p.2) | inr u ↦ inr (refl, u) ])
  | inr f ↦ rw f (elim h [ inl (p, q) ↦ q | inr (u, q) ↦ ground (arith, f, u) ])
]

push-Stacked :
    (stack : List Bytes) (part : Bytes)
    → NoSlash part
    → Stacked stack
    → Stacked (push false stack part)
unfolding push
push-Stacked stack part n h =
    if_rule Stacked (equal part [] || equal part dot) (λ t. h)
      (λ f.
        if_rule Stacked (equal part dot_dot) (λ t. go_up-Stacked stack h)
          (λ g. inl ((ground (arith, f), ground (arith, f), g, n), h)))

push_all-Stacked :
    (parts stack : List Bytes)
    → All NoSlash parts
    → Stacked stack
    → Stacked (push_all false stack parts)
unfolding push_all
push_all-Stacked [] stack n h = h
push_all-Stacked (p ∷ ps) stack n h =
    push_all-Stacked ps (push false stack p) n.1 (push-Stacked stack p n.0 h)

-- Either all elements are plain, or the first one is `..`.
IsUp-first :
    (p : Bytes) (ps acc : List Bytes)
    → IsUp p
    → All IsUp ps
    → (q : Bytes) × (rest : List Bytes) × (reverse_onto (p ∷ ps) acc ≡ q ∷ rest) × IsUp q
IsUp-first p [] acc u h = (p, acc, refl, u)
IsUp-first p (r ∷ ps) acc u h = IsUp-first r ps (p ∷ acc) h.0 h.1

Stacked-first :
    (stack acc : List Bytes)
    → Stacked stack
    → All IsPlain stack
      ⊎ ((q : Bytes) × (rest : List Bytes) × (reverse_onto stack acc ≡ q ∷ rest) × IsUp q)
Stacked-first [] acc h = inl tt
Stacked-first (p ∷ ps) acc (inr (u, h)) = inr (IsUp-first p ps acc u h)
Stacked-first (p ∷ ps) acc (inl (h, k)) = elim (Stacked-first ps (p ∷ acc) k) [
  | inl all ↦ inl (h, all)
  | inr up ↦ inr up
]

reverse-All :
    (xs ys : List Bytes) → All IsPlain xs → All IsPlain ys → All IsPlain (reverse_onto xs ys)
reverse-All [] ys h k = k
reverse-All (x ∷ xs) ys h k = reverse-All xs (x ∷ ys) h.1 (h.0, k)

-- A relative path is plain all the way, or starts by going up.
pub clean-IsPlain :
    (path : Bytes)
    → (clean path).rooted ≡ false
    → All IsPlain (clean path).parts
      ⊎ ((q : Bytes) × (rest : List Bytes) × ((clean path).parts ≡ q ∷ rest)
          × (equal q dot_dot ≡ true))
unfolding clean IsUp
clean-IsPlain path r =
    let s = push_all false [] (split_slash path) in
    rw r
      (elim (Stacked-first s []
        (push_all-Stacked (split_slash path) [] (split_slash-All path) tt)) [
          | inl all ↦ inl (reverse-All s [] all tt)
          | inr up ↦ inr up
        ])

push_all-plain :
    (rooted : Bool) (parts stack : List Bytes)
    → All IsPlain parts
    → push_all rooted stack parts ≡ reverse_onto parts stack
unfolding push_all push
push_all-plain rooted [] stack h = refl
push_all-plain rooted (p ∷ ps) stack ((a, b, c, n), h) =
    rw (a, b, c) (push_all-plain rooted ps (p ∷ stack) h)

-- Joining a plain path puts its elements behind those of the directory.
pub join-plain :
    (dir path : CleanPath)
    → All IsPlain path.parts
    → join dir path ≡ record { rooted = dir.rooted; parts = dir.parts ++ path.parts }
unfolding join
join-plain dir path h =
    ap (λ ps. record { rooted = dir.rooted; parts = ps })
      (ap (λ s. reverse_onto s [])
          (push_all-plain dir.rooted path.parts (reverse_onto dir.parts []) h)
        ∙ reverse_onto-reverse_onto path.parts (reverse_onto dir.parts []) []
        ∙ reverse_onto-reverse_onto dir.parts [] (path.parts ++ [])
        ∙ ap (λ x. dir.parts ++ x) (append-nil path.parts))
