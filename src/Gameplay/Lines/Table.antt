-- ===== src/Gameplay/Lines/Table.antt =====
-- internal/gameplay/death.go: the table of `ParseDeath` against the phrases that it stands for.
use mathlib.Core.List.{Memᴰ}
use mcsm.Common.{
  ◌≡◌, refl, ap, ◌∙◌, Bool, true, false, not, ◌&&◌, ◌||◌, Bool-cases, inl, inr, List, [], ◌∷◌, ◌++◌,
  Bytes, codes, equal, equal_iff, has_prefix, arith,
}
use mcsm.Config.Validate.Checks.{has_prefix_iff}
use mcsm.Gameplay.Lines.{DeathPattern, death_patterns}

-- What may follow the player's name; what else follows a ` was` makes no difference.
abbrev pub death_phrases : List Bytes
death_phrases =
    codes " was"
    ∷ codes " fell from a high place"
    ∷ codes " hit the ground too hard"
    ∷ codes " drowned"
    ∷ codes " went up in flames"
    ∷ codes " burned to death"
    ∷ codes " tried to swim in lava"
    ∷ codes " blew up"
    ∷ codes " suffocated in a wall"
    ∷ codes " fell out of the world"
    ∷ codes " starved to death"
    ∷ []

-- Some element passes the test; every element does.
any : {A : Type 0} → (A → Bool) → List A → Bool
any p [] = false
any p (x ∷ xs) = p x || any p xs

all : {A : Type 0} → (A → Bool) → List A → Bool
all p [] = true
all p (x ∷ xs) = p x && all p xs

any-mem :
    {A : Type 0} (p : A → Bool) (xs : List A) → any p xs ≡ true → (x : A) × Memᴰ x xs × (p x ≡ true)
unfolding any
any-mem p [] h = ground (h, arith)
any-mem p (x ∷ xs) h = elim (Bool-cases (p x)) [
  | inl t ↦ (x, Memᴰ.head refl, t)
  | inr f ↦ let (y, m, t) = any-mem p xs (ground (f, h, arith)) in (y, Memᴰ.tail m, t)
]

all-mem :
    {A : Type 0} (p : A → Bool) (xs : List A) {x : A} → all p xs ≡ true → Memᴰ x xs → p x ≡ true
unfolding all
all-mem p [] h m = elim m [ ]
all-mem p (y ∷ ys) h (Memᴰ.head e) = ap p e ∙ ground (h, arith)
all-mem p (y ∷ ys) h (Memᴰ.tail m) = all-mem p ys (ground (h, arith)) m

abbrev is_plain : Bytes → DeathPattern → Bool
is_plain q p = equal p.phrase q && not p.has_killer

-- The phrase of each pattern starts with one of the phrases.
patterns_covered : all (λ p. any (λ q. has_prefix q p.phrase) death_phrases) death_patterns ≡ true
unfolding any all has_prefix
patterns_covered = refl

-- Each phrase has a pattern of its own, with no killer, and starts with a blank.
phrases_covered :
    all (λ q. has_prefix (codes " ") q && any (is_plain q) death_patterns) death_phrases ≡ true
unfolding any all has_prefix equal
phrases_covered = refl

pub phrase_of_pattern :
    {p : DeathPattern}
    → Memᴰ p death_patterns
    → (q rest : Bytes) × Memᴰ q death_phrases × (p.phrase ≡ q ++ rest)
phrase_of_pattern {p} m =
    let (q, n, t) =
      any-mem (λ q. has_prefix q p.phrase) death_phrases
        (all-mem _ death_patterns patterns_covered m) in
    let (rest, e) = (has_prefix_iff q p.phrase).0 t in (q, rest, n, e)

pub pattern_of_phrase :
    {q : Bytes}
    → Memᴰ q death_phrases
    → (p : DeathPattern) × Memᴰ p death_patterns
      × (p.phrase ≡ q)
      × (p.has_killer ≡ false)
      × ((rest : Bytes) × (q ≡ b' ' ∷ rest))
pattern_of_phrase {q} m =
    let h = all-mem _ death_phrases phrases_covered m in
    let (p, n, t) = any-mem (is_plain q) death_patterns (ground (h, arith)) in
    let (rest, e) = (has_prefix_iff (codes " ") q).0 (ground (h, arith)) in
    (p, n, (equal_iff p.phrase q).0 (ground (t, arith)), ground (t, arith), (rest, e))
