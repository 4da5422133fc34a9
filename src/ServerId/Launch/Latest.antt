-- ===== src/ServerId/Launch/Latest.antt =====
-- internal/serverid/launch.go: `latestMatching` finds the last of the files that match, in Go's order.
use mathlib.Core.Option.{some-injective}
use mcsm.Common.{
  ℕ, ◌≡◌, refl, sym, subst, ◌⊎◌, inl, inr, Bool, true, false, Bool-cases, if_rule, none, some, List,
  [], ◌∷◌, Bytes, has_prefix, if◌then◌else◌, Kept, nowhere, first_kept, other_kept, choose,
  choose_all, choose_all-Kept, arith,
}
use mcsm.ServerId.Launch.{DirEntry, above, fits, take_later, latest_from, latest_matching}

-- The second text comes later in Go's order.
unfoldable pub higher : Bytes → Bytes → Bool
higher a b = above b a

above_trans : (a b c : Bytes) → above b a ≡ true → above c b ≡ true → above c a ≡ true
unfolding above
above_trans a [] c h k = cc
above_trans a (y ∷ ys) [] h k = cc
above_trans [] (y ∷ ys) (z ∷ zs) h k = refl
above_trans (x ∷ xs) (y ∷ ys) (z ∷ zs) h k = ground (h, k, above_trans xs ys zs, arith)

above_over : (a b c : Bytes) → above b a ≡ false → above c a ≡ true → above c b ≡ true
unfolding above
above_over a b [] h k = cc
above_over a [] (z ∷ zs) h k = refl
above_over [] (y ∷ ys) (z ∷ zs) h k = cc
above_over (x ∷ xs) (y ∷ ys) (z ∷ zs) h k = ground (h, k, above_over xs ys zs, arith)

-- The files that match, in the directory's order.
abbrev pub matching : Bytes → Bytes → List DirEntry → List Bytes
matching p s [] = []
matching p s (e ∷ es) = if fits p s e then e.name ∷ matching p s es else matching p s es

latest_from-choose_all :
    (p s best : Bytes) (es : List DirEntry)
    → some (latest_from p s best es) ≡ choose_all higher (some best) (matching p s es)
unfolding latest_from take_later choose_all choose higher
latest_from-choose_all p s best [] = refl
latest_from-choose_all p s best (e ∷ es) = elim (Bool-cases (fits p s e)) [
  | inl t ↦ rw t (go (λ b. latest_from-choose_all p s b es) (above e.name best))
  | inr f ↦ rw f (latest_from-choose_all p s best es)
]
  where
    go :
        ((b : Bytes) → some (latest_from p s b es) ≡ choose_all higher (some b) (matching p s es))
        → (b : Bool)
        → some (latest_from p s (if b then e.name else best) es)
          ≡ choose_all higher (if b then some e.name else some best) (matching p s es)
    go h true = h e.name
    go h false = h best

StartsFilled : List Bytes → Type 0
StartsFilled [] = Unit
StartsFilled (n ∷ ns) = above n [] ≡ true

prefixed-filled : (c : ℕ) (p x : Bytes) → has_prefix (c ∷ p) x ≡ true → above x [] ≡ true
unfolding has_prefix above
prefixed-filled c p [] k = cc
prefixed-filled c p (d ∷ ds) k = refl

matching-StartsFilled :
    (c : ℕ) (p s : Bytes) (es : List DirEntry) → StartsFilled (matching (c ∷ p) s es)
unfolding fits StartsFilled
matching-StartsFilled c p s [] = tt
matching-StartsFilled c p s (e ∷ es) =
    if_rule StartsFilled (fits (c ∷ p) s e) (λ t. prefixed-filled c p e.name (ground (t, arith)))
      (λ f. matching-StartsFilled c p s es)

abbrev pub Chosen : List Bytes → Bytes → Type 0
Chosen m l =
    ((m ≡ []) × (l ≡ []))
    ⊎ ((d : ℕ) × (ds : Bytes) × (l ≡ d ∷ ds) × Kept higher none m (some (d ∷ ds)))

Kept-Chosen :
    (m : List Bytes) (l : Bytes) → StartsFilled m → Kept higher (some []) m (some l) → Chosen m l
unfolding higher above StartsFilled
Kept-Chosen m l h (nowhere n e k) = cc
Kept-Chosen m (d ∷ ds) h (first_kept a e k q) = cc
Kept-Chosen m (d ∷ ds) h (other_kept a before after e b k l q) =
    inr (d, ds, refl, other_kept a before after e tt k l q)
Kept-Chosen [] [] h k = inl (refl, refl)
Kept-Chosen (n ∷ ns) [] h (first_kept a e k q) =
    let same : [] ≡ a = some-injective _ _ e in
    let stays : above n a ≡ false = k.0 in
    let below : above n [] ≡ false = subst (λ x. above n x ≡ false) (sym same) stays in cc
Kept-Chosen (n ∷ ns) [] h (other_kept a before after e b k l q) =
    let same : [] ≡ a = some-injective _ _ q in
    let itself : above [] [] ≡ true = subst (λ x. above x [] ≡ true) (sym same) b in cc

-- The jar that is found, or nothing to find.
pub latest_matching-Chosen :
    (c : ℕ) (p s : Bytes) (es : List DirEntry)
    → Chosen (matching (c ∷ p) s es) (latest_matching es (c ∷ p) s)
unfolding latest_matching higher
latest_matching-Chosen c p s es =
    Kept-Chosen (matching (c ∷ p) s es) (latest_matching es (c ∷ p) s)
      (matching-StartsFilled c p s es)
      (subst (Kept higher (some []) (matching (c ∷ p) s es))
        (sym (latest_from-choose_all (c ∷ p) s [] es))
        (choose_all-Kept higher above_trans above_over (some []) (matching (c ∷ p) s es)))
