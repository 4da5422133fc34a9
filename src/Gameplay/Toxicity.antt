-- ===== src/Gameplay/Toxicity.antt =====
-- internal/gameplay/toxicity.go: the checker's patterns. Compiling and matching a pattern, and the lower
-- case of a text, are libraries'. A text's elements are its code points.
use mcsm.Common.{
  ◌||◌, Bool, true, false, Option, none, some, List, [], ◌∷◌, ◌++◌, Bytes, codes, trim_space,
}

-- Between two letters other characters may stand, and each letter may be repeated.
letters : Bytes → Bytes
letters [] = []
letters (c ∷ []) = c ∷ codes "+"
letters (c ∷ d ∷ cs) = c ∷ codes "+" ++ codes "[\\W_]*" ++ letters (d ∷ cs)

unfoldable pub word_pattern : Bytes → Bytes
unfolding letters
word_pattern w = codes "(?i)\\b" ++ letters w ++ codes "\\b"

-- Whether a text has a match of the compiled pattern; `none` for a pattern that does not compile.
add_matcher : Option (Bytes → Bool) → List (Bytes → Bool) → List (Bytes → Bool)
add_matcher none ms = ms
add_matcher (some m) ms = m ∷ ms

matcher_of : (Bytes → Option (Bytes → Bool)) → Bytes → Option (Bytes → Bool)
unfolding word_pattern
matcher_of compile [] = none
matcher_of compile (c ∷ cs) = compile (word_pattern (c ∷ cs))

unfoldable pub new_toxicity_checker :
    (Bytes → Option (Bytes → Bool)) → (Bytes → Bytes) → List Bytes → List (Bytes → Bool)
unfolding matcher_of add_matcher trim_space
new_toxicity_checker compile lower [] = []
new_toxicity_checker compile lower (w ∷ ws) =
    add_matcher (matcher_of compile (lower (trim_space w))) (new_toxicity_checker compile lower ws)

unfoldable pub toxicity_match : List (Bytes → Bool) → Bytes → Bool
toxicity_match [] text = false
toxicity_match (m ∷ ms) text = m text || toxicity_match ms text

unfoldable pub has_no_matchers : List (Bytes → Bool) → Bool
has_no_matchers [] = true
has_no_matchers (m ∷ ms) = false
