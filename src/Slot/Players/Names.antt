-- ===== src/Slot/Players/Names.antt =====
-- The names in the answer to `list` are read back.
use mcsm.Common.{ℕ, ◌≡◌, false, List, [], ◌∷◌, ◌++◌, Bytes, is_white, ◌==◌, All}

abbrev NameByte : ℕ → Type 0
NameByte c = (is_white c ≡ false) × ((c == b',') ≡ false)

-- A name of a player: not empty, with no white space and no comma.
abbrev pub IsPlayer : Bytes → Type 0
IsPlayer [] = ⊥
IsPlayer (c ∷ cs) = All NameByte (c ∷ cs)

-- The names as the server joins them.
unfoldable pub joined_names : Bytes → List Bytes → Bytes
joined_names n [] = n
joined_names n (m ∷ ms) = n ++ (b',' ∷ b' ' ∷ joined_names m ms)

-- A text that does not start with white space.
StartsDark : Bytes → Type 0
StartsDark [] = Unit
StartsDark (c ∷ cs) = is_white c ≡ false

abbrev HasNoColon : Bytes → Type 0
HasNoColon = All (λ (c : ℕ). (c == b':') ≡ false)

-- The answer of the server: a text without a colon, then the names.
abbrev pub listing : Bytes → List Bytes → Bytes
listing p [] = p ++ (b':' ∷ b' ' ∷ [])
listing p (n ∷ ms) = p ++ (b':' ∷ b' ' ∷ joined_names n ms)
