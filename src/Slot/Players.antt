-- ===== src/Slot/Players.antt =====
-- internal/slot/discord_adapter.go and internal/api/handlers_server.go: the players' names in the answer to
-- the command `list`, which two places read in the same way.
pub mod Names
use mcsm.Common.{ℕ, Option, none, some, List, [], ◌∷◌, map, Bytes, ◌==◌, if◌then◌else◌, trim_space}

-- strings.Split with one byte, which gives at least one part.
in_front : ℕ → List Bytes → List Bytes
in_front c [] = (c ∷ []) ∷ []
in_front c (p ∷ ps) = (c ∷ p) ∷ ps

unfoldable pub split : ℕ → Bytes → List Bytes
unfolding in_front
split sep [] = [] ∷ []
split sep (c ∷ cs) = let rest = split sep cs in if c == sep then [] ∷ rest else in_front c rest

-- What follows the first colon.
after_colon : Bytes → Option Bytes
after_colon [] = none
after_colon (c ∷ cs) = let rest = after_colon cs in if c == b':' then some cs else rest

keep_name : Bytes → List Bytes → List Bytes
keep_name [] names = names
keep_name (c ∷ cs) names = (c ∷ cs) ∷ names

names_of : List Bytes → List Bytes
unfolding keep_name trim_space
names_of [] = []
names_of (p ∷ ps) = keep_name (trim_space p) (names_of ps)

names_after : Bytes → List Bytes
unfolding names_of split
names_after [] = []
names_after (c ∷ cs) = names_of (split b',' (c ∷ cs))

names_in : Option Bytes → List Bytes
unfolding names_after trim_space
names_in none = []
names_in (some rest) = names_after (trim_space rest)

unfoldable pub player_names : Bytes → List Bytes
unfolding names_in after_colon
player_names resp = names_in (after_colon resp)
