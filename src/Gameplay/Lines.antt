-- ===== src/Gameplay/Lines.antt =====
-- internal/gameplay/death.go: `ChatMessage`, `FlyingKick`, `ParseDeath` with its table. Each pattern is
-- read from left to right: what follows a repeated class is a byte outside of it, or the pattern's end.
pub mod Chat
pub mod Names
pub mod Messages
pub mod Table
pub mod Deaths
use mcsm.Common.{
  ℕ, Bool, true, false, not, ◌&&◌, ◌||◌, Option, none, some, List, [], ◌∷◌, Bytes, codes,
  has_prefix, length, take, ltb, leb, ◌==◌, if◌then◌else◌, trim_space,
}
use mcsm.Logtail.Parser.{span, skip, rest_of_line, is_space}

infixl 5 ◌>>=◌
abbrev pub ◌>>=◌ : {A B : Type 0} → Option A → (A → Option B) → Option B
none >>= k = none
some a >>= k = k a

-- The text after a fixed start.
unfoldable pub strip : Bytes → Bytes → Option Bytes
strip [] s = some s
strip (p ∷ ps) [] = none
strip (p ∷ ps) (c ∷ cs) = let rest = strip ps cs in if p == c then rest else none

-- `^<([^>]+)>\s+(.*)$`
after_player : Bytes → Bytes → Option (Bytes × Bytes)
unfolding skip rest_of_line
after_player player [] = none
after_player player (c ∷ cs) =
    if is_space c then (rest_of_line (skip (c ∷ cs)) >>= λ text. some (player, text)) else none

after_bracket : Bytes × Bytes → Option (Bytes × Bytes)
unfolding after_player
after_bracket (player, []) = none
after_bracket ([], _ ∷ _) = none
after_bracket (c ∷ cs, _ ∷ rest) = after_player (c ∷ cs) rest

unfoldable pub chat_message : Bytes → Option (Bytes × Bytes)
unfolding after_bracket span
chat_message [] = none
chat_message (c ∷ cs) = if c == b'<' then after_bracket (span (λ d. not (d == b'>')) cs) else none

-- `[A-Za-z0-9_]`, which is also `\w`.
abbrev pub is_word_byte : ℕ → Bool
is_word_byte c =
    leb b'A' c && leb c b'Z' || leb b'a' c && leb c b'z' || leb b'0' c && leb c b'9' || c == b'_'

-- `^([A-Za-z0-9_]{1,16})` with a space after it.
unfoldable pub name_first : Bytes → Option (Bytes × Bytes)
unfolding span
name_first s =
    let (name, rest) = span is_word_byte s in
    if leb 1 (length name) && leb (length name) 16 then some (name, rest) else none

-- `([A-Za-z0-9_]{1,16})` at a pattern's end: as many bytes as there are.
name_last : Bytes → Option Bytes
unfolding span
name_last s =
    let name = take 16 (span is_word_byte s).0 in if length name == 0 then none else some name

-- `\b` after a word.
at_boundary : Bytes → Bool
at_boundary [] = true
at_boundary (c ∷ cs) = not (is_word_byte c)

unfoldable pub flying_kick : Bytes → Option Bytes
unfolding name_first strip at_boundary
flying_kick m = name_first m >>= λ p.
    strip (codes " lost connection: Flying is not enabled on this server") p.1 >>= λ rest.
    if at_boundary rest then some p.0 else none

pub data DeathCause : Type 0 where
  cause_player cause_mob cause_fall cause_drown cause_fire cause_lava : DeathCause
  cause_explode cause_suffoc cause_void cause_starve cause_magic cause_other : DeathCause

pub record Death : Type 0 where
  pub player : Bytes
  pub cause : DeathCause
  pub killer : Bytes
  pub raw_tail : Bytes

-- The text after the player's name, and whether a killer's name follows it.
pub record DeathPattern : Type 0 where
  pub phrase : Bytes
  pub cause : DeathCause
  pub has_killer : Bool

abbrev without_killer : Bytes → DeathCause → DeathPattern
without_killer phrase cause = record { phrase = phrase; cause = cause; has_killer = false }

abbrev by_killer : Bytes → DeathCause → DeathPattern
by_killer phrase cause = record { phrase = phrase; cause = cause; has_killer = true }

abbrev pub death_patterns : List DeathPattern
death_patterns =
    without_killer (codes " was killed by magic") cause_magic
    ∷ by_killer (codes " was slain by ") cause_mob
    ∷ by_killer (codes " was shot by ") cause_mob
    ∷ by_killer (codes " was killed by ") cause_mob
    ∷ by_killer (codes " was blown up by ") cause_explode
    ∷ without_killer (codes " fell from a high place") cause_fall
    ∷ without_killer (codes " hit the ground too hard") cause_fall
    ∷ without_killer (codes " drowned") cause_drown
    ∷ without_killer (codes " went up in flames") cause_fire
    ∷ without_killer (codes " burned to death") cause_fire
    ∷ without_killer (codes " tried to swim in lava") cause_lava
    ∷ without_killer (codes " blew up") cause_explode
    ∷ without_killer (codes " suffocated in a wall") cause_suffoc
    ∷ without_killer (codes " fell out of the world") cause_void
    ∷ without_killer (codes " starved to death") cause_starve
    ∷ without_killer (codes " was") cause_other
    ∷ []

-- The killer that a pattern finds after its phrase: none that is asked for, or a name.
killer_of : Bool → Bytes → Option Bytes
unfolding name_last
killer_of false rest = some []
killer_of true rest = name_last rest

-- A pattern on the text after the player's name.
killed : DeathPattern → Bytes → Option Bytes
unfolding strip killer_of
killed p rest = strip p.phrase rest >>= killer_of p.has_killer

death_or : DeathPattern → Bytes → Bytes → Option Bytes → Option Death → Option Death
unfolding trim_space
death_or p player rest none later = later
death_or p player rest (some killer) later =
    some (record { player = player; cause = p.cause; killer = killer; raw_tail = trim_space rest })

pub first_death : List DeathPattern → Bytes → Bytes → Option Death
unfolding killed death_or
first_death [] player rest = none
first_death (p ∷ ps) player rest =
    death_or p player rest (killed p rest) (first_death ps player rest)

-- Each pattern starts with the player's name, which is read once.
unfoldable pub parse_death : Bytes → Option Death
unfolding first_death name_first has_prefix
parse_death m =
    if has_prefix (codes "<") m
    then none
    else (name_first m >>= λ p. first_death death_patterns p.0 p.1)
