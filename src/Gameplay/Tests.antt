-- ===== src/Gameplay/Tests.antt =====
-- The theorems of Gameplay at concrete inputs, and tests.

use mcsm.Common.{◌≡◌, ◌↔◌, refl, none, some, [], codes}
use mcsm.Gameplay.Lines.{
  Death, cause_magic, cause_mob, cause_other, chat_message, flying_kick, parse_death,
}
use mcsm.Gameplay.Lines.Deaths.{IsDeathOf, parse_death_iff}
use mcsm.Gameplay.Toxicity.{word_pattern}

parse_death_iff_example : IsDeathOf (codes "Steve") (codes "Steve was pricked to death") ↔ (
    (d : Death) × (parse_death (codes "Steve was pricked to death") ≡ some d)
    × (d.player ≡ codes "Steve"))
parse_death_iff_example = parse_death_iff (codes "Steve") (codes "Steve was pricked to death")

-- The pattern for magic comes first, and needs no end of a word.
magic_first :
    parse_death (codes "Steve was killed by magicians")
    ≡ some (record {
      player = codes "Steve";
      cause = cause_magic;
      killer = [];
      raw_tail = codes "was killed by magicians";
    })
unfolding parse_death
magic_first = refl

-- A killer's name stops at the first byte that is not one of a name.
zombie :
    parse_death (codes "Steve was slain by Zombie using Axe")
    ≡ some (record {
      player = codes "Steve";
      cause = cause_mob;
      killer = codes "Zombie";
      raw_tail = codes "was slain by Zombie using Axe";
    })
unfolding parse_death
zombie = refl

-- What no pattern knows is a death if ` was` follows the name.
kicked_is_dead :
    parse_death (codes "Steve was kicked")
    ≡ some (record {
      player = codes "Steve";
      cause = cause_other;
      killer = [];
      raw_tail = codes "was kicked";
    })
unfolding parse_death
kicked_is_dead = refl

chat_blank : chat_message (codes "<Steve>  hi > there") ≡ some (codes "Steve", codes "hi > there")
unfolding chat_message
chat_blank = refl

chat_unnamed : chat_message (codes "<> hi") ≡ none
unfolding chat_message
chat_unnamed = refl

kick_boundary :
    flying_kick (codes "Steve lost connection: Flying is not enabled on this servers") ≡ none
unfolding flying_kick
kick_boundary = refl

fu_pattern : word_pattern (codes "fu") ≡ codes "(?i)\\bf+[\\W_]*u+\\b"
unfolding word_pattern
fu_pattern = refl
