-- ===== src/Slot/Gameplay.antt =====
-- internal/slot/slot.go and discord_adapter.go: `detectGameplayEvents` on one log entry, with what it
-- publishes, sends to the server's console and to the Discord channel, and the feature flags.
pub mod Told
pub mod Tests
use mcsm.Common.{
  ℕ, ◌-◌, Bool, true, false, not, ◌&&◌, ◌||◌, Option, none, some, List, [], ◌∷◌, ◌++◌, Bytes, codes,
  equal, has_suffix, length, take, ltb, if◌then◌else◌,
}
use mcsm.Logtail.Parser.{LogEntry}
use mcsm.Gameplay.Lines.{
  chat_message, flying_kick, parse_death, Death, DeathCause, cause_player, cause_mob, cause_fall,
  cause_drown, cause_fire, cause_lava, cause_explode, cause_suffoc, cause_void, cause_starve,
  cause_magic, cause_other,
}
use mcsm.Gameplay.Toxicity.{new_toxicity_checker, toxicity_match, has_no_matchers}

-- A decoded value of the features map.
pub data Feature : Type 0 where
  flag_value : Bool → Feature
  text_value : Bytes → Feature
  words_value : List Bytes → Feature
  -- `[]any`: what is not a text is `none`.
  mixed_value : List (Option Bytes) → Feature
  other_value : Feature

-- The last entry of a key does not occur: the map has each key once.
feature : Bytes → List (Bytes × Feature) → Option Feature
unfolding equal
feature key [] = none
feature key ((k, v) ∷ fs) = let rest = feature key fs in if equal k key then some v else rest

bool_of : Bool → Option Feature → Bool
unfolding equal
bool_of def none = def
bool_of def (some (flag_value b)) = b
bool_of def (some (text_value t)) = equal t (codes "true")
bool_of def (some (words_value ws)) = def
bool_of def (some (mixed_value ws)) = def
bool_of def (some other_value) = def

-- `none` is the nil map.
unfoldable pub feature_bool : Option (List (Bytes × Feature)) → Bytes → Bool → Bool
unfolding bool_of feature
feature_bool none key def = def
feature_bool (some fs) key def = bool_of def (feature key fs)

texts : List (Option Bytes) → List Bytes
texts [] = []
texts (none ∷ ws) = texts ws
texts (some w ∷ ws) = w ∷ texts ws

words_of : Option Feature → List Bytes
unfolding texts
words_of none = []
words_of (some (words_value ws)) = ws
words_of (some (mixed_value ws)) = texts ws
words_of (some (flag_value b)) = []
words_of (some (text_value t)) = []
words_of (some other_value) = []

toxicity_words : Option (List (Bytes × Feature)) → List Bytes
unfolding words_of feature
toxicity_words none = []
toxicity_words (some fs) = words_of (feature (codes "anti_toxicity_words") fs)

-- What the loop reads once, before its first entry.
pub record Detector : Type 0 where
  pub tox : List (Bytes → Bool)
  pub ban_flying : Bool
  pub emit_death : Bool

-- buildToxicityChecker, and the flags.
unfoldable pub detector :
    (Bytes → Option (Bytes → Bool)) → (Bytes → Bytes) → Option (List (Bytes × Feature)) → Detector
unfolding new_toxicity_checker toxicity_words feature_bool
detector compile lower features = record {
  tox = new_toxicity_checker compile lower (toxicity_words features);
  ban_flying = feature_bool features (codes "ban_flying") false;
  emit_death = feature_bool features (codes "death_messages") true;
}

pub data Effect : Type 0 where
  player_join player_leave : ℕ → Bytes → Effect
  chat : ℕ → Bytes → Bytes → Effect
  player_kick : ℕ → Bytes → Effect
  -- The player, the killer, the cause and the message.
  player_death : ℕ → Bytes → Bytes → Bytes → Bytes → Effect
  sent : Bytes → Effect
  noticed : Bytes → Effect

abbrev pub joined_suffix : Bytes
joined_suffix = codes " joined the game"

abbrev pub left_suffix : Bytes
left_suffix = codes " left the game"

pub cause_text : DeathCause → Bytes
cause_text cause_player = codes "player"
cause_text cause_mob = codes "mob"
cause_text cause_fall = codes "fall"
cause_text cause_drown = codes "drown"
cause_text cause_fire = codes "fire"
cause_text cause_lava = codes "lava"
cause_text cause_explode = codes "explode"
cause_text cause_suffoc = codes "suffoc"
cause_text cause_void = codes "void"
cause_text cause_starve = codes "starve"
cause_text cause_magic = codes "magic"
cause_text cause_other = codes "other"

-- runToxicityAction, runFlyingBan and notifyDiscord: with a connection, and with a bot.
toxicity_action : Bool → Bytes → List Effect
toxicity_action rcon player =
    if rcon
    then sent (
        codes "tellraw "
        ++ player
        ++ codes " {\"text\":\"[mcsm] Watch your language.\",\"color\":\"red\"}")
      ∷ []
    else []

flying_ban : Bool → Bytes → List Effect
flying_ban rcon player =
    if rcon then sent (codes "ban " ++ player ++ codes " Flying not allowed") ∷ [] else []

notify : Bool → Bytes → List Effect
notify bot msg = if bot then noticed (codes "💀 " ++ msg) ∷ [] else []

on_chat : Detector → Bool → ℕ → Bytes → Bytes → List Effect
unfolding has_no_matchers toxicity_match toxicity_action
on_chat w rcon at player text =
    (if not (has_no_matchers w.tox) then chat at player text ∷ [] else [])
    ++ (if not (has_no_matchers w.tox) && toxicity_match w.tox text
        then toxicity_action rcon player
        else [])

on_death : Bool → ℕ → Bytes → Option Death → List Effect
unfolding cause_text notify
on_death bot at msg none = []
on_death bot at msg (some d) =
    player_death at d.player d.killer (cause_text d.cause) msg ∷ notify bot msg

-- `none` also if the flag is off.
on_kick : Detector → Bool → Bool → ℕ → Bytes → Option Bytes → List Effect
unfolding flying_ban on_death parse_death
on_kick w rcon bot at msg (some player) = player_kick at player ∷ flying_ban rcon player
on_kick w rcon bot at msg none =
    on_death bot at msg (if w.emit_death then parse_death msg else none)

on_message : Detector → Bool → Bool → ℕ → Bytes → Option (Bytes × Bytes) → List Effect
unfolding on_chat on_kick flying_kick
on_message w rcon bot at msg (some (player, text)) = on_chat w rcon at player text
on_message w rcon bot at msg none =
    on_kick w rcon bot at msg (if w.ban_flying then flying_kick msg else none)

-- `msg[:len(msg)-len(suffix)]`
abbrev without_end : Bytes → Bytes → Bytes
without_end suffix msg = take (length msg - length suffix) msg

on_info : Detector → Bool → Bool → ℕ → Bytes → List Effect
unfolding on_message chat_message has_suffix
on_info w rcon bot at msg =
    if ltb 17 (length msg) && has_suffix joined_suffix msg
    then player_join at (without_end joined_suffix msg) ∷ []
    else (if ltb 15 (length msg) && has_suffix left_suffix msg
        then player_leave at (without_end left_suffix msg) ∷ []
        else on_message w rcon bot at msg (chat_message msg))

unfoldable pub on_entry : Detector → Bool → Bool → LogEntry → List Effect
unfolding on_info equal
on_entry w rcon bot e =
    if not (equal e.level (codes "INFO")) || not (equal e.thread (codes "Server thread"))
    then []
    else on_info w rcon bot e.ts e.message
