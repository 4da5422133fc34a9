-- ===== src/Slot/Gameplay/Tests.antt =====
-- The theorems of Slot.Gameplay at concrete inputs, and tests.
use mcsm.Common.{
  ◌≡◌, refl, Bool, true, false, Option, none, some, [], ◌∷◌, Bytes, codes, equal, has_suffix, arith,
}
use mcsm.Logtail.Parser.{LogEntry, skip}
use mcsm.Slot.Gameplay.{
  mixed_value, text_value, Detector, player_join, chat, sent, feature_bool, detector, on_entry,
}
use mcsm.Gameplay.Toxicity.{has_no_matchers, toxicity_match}
use mcsm.Slot.Gameplay.Told.{says, on_entry-line_of}

abbrev main_info : Bytes → LogEntry
main_info m = record {
  ts = 7;
  thread = codes "Server thread";
  level = codes "INFO";
  message = m;
  raw = m;
}

-- Each pattern matches its own text, so that the word is found if it stands alone.
abbrev exactly : Bytes → Option (Bytes → Bool)
exactly p = some (λ t. equal t (codes "fu"))

abbrev strict : Detector
strict =
    detector exactly (λ t. t)
      (some ((codes "anti_toxicity_words", mixed_value (none ∷ some (codes " fu ") ∷ [])) ∷ []))

on_entry-line_of_example :
    on_entry strict true true (main_info (codes "<Steve> fu"))
    ≡ chat 7 (codes "Steve") (codes "fu")
      ∷ sent (codes "tellraw Steve {\"text\":\"[mcsm] Watch your language.\",\"color\":\"red\"}")
      ∷ []
unfolding equal has_suffix detector has_no_matchers toxicity_match skip
on_entry-line_of_example =
    on_entry-line_of strict true true (main_info (codes "<Steve> fu"))
      (says (codes "Steve") (codes "fu"))
      (
        (omega arith, (refl, (refl, (refl, (refl, (refl, tt)))))),
        (refl, (refl, (refl, tt))),
        (refl, refl),
      )
      refl

-- A chat that ends like the message of a join is one.
chat_as_join :
    on_entry strict true true (main_info (codes "<Steve> Alex joined the game"))
    ≡ player_join 7 (codes "<Steve> Alex") ∷ []
unfolding on_entry detector
chat_as_join = refl

-- The default without a flag, and a text in its place.
flag_text :
    feature_bool
      (some ((codes "ban_flying", text_value (codes "true")) ∷ []))
      (codes "ban_flying")
      false
    ≡ true
unfolding feature_bool
flag_text = refl

flag_default : feature_bool none (codes "death_messages") true ≡ true
unfolding feature_bool
flag_default = refl
