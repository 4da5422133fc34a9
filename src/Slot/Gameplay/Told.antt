-- ===== src/Slot/Gameplay/Told.antt =====
-- internal/slot/slot.go: what the lines that a server writes bring about.
use mcsm.Common.{
  ℕ, ◌-◌, ◌≤◌, ◌≡◌, refl, ap, ◌∙◌, Bool, true, false, not, ◌&&◌, ◌||◌, Bool-cases, inl, inr, Option,
  none, some, List, [], ◌∷◌, ◌++◌, Bytes, codes, has_suffix, has_suffix-append, length,
  length-append, take, take-append_length, reverse_onto, reverse_onto-append, has_prefix, ltb,
  equal, if◌then◌else◌, arith,
}
use mcsm.Logtail.Parser.{LogEntry}
use mcsm.Gameplay.Lines.{chat_message}
use mcsm.Gameplay.Lines.Chat.{IsSpeaker, IsSaid, chat_of, chat_message-chat_of}
use mcsm.Gameplay.Lines.Names.{IsName}
use mcsm.Gameplay.Lines.Messages.{
  Demise, IsDemise, kick_phrase, phrase_of, cause_of, killer_in, parse_death-Demise,
  parse_death-kick, flying_kick-Demise, flying_kick-IsName, chat_message-IsName,
}
use mcsm.Gameplay.Toxicity.{toxicity_match, has_no_matchers}
use mcsm.Slot.Gameplay.{
  Detector, Effect, player_join, player_leave, chat, player_kick, player_death, sent, noticed,
  joined_suffix, left_suffix, cause_text, without_end, on_chat, on_death, on_kick, flying_ban,
  notify, on_message, on_info, on_entry,
}

-- What a server tells of its players.
pub data Line : Type 0 where
  joins leaves kicked : Bytes → Line
  says : Bytes → Bytes → Line
  dies : Bytes → Demise → Line

abbrev pub line_of : Line → Bytes
line_of (joins n) = n ++ joined_suffix
line_of (leaves n) = n ++ left_suffix
line_of (kicked n) = n ++ kick_phrase
line_of (says p t) = chat_of p t
line_of (dies n d) = n ++ phrase_of d

-- No end that stands for a join or a leave.
abbrev pub IsOther : Bytes → Type 0
IsOther m = (has_suffix joined_suffix m ≡ false) × (has_suffix left_suffix m ≡ false)

abbrev pub IsTold : Line → Type 0
IsTold (joins n) = 2 ≤ length n
IsTold (leaves n) = 2 ≤ length n
IsTold (kicked n) = IsName n
IsTold (says p t) = IsSpeaker p × IsSaid t × IsOther (chat_of p t)
IsTold (dies n d) = IsName n × IsDemise d × IsOther (n ++ phrase_of d)

abbrev pub only_if : Bool → List Effect → List Effect
only_if b es = if b then es else []

-- What is published, sent to the server's console and noticed in the Discord channel.
abbrev pub outcome : Detector → Bool → Bool → ℕ → Line → List Effect
outcome w rcon bot at (joins n) = player_join at n ∷ []
outcome w rcon bot at (leaves n) = player_leave at n ∷ []
outcome w rcon bot at (kicked n) =
    only_if w.ban_flying (
      player_kick at n
      ∷ only_if rcon (sent (codes "ban " ++ n ++ codes " Flying not allowed") ∷ []))
outcome w rcon bot at (says p t) = only_if (not (has_no_matchers w.tox)) (
    chat at p t
    ∷ only_if (toxicity_match w.tox t && rcon) (
        sent (
          codes "tellraw "
          ++ p
          ++ codes " {\"text\":\"[mcsm] Watch your language.\",\"color\":\"red\"}")
        ∷ []))
outcome w rcon bot at (dies n d) = only_if w.emit_death (
    player_death at n (killer_in d) (cause_text (cause_of d)) (n ++ phrase_of d)
    ∷ only_if bot (noticed (codes "💀 " ++ (n ++ phrase_of d)) ∷ []))

has_suffix-other :
    (p s q : Bytes)
    → has_suffix p (s ++ q) ≡ has_prefix (reverse_onto p []) (reverse_onto q (reverse_onto s []))
unfolding has_suffix
has_suffix-other p s q = ap (has_prefix (reverse_onto p [])) (reverse_onto-append s q [])

without_end-append : (s m : Bytes) → without_end s (m ++ s) ≡ m
without_end-append s m =
    let n : length (m ++ s) - length s ≡ length m = omega (arith, length-append m s) in
    ap (λ n. take n (m ++ s)) n ∙ take-append_length m s

if_same : {A : Type 0} (b : Bool) (a : A) → (if b then a else a) ≡ a
if_same true a = refl
if_same false a = refl

if-not-or :
    (a b : Bool) (es : List Effect)
    → (if not a || not b then [] else es) ≡ (if a && b then es else [])
if-not-or true true es = refl
if-not-or true false es = refl
if-not-or false b es = refl

module _ (w : Detector) (rcon bot : Bool) (at : ℕ) where
  on_info-joined :
      (m : Bytes)
      → 2 ≤ length m
      → on_info w rcon bot at (m ++ joined_suffix) ≡ player_join at m ∷ []
  unfolding on_info
  on_info-joined m h =
      let long : ltb 17 (length (m ++ joined_suffix)) ≡ true =
        ground (arith, length-append m joined_suffix) in
      rw (long, has_suffix-append joined_suffix m, without_end-append joined_suffix m) refl

  on_info-left :
      (m : Bytes) → 2 ≤ length m → on_info w rcon bot at (m ++ left_suffix) ≡ player_leave at m ∷ []
  unfolding on_info has_prefix
  on_info-left m h =
      let long : ltb 15 (length (m ++ left_suffix)) ≡ true =
        ground (arith, length-append m left_suffix) in
      let other : has_suffix joined_suffix (m ++ left_suffix) ≡ false =
        has_suffix-other joined_suffix m left_suffix in
      ground (long, other, has_suffix-append left_suffix m, without_end-append left_suffix m, arith)

  on_info-other :
      (m : Bytes)
      → IsOther m
      → on_info w rcon bot at m ≡ on_message w rcon bot at m (chat_message m)
  unfolding on_info
  on_info-other m (j, l) = ground (j, l, arith)

  on_message-says :
      (p t : Bytes)
      → on_message w rcon bot at (chat_of p t) (some (p, t)) ≡ outcome w rcon bot at (says p t)
  unfolding on_message on_chat
  on_message-says p t = ground arith

  on_message-kicked :
      (n : Bytes)
      → IsName n
      → on_message w rcon bot at (n ++ kick_phrase) none ≡ outcome w rcon bot at (kicked n)
  unfolding on_message flying_ban
  on_message-kicked n h = elim (Bool-cases w.ban_flying) [
    | inl t ↦ rw (t, flying_kick-IsName n h) refl
    | inr f ↦ rw (f, parse_death-kick n h) (ground arith)
  ]

  on_message-dies :
      (n : Bytes) (d : Demise)
      → IsName n
      → IsDemise d
      → on_message w rcon bot at (n ++ phrase_of d) none ≡ outcome w rcon bot at (dies n d)
  unfolding on_message on_kick on_death notify
  on_message-dies n d h k =
      rw (flying_kick-Demise n d h, if_same {A = Option Bytes} w.ban_flying none)
        (rw (on_kick, parse_death-Demise n d h k) (ground arith))

  on_info-line_of :
      (l : Line) → IsTold l → on_info w rcon bot at (line_of l) ≡ outcome w rcon bot at l
  unfolding has_prefix
  on_info-line_of (joins n) h = on_info-joined n h
  on_info-line_of (leaves n) h = on_info-left n h
  on_info-line_of (kicked n) h =
      on_info-other (n ++ kick_phrase)
        (has_suffix-other joined_suffix n kick_phrase, has_suffix-other left_suffix n kick_phrase)
      ∙ ap (on_message w rcon bot at (n ++ kick_phrase)) (chat_message-IsName n kick_phrase h)
      ∙ on_message-kicked n h
  on_info-line_of (says p t) (h, s, o) =
      on_info-other (chat_of p t) o
      ∙ ap (on_message w rcon bot at (chat_of p t)) (chat_message-chat_of p t h s)
      ∙ on_message-says p t
  on_info-line_of (dies n d) (h, k, o) =
      on_info-other (n ++ phrase_of d) o
      ∙ ap (on_message w rcon bot at (n ++ phrase_of d)) (chat_message-IsName n (phrase_of d) h)
      ∙ on_message-dies n d h k

-- An entry whose message tells of a join, a leave, a kick for flying, a chat or a death, in any of the sixteen
-- phrases that the patterns know, brings about just what the features ask for if the entry is one of the server's
-- main thread at level INFO, and nothing otherwise. A join or a leave is every message with that end after two
-- bytes or more, a player's chat too; chat and deaths are told of if they have no such end, and a death by
-- a killer's name or by the general phrase if no earlier pattern takes it.
pub on_entry-line_of :
    (w : Detector) (rcon bot : Bool) (e : LogEntry) (l : Line)
    → IsTold l
    → e.message ≡ line_of l
    → on_entry w rcon bot e ≡ (
        if equal e.level (codes "INFO") && equal e.thread (codes "Server thread")
        then outcome w rcon bot e.ts l
        else [])
unfolding on_entry
on_entry-line_of w rcon bot e l h m =
    let info = equal e.level (codes "INFO") in
    let main = equal e.thread (codes "Server thread") in
    let told : on_info w rcon bot e.ts e.message ≡ outcome w rcon bot e.ts l =
      ap (on_info w rcon bot e.ts) m ∙ on_info-line_of w rcon bot e.ts l h in
    ap (λ es. if not info || not main then [] else es) told
    ∙ if-not-or info main (outcome w rcon bot e.ts l)
