-- ===== src/Gameplay/Lines/Messages.antt =====
-- internal/gameplay/death.go: the messages that a server writes of a player, and what the three patterns
-- read of them.
use mcsm.Common.{
  ℕ, ◌≡◌, refl, sym, ap, ◌∙◌, Bool, true, false, none, some, [], ◌∷◌, ◌++◌, Bytes, codes, length,
  take_all, ◌==◌, All, arith, trim_space,
}
use mcsm.Logtail.Parser.{span}
use mcsm.Gameplay.Lines.{
  is_word_byte, name_first, name_last, strip, chat_message, flying_kick, Death, DeathCause,
  cause_mob, cause_fall, cause_drown, cause_fire, cause_lava, cause_explode, cause_suffoc,
  cause_void, cause_starve, cause_magic, cause_other, death_patterns, first_death, parse_death,
}
use mcsm.Gameplay.Lines.Names.{IsName, name_first-IsName, parse_death_named}

abbrev pub kick_phrase : Bytes
kick_phrase = codes " lost connection: Flying is not enabled on this server"

-- What kills a player: the names with an argument name who did it, and `was` is any other end.
pub data Demise : Type 0 where
  fell hit_ground drowned flamed burned swam blew suffocated fell_out starved magic : Demise
  slain shot killed blown_up was : Bytes → Demise

abbrev pub phrase_of : Demise → Bytes
phrase_of fell = codes " fell from a high place"
phrase_of hit_ground = codes " hit the ground too hard"
phrase_of drowned = codes " drowned"
phrase_of flamed = codes " went up in flames"
phrase_of burned = codes " burned to death"
phrase_of swam = codes " tried to swim in lava"
phrase_of blew = codes " blew up"
phrase_of suffocated = codes " suffocated in a wall"
phrase_of fell_out = codes " fell out of the world"
phrase_of starved = codes " starved to death"
phrase_of magic = codes " was killed by magic"
phrase_of (killed k) = codes " was killed by " ++ k
phrase_of (was rest) = codes " was" ++ rest
phrase_of (slain k) = codes " was slain by " ++ k
phrase_of (shot k) = codes " was shot by " ++ k
phrase_of (blown_up k) = codes " was blown up by " ++ k

abbrev pub cause_of : Demise → DeathCause
cause_of fell = cause_fall
cause_of hit_ground = cause_fall
cause_of drowned = cause_drown
cause_of flamed = cause_fire
cause_of burned = cause_fire
cause_of swam = cause_lava
cause_of blew = cause_explode
cause_of suffocated = cause_suffoc
cause_of fell_out = cause_void
cause_of starved = cause_starve
cause_of magic = cause_magic
cause_of (killed k) = cause_mob
cause_of (was rest) = cause_other
cause_of (slain k) = cause_mob
cause_of (shot k) = cause_mob
cause_of (blown_up k) = cause_explode

abbrev pub killer_in : Demise → Bytes
killer_in (slain k) = k
killer_in (shot k) = k
killer_in (killed k) = k
killer_in (blown_up k) = k
killer_in _ = []

-- A killer's name does not start as `magic` does, and the end that is no other one has none of the other phrases.
abbrev pub IsDemise : Demise → Type 0
IsDemise (slain k) = IsName k
IsDemise (shot k) = IsName k
IsDemise (blown_up k) = IsName k
IsDemise (killed k) = IsName k × (strip (codes "magic") k ≡ none)
IsDemise (was rest) =
    (strip (codes " killed by magic") rest ≡ none)
    × (strip (codes " slain by ") rest ≡ none)
    × (strip (codes " shot by ") rest ≡ none)
    × (strip (codes " killed by ") rest ≡ none)
    × (strip (codes " blown up by ") rest ≡ none)
IsDemise _ = Unit

span-All : (p : ℕ → Bool) (s : Bytes) → All (λ (c : ℕ). p c ≡ true) s → span p s ≡ (s, [])
unfolding span
span-All p [] h = refl
span-All p (c ∷ s) h = rw (h.0, span-All p s h.1) refl

name_last-IsName : (k : Bytes) → IsName k → name_last k ≡ some k
unfolding name_last
name_last-IsName k (a, l, u) =
    let full : (length k == 0) ≡ false = ground (l, arith) in
    rw (span-All is_word_byte k a, take_all 16 k u, full) refl

abbrev pub death_of : Bytes → Demise → Death
death_of n d = record {
  player = n;
  cause = cause_of d;
  killer = killer_in d;
  raw_tail = trim_space (phrase_of d);
}

-- What the table's entries read after the player's name.
first_death-Demise :
    (n : Bytes) (d : Demise)
    → IsDemise d
    → first_death death_patterns n (phrase_of d) ≡ some (death_of n d)
unfolding first_death
first_death-Demise n (slain k) h = rw (name_last-IsName k h) refl
first_death-Demise n (shot k) h = rw (name_last-IsName k h) refl
first_death-Demise n (blown_up k) h = rw (name_last-IsName k h) refl
first_death-Demise n (killed k) (h, m) = rw (strip, m, name_last-IsName k h) refl
first_death-Demise n (was rest) (a, b, c, d, e) = rw (strip, a, b, c, d, e) refl
first_death-Demise n _ h = refl

-- The phrase starts with a blank.
blank_first : (d : Demise) → (rest : Bytes) × (phrase_of d ≡ b' ' ∷ rest)
blank_first fell = (_, refl)
blank_first _ = (_, refl)

name_first-phrase_of :
    (n : Bytes) (d : Demise) → IsName n → name_first (n ++ phrase_of d) ≡ some (n, phrase_of d)
name_first-phrase_of n d h =
    let (rest, e) = blank_first d in
    ap (λ q. name_first (n ++ q)) e
    ∙ name_first-IsName n b' ' rest h refl
    ∙ ap (λ q. some (n, q)) (sym e)

pub parse_death-Demise :
    (n : Bytes) (d : Demise)
    → IsName n
    → IsDemise d
    → parse_death (n ++ phrase_of d) ≡ some (death_of n d)
parse_death-Demise n d h k =
    parse_death_named (n ++ phrase_of d) n (phrase_of d) h refl (name_first-phrase_of n d h)
    ∙ first_death-Demise n d k

not_kick : (d : Demise) → strip kick_phrase (phrase_of d) ≡ none
unfolding strip
not_kick fell = refl
not_kick _ = refl

pub flying_kick-Demise : (n : Bytes) (d : Demise) → IsName n → flying_kick (n ++ phrase_of d) ≡ none
unfolding flying_kick
flying_kick-Demise n d h = rw (name_first-phrase_of n d h, not_kick d) refl

pub flying_kick-IsName : (n : Bytes) → IsName n → flying_kick (n ++ kick_phrase) ≡ some n
unfolding flying_kick
flying_kick-IsName n h =
    rw
      (name_first-IsName n b' ' (codes "lost connection: Flying is not enabled on this server") h
        refl)
      refl

pub parse_death-kick : (n : Bytes) → IsName n → parse_death (n ++ kick_phrase) ≡ none
unfolding first_death
parse_death-kick n h = parse_death_named (n ++ kick_phrase) n kick_phrase h refl (
    name_first-IsName n b' ' (codes "lost connection: Flying is not enabled on this server") h refl)

-- A message that starts with a name is no chat.
pub chat_message-IsName : (n r : Bytes) → IsName n → chat_message (n ++ r) ≡ none
unfolding chat_message
chat_message-IsName [] r (a, l, u) = absurd (omega arith)
chat_message-IsName (c ∷ n) r (a, l, u) =
    let named : is_word_byte c ≡ true = a.0 in
    let outside : (c == b'<') ≡ false = ground (named, arith) in rw outside refl
