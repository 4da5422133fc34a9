-- ===== src/Gameplay/Lines/Chat.antt =====
-- internal/gameplay/death.go: `ChatMessage` and `FlyingKick` on the lines that a server writes.
use mcsm.Common.{
  ℕ, ◌<◌, ◌≡◌, refl, ap, ◌∙◌, true, false, not, some, [], ◌∷◌, ◌++◌, Bytes, length, ◌==◌, All,
  arith,
}
use mcsm.Logtail.Parser.{skip}
use mcsm.Logtail.Parser.RoundTrip.{span-end, rest_of_line-All}
use mcsm.Gameplay.Lines.{after_player, after_bracket, chat_message}

-- A name between the brackets of a chat line.
abbrev pub IsSpeaker : Bytes → Type 0
IsSpeaker p = (0 < length p) × All (λ (c : ℕ). not (c == b'>') ≡ true) p

-- A text of one line with no blank in front.
abbrev pub IsSaid : Bytes → Type 0
IsSaid t = (skip t ≡ t) × All (λ (c : ℕ). (c == 10) ≡ false) t

abbrev pub chat_of : Bytes → Bytes → Bytes
chat_of p t = b'<' ∷ (p ++ (b'>' ∷ b' ' ∷ t))

after_bracket-speaker :
    (p t : Bytes) → IsSpeaker p → IsSaid t → after_bracket (p, b'>' ∷ b' ' ∷ t) ≡ some (p, t)
unfolding after_bracket after_player skip
after_bracket-speaker [] t (l, a) h = absurd (omega arith)
after_bracket-speaker (c ∷ p) t (l, a) (s, h) = rw (s, rest_of_line-All t h) refl

pub chat_message-chat_of :
    (p t : Bytes) → IsSpeaker p → IsSaid t → chat_message (chat_of p t) ≡ some (p, t)
unfolding chat_message
chat_message-chat_of p t h s =
    ap after_bracket (span-end (λ d. not (d == b'>')) p b'>' (b' ' ∷ t) h.1 refl)
    ∙ after_bracket-speaker p t h s
