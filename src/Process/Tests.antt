-- ===== src/Process/Tests.antt =====
-- The theorems of Process at concrete inputs, and tests.
use mcsm.Common.{ℕ, ◌≡◌, refl, List, [], ◌∷◌, pos}
use mcsm.Process.RingBuffer.{LogLine, new_ring_buffer, push, push_all, tail}
use mcsm.Process.RingBuffer.Refine.{tail-push_all}

abbrev line : ℕ → LogLine
line n = record { at = n; stream = "stdout"; text = "x" }

-- Five lines through a buffer of three.
abbrev lines : List LogLine
lines = line 1 ∷ line 2 ∷ line 3 ∷ line 4 ∷ line 5 ∷ []

tail_wraps : tail (push_all (new_ring_buffer (pos 3)) lines) (pos 2) ≡ line 4 ∷ line 5 ∷ []
unfolding tail push_all push new_ring_buffer
tail_wraps = refl

tail-push_all_example :
    tail (push_all (new_ring_buffer (pos 3)) lines) (pos 9) ≡ line 3 ∷ line 4 ∷ line 5 ∷ []
tail-push_all_example = tail-push_all (pos 3) (pos 9) lines
