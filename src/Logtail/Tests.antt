-- ===== src/Logtail/Tests.antt =====
-- The theorems of Logtail at concrete inputs, and tests.
use mcsm.Common.{ℕ, ◌≡◌, refl, some, List, [], ◌∷◌, ◌++◌, Bytes, codes, map, length, last_n, pos}
use mcsm.Logtail.Broadcaster.{
  Broadcaster, new_broadcaster, Call, subscribe_call, unsubscribe_call, publish_call, close_call,
  calls,
}
use mcsm.Logtail.Broadcaster.Safety.{IsSound, broadcaster_calls-IsSound}
use mcsm.Logtail.Parser.{parse, trim_end}
use mcsm.Logtail.Parser.RoundTrip.{Stamp, line_of}
use mcsm.Logtail.Tailer.{Tailer, new_tailer, positive_or, recent, emit_lines, read_until_eof}
use mcsm.Logtail.Tailer.Lines.{read_until_eof-append}
use mcsm.Logtail.Tailer.History.{emit_lines-recent}

abbrev script : List (Call ℕ)
script =
    subscribe_call (pos 0)
    ∷ publish_call 5
    ∷ close_call
    ∷ unsubscribe_call 0
    ∷ subscribe_call (pos 2)
    ∷ []

script-IsSound : (b : Broadcaster ℕ) × (calls script new_broadcaster ≡ some b) × IsSound b
script-IsSound = broadcaster_calls-IsSound script

abbrev noon : Stamp
noon = record { h1 = b'1'; h2 = b'2'; m1 = b'0'; m2 = b'5'; s1 = b'0'; s2 = b'9' }

joined_line :
    line_of noon (codes "Server thread") (codes "INFO") (codes "Steve joined")
    ≡ codes "[12:05:09] [Server thread/INFO]: Steve joined"
joined_line = refl

-- A line that is read before its end has been written is emitted in two parts.
cut_line :
    (read_until_eof (codes "ab") 0).0 ++ (read_until_eof (codes "abcd" ++ 10 ∷ []) 2).0
    ≡ codes "ab" ∷ codes "cd" ∷ []
unfolding read_until_eof trim_end
cut_line = refl

read_until_eof-append_example :
    (read_until_eof (codes "ab" ++ 10 ∷ []) 0).0
      ++ (read_until_eof
          ((codes "ab" ++ 10 ∷ []) ++ codes "cd")
          (read_until_eof (codes "ab" ++ 10 ∷ []) 0).1).0
    ≡ (read_until_eof ((codes "ab" ++ 10 ∷ []) ++ codes "cd") 0).0
read_until_eof-append_example = read_until_eof-append (codes "ab") (codes "cd")

emit_lines-recent_example :
    (t : Tailer) × (emit_lines 9 (codes "a" ∷ codes "b" ∷ []) (new_tailer (pos 1)) ≡ some t)
    × (t.history
        ≡ last_n
            (positive_or 5000 (pos 1))
            (map (λ (l : Bytes). parse l 9) (codes "a" ∷ codes "b" ∷ [])))
    × (recent (pos 3) t ≡ last_n (positive_or (length t.history) (pos 3)) t.history)
emit_lines-recent_example = emit_lines-recent (pos 1) (pos 3) (codes "a" ∷ codes "b" ∷ []) 9
