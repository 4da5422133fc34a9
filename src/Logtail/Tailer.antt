-- ===== src/Logtail/Tailer.antt =====
-- internal/logtail/tailer.go: the entries that a tailer keeps, and the reading of new lines. A file is
-- its bytes at the time it is read.
pub mod Lines
pub mod History
use mcsm.Common.{
  ℕ, zero, suc, ◌+◌, ◌-◌, ◌^◌, Bool, true, false, ◌||◌, Option, none, some, List, [], ◌∷◌, ◌++◌,
  map, Bytes, ltb, leb, ◌==◌, if◌then◌else◌, length, drop, last_n, push_last, ℤ, pos, negsuc,
}
use mcsm.Logtail.Parser.{LogEntry, trim_end, parse}
use mcsm.Logtail.Broadcaster.{Broadcaster, new_broadcaster, publish}

pub record Tailer : Type 0 where
  pub history_n : ℕ
  pub history : List LogEntry
  pub bcast : Broadcaster LogEntry

unfoldable pub positive_or : ℕ → ℤ → ℕ
positive_or d (pos zero) = d
positive_or d (pos (suc n)) = suc n
positive_or d (negsuc n) = d

unfoldable pub new_tailer : ℤ → Tailer
unfolding positive_or
new_tailer history_n = record {
  history_n = positive_or 5000 history_n;
  history = [];
  bcast = new_broadcaster;
}

-- Up to `n` entries, all of them if `n` is not positive.
unfoldable pub recent : ℤ → Tailer → List LogEntry
unfolding positive_or
recent n t =
    let k = positive_or (length t.history) n in
    if ltb (length t.history) k then t.history else last_n k t.history

later : ℕ → List LogEntry → List LogEntry
later cursor [] = []
later cursor (e ∷ es) = let rest = later cursor es in if ltb cursor e.ts then e ∷ rest else rest

unfoldable pub since : ℕ → Tailer → List LogEntry
unfolding later
since cursor t = later cursor t.history

with_bcast : Tailer → Option (Broadcaster LogEntry) → Option Tailer
with_bcast t none = none
with_bcast t (some b) = some (record t { bcast = b })

-- `none` is a panic of the broadcaster.
unfoldable pub emit : LogEntry → Tailer → Option Tailer
unfolding with_bcast
emit e t = with_bcast (record t { history = push_last t.history_n t.history e }) (publish e t.bcast)

-- What `ReadString('\n')` gives, one call after the other, up to the end of the file: the lines with
-- their line feeds, and what stands after the last line feed.
joined : ℕ → List Bytes → List Bytes
joined c [] = (c ∷ []) ∷ []
joined c (l ∷ ls) = (c ∷ l) ∷ ls

read_strings : Bytes → List Bytes
unfolding joined
read_strings [] = []
read_strings (c ∷ cs) =
    let more = read_strings cs in if c == 10 then (c ∷ []) ∷ more else joined c more

-- Line feeds and carriage returns are trimmed off, and empty lines are left out.
kept_line : Bytes → List Bytes → List Bytes
kept_line [] ls = ls
kept_line (c ∷ cs) ls = (c ∷ cs) ∷ ls

filled_lines : List Bytes → List Bytes
unfolding kept_line
filled_lines [] = []
filled_lines (l ∷ ls) = kept_line (trim_end (λ c. c == 13 || c == 10) l) (filled_lines ls)

-- The lines that `readUntilEOF` emits, and the new position. A file that is shorter than the
-- position is read from its start.
unfoldable pub read_until_eof : Bytes → ℕ → List Bytes × ℕ
unfolding read_strings filled_lines
read_until_eof file p =
    let start = if ltb (length file) p then 0 else p in
    (filled_lines (read_strings (drop start file)), length file)

-- `strings.Split(string(body), "\n")` without an empty last part.
split_lines : Bytes → List Bytes
unfolding read_strings
split_lines body = map (trim_end (λ c. c == 10)) (read_strings body)

non_empty : List Bytes → List Bytes
unfolding kept_line
non_empty [] = []
non_empty (l ∷ ls) = kept_line l (non_empty ls)

-- The lines that `backfill` emits: none of a file over 2 ^ 20 bytes.
unfoldable pub backfill : Bytes → ℕ → List Bytes
unfolding split_lines non_empty
backfill file n = if ltb (2 ^ 20) (length file) then [] else non_empty (last_n n (split_lines file))

-- The lines are parsed and emitted, read at the given time.
unfoldable pub emit_lines : ℕ → List Bytes → Tailer → Option Tailer
emit_lines now [] t = some t
emit_lines now (l ∷ ls) t = elim (emit (parse l now) t) [
  | none ↦ none
  | some t' ↦ emit_lines now ls t'
]
