-- ===== src/Audit/Files.antt =====
-- internal/audit/audit.go: the log's files, what a new logger reads from them, and what the janitor
-- removes. A file's bytes are read from the end; `decode` is the JSON library's reading of a line.
pub mod Back
pub mod Restart
use mcsm.Common.{
  ℕ, zero, suc, ◌+◌, ◌-◌, ◌%◌, ◌^◌, Bool, true, false, not, ◌&&◌, ◌||◌, Option, none, some, List,
  [], ◌∷◌, ◌++◌, Bytes, codes, has_prefix, length, reverse_onto, ltb, leb, ◌==◌, if◌then◌else◌, ℤ,
  pos, negsuc, ltb_ℤ,
}
use mcsm.Audit.Logger.{Entry, Logger}

-- The bytes before an index, the nearest first: without the line ends, and the rest of a line.
skip_ends : Bytes → Bytes
skip_ends [] = []
skip_ends (c ∷ r) = let rest = skip_ends r in if c == b'\n' || c == b'\r' then rest else c ∷ r

until_feed : Bytes → Bytes × Bytes
until_feed [] = ([], [])
until_feed (c ∷ r) =
    let (line, rest) = until_feed r in if c == b'\n' then ([], c ∷ r) else (c ∷ line, rest)

-- The lines so far, in front of which the loop puts older ones; `none` is out of fuel.
lines_back : ℕ → ℕ → Bytes → List Bytes → Option (List Bytes)
unfolding skip_ends until_feed
lines_back zero n r out = none
lines_back (suc fuel) n r out =
    let r' = skip_ends r in
    let (line, rest) = until_feed r' in
    let more = lines_back fuel n rest (reverse_onto line [] ∷ out) in
    if length r == 0 || not (ltb (length out) n)
    then some out
    else (if length r' == 0 then some out else more)

-- splitLinesLast
unfoldable pub split_lines_last : Bytes → ℕ → Option (List Bytes)
unfolding lines_back
split_lines_last b n = lines_back (suc (length b)) n (reverse_onto b []) []

pub record AuditFile : Type 0 where
  pub name : Bytes
  pub is_dir : Bool
  -- None if it cannot be read.
  pub body : Option Bytes
  pub mod_time : Option ℕ

-- The last line that is not empty.
pub last_line : Bytes → Bytes
unfolding until_feed skip_ends
last_line b = reverse_onto (until_feed (skip_ends (reverse_onto b []))).0 []

bigger : ℕ → Option Entry → ℕ
bigger m none = m
bigger m (some e) = if ltb m e.id then e.id else m

body_id : (Bytes → Option Entry) → ℕ → Option Bytes → ℕ
unfolding last_line bigger
body_id decode m none = m
body_id decode m (some b) =
    let line = last_line b in if length line == 0 then m else bigger m (decode line)

file_id : (Bytes → Option Entry) → ℕ → AuditFile → ℕ
unfolding body_id
file_id decode m f =
    if f.is_dir || not (has_prefix (codes "audit-") f.name) then m else body_id decode m f.body

max_id_from : (Bytes → Option Entry) → ℕ → List AuditFile → ℕ
unfolding file_id
max_id_from decode m [] = m
max_id_from decode m (f ∷ fs) = max_id_from decode (file_id decode m f) fs

-- `none` if the directory cannot be read, which counts as 0.
unfoldable pub scan_max_id : (Bytes → Option Entry) → Option (List AuditFile) → ℕ
unfolding max_id_from
scan_max_id decode none = 0
scan_max_id decode (some fs) = max_id_from decode 0 fs

push_decoded : Option Entry → List Entry → List Entry
push_decoded none ring = ring
push_decoded (some e) ring = ring ++ e ∷ []

decoded : (Bytes → Option Entry) → List Bytes → List Entry → List Entry
unfolding push_decoded
decoded decode [] ring = ring
decoded decode (l ∷ ls) ring = decoded decode ls (push_decoded (decode l) ring)

backfill_lines : (Bytes → Option Entry) → Option (List Bytes) → List Entry
unfolding decoded
backfill_lines decode none = []
backfill_lines decode (some ls) = decoded decode ls []

-- The current month's file, if it can be read.
unfoldable pub backfill_ring : (Bytes → Option Entry) → ℕ → Option Bytes → List Entry
unfolding backfill_lines split_lines_last
backfill_ring decode cap none = []
backfill_ring decode cap (some b) = backfill_lines decode (split_lines_last b cap)

abbrev pub ring_cap : ℕ
ring_cap = 1000

-- The directory could be made.
unfoldable pub new_logger : (Bytes → Option Entry) → Option (List AuditFile) → Option Bytes → Logger
unfolding scan_max_id backfill_ring
new_logger decode dir current = record {
  next_id = (scan_max_id decode dir + 1) % 2 ^ 64;
  ring = backfill_ring decode ring_cap current;
  ring_cap = ring_cap;
}

-- What one Append adds to the file, if no call fails.
unfoldable pub write_file : (Entry → Bytes) → Entry → Bytes → Bytes
write_file encode e b = b ++ (encode e ++ (b'\n' ∷ []))

is_old : ℕ → Option ℕ → Bool
is_old cutoff none = false
is_old cutoff (some t) = ltb t cutoff

-- The files that `gc` leaves; a time is not before the zero time.
unfoldable pub gc : ℤ → ℕ → List AuditFile → List AuditFile
unfolding is_old
gc retention now [] = []
gc (negsuc n) now (f ∷ fs) = f ∷ fs
gc (pos r) now (f ∷ fs) =
    let rest = gc (pos r) now fs in
    if r == 0
    then f ∷ fs
    else (if not f.is_dir && is_old (now - r) f.mod_time then rest else f ∷ rest)
