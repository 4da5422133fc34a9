-- ===== src/Audit/Tests.antt =====
-- The theorems of Audit at concrete inputs, and tests.
use mcsm.Common.{
  length, ◌≤◌, ℕ, ◌+◌, ◌-◌, ◌≡◌, refl, sym, ap, ap₂, ◌∙◌, false, Option, none, some, List, [], ◌∷◌,
  ◌++◌, Bytes, codes, has_prefix, feed, arith, pos,
}
use mcsm.Audit.Logger.{Entry, Logger, append, stamp}
use mcsm.Audit.Files.{AuditFile, split_lines_last, new_logger, scan_max_id, gc}
use mcsm.Audit.Files.Back.{IsLine, split_lines_last-Ends}
use mcsm.Audit.Files.Restart.{appends, new_logger-appends}
use mcsm.Audit.List.{Query, matches, newest_first, list}
use mcsm.Audit.List.Pages.{keep, pages, pages_lem}
use mcsm.Audit.List.Ordered.{IsOrdered, append-IsOrdered}

abbrev entry : ℕ → Entry
entry id = record {
  id = id;
  at = 10 + id;
  actor = record { kind = "token"; name = "ops" };
  kind = "slot.start";
  subject = "";
  result = "ok";
  status = 200;
  trace_id = "";
}

-- A full ring of three entries.
abbrev logger : Logger
logger = record { next_id = 5; ring = entry 2 ∷ entry 3 ∷ entry 4 ∷ []; ring_cap = 3 }

abbrev query : Query
query = record { since = 0; until = 0; actor = "ops"; kind = ""; limit = pos 2; cursor = 0 }

first_page : list query logger ≡ (entry 4 ∷ entry 3 ∷ [], 3)
unfolding list
first_page = refl

logger-IsOrdered : IsOrdered logger
unfolding newest_first
logger-IsOrdered = ground arith

append-IsOrdered_example : IsOrdered (append 99 (entry 0) logger).2
append-IsOrdered_example =
    append-IsOrdered 99 (entry 0) logger logger-IsOrdered (omega arith) (omega arith)

pages_lem_example : pages 4 query logger 0 ≡ entry 4 ∷ entry 3 ∷ entry 2 ∷ []
unfolding newest_first keep matches
pages_lem_example = pages_lem query logger logger-IsOrdered.2

lines_of_crlf : split_lines_last (codes "a\r\nb\n\nc\n") 2 ≡ some (codes "b" ∷ codes "c" ∷ [])
unfolding split_lines_last
lines_of_crlf = refl

-- Entries that differ in their id and time, and a text of one line for them.
abbrev at_time : ℕ → ℕ → Entry
at_time id at = record (entry id) { at = at }

abbrev IsTimed : Entry → Type 0
IsTimed e = e ≡ at_time e.id e.at

abbrev encode : Entry → Bytes
encode e = (e.id + 32) ∷ (e.at + 32) ∷ []

abbrev decode : Bytes → Option Entry
decode (id ∷ at ∷ []) = some (at_time (id - 32) (at - 32))
decode _ = none

decode-encode : (e : Entry) → IsTimed e → decode (encode e) ≡ some e
decode-encode e h =
    ap₂ (λ id at. some (at_time id at)) (omega arith) (omega arith) ∙ ap some (sym h)

encode-IsLine : (e : Entry) → IsTimed e → IsLine (encode e)
encode-IsLine e h = (ground arith, ground arith)

stamp-IsTimed : (now id : ℕ) (e : Entry) → IsTimed e → IsTimed (stamp now id e)
unfolding stamp
stamp-IsTimed now id e h = ap (stamp now id) h

abbrev two : List (ℕ × Entry)
two = (7, at_time 0 0) ∷ (8, at_time 0 5) ∷ []

abbrev old_file : AuditFile
old_file = record {
  name = codes "audit-2026-01.jsonl";
  is_dir = false;
  body = some (encode (at_time 41 3) ++ (b'\n' ∷ []));
  mod_time = some 3;
}

-- The logger that was made of the old file and appended two entries, and the current file's bytes.
abbrev after_two : Logger × Bytes
after_two = appends encode two (new_logger decode (some (old_file ∷ [])) none, [])

ids_go_on : after_two.0.next_id ≡ 44
unfolding appends new_logger scan_max_id append has_prefix
ids_go_on = refl

new_logger-appends_example :
    new_logger decode
      (some (
        old_file
        ∷ record {
          name = codes "audit-2026-02.jsonl";
          is_dir = false;
          body = some after_two.1;
          mod_time = none;
        }
        ∷ []))
      (some after_two.1)
    ≡ after_two.0
unfolding scan_max_id has_prefix
new_logger-appends_example =
    new_logger-appends encode decode IsTimed decode-encode encode-IsLine stamp-IsTimed
      (old_file ∷ []) two (codes "audit-2026-02.jsonl") none (omega arith) (refl, (refl, tt)) refl

janitor :
    gc (pos 5) 9 (old_file ∷ record old_file { mod_time = none } ∷ [])
    ≡ record old_file { mod_time = none } ∷ []
unfolding gc
janitor = refl

split_lines_last-Ends_example :
    ((out : List Bytes) × (split_lines_last (codes "ab\n\ncd") 1 ≡ some out) × (length out ≤ 1))
    × (split_lines_last (codes "ab\ncd\n") 1 ≡ some (codes "cd" ∷ []))
unfolding feed
split_lines_last-Ends_example =
    split_lines_last-Ends 1 (codes "ab\n\ncd") (codes "ab" ∷ codes "cd" ∷ [])
      (((refl, (refl, tt)), refl), (((refl, (refl, tt)), refl), tt))
