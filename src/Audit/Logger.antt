-- ===== src/Audit/Logger.antt =====
-- internal/audit/audit.go: the entries, and the ring of the last ones. A time is 0 if it is Go's zero
-- time.
use mcsm.Common.{ℕ, ◌+◌, ◌%◌, ◌^◌, String, List, [], ◌∷◌, ◌++◌, ◌==◌, if◌then◌else◌, length, drop}

pub record Actor : Type 0 where
  pub kind : String
  pub name : String

-- `subject` is the text of the route's fields.
pub record Entry : Type 0 where
  pub id : ℕ
  pub at : ℕ
  pub actor : Actor
  pub kind : String
  pub subject : String
  pub result : String
  pub status : ℕ
  pub trace_id : String

pub record Logger : Type 0 where
  pub next_id : ℕ
  pub ring : List Entry
  pub ring_cap : ℕ

-- `copy(l.ring, l.ring[1:])` drops the oldest entry of a full ring.
unfoldable pub append_ring : Entry → Logger → Logger
append_ring e l =
    let kept = if length l.ring == l.ring_cap then drop 1 l.ring else l.ring in
    record l { ring = kept ++ e ∷ [] }

unfoldable pub stamp : ℕ → ℕ → Entry → Entry
stamp now id e = record e { id = id; at = if e.at == 0 then now else e.at }

-- The id that is returned, the entry that is written to the day's file, and the logger.
unfoldable pub append : ℕ → Entry → Logger → ℕ × Entry × Logger
unfolding append_ring stamp
append now e l =
    let e' = stamp now l.next_id e in
    (l.next_id, e', append_ring e' (record l { next_id = (l.next_id + 1) % 2 ^ 64 }))
