-- ===== src/Audit/List.antt =====
-- internal/audit/audit.go: the pages of `List`. The cursor is the number that `strconv.ParseUint`
-- gives, 0 for no cursor or one that is no number; of an empty page the next cursor is 0, for "".
pub mod Pages
pub mod Ordered
use mcsm.Common.{
  ℕ, zero, suc, Bool, true, false, not, ◌&&◌, ◌||◌, String, str_eq, List, [], ◌∷◌, ◌++◌, ltb, ◌==◌,
  if◌then◌else◌, ℤ, pos, negsuc, min,
}
use mcsm.Audit.Logger.{Actor, Entry, Logger}

pub record Query : Type 0 where
  pub since : ℕ
  pub until : ℕ
  pub actor : String
  pub kind : String
  pub limit : ℤ
  pub cursor : ℕ

-- 200 unless the caller says how many, and at most 1000.
limit_of : ℤ → ℕ
limit_of (negsuc n) = 200
limit_of (pos zero) = 200
limit_of (pos (suc n)) = min (suc n) 1000

unfoldable pub matches : Entry → Query → Bool
matches e q =
    not (not (q.since == 0) && ltb e.at q.since)
    && not (not (q.until == 0) && ltb q.until e.at)
    && (str_eq q.actor "" || str_eq e.actor.name q.actor)
    && (str_eq q.kind "" || str_eq e.kind q.kind)

unfoldable pub older : ℕ → Entry → Bool
older cursor e = not (ltb 0 cursor && not (ltb e.id cursor))

-- The loop over the entries, newest first, with the room that is left on the page.
walk : Query → ℕ → List Entry → List Entry
unfolding matches older
walk q room [] = []
walk q zero (e ∷ es) = []
walk q (suc room) (e ∷ es) =
    let skip = walk q (suc room) es in
    let take = walk q room es in if older q.cursor e && matches e q then e ∷ take else skip

last_id : List Entry → ℕ
last_id [] = 0
last_id (e ∷ []) = e.id
last_id (e ∷ d ∷ es) = last_id (d ∷ es)

unfoldable pub newest_first : List Entry → List Entry
newest_first [] = []
newest_first (e ∷ es) = newest_first es ++ e ∷ []

unfoldable pub list : Query → Logger → List Entry × ℕ
unfolding walk limit_of last_id newest_first
list q l = let out = walk q (limit_of q.limit) (newest_first l.ring) in (out, last_id out)
