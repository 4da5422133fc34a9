-- ===== src/Audit/List/Ordered.antt =====
-- The ring keeps the order that the pages rely on.
use mcsm.Common.{
  ℕ, ◌+◌, ◌^◌, ◌≤◌, ◌<◌, ◌≡◌, refl, ap, false, Bool-cases, inl, inr, List, [], ◌∷◌, ◌++◌, ◌==◌,
  arith, All, length, drop, length-append,
}
use mcsm.Audit.Logger.{Entry, Logger, stamp, append}
use mcsm.Audit.List.{newest_first}
use mcsm.Audit.List.Pages.{IsDescending}

-- The ids are below the next one and descend from the newest entry to the oldest, and the ring is not
-- over its capacity.
abbrev pub IsOrdered : Logger → Type 0
IsOrdered l =
    (0 < l.next_id)
    × All (λ (d : Entry). d.id < l.next_id) (newest_first l.ring)
    × IsDescending (newest_first l.ring)
    × (length l.ring ≤ l.ring_cap)

All-prefix : (P : Entry → Type 0) (xs ys : List Entry) → All P (xs ++ ys) → All P xs
All-prefix P [] ys h = tt
All-prefix P (x ∷ xs) ys h = (h.0, All-prefix P xs ys h.1)

IsDescending-prefix : (xs ys : List Entry) → IsDescending (xs ++ ys) → IsDescending xs
IsDescending-prefix [] ys h = tt
IsDescending-prefix (x ∷ xs) ys h =
    (h.0, All-prefix (λ (d : Entry). d.id < x.id) xs ys h.1, IsDescending-prefix xs ys h.2)

newest_first-last :
    (es : List Entry) (e : Entry) → newest_first (es ++ e ∷ []) ≡ e ∷ newest_first es
unfolding newest_first
newest_first-last [] e = refl
newest_first-last (d ∷ es) e = ap (λ r. r ++ d ∷ []) (newest_first-last es e)

below_mono :
    (es : List Entry) (n m : ℕ)
    → n ≤ m
    → All (λ (d : Entry). d.id < n) es
    → All (λ (d : Entry). d.id < m) es
below_mono [] n m l h = tt
below_mono (e ∷ es) n m l h = (omega (arith, h.0), below_mono es n m l h.1)

-- A ring without its oldest entry.
All-drop_oldest :
    (P : Entry → Type 0) (es : List Entry)
    → All P (newest_first es)
    → All P (newest_first (drop 1 es))
unfolding newest_first
All-drop_oldest P [] h = h
All-drop_oldest P (e ∷ es) h = All-prefix P (newest_first es) (e ∷ []) h

IsDescending-drop_oldest :
    (es : List Entry) → IsDescending (newest_first es) → IsDescending (newest_first (drop 1 es))
unfolding newest_first
IsDescending-drop_oldest [] h = h
IsDescending-drop_oldest (e ∷ es) h = IsDescending-prefix (newest_first es) (e ∷ []) h

dropped_fits :
    (es : List Entry) (e : Entry) (cap : ℕ)
    → 0 < cap
    → length es ≤ cap
    → length (drop 1 es ++ e ∷ []) ≤ cap
dropped_fits [] e cap c n = omega arith
dropped_fits (d ∷ es) e cap c n = omega (arith, length-append es (e ∷ []))

appended_fits :
    (es : List Entry) (e : Entry) (cap : ℕ)
    → length es ≤ cap
    → length es == cap ≡ false
    → length (es ++ e ∷ []) ≤ cap
appended_fits es e cap n r = ground (arith, length-append es (e ∷ []))

-- Appending an entry to an ordered logger with a capacity gives an ordered logger, unless the ids of
-- 64 bits run out.
pub append-IsOrdered :
    (now : ℕ) (e : Entry) (l : Logger)
    → IsOrdered l
    → 0 < l.ring_cap
    → l.next_id + 1 < 2 ^ 64
    → IsOrdered (append now e l).2
unfolding append
append-IsOrdered now e l (p, a, d, n) c w =
    let below = All-drop_oldest (λ (d : Entry). d.id < l.next_id) l.ring a in
    elim (Bool-cases (length l.ring == l.ring_cap)) [
      | inl full ↦
          rw (full, newest_first-last (drop 1 l.ring) (stamp now l.next_id e))
            (
              omega arith,
              (
                omega arith,
                below_mono (newest_first (drop 1 l.ring)) l.next_id _ (omega arith) below,
              ),
              (p, below, IsDescending-drop_oldest l.ring d),
              dropped_fits l.ring (stamp now l.next_id e) l.ring_cap c n,
            )
      | inr room ↦
          rw (room, newest_first-last l.ring (stamp now l.next_id e))
            (
              omega arith,
              (omega arith, below_mono (newest_first l.ring) l.next_id _ (omega arith) a),
              (p, a, d),
              appended_fits l.ring (stamp now l.next_id e) l.ring_cap n room,
            )
    ]
