-- ===== src/Process/RingBuffer/Refine.antt =====
-- The ring buffer against the list of all lines ever pushed.
use Prim.Native.Nat.{min}
use native.Mathlib.Nat.{mod-add-mod, mod-eq_of_lt, mod-eq-sub-mod, mod-lt, mod_self, add-mod_right}
use native.Mathlib.Numerals.{add-one}
use mcsm.Common.{
  ℕ, zero, suc, ◌+◌, ◌-◌, ◌%◌, ◌≤◌, ◌<◌, ◌≡◌, refl, sym, ◌∙◌, ap, ap₂, subst, ◌≢◌, inl, inr, true,
  List, [], ◌∷◌, ◌++◌, append-nil, append_assoc, ltb, leb, ◌==◌, if◌then◌else◌, arith, dec_lt,
  length, get_or, drop, ℤ, pos, negsuc, pos_part, ltb_ℤ, length-set, length-append,
  length-replicate, get_or-set_self, get_or-set_ne, last_n, Bool-cases,
}
use mcsm.Process.RingBuffer.{
  LogLine, zero_line, RingBuffer, make, new_ring_buffer, push, read_from, have, tail_of, tail,
  push_all,
}

-- Fewer than `cap` steps round the ring lead to another slot.
mod-ne : (cap i n : ℕ) → i < n → n - i < cap → i % cap ≢ n % cap
mod-ne cap i n h k = elim (dec_lt (i % cap + (n - i)) cap) [
  | yes p ↦ omega (arith, step, mod-eq_of_lt p, mod-lt i {m = cap} (omega arith))
  | no p ↦ omega (
    arith,
    step,
    mod-lt i {m = cap} (omega arith),
    mod-eq-sub-mod {n = i % cap + (n - i)} {m = cap} (omega arith),
    mod-eq_of_lt {n = i % cap + (n - i) - cap} {m = cap}
        (omega (arith, mod-lt i {m = cap} (omega arith))),
  )
]
  where
    step : (i % cap + (n - i)) % cap ≡ n % cap
    step = mod-add-mod i cap (n - i) ∙ ap (λ x. x % cap) (omega arith)

-- The slot that `Tail` reads in round `i` is that of line `m - n + i`.
read_index :
    (m cap n i : ℕ) → n ≤ m → n ≤ cap → ((m % cap + cap - n) % cap + i) % cap ≡ (m - n + i) % cap
read_index m cap n i h k =
    mod-add-mod (m % cap + cap - n) cap i
    ∙ ap (λ x. x % cap) (omega arith)
    ∙ mod-add-mod m cap (cap - n + i)
    ∙ ap (λ x. x % cap) (omega arith)
    ∙ add-mod_right (m - n + i) cap

-- The buffer has seen the lines `h`, and keeps each of the last `cap` in the slot of its number.
pub record Represents (r : RingBuffer) (h : List LogLine) : Type 0 where
  pub cap_pos : 0 < r.cap
  pub storage : length r.lines ≡ r.cap
  pub head_at : r.head ≡ length h % r.cap
  pub full_iff : r.full ≡ leb r.cap (length h)
  pub kept :
      (i : ℕ)
      → i < length h
      → length h ≤ i + r.cap
      → get_or r.lines (i % r.cap) zero_line ≡ get_or h i zero_line

get_or-append_last : (h : List LogLine) (l d : LogLine) → get_or (h ++ l ∷ []) (length h) d ≡ l
get_or-append_last [] l d = refl
get_or-append_last (x ∷ h) l d = get_or-append_last h l d

get_or-append_lt :
    (h t : List LogLine) (i : ℕ) (d : LogLine) → i < length h → get_or (h ++ t) i d ≡ get_or h i d
get_or-append_lt [] t i d p = absurd (omega arith)
get_or-append_lt (x ∷ h) t zero d p = refl
get_or-append_lt (x ∷ h) t (suc i) d p = get_or-append_lt h t i d (omega arith)

full-suc :
    (m cap : ℕ) → 0 < cap → (if (m + 1) % cap == 0 then true else leb cap m) ≡ leb cap (m + 1)
full-suc m cap c = elim (dec_lt (m + 1) cap) [
  | yes p ↦ ground (arith, mod-eq_of_lt p)
  | no p ↦ elim (dec_lt m cap) [
    | yes q ↦ let e : m + 1 ≡ cap = omega arith in rw e (rw mod_self (ground arith))
    | no q ↦ ground arith
  ]
]

length-snoc : (h : List LogLine) (l : LogLine) → length (h ++ l ∷ []) ≡ length h + 1
length-snoc h l = length-append h (l ∷ [])

module _ {r : RingBuffer} {h : List LogLine} (v : Represents r h) (l : LogLine) where
  head-push : (push r l).head ≡ length (h ++ l ∷ []) % r.cap
  unfolding push
  head-push =
      ap (λ x. (x + 1) % r.cap) v.head_at
      ∙ mod-add-mod (length h) r.cap 1
      ∙ ap (λ x. x % r.cap) (sym (length-snoc h l))

  full-push : (push r l).full ≡ leb r.cap (length (h ++ l ∷ []))
  unfolding push
  full-push =
      rw (v.full_iff, v.head_at, mod-add-mod (length h) r.cap 1, length-snoc h l)
        (full-suc (length h) r.cap v.cap_pos)

  kept-push :
      (i : ℕ)
      → i < length (h ++ l ∷ [])
      → length (h ++ l ∷ []) ≤ i + r.cap
      → get_or (push r l).lines (i % r.cap) zero_line ≡ get_or (h ++ l ∷ []) i zero_line
  unfolding push
  kept-push i p q = elim (dec_lt i (length h)) [
    | yes old ↦
        get_or-set_ne r.lines l zero_line (λ e.
          mod-ne r.cap i (length h) old (omega (arith, length-snoc h l)) (sym (sym v.head_at ∙ e)))
        ∙ v.kept i old (omega (arith, length-snoc h l))
        ∙ sym (get_or-append_lt h (l ∷ []) i zero_line old)
    | no new ↦
        let e : i ≡ length h = omega (arith, length-snoc h l) in
        rw (e, ← v.head_at, get_or-append_last h l zero_line)
          (get_or-set_self r.lines r.head l zero_line
            (omega (arith, v.storage, v.head_at, mod-lt (length h) v.cap_pos)))
  ]

  pub push-Represents : Represents (push r l) (h ++ l ∷ [])
  unfolding push
  push-Represents = record {
    cap_pos = v.cap_pos;
    storage = length-set r.lines r.head l ∙ v.storage;
    head_at = head-push;
    full_iff = full-push;
    kept = kept-push;
  }

push_all-Represents :
    (ls : List LogLine) (r : RingBuffer) (h : List LogLine)
    → Represents r h
    → Represents (push_all r ls) (h ++ ls)
unfolding push_all
push_all-Represents [] r h v = rw (append-nil h) v
push_all-Represents (l ∷ ls) r h v =
    subst (Represents _) (append_assoc h (l ∷ []) ls)
      (push_all-Represents ls (push r l) (h ++ l ∷ []) (push-Represents v l))

make-Represents : (c : ℕ) → 0 < c → Represents (make c) []
make-Represents c p = record {
  cap_pos = p;
  storage = length-replicate c zero_line;
  head_at = sym (mod-eq_of_lt p);
  full_iff = ground arith;
  kept = λ i h k. absurd (omega arith);
}

pub new-Represents : (c : ℤ) → Represents (new_ring_buffer c) []
unfolding new_ring_buffer
new-Represents (pos c) = elim (Bool-cases (ltb c 1)) [
  | inl e ↦ rw e (make-Represents 1 (omega arith))
  | inr e ↦ rw e (make-Represents c (ground arith))
]
new-Represents (negsuc c) = make-Represents 1 (omega arith)

drop-get_or :
    (h : List LogLine) (i : ℕ) (d : LogLine)
    → i < length h
    → drop i h ≡ get_or h i d ∷ drop (i + 1) h
drop-get_or [] i d p = absurd (omega arith)
drop-get_or (x ∷ h) zero d p = refl
drop-get_or (x ∷ h) (suc i) d p = rw add-one (drop-get_or h i d (omega arith) ∙ rw add-one)

drop-length : (h : List LogLine) (i : ℕ) → length h ≤ i → drop i h ≡ []
drop-length [] zero p = refl
drop-length [] (suc i) p = refl
drop-length (x ∷ h) zero p = absurd (omega arith)
drop-length (x ∷ h) (suc i) p = drop-length h i (omega arith)

module _ {r : RingBuffer} {h : List LogLine} (v : Represents r h) where
  read_from-drop :
      (n k i : ℕ)
      → n ≤ length h
      → n ≤ r.cap
      → i + k ≡ n
      → read_from r ((r.head + r.cap - n) % r.cap) k i ≡ drop (length h - n + i) h
  unfolding read_from
  read_from-drop n zero i p q e = sym (drop-length h _ (omega arith))
  read_from-drop n (suc k) i p q e =
      ap₂ ◌∷◌
        (rw (v.head_at, read_index (length h) r.cap n i p q)
          (v.kept (length h - n + i) (omega arith) (omega arith)))
        (read_from-drop n k (i + 1) p q (omega arith) ∙ ap (λ x. drop x h) (omega arith))
      ∙ sym (drop-get_or h (length h - n + i) zero_line (omega arith))

  have-eq : have r ≡ min r.cap (length h)
  have-eq = rw v.full_iff (ground (arith, v.head_at, mod-eq_of_lt {n = length h} {m = r.cap}))

  tail_of-last_n : (n : ℕ) → n ≤ min r.cap (length h) → tail_of r n ≡ last_n n h
  unfolding tail_of
  tail_of-last_n n p = elim (Bool-cases (n == 0)) [
    | inl e ↦ rw e (sym (drop-length h _ (ground arith)))
    | inr e ↦ rw e (
        read_from-drop n n 0 (omega arith) (omega arith) (omega arith)
        ∙ ap (λ x. drop x h) (omega arith))
  ]

  pub tail-last_n : (n : ℤ) → tail r n ≡ last_n (min (pos_part n) (min r.cap (length h))) h
  unfolding tail
  tail-last_n (negsuc n) = sym (drop-length h _ (omega arith))
  tail-last_n (pos n) =
      tail_of-last_n _ (ground (arith, have-eq)) ∙ ap (λ x. last_n x h) (ground (arith, have-eq))

-- The capacity that a buffer asked for `c` lines gets.
abbrev capacity : ℤ → ℕ
capacity c = if ltb_ℤ c (pos 1) then 1 else pos_part c

cap-new : (c : ℤ) → (new_ring_buffer c).cap ≡ capacity c
unfolding new_ring_buffer
cap-new c = ground arith

cap-push_all : (r : RingBuffer) (ls : List LogLine) → (push_all r ls).cap ≡ r.cap
unfolding push_all push
cap-push_all r [] = refl
cap-push_all r (l ∷ ls) = cap-push_all (push r l) ls

-- After any lines were pushed into a new buffer, `Tail(n)` gives the newest of them, oldest first:
-- as many as asked for, but no more than the capacity or than there are.
pub tail-push_all :
    (c n : ℤ) (ls : List LogLine)
    → tail (push_all (new_ring_buffer c) ls) n
      ≡ last_n (min (pos_part n) (min (capacity c) (length ls))) ls
tail-push_all c n ls =
    tail-last_n (push_all-Represents ls (new_ring_buffer c) [] (new-Represents c)) n
    ∙ ap (λ x. last_n (min (pos_part n) (min x (length ls))) ls)
        (cap-push_all (new_ring_buffer c) ls ∙ cap-new c)
