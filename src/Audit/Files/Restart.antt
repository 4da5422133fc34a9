-- ===== src/Audit/Files/Restart.antt =====
-- internal/audit/audit.go: a logger that is made anew from the files goes on where the last one stopped.
use mathlib.Core.List.{map-append}
use mcsm.Common.{
  ℕ, zero, suc, ◌+◌, ◌-◌, ◌%◌, ◌^◌, ◌<◌, ◌≡◌, ◌⊎◌, refl, sym, ap, ap₂, subst, ◌∙◌, Bool, true,
  false, inl, inr, Option, none, some, List, [], ◌∷◌, ◌++◌, append_assoc, append-nil, map, Bytes,
  codes, has_prefix, feed, feed-append, length, length-append, last_n, drop, push_last,
  push_last-last_n, ltb, ◌==◌, if◌then◌else◌, All, All-append, arith,
}
use mcsm.Audit.Logger.{Entry, Logger, append, append_ring, stamp}
use mcsm.Audit.Files.{
  AuditFile, last_line, bigger, body_id, file_id, max_id_from, scan_max_id, push_decoded, decoded,
  backfill_lines, backfill_ring, ring_cap, new_logger, write_file,
}
use mcsm.Audit.Files.Back.{IsLine, split_lines_last-feed, last_line-feed}

-- One Append after the other, each with the time at which it is called, and the current file.
unfoldable pub appends : (Entry → Bytes) → List (ℕ × Entry) → Logger × Bytes → Logger × Bytes
unfolding append write_file
appends encode [] w = w
appends encode ((now, e) ∷ es) (l, b) =
    let (id, e', l') = append now e l in appends encode es (l', write_file encode e' b)

max_id_from-append :
    (decode : Bytes → Option Entry) (m : ℕ) (fs : List AuditFile) (f : AuditFile)
    → max_id_from decode m (fs ++ f ∷ []) ≡ file_id decode (max_id_from decode m fs) f
unfolding max_id_from
max_id_from-append decode m [] f = refl
max_id_from-append decode m (g ∷ fs) f = max_id_from-append decode (file_id decode m g) fs f

length-map : {A B : Type 0} (f : A → B) (xs : List A) → length (map f xs) ≡ length xs
length-map f [] = refl
length-map f (x ∷ xs) = ap suc (length-map f xs)

drop-map : {A B : Type 0} (f : A → B) (n : ℕ) (xs : List A) → drop n (map f xs) ≡ map f (drop n xs)
drop-map f zero xs = refl
drop-map f (suc n) [] = refl
drop-map f (suc n) (x ∷ xs) = drop-map f n xs

last_n-map :
    {A B : Type 0} (f : A → B) (n : ℕ) (xs : List A) → last_n n (map f xs) ≡ map f (last_n n xs)
last_n-map f n xs =
    ap (λ k. drop (k - n) (map f xs)) (length-map f xs) ∙ drop-map f (length xs - n) xs

if-snoc :
    {A : Type 0} (b : Bool) (us vs : List A) (x : A)
    → (if b then us else vs) ++ x ∷ [] ≡ (if b then us ++ x ∷ [] else vs ++ x ∷ [])
if-snoc true us vs x = refl
if-snoc false us vs x = refl

ring-append_ring : (e : Entry) (l : Logger) → (append_ring e l).ring ≡ push_last l.ring_cap l.ring e
unfolding append_ring
ring-append_ring e l = if-snoc (length l.ring == l.ring_cap) (drop 1 l.ring) l.ring e

same_logger :
    (l m : Logger) → l.next_id ≡ m.next_id → l.ring ≡ m.ring → l.ring_cap ≡ m.ring_cap → l ≡ m
same_logger l m p q c = λ i. record { next_id = p i; ring = q i; ring_cap = c i }

All-drop : {A : Type 0} (P : A → Type 0) (n : ℕ) (xs : List A) → All P xs → All P (drop n xs)
All-drop P zero xs h = h
All-drop P (suc n) [] h = tt
All-drop P (suc n) (x ∷ xs) h = All-drop P n xs h.1

All-split :
    {A : Type 0} (P : A → Type 0) (xs : List A) (y : A) → All P (xs ++ y ∷ []) → All P xs × P y
All-split P [] y h = (tt, h.0)
All-split P (x ∷ xs) y h = let (k, l) = All-split P xs y h.1 in ((h.0, k), l)

line-ne_nil : (l : Bytes) → IsLine l → (length l == 0) ≡ false
line-ne_nil [] h = absurd h.1
line-ne_nil (c ∷ l) h = ground arith

-- The JSON library on entries: what is logged is read back, and its text is one line.
module _ (encode : Entry → Bytes) (decode : Bytes → Option Entry) (IsLogged : Entry → Type 0)
    (reads : (e : Entry) → IsLogged e → decode (encode e) ≡ some e)
    (is_line : (e : Entry) → IsLogged e → IsLine (encode e))
    (stamp-IsLogged : (now id : ℕ) (e : Entry) → IsLogged e → IsLogged (stamp now id e)) where
  All-encode : (xs : List Entry) → All IsLogged xs → All IsLine (map encode xs)
  All-encode [] h = tt
  All-encode (x ∷ xs) h = (is_line x h.0, All-encode xs h.1)

  decoded-encode :
      (xs ring : List Entry) → All IsLogged xs → decoded decode (map encode xs) ring ≡ ring ++ xs
  unfolding decoded push_decoded
  decoded-encode [] ring h = sym (append-nil ring)
  decoded-encode (x ∷ xs) ring h =
      ap (λ o. decoded decode (map encode xs) (push_decoded o ring)) (reads x h.0)
      ∙ (decoded-encode xs (ring ++ x ∷ []) h.1 ∙ append_assoc ring (x ∷ []) xs)

  backfill_ring-encode :
      (cap : ℕ) (xs : List Entry)
      → All IsLogged xs
      → backfill_ring decode cap (some (feed (map encode xs))) ≡ last_n cap xs
  unfolding backfill_ring backfill_lines
  backfill_ring-encode cap xs h =
      ap (backfill_lines decode) (split_lines_last-feed cap (map encode xs) (All-encode xs h))
      ∙ ap (λ ls. decoded decode ls []) (last_n-map encode cap xs)
      ∙ decoded-encode (last_n cap xs) [] (All-drop IsLogged (length xs - cap) xs h)

  -- The entries that were written since the largest id was `base`.
  record IsWritten (base : ℕ) (xs : List Entry) (l : Logger) (b : Bytes) : Type 0 where
    logged : All IsLogged xs
    bytes : b ≡ feed (map encode xs)
    ring : l.ring ≡ last_n ring_cap xs
    next : l.next_id ≡ base + 1 + length xs
    cap : l.ring_cap ≡ ring_cap
    last :
        (xs ≡ [])
        ⊎ ((ys : List Entry) × ((e : Entry) × ((xs ≡ ys ++ e ∷ []) × (e.id ≡ base + length xs))))

  append-IsWritten :
      (base now : ℕ) (e : Entry) (xs : List Entry) (l : Logger) (b : Bytes)
      → base + length xs + 2 < 2 ^ 64
      → IsLogged e
      → IsWritten base xs l b
      → IsWritten base
          (xs ++ (append now e l).1 ∷ [])
          (append now e l).2
          (write_file encode (append now e l).1 b)
  unfolding append append_ring write_file feed
  append-IsWritten base now e xs l b small g w =
      let e' = stamp now l.next_id e in
      let more = length-append xs (e' ∷ []) in
      record {
        logged = All-append IsLogged xs (e' ∷ []) w.logged (stamp-IsLogged now l.next_id e g, tt);
        bytes =
            ap (λ t. t ++ (encode e' ++ (b'\n' ∷ []))) w.bytes
            ∙ sym (feed-append (map encode xs) (encode e' ∷ []))
            ∙ ap feed (sym (map-append encode xs (e' ∷ [])));
        ring =
            ring-append_ring e' (record l { next_id = (l.next_id + 1) % 2 ^ 64 })
            ∙ ap₂ (λ c r. push_last c r e') w.cap w.ring
            ∙ push_last-last_n ring_cap xs e' (omega arith);
        next = omega (arith, w.next, more);
        cap = w.cap;
        last = inr (xs, (e', (refl, omega (arith, w.next, more))));
      }

  appends-IsWritten :
      (base : ℕ) (es : List (ℕ × Entry)) (xs : List Entry) (l : Logger) (b : Bytes)
      → base + length xs + length es + 1 < 2 ^ 64
      → All (λ (p : ℕ × Entry). IsLogged p.1) es
      → IsWritten base xs l b
      → (ys : List Entry) × ((length ys ≡ length xs + length es)
          × IsWritten base ys (appends encode es (l, b)).0 (appends encode es (l, b)).1)
  unfolding appends
  appends-IsWritten base [] xs l b small g w = (xs, (omega arith, w))
  appends-IsWritten base ((now, e) ∷ es) xs l b small g w =
      let more = length-append xs ((append now e l).1 ∷ []) in
      let (ys, (n, done)) =
        appends-IsWritten base es _ _ _ (omega (arith, small, more)) g.1
          (append-IsWritten base now e xs l b (omega arith) g.0 w) in
      (ys, (omega (arith, n, more), done))

  body_id-snoc :
      (base : ℕ) (ys : List Entry) (e : Entry)
      → base < e.id
      → All IsLogged (ys ++ e ∷ [])
      → body_id decode base (some (feed (map encode (ys ++ e ∷ [])))) ≡ e.id
  unfolding body_id bigger
  body_id-snoc base ys e h g =
      let (all, last) = All-split IsLogged ys e g in
      let from = λ (line : Bytes). if length line == 0 then base else bigger base (decode line) in
      let newer : ltb base e.id ≡ true = ground (h, arith) in
      ap (λ ls. from (last_line (feed ls))) (map-append encode ys (e ∷ []))
      ∙ ap from (last_line-feed (map encode ys) (encode e) (All-encode ys all) (is_line e last))
      ∙ ap (λ (b : Bool). if b then base else bigger base (decode (encode e)))
          (line-ne_nil (encode e) (is_line e last))
      ∙ ap (bigger base) (reads e last)
      ∙ rw newer refl

  body_id-IsWritten :
      (base : ℕ) (xs : List Entry) (l : Logger) (b : Bytes)
      → IsWritten base xs l b
      → body_id decode base (some b) ≡ base + length xs
  unfolding body_id last_line feed
  body_id-IsWritten base xs l b w = elim w.last [
    | inl e ↦
        let no_bytes : b ≡ [] = w.bytes ∙ ap (λ zs. feed (map encode zs)) e in
        ap (λ t. body_id decode base (some t)) no_bytes ∙ omega (arith, ap length e)
    | inr (ys, (e, (q, i))) ↦
        ap (λ t. body_id decode base (some t)) (w.bytes ∙ ap (λ zs. feed (map encode zs)) q)
        ∙ body_id-snoc base ys e (omega (arith, i, ap length q, length-append ys (e ∷ [])))
            (subst (All IsLogged) q w.logged)
        ∙ i
  ]

  file_id-named :
      (base : ℕ) (b name : Bytes) (mod_time : Option ℕ)
      → has_prefix (codes "audit-") name ≡ true
      → file_id decode base
          (record { name = name; is_dir = false; body = some b; mod_time = mod_time })
        ≡ body_id decode base (some b)
  unfolding file_id
  file_id-named base b name mod_time named = rw named refl

  new_logger-IsWritten :
      (others : List AuditFile) (xs : List Entry) (l : Logger) (b name : Bytes)
      (mod_time : Option ℕ)
      → IsWritten (scan_max_id decode (some others)) xs l b
      → scan_max_id decode (some others) + length xs + 1 < 2 ^ 64
      → has_prefix (codes "audit-") name ≡ true
      → new_logger decode
          (some (
            others
            ++ record { name = name; is_dir = false; body = some b; mod_time = mod_time } ∷ []))
          (some b)
        ≡ l
  unfolding new_logger scan_max_id
  new_logger-IsWritten others xs l b name mod_time w small named =
      let base = max_id_from decode 0 others in
      let f : AuditFile = record {
        name = name;
        is_dir = false;
        body = some b;
        mod_time = mod_time;
      } in
      let scanned : file_id decode base f ≡ base + length xs =
        file_id-named base b name mod_time named ∙ body_id-IsWritten base xs l b w in
      same_logger _ l
        (ap (λ m. (m + 1) % 2 ^ 64) (max_id_from-append decode 0 others f ∙ scanned)
          ∙ omega (arith, w.next))
        (ap (λ t. backfill_ring decode ring_cap (some t)) w.bytes
          ∙ backfill_ring-encode ring_cap xs w.logged
          ∙ sym w.ring)
        (sym w.cap)

  -- A logger that was made of the files `others`, with no file of the current month, and then appended
  -- entries, all in this month, each written before the next and with no call that fails, and the logger that is made of
  -- those files and the current one, are the same: the next id and the ring are as they were. Entries
  -- are read back from their lines, and the ids stay below 2 ^ 64.
  pub new_logger-appends :
      (others : List AuditFile) (es : List (ℕ × Entry)) (name : Bytes) (mod_time : Option ℕ)
      → scan_max_id decode (some others) + length es + 1 < 2 ^ 64
      → All (λ (p : ℕ × Entry). IsLogged p.1) es
      → has_prefix (codes "audit-") name ≡ true
      → new_logger decode
          (some (
            others
            ++ record {
              name = name;
              is_dir = false;
              body = some (appends encode es (new_logger decode (some others) none, [])).1;
              mod_time = mod_time;
            }
              ∷ []))
          (some (appends encode es (new_logger decode (some others) none, [])).1)
        ≡ (appends encode es (new_logger decode (some others) none, [])).0
  unfolding new_logger backfill_ring feed
  new_logger-appends others es name mod_time small logged named =
      let base = scan_max_id decode (some others) in
      let fresh : IsWritten base [] (new_logger decode (some others) none) [] = record {
        logged = tt;
        bytes = refl;
        ring = refl;
        next = omega arith;
        cap = refl;
        last = inl refl;
      } in
      let (xs, (n, w)) =
        appends-IsWritten base es [] (new_logger decode (some others) none) [] (omega arith) logged
          fresh in
      new_logger-IsWritten others xs _ _ name mod_time w (omega (arith, n)) named
