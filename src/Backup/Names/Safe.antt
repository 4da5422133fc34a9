-- ===== src/Backup/Names/Safe.antt =====
-- An id is one element of a path, whatever the label.
use mcsm.Common.{
  ℕ, zero, suc, ◌+◌, ◌≤◌, ◌≡◌, refl, true, Bool-cases, inl, inr, [], ◌∷◌, ◌++◌, Bytes, ◌==◌, arith,
  All, length, length-append, take,
}
use mcsm.Backup.Names.{is_label_byte, label_bytes, sanitize_label, build_id}

abbrev IsLabel : Bytes → Type 0
IsLabel = All (λ (c : ℕ). is_label_byte c ≡ true)

label_bytes-IsLabel : (s : Bytes) → IsLabel (label_bytes s)
unfolding label_bytes
label_bytes-IsLabel [] = tt
label_bytes-IsLabel (c ∷ cs) = elim (Bool-cases (is_label_byte c)) [
  | inl t ↦ rw t (t, label_bytes-IsLabel cs)
  | inr f ↦ elim (Bool-cases (c == b' ')) [
    | inl s ↦ rw (f, s) (refl, label_bytes-IsLabel cs)
    | inr n ↦ rw (f, n) (label_bytes-IsLabel cs)
  ]
]

take-IsLabel : (n : ℕ) (s : Bytes) → IsLabel s → IsLabel (take n s) × (length (take n s) ≤ n)
take-IsLabel zero s h = (tt, omega arith)
take-IsLabel (suc n) [] h = (tt, omega arith)
take-IsLabel (suc n) (c ∷ cs) h = let (k, l) = take-IsLabel n cs h.1 in ((h.0, k), omega (arith, l))

append-IsLabel : (a b : Bytes) → IsLabel a → IsLabel b → IsLabel (a ++ b)
append-IsLabel [] b h k = k
append-IsLabel (c ∷ a) b h k = (h.0, append-IsLabel a b h.1 k)

-- The id of a backup has letters, digits, `-` and `_` only, so that it names a file in the server's
-- directory of backups, and at most 65 bytes more than its time, if the time has such bytes only.
pub build_id-All :
    (ts label : Bytes)
    → All (λ (c : ℕ). is_label_byte c ≡ true) ts
    → All (λ (c : ℕ). is_label_byte c ≡ true) (build_id ts label)
      × (length (build_id ts label) ≤ length ts + 65)
unfolding build_id
build_id-All ts [] h = (h, omega arith)
build_id-All ts (c ∷ cs) h =
    let (k, l) = take-IsLabel 64 (label_bytes (c ∷ cs)) (label_bytes-IsLabel (c ∷ cs)) in
    (
      append-IsLabel ts (b'-' ∷ sanitize_label (c ∷ cs)) h (refl, k),
      omega (arith, l, length-append ts (b'-' ∷ sanitize_label (c ∷ cs))),
    )
