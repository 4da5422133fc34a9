-- ===== src/Backup/Restore/Inside.antt =====
-- Restore stays inside the server's directory.
use mcsm.Common.{
  ◌≡◌, refl, sym, ap, ◌∙◌, subst, ◌⊎◌, ◌≢◌, Bool, true, false, Bool-cases, inl, inr, List, [], ◌∷◌,
  ◌++◌, Bytes, equal, equal_iff, equal_refl, arith, All, Result, ok, err, if_rule,
}
use mcsm.Backup.Paths.{CleanPath, clean, dot_dot}
use mcsm.Backup.Paths.Plain.{IsPlain, clean-IsPlain, join-plain}
use mcsm.Backup.Restore.{
  RestoreError, unsafe_path, escape, Extract, extracted, open_fails, create_fails, copy_fails,
  ZipEntry, Touch, made_dir, made_parents, wrote, dots_first, strict_prefix, same_parts, same_root,
  has_parts, is_under, is_same, target_of, restore_target, extract_file, unpack, unpack_at,
  restore_entry, and_then, restore_entries, restore,
}

abbrev pub path_of : Touch → CleanPath
path_of (made_dir p) = p
path_of (made_parents p) = p
path_of (wrote p) = p

-- The directory itself, or a path that leads down from it by plain elements.
abbrev pub IsInside : CleanPath → CleanPath → Type 0
IsInside dir p =
    (parts : List Bytes) × All IsPlain parts
    × (p ≡ record { rooted = dir.rooted; parts = dir.parts ++ parts })

dots_first-up :
    (q : Bytes) (rest : List Bytes) → equal q dot_dot ≡ true → dots_first (q ∷ rest) ≡ true
unfolding dots_first
dots_first-up q rest u =
    subst (λ p. dots_first (p ∷ rest) ≡ true) (sym ((equal_iff q dot_dot).0 u)) refl

-- The first test alone keeps a path inside.
Judged : CleanPath → Bytes → Type 0
Judged dir name =
    (restore_target dir name ≡ err unsafe_path)
    ⊎ (((clean name).rooted ≡ false)
        × (dots_first (clean name).parts ≡ false)
        × All IsPlain (clean name).parts)

judge : (dir : CleanPath) (name : Bytes) → Judged dir name
unfolding restore_target Judged
judge dir name = elim (Bool-cases (clean name).rooted) [
  | inl r ↦ inl (rw r (ground arith))
  | inr r ↦ elim (clean-IsPlain name r) [
    | inr (q, rest, e, u) ↦ inl (rw (r, ap dots_first e ∙ dots_first-up q rest u) refl)
    | inl all ↦ elim (Bool-cases (dots_first (clean name).parts)) [
      | inl d ↦ inl (rw (r, d) refl)
      | inr d ↦ inr (r, d, all)
    ]
  ]
]

is_same-or_under :
    (d ps : List Bytes)
    → (same_parts d (d ++ ps) ≡ true) ⊎ ((strict_prefix d (d ++ ps) ≡ true) × (has_parts ps ≡ true))
unfolding same_parts strict_prefix has_parts
is_same-or_under [] [] = inl refl
is_same-or_under [] (p ∷ ps) = inr (refl, refl)
is_same-or_under (q ∷ d) ps = ground (arith, is_same-or_under d ps, equal_refl q)

same_root_refl : (b : Bool) → same_root b b ≡ true
unfolding same_root
same_root_refl true = refl
same_root_refl false = refl

target_of-plain :
    (dir path : CleanPath)
    → has_parts dir.parts ≡ true
    → path.rooted ≡ false
    → dots_first path.parts ≡ false
    → target_of dir path (record { rooted = dir.rooted; parts = dir.parts ++ path.parts })
      ≡ ok (record { rooted = dir.rooted; parts = dir.parts ++ path.parts })
unfolding target_of is_under is_same
target_of-plain dir path h r d =
    rw (r, d) (ground (arith, is_same-or_under dir.parts path.parts, same_root_refl dir.rooted, h))

-- A target in a directory with a name is refused as unsafe or allowed: the second test refuses
-- nothing that has passed the first.
restore_target-Inside :
    (dir : CleanPath) (name : Bytes)
    → has_parts dir.parts ≡ true
    → (restore_target dir name ≡ err unsafe_path)
      ⊎ ((dst : CleanPath) × (restore_target dir name ≡ ok dst) × IsInside dir dst)
unfolding restore_target Judged
restore_target-Inside dir name h = elim (judge dir name) [
  | inl u ↦ inl u
  | inr (r, d, all) ↦ inr (
    _,
    ap (target_of dir (clean name)) (join-plain dir (clean name) all)
        ∙ target_of-plain dir (clean name) h r d,
    ((clean name).parts, all, refl),
  )
]

IsTouchInside : CleanPath → Touch → Type 0
IsTouchInside dir t = IsInside dir (path_of t)

extract_file-Inside :
    (dir dst : CleanPath) (x : Extract)
    → IsInside dir dst
    → All (IsTouchInside dir) (extract_file x dst).0
unfolding extract_file IsTouchInside
extract_file-Inside dir dst extracted h = (h, tt)
extract_file-Inside dir dst copy_fails h = (h, tt)
extract_file-Inside dir dst open_fails h = tt
extract_file-Inside dir dst create_fails h = tt

unpack-Inside :
    (dir dst : CleanPath) (e : ZipEntry)
    → IsInside dir dst
    → All (IsTouchInside dir) (unpack e dst).0
unfolding unpack IsTouchInside
unpack-Inside dir dst e h =
    if_rule (λ (o : List Touch × Result RestoreError (Unit {0})). All (IsTouchInside dir) o.0)
      e.mkdir_fails (λ _. tt)
      (λ _.
        if_rule (λ (o : List Touch × Result RestoreError (Unit {0})). All (IsTouchInside dir) o.0)
          e.is_dir (λ _. (h, tt)) (λ _. (h, extract_file-Inside dir dst e.extract h)))

-- Nothing outside is touched, and the error of the second test does not come.
abbrev IsContained : CleanPath → List Touch × Result RestoreError (Unit {0}) → Type 0
IsContained dir o = All (IsTouchInside dir) o.0 × (o.1 ≢ err escape)

extract_file-escape : (x : Extract) (dst : CleanPath) → (extract_file x dst).1 ≢ err escape
unfolding extract_file
extract_file-escape extracted dst e = cc
extract_file-escape copy_fails dst e = cc
extract_file-escape open_fails dst e = cc
extract_file-escape create_fails dst e = cc

unpack-escape : (e : ZipEntry) (dst : CleanPath) → (unpack e dst).1 ≢ err escape
unfolding unpack
unpack-escape e dst =
    if_rule (λ (o : List Touch × Result RestoreError (Unit {0})). o.1 ≢ err escape) e.mkdir_fails
      (λ _ q. cc)
      (λ _.
        if_rule (λ (o : List Touch × Result RestoreError (Unit {0})). o.1 ≢ err escape) e.is_dir
          (λ _ q. cc) (λ _. extract_file-escape e.extract dst))

restore_entry-IsContained :
    (dir : CleanPath) (e : ZipEntry)
    → has_parts dir.parts ≡ true
    → IsContained dir (restore_entry dir e)
unfolding restore_entry unpack_at
restore_entry-IsContained dir e h =
    if_rule (IsContained dir) e.ctx_done (λ _. (tt, λ q. cc))
      (λ _. elim (restore_target-Inside dir e.name h) [
        | inl u ↦ rw u (tt, λ q. cc)
        | inr (dst, p, i) ↦ rw p (unpack-Inside dir dst e i, unpack-escape e dst)
      ])

append-Inside :
    (dir : CleanPath) (ts us : List Touch)
    → All (IsTouchInside dir) ts
    → All (IsTouchInside dir) us
    → All (IsTouchInside dir) (ts ++ us)
append-Inside dir [] us h k = k
append-Inside dir (t ∷ ts) us h k = (h.0, append-Inside dir ts us h.1 k)

and_then-IsContained :
    (dir : CleanPath) (o next : List Touch × Result RestoreError (Unit {0}))
    → IsContained dir o
    → IsContained dir next
    → IsContained dir (and_then o next)
unfolding and_then
and_then-IsContained dir (ts, err x) next h k = h
and_then-IsContained dir (ts, ok u) (us, r) h k = (append-Inside dir ts us h.0 k.0, k.1)

restore_entries-IsContained :
    (dir : CleanPath) (es : List ZipEntry)
    → has_parts dir.parts ≡ true
    → IsContained dir (restore_entries dir es)
unfolding restore_entries
restore_entries-IsContained dir [] h = (tt, λ q. cc)
restore_entries-IsContained dir (e ∷ es) h =
    and_then-IsContained dir (restore_entry dir e) (restore_entries dir es)
      (restore_entry-IsContained dir e h) (restore_entries-IsContained dir es h)

-- Whatever the archive holds, and whatever fails, Restore makes and writes only the server's
-- directory and paths that lead down from it by plain elements (not empty, not `.` or `..`, no
-- slash). The test for an escape never fails: the one for unsafe names has already stopped. The
-- directory's clean path has an element.
pub restore-IsInside :
    (dir : CleanPath) (es : List ZipEntry)
    → has_parts dir.parts ≡ true
    → All (λ (t : Touch). IsInside dir (path_of t)) (restore dir (ok es)).0
      × ((restore dir (ok es)).1 ≢ err escape)
unfolding restore IsTouchInside
restore-IsInside dir es h = restore_entries-IsContained dir es h
