-- ===== src/Backup/Names.antt =====
-- internal/backup/backup.go: the id of a backup, and the paths that are left out of it.
pub mod Safe
use mcsm.Common.{
  ℕ, Bool, true, false, not, ◌&&◌, ◌||◌, List, [], ◌∷◌, ◌++◌, Bytes, leb, ◌==◌, if◌then◌else◌,
  equal, take, codes, has_prefix, has_suffix,
}

abbrev pub is_label_byte : ℕ → Bool
is_label_byte c =
    leb b'a' c && leb c b'z'
    || leb b'A' c && leb c b'Z'
    || leb b'0' c && leb c b'9'
    || c == b'-'
    || c == b'_'

label_bytes : Bytes → Bytes
label_bytes [] = []
label_bytes (c ∷ cs) =
    let rest = label_bytes cs in
    if is_label_byte c then c ∷ rest else (if c == b' ' then b'-' ∷ rest else rest)

unfoldable pub sanitize_label : Bytes → Bytes
unfolding label_bytes
sanitize_label s = take 64 (label_bytes s)

-- `ts` is the time as `20060102-150405`.
unfoldable pub build_id : Bytes → Bytes → Bytes
unfolding sanitize_label
build_id ts [] = ts
build_id ts (c ∷ cs) = ts ++ (b'-' ∷ sanitize_label (c ∷ cs))

-- filepath.Base of a relative path without a slash at its end.
base_from : Bytes → Bytes → Bytes
base_from cur [] = cur
base_from cur (c ∷ cs) = if c == b'/' then base_from cs cs else base_from cur cs

base : Bytes → Bytes
unfolding base_from
base s = base_from s s

-- The directory itself, or a path in it.
in_dir : Bytes → Bytes → Bool
unfolding has_prefix
in_dir dir rel = equal rel dir || has_prefix (dir ++ (b'/' ∷ [])) rel

unfoldable pub should_exclude : Bytes → Bool → Bool
unfolding in_dir has_suffix base
should_exclude rel include_logs =
    if in_dir (codes ".mcsm") rel
    then equal rel (codes ".mcsm/owner.json")
    else (if in_dir (codes "logs") rel
        then not include_logs
        else has_suffix (codes ".jfr") rel
          || has_suffix (codes ".hprof") rel
          || has_prefix (codes "core.") (base rel)
          || in_dir (codes "cache") rel)
