-- ===== src/Backup/Restore.antt =====
-- internal/backup/backup.go: `Restore` and `extractFile`, over the entries of an archive in their
-- order. What the operating system answers is a part of the entry.
pub mod Inside
use mcsm.Common.{
  Bool, true, false, not, ◌&&◌, ◌||◌, List, [], ◌∷◌, ◌++◌, Bytes, ◌==◌, if◌then◌else◌, equal,
  Result, ok, err,
}
use mcsm.Backup.Paths.{CleanPath, clean, join}

pub data RestoreError : Type 0 where
  not_found open_failed cancelled unsafe_path escape mkdir_failed extract_failed : RestoreError

pub data Extract : Type 0 where
  extracted open_fails create_fails copy_fails : Extract

pub record ZipEntry : Type 0 where
  pub name : Bytes
  pub is_dir : Bool
  pub ctx_done : Bool
  pub mkdir_fails : Bool
  pub extract : Extract

-- What is done to the file system: a directory with the ones above it, the directories above a file,
-- and a file that is written over.
pub data Touch : Type 0 where
  made_dir made_parents wrote : CleanPath → Touch

-- `strings.HasPrefix(clean, "..")`, on the first element.
dots_first : List Bytes → Bool
dots_first ((a ∷ b ∷ p) ∷ ps) = a == b'.' && b == b'.'
dots_first _ = false

strict_prefix : List Bytes → List Bytes → Bool
strict_prefix [] [] = false
strict_prefix [] (q ∷ qs) = true
strict_prefix (p ∷ ps) [] = false
strict_prefix (p ∷ ps) (q ∷ qs) = equal p q && strict_prefix ps qs

same_parts : List Bytes → List Bytes → Bool
same_parts [] [] = true
same_parts (p ∷ ps) (q ∷ qs) = equal p q && same_parts ps qs
same_parts _ _ = false

same_root : Bool → Bool → Bool
same_root true b = b
same_root false b = not b

unfoldable pub has_parts : List Bytes → Bool
has_parts [] = false
has_parts (p ∷ ps) = true

-- `strings.HasPrefix(dst, filepath.Clean(serverDir) + "/")`: no path has "//" or "./" in front.
is_under : CleanPath → CleanPath → Bool
unfolding strict_prefix same_root has_parts
is_under dir dst =
    has_parts dir.parts && same_root dir.rooted dst.rooted && strict_prefix dir.parts dst.parts

is_same : CleanPath → CleanPath → Bool
unfolding same_parts same_root
is_same dir dst = same_root dir.rooted dst.rooted && same_parts dir.parts dst.parts

-- The two tests of a clean path and of its place below the directory.
target_of : CleanPath → CleanPath → CleanPath → Result RestoreError CleanPath
unfolding dots_first is_under is_same
target_of dir path dst =
    if dots_first path.parts && not path.rooted || path.rooted
    then err unsafe_path
    else (if not (is_under dir dst) && not (is_same dir dst) then err escape else ok dst)

unfoldable pub restore_target : CleanPath → Bytes → Result RestoreError CleanPath
unfolding target_of
restore_target dir name = target_of dir (clean name) (join dir (clean name))

extract_file : Extract → CleanPath → List Touch × Result RestoreError (Unit {0})
extract_file extracted dst = (wrote dst ∷ [], ok tt)
extract_file copy_fails dst = (wrote dst ∷ [], err extract_failed)
extract_file open_fails dst = ([], err extract_failed)
extract_file create_fails dst = ([], err extract_failed)

unpack : ZipEntry → CleanPath → List Touch × Result RestoreError (Unit {0})
unfolding extract_file
unpack e dst =
    let (ts, r) = extract_file e.extract dst in
    if e.mkdir_fails
    then ([], err mkdir_failed)
    else (if e.is_dir then (made_dir dst ∷ [], ok tt) else (made_parents dst ∷ ts, r))

unpack_at : ZipEntry → Result RestoreError CleanPath → List Touch × Result RestoreError (Unit {0})
unfolding unpack
unpack_at e (err x) = ([], err x)
unpack_at e (ok dst) = unpack e dst

restore_entry : CleanPath → ZipEntry → List Touch × Result RestoreError (Unit {0})
unfolding unpack_at
restore_entry dir e =
    if e.ctx_done then ([], err cancelled) else unpack_at e (restore_target dir e.name)

and_then :
    List Touch × Result RestoreError (Unit {0})
    → List Touch × Result RestoreError (Unit {0})
    → List Touch × Result RestoreError (Unit {0})
and_then (ts, err x) next = (ts, err x)
and_then (ts, ok u) (us, r) = (ts ++ us, r)

restore_entries : CleanPath → List ZipEntry → List Touch × Result RestoreError (Unit {0})
unfolding restore_entry and_then
restore_entries dir [] = ([], ok tt)
restore_entries dir (e ∷ es) = and_then (restore_entry dir e) (restore_entries dir es)

-- The archive as it opens, or the error.
unfoldable pub restore :
    CleanPath → Result RestoreError (List ZipEntry) → List Touch × Result RestoreError (Unit {0})
unfolding restore_entries
restore dir (err x) = ([], err x)
restore dir (ok es) = restore_entries dir es
