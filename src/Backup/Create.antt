-- ===== src/Backup/Create.antt =====
-- internal/backup/backup.go: `Create` and `writeMeta`, and the save control of internal/slot/slot.go.
-- What the operating system answers is the record `Answers`; the world's autosave is a flag.
pub mod Outcome
use mcsm.Common.{
  ℕ, ◌+◌, Bool, true, false, not, ◌&&◌, ◌||◌, Option, none, some, List, [], ◌∷◌, ◌++◌, Bytes,
  if◌then◌else◌, Result, ok, err,
}
use mcsm.Backup.Names.{should_exclude, build_id}

pub data Mode : Type 0 where
  online offline : Mode

-- What stands in a directory, in the order of the walk; a directory's contents come before what
-- follows it.
pub data Forest : Type 0 where
  empty : Forest
  file : Bytes → ℕ → Forest → Forest
  dir : Bytes → Forest → Forest → Forest

pub record Archived : Type 0 where
  pub rel : Bytes
  pub is_dir : Bool
  pub size : ℕ

rel_path : Bytes → Bytes → Bytes
rel_path [] name = name
rel_path (c ∷ cs) name = (c ∷ cs) ++ (b'/' ∷ name)

-- The entries that are put into the archive; `rel` has no slash at its end.
pub walk : Bool → Bytes → Forest → List Archived
unfolding rel_path
walk logs at empty = []
walk logs at (file name size rest) =
    let more = walk logs at rest in
    let rel = rel_path at name in
    if should_exclude rel logs
    then more
    else record { rel = rel; is_dir = false; size = size } ∷ more
walk logs at (dir name inside rest) =
    let more = walk logs at rest in
    let rel = rel_path at name in
    let inner = walk logs rel inside in
    if should_exclude rel logs
    then more
    else record { rel = rel; is_dir = true; size = 0 } ∷ (inner ++ more)

pub record Meta : Type 0 where
  pub id : Bytes
  pub server_id : Bytes
  pub label : Bytes
  pub mode : Mode
  pub created_at : ℕ
  pub bytes_total : ℕ
  pub file_count : ℕ
  pub logs : Bool

-- The counts of the walk.
pub count : List Archived → ℕ × ℕ
count [] = (0, 0)
count (a ∷ as') =
    let (bytes, files) = count as' in
    if a.is_dir then (bytes, files) else (bytes + a.size, files + 1)

-- A metadata file that could not be written to its end is torn.
pub data MetaFile : Type 0 where
  whole : Meta → MetaFile
  torn : MetaFile

-- The files of one backup id.
pub record Disk : Type 0 where
  pub zip : Option (List Archived)
  pub part : Bool
  pub meta : Option MetaFile

-- `off_fails`: `save-off` fails, and whether it took effect all the same, as when its reply is late.
pub data Pause : Type 0 where
  paused flush_fails : Pause
  off_fails : Bool → Pause

pub data MetaWrite : Type 0 where
  meta_written meta_not_opened meta_cut : MetaWrite

-- `part_stays`, `zip_stays`: the removal of the unfinished and of the finished archive fails. `resume_lost`:
-- `save-on` takes no effect; its error is ignored.
pub record Answers : Type 0 where
  pub mkdir_fails : Bool
  pub pause : Pause
  pub create_fails : Bool
  pub walk_fails : Bool
  pub close_fails : Bool
  pub rename_fails : Bool
  pub meta_write : MetaWrite
  pub part_stays : Bool
  pub zip_stays : Bool
  pub resume_lost : Bool

pub data CreateError : Type 0 where
  mkdir_failed pause_failed create_failed walk_failed rename_failed meta_failed : CreateError

-- `Pause` of the save control: `save-off`, then `save-all flush`. The autosave that is left, and
-- whether there was an error.
pause_saves : Pause → Bool → Bool × Bool
pause_saves paused auto = (false, false)
pause_saves (off_fails took_effect) auto = (if took_effect then false else auto, true)
pause_saves flush_fails auto = (false, true)

-- `Resume`: `save-on`.
resume_saves : Bool → Bool → Bool
resume_saves lost auto = if lost then auto else true

write_meta : MetaWrite → Meta → Option MetaFile → Option MetaFile
write_meta meta_written m old = some (whole m)
write_meta meta_not_opened m old = old
write_meta meta_cut m old = some torn

wrote_meta : MetaWrite → Bool
wrote_meta meta_written = true
wrote_meta _ = false

-- From the archive's file to the metadata.
archive : Answers → List Archived → Meta → Disk → Disk × Result CreateError Meta
unfolding write_meta wrote_meta
archive a entries m d =
    if a.create_fails
    then (d, err create_failed)
    else (if a.walk_fails || a.close_fails
        then (record d { part = a.part_stays }, err walk_failed)
        else (if a.rename_fails
            then (record d { part = a.part_stays }, err rename_failed)
            else (if wrote_meta a.meta_write
                then (record { zip = some entries; part = false; meta = some (whole m) }, ok m)
                else (
                  record {
                    zip = if a.zip_stays then some entries else none;
                    part = false;
                    meta = write_meta a.meta_write m d.meta;
                  },
                  err meta_failed,
                ))))

paused_archive :
    Answers → List Archived → Meta → Bool × Disk → (Bool × Disk) × Result CreateError Meta
unfolding archive pause_saves resume_saves
paused_archive a entries m (auto, d) =
    let (auto', failed) = pause_saves a.pause auto in
    let (d', r) = archive a entries m d in
    if failed then ((auto', d), err pause_failed) else ((resume_saves a.resume_lost auto', d'), r)

plain_archive :
    Answers → List Archived → Meta → Bool × Disk → (Bool × Disk) × Result CreateError Meta
unfolding archive
plain_archive a entries m (auto, d) = let (d', r) = archive a entries m d in ((auto, d'), r)

pub record Options : Type 0 where
  pub label : Bytes
  pub mode : Mode
  pub include_logs : Bool
  pub has_control : Bool

is_online : Mode → Bool
is_online online = true
is_online offline = false

-- The mode is one of the two, and `ts` is the time in the id.
unfoldable pub create :
    Answers
    → Bytes
    → Bytes
    → ℕ
    → Options
    → Forest
    → Bool × Disk
    → (Bool × Disk) × Result CreateError Meta
unfolding walk count paused_archive plain_archive is_online
create a server_id ts now opts tree w =
    let entries = walk opts.include_logs [] tree in
    let (bytes, files) = count entries in
    let m : Meta = record {
      id = build_id ts opts.label;
      server_id = server_id;
      label = opts.label;
      mode = opts.mode;
      created_at = now;
      bytes_total = bytes;
      file_count = files;
      logs = opts.include_logs;
    } in
    if a.mkdir_fails
    then (w, err mkdir_failed)
    else (if is_online opts.mode && opts.has_control
        then paused_archive a entries m w
        else plain_archive a entries m w)
