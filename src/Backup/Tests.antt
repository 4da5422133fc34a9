-- ===== src/Backup/Tests.antt =====
-- The theorems of Backup at concrete inputs, and tests.
use mcsm.Common.{
  ◌≡◌, refl, ◌≢◌, ℕ, true, false, none, List, [], ◌∷◌, Bytes, codes, equal, length, ◌≤◌, All, ok,
  err, arith, inr,
}
use mcsm.Backup.Paths.{CleanPath, clean, join}
use mcsm.Backup.Names.{is_label_byte, build_id, should_exclude}
use mcsm.Backup.Names.Safe.{build_id-All}
use mcsm.Backup.Create.{
  Forest, empty, file, dir, Archived, walk, Disk, Pause, paused, off_fails, meta_cut, Answers,
  Options, online, create, pause_failed,
}
use mcsm.Backup.Create.Outcome.{IsCreated, create-IsCreated, create-pause_fails}
use mcsm.Backup.Restore.{
  ZipEntry, extracted, Touch, has_parts, restore_target, restore, unsafe_path, escape,
}
use mcsm.Backup.Restore.Inside.{IsInside, path_of, restore-IsInside}

abbrev server_dir : CleanPath
server_dir = record { rooted = true; parts = codes "srv" ∷ [] }

abbrev entry : Bytes → ZipEntry
entry name = record {
  name = name;
  is_dir = false;
  ctx_done = false;
  mkdir_fails = false;
  extract = extracted;
}

-- A file in a directory, and a name that leaves the server's directory.
abbrev entries : List ZipEntry
entries = entry (codes "world/./level.dat") ∷ entry (codes "a/../../etc") ∷ []

stops : (restore server_dir (ok entries)).1 ≡ err unsafe_path
unfolding restore restore_target join clean equal
stops = refl

restore-IsInside_example :
    All (λ (t : Touch). IsInside server_dir (path_of t)) (restore server_dir (ok entries)).0
    × ((restore server_dir (ok entries)).1 ≢ err escape)
unfolding has_parts
restore-IsInside_example = restore-IsInside server_dir entries refl

abbrev tree : Forest
tree =
    dir (codes ".mcsm") (file (codes "owner.json") 9 (file (codes "config.yaml") 5 empty))
      (dir (codes "cache") (file (codes "x") 1 empty) (file (codes "server.properties") 7 empty))

abbrev answers : Pause → Answers
answers p = record {
  mkdir_fails = false;
  pause = p;
  create_fails = false;
  walk_fails = false;
  close_fails = false;
  rename_fails = false;
  meta_write = meta_cut;
  part_stays = false;
  zip_stays = false;
  resume_lost = false;
}

abbrev options : Options
options = record { label = codes "a b"; mode = online; include_logs = false; has_control = true }

abbrev no_files : Disk
no_files = record { zip = none; part = false; meta = none }

create-IsCreated_example :
    IsCreated
      (answers paused)
      (build_id (codes "20260101-000000") (codes "a b"))
      (codes "s1")
      5
      options
      (walk false [] tree)
      (true, no_files)
      (create
        (answers paused)
        (codes "s1")
        (codes "20260101-000000")
        5
        options
        tree
        (true, no_files))
    × All (λ (x : Archived). should_exclude x.rel false ≡ false) (walk false [] tree)
create-IsCreated_example =
    create-IsCreated (answers paused) (codes "s1") (codes "20260101-000000") 5 options tree true
      no_files refl

-- The reply to `save-off` is late.
off_fails_test :
    create
      (answers (off_fails true))
      (codes "s1")
      (codes "20260101-000000")
      5
      options
      tree
      (true, no_files)
    ≡ ((false, no_files), err pause_failed)
off_fails_test =
    create-pause_fails (answers (off_fails true)) (codes "s1") (codes "20260101-000000") 5 options
      tree true no_files refl (inr refl) refl refl

build_id-All_example :
    All (λ (c : ℕ). is_label_byte c ≡ true) (build_id (codes "20260101-000000") (codes "../a b"))
    × (length (build_id (codes "20260101-000000") (codes "../a b")) ≤ 80)
build_id-All_example = build_id-All (codes "20260101-000000") (codes "../a b") (ground arith)
