-- ===== src/Backup/Create/Outcome.antt =====
-- What a backup leaves behind.
use mcsm.Common.{
  ℕ, ◌≡◌, refl, ◌⊎◌, Bool, true, false, ◌&&◌, ◌||◌, Bool-cases, inl, inr, none, some, List, [], ◌∷◌,
  ◌++◌, ◌+◌, ◌≢◌, length, arith, Bytes, if◌then◌else◌, if_rule, All, Result, ok, err,
}
use mcsm.Backup.Names.{should_exclude, build_id}
use mcsm.Backup.Create.{
  online, Forest, empty, file, dir, Archived, rel_path, walk, Meta, count, whole, torn, Disk, Pause,
  paused, off_fails, flush_fails, MetaWrite, meta_written, meta_not_opened, meta_cut, Answers,
  CreateError, pause_failed, mkdir_failed, create_failed, walk_failed, rename_failed, meta_failed,
  pause_saves, resume_saves, write_meta, wrote_meta, archive, paused_archive, plain_archive,
  Options, is_online, create,
}

IsIncluded : Bool → Archived → Type 0
IsIncluded logs a = should_exclude a.rel logs ≡ false

append-IsIncluded :
    (logs : Bool) (xs ys : List Archived)
    → All (IsIncluded logs) xs
    → All (IsIncluded logs) ys
    → All (IsIncluded logs) (xs ++ ys)
append-IsIncluded logs [] ys h k = k
append-IsIncluded logs (x ∷ xs) ys h k = (h.0, append-IsIncluded logs xs ys h.1 k)

walk-IsIncluded :
    (logs : Bool) (at : Bytes) (tree : Forest) → All (IsIncluded logs) (walk logs at tree)
unfolding walk IsIncluded
walk-IsIncluded logs at empty = tt
walk-IsIncluded logs at (file name size rest) =
    elim (Bool-cases (should_exclude (rel_path at name) logs)) [
      | inl t ↦ rw t (walk-IsIncluded logs at rest)
      | inr f ↦ rw f (f, walk-IsIncluded logs at rest)
    ]
walk-IsIncluded logs at (dir name inside rest) =
    elim (Bool-cases (should_exclude (rel_path at name) logs)) [
      | inl t ↦ rw t (walk-IsIncluded logs at rest)
      | inr f ↦ rw f (
        f,
        append-IsIncluded logs (walk logs (rel_path at name) inside) (walk logs at rest)
            (walk-IsIncluded logs (rel_path at name) inside) (walk-IsIncluded logs at rest),
      )
    ]

-- The sizes of the files, one for each.
abbrev pub file_sizes : List Archived → List ℕ
file_sizes [] = []
file_sizes (a ∷ as') = if a.is_dir then file_sizes as' else a.size ∷ file_sizes as'

abbrev pub sum : List ℕ → ℕ
sum [] = 0
sum (n ∷ ns) = n + sum ns

count-file_sizes :
    (as' : List Archived)
    → ((count as').0 ≡ sum (file_sizes as')) × ((count as').1 ≡ length (file_sizes as'))
unfolding count
count-file_sizes [] = (refl, refl)
count-file_sizes (a ∷ as') =
    let (b, n) = count-file_sizes as' in
    elim (Bool-cases a.is_dir) [
      | inl t ↦ rw t (b, n)
      | inr f ↦ rw f (omega (arith, b), omega (arith, n))
    ]

-- What the metadata say of the backup that was asked for.
pub record Describes (id server_id : Bytes) (now : ℕ) (opts : Options) (entries : List Archived)
    (m : Meta) : Type 0 where
  pub ids : (m.id ≡ id) × (m.server_id ≡ server_id)
  pub options : (m.label ≡ opts.label) × (m.mode ≡ opts.mode) × (m.logs ≡ opts.include_logs)
  pub created : m.created_at ≡ now
  pub bytes : m.bytes_total ≡ sum (file_sizes entries)
  pub files : m.file_count ≡ length (file_sizes entries)

-- What went wrong, for each failure.
abbrev pub IsCaused : Answers → CreateError → Type 0
IsCaused a mkdir_failed = a.mkdir_fails ≡ true
IsCaused a pause_failed = a.pause ≢ paused
IsCaused a create_failed = a.create_fails ≡ true
IsCaused a walk_failed = (a.walk_fails || a.close_fails) ≡ true
IsCaused a rename_failed = a.rename_fails ≡ true
IsCaused a meta_failed = a.meta_write ≢ meta_written

-- The archive and its metadata, or neither of them new but for a file whose removal failed.
abbrev pub Stored :
    Answers → (Meta → Type 0) → List Archived → Disk → Disk × Result CreateError Meta → Type 0
Stored a Describing entries before (d, r) =
    ((m : Meta) × (r ≡ ok m)
      × (d ≡ record { zip = some entries; part = false; meta = some (whole m) })
      × Describing m)
    ⊎ ((e : CreateError) × (r ≡ err e)
        × IsCaused a e
        × ((d.part ≡ false) ⊎ (a.part_stays ≡ true))
        × ((d.zip ≡ before.zip)
            ⊎ ((d.zip ≡ none) ⊎ ((d.zip ≡ some entries) × (a.zip_stays ≡ true))))
        × ((d.meta ≡ before.meta) ⊎ (d.meta ≡ some torn)))

-- Autosave that was on is on, unless the pausing failed after it took effect, or the resuming took none.
abbrev pub KeepsSaving : Answers → Bool → Bool → Type 0
KeepsSaving a before after =
    (before ≡ false)
    ⊎ ((after ≡ true)
        ⊎ ((a.pause ≡ off_fails true) ⊎ ((a.pause ≡ flush_fails) ⊎ (a.resume_lost ≡ true))))

keeps : (a : Answers) (auto : Bool) → KeepsSaving a auto auto
keeps a true = inr (inl refl)
keeps a false = inl refl

module _ (a : Answers) (Describing : Meta → Type 0) (entries : List Archived) (m : Meta)
    (described : Describing m) where
  removed :
      (d : Disk) (b : Bool)
      → a.part_stays ≡ b
      → ((record d { part = b }).part ≡ false) ⊎ (a.part_stays ≡ true)
  removed d true e = inr e
  removed d false e = inl refl

  zip_gone :
      (b : Bool)
      → a.zip_stays ≡ b
      → ((if b then some entries else none) ≡ none)
        ⊎ (((if b then some entries else none) ≡ some entries) × (a.zip_stays ≡ true))
  zip_gone true e = inr (refl, e)
  zip_gone false e = inl refl

  archive-Stored :
      (d : Disk) → d.part ≡ false → Stored a Describing entries d (archive a entries m d)
  unfolding archive write_meta wrote_meta
  archive-Stored d h =
      if_rule P a.create_fails (λ e. inr (_, refl, e, inl h, inl refl, inl refl))
        (λ _.
          if_rule P (a.walk_fails || a.close_fails)
            (λ e. inr (_, refl, e, removed d _ refl, inl refl, inl refl))
            (λ _.
              if_rule P a.rename_fails (λ e. inr (_, refl, e, removed d _ refl, inl refl, inl refl))
                (λ _. last a.meta_write refl)))
    where
      P : Disk × Result CreateError Meta → Type 0
      P o = Stored a Describing entries d o

      last :
          (w : MetaWrite)
          → a.meta_write ≡ w
          → P (
              if wrote_meta w
              then (record { zip = some entries; part = false; meta = some (whole m) }, ok m)
              else (
                record {
                  zip = if a.zip_stays then some entries else none;
                  part = false;
                  meta = write_meta w m d.meta;
                },
                err meta_failed,
              ))
      last meta_written e = inl (m, refl, refl, described)
      last meta_not_opened e = inr (_, refl, (λ q. cc), inl refl, inr (zip_gone _ refl), inl refl)
      last meta_cut e = inr (_, refl, (λ q. cc), inl refl, inr (zip_gone _ refl), inr refl)

  abbrev Made : Bool × Disk → (Bool × Disk) × Result CreateError Meta → Type 0
  Made w o = Stored a Describing entries w.1 (o.0.1, o.1) × KeepsSaving a w.0 o.0.0

  plain_archive-Made :
      (auto : Bool) (d : Disk)
      → d.part ≡ false
      → Made (auto, d) (plain_archive a entries m (auto, d))
  unfolding plain_archive
  plain_archive-Made auto d h = (archive-Stored d h, keeps a auto)

  -- The pause that was asked for.
  paused_with :
      (p : Pause) (auto : Bool) (d : Disk)
      → a.pause ≡ p
      → d.part ≡ false
      → Made
          (auto, d)
          (if (pause_saves p auto).1 then (((pause_saves p auto).0, d), err pause_failed) else (
            (resume_saves a.resume_lost (pause_saves p auto).0, (archive a entries m d).0),
            (archive a entries m d).1,
          ))
  unfolding pause_saves resume_saves
  paused_with (off_fails true) auto d e h =
      (inr (pause_failed, refl, (λ q. cc), inl h, inl refl, inl refl), inr (inr (inl e)))
  paused_with (off_fails false) auto d e h =
      (inr (pause_failed, refl, (λ q. cc), inl h, inl refl, inl refl), keeps a auto)
  paused_with flush_fails auto d e h =
      (inr (pause_failed, refl, (λ q. cc), inl h, inl refl, inl refl), inr (inr (inr (inl e))))
  paused_with paused auto d e h = (
    archive-Stored d h,
    elim (Bool-cases a.resume_lost) [
      | inl t ↦ inr (inr (inr (inr t)))
      | inr f ↦ inr (inl (rw f refl))
    ],
  )

abbrev pub IsCreated :
    Answers
    → Bytes
    → Bytes
    → ℕ
    → Options
    → List Archived
    → Bool × Disk
    → (Bool × Disk) × Result CreateError Meta
    → Type 0
IsCreated a id server_id now opts entries w o =
    Stored a (Describes id server_id now opts entries) entries w.1 (o.0.1, o.1)
    × KeepsSaving a w.0 o.0.0

-- Create, where no unfinished archive is left from before, either returns the metadata, and then the archive and
-- this metadata are on disk and no unfinished archive is left, and the metadata name the backup and count
-- the archive's files and bytes; or it returns an error that has its cause, and then the archive and the
-- metadata are as they were or gone or cut short, and no unfinished archive is left, but for what could not be
-- removed. The archive holds nothing that is to be left out. Autosave that was on is on again, unless the
-- pausing failed after `save-off` took effect, or `save-on` takes none.
pub create-IsCreated :
    (a : Answers) (server_id ts : Bytes) (now : ℕ) (opts : Options) (tree : Forest) (auto : Bool)
    (d : Disk)
    → d.part ≡ false
    → IsCreated a
        (build_id ts opts.label)
        server_id
        now
        opts
        (walk opts.include_logs [] tree)
        (auto, d)
        (create a server_id ts now opts tree (auto, d))
      × All
          (λ (x : Archived). should_exclude x.rel opts.include_logs ≡ false)
          (walk opts.include_logs [] tree)
unfolding create paused_archive IsIncluded
create-IsCreated a server_id ts now opts tree auto d h = (
  if_rule P a.mkdir_fails
      (λ e. (inr (mkdir_failed, refl, e, inl h, inl refl, inl refl), keeps a auto))
      (λ _.
        if_rule P (is_online opts.mode && opts.has_control)
          (λ _. paused_with a _ entries _ described a.pause auto d refl h)
          (λ _. plain_archive-Made a _ entries _ described auto d h)),
  walk-IsIncluded opts.include_logs [] tree,
)
  where
    entries : List Archived
    entries = walk opts.include_logs [] tree

    P : (Bool × Disk) × Result CreateError Meta → Type 0
    P o = IsCreated a (build_id ts opts.label) server_id now opts entries (auto, d) o

    described : Describes (build_id ts opts.label) server_id now opts entries (record {
      id = build_id ts opts.label;
      server_id = server_id;
      label = opts.label;
      mode = opts.mode;
      created_at = now;
      bytes_total = (count entries).0;
      file_count = (count entries).1;
      logs = opts.include_logs;
    })
    described = record {
      ids = (refl, refl);
      options = (refl, refl, refl);
      created = refl;
      bytes = (count-file_sizes entries).0;
      files = (count-file_sizes entries).1;
    }

-- An online backup whose flush fails, or whose `save-off` fails after it took effect, returns an error and leaves
-- autosave off.
pub create-pause_fails :
    (a : Answers) (server_id ts : Bytes) (now : ℕ) (opts : Options) (tree : Forest) (auto : Bool)
    (d : Disk)
    → a.mkdir_fails ≡ false
    → (a.pause ≡ flush_fails) ⊎ (a.pause ≡ off_fails true)
    → opts.mode ≡ online
    → opts.has_control ≡ true
    → create a server_id ts now opts tree (auto, d) ≡ ((false, d), err pause_failed)
unfolding create paused_archive is_online pause_saves
create-pause_fails a server_id ts now opts tree auto d h f o c = elim f [
  | inl e ↦ rw (h, e, o, c) refl
  | inr e ↦ rw (h, e, o, c) refl
]
