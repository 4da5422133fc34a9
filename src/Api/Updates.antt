-- ===== src/Api/Updates.antt =====
-- internal/api/handlers_update.go: `handleUpdateApply`. The request's body, the server's flavor, the
-- backup and the renamings are answers.
pub mod Installed
use mcsm.Common.{
  ℕ, Bool, true, false, not, ◌&&◌, ◌||◌, Option, none, some, String, str_eq, List, [], ◌∷◌, Bytes,
  if◌then◌else◌, ℤ, Result, ok, err, ◌>>=◌,
}
use mcsm.Slot.State.{State, is_terminal}
use mcsm.Slot.Record.{Slot, Server}
use mcsm.Api.Backups.{Refusal, slot_busy, require_slot_and_server}
use mcsm.Update.Paper.{Release, LatestError, Fetch, Target, DownloadError, latest, download}

-- paper.jar, paper.jar.previous, and the download's destination with its unfinished file.
pub record Jars : Type 0 where
  pub launch : Option Bytes
  pub previous : Option Bytes
  pub staging : Target

pub record Request : Type 0 where
  -- None if the body cannot be decoded: the version, and whether a backup is made.
  pub body : Option (Bytes × Bool)
  -- None if the server's configuration cannot be read.
  pub flavor : Option String
  pub backups_enabled : Bool
  pub backup_fails : Bool
  pub builds : Option (List ℤ)
  pub fetch : Fetch
  pub keep_fails : Bool
  pub install_fails : Bool

pub data UpdateError : Type 0 where
  refused : Refusal → UpdateError
  bad_body no_version_given config_unreadable not_paper backup_failed install_failed : UpdateError
  lookup_failed : LatestError → UpdateError
  download_failed : DownloadError → UpdateError

-- Whether the slot lets its jar be replaced.
unfoldable pub update_gate : Option Slot → Option Refusal
unfolding require_slot_and_server is_terminal
update_gate o = elim (require_slot_and_server o) [
  | err r ↦ some r
  | ok p ↦ if is_terminal p.0.state then none else some slot_busy
]

-- `swapFile` of paper.jar to paper.jar.previous, whose error is ignored, and of the staged jar to
-- paper.jar. A file that is not there cannot be renamed.
keep_at : Bool → Option Bytes → Jars → Jars
keep_at fails none j = j
keep_at fails (some b) j = if fails then j else record j { launch = none; previous = some b }

keep_old : Bool → Jars → Jars
unfolding keep_at
keep_old fails j = keep_at fails j.launch j

put_at : Bool → Release → Option Bytes → Jars → Jars × Result UpdateError Release
put_at fails rel none j = (j, err install_failed)
put_at fails rel (some b) j =
    if fails
    then (j, err install_failed)
    else (record j { launch = some b; staging = record (j.staging) { dest = none } }, ok rel)

put_new : Bool → Release → Jars → Jars × Result UpdateError Release
unfolding put_at
put_new fails rel j = put_at fails rel j.staging.dest j

install :
    Request → Release → Jars → Target × Option DownloadError → Jars × Result UpdateError Release
unfolding keep_old put_new
install q rel j (t, some e) = (record j { staging = t }, err (download_failed e))
install q rel j (t, none) =
    put_new q.install_fails rel (keep_old q.keep_fails (record j { staging = t }))

fetch_and_install :
    (Bytes → Bytes)
    → Request
    → Jars
    → Result LatestError Release
    → Jars × Result UpdateError Release
unfolding install download
fetch_and_install digest q j (err e) = (j, err (lookup_failed e))
fetch_and_install digest q j (ok rel) = install q rel j (download digest rel q.fetch j.staging)

-- The checks between the body and the look-up.
checked : Request → Result UpdateError Bytes
checked q = elim q.body [
  | none ↦ err bad_body
  | some (version, backup) ↦ elim version [
    | [] ↦ err no_version_given
    | c ∷ cs ↦ elim q.flavor [
      | none ↦ err config_unreadable
      | some f ↦
          if not (str_eq f "paper")
          then err not_paper
          else (if backup && q.backups_enabled && q.backup_fails
              then err backup_failed
              else ok (c ∷ cs))
    ]
  ]
]

looked_up :
    (Bytes → Bytes)
    → (Bytes → Result LatestError Release)
    → Request
    → Jars
    → Result UpdateError Bytes
    → Jars × Result UpdateError Release
unfolding fetch_and_install
looked_up digest find q j (err e) = (j, err e)
looked_up digest find q j (ok version) = fetch_and_install digest q j (find version)

gated :
    (Bytes → Bytes)
    → (Bytes → Result LatestError Release)
    → Request
    → Jars
    → Option Refusal
    → Jars × Result UpdateError Release
unfolding looked_up checked
gated digest find q j (some r) = (j, err (refused r))
gated digest find q j none = looked_up digest find q j (checked q)

-- `find` is `latest` with the answers of the network.
unfoldable pub apply_update :
    (Bytes → Bytes)
    → (Bytes → Result LatestError Release)
    → Request
    → Option Slot
    → Jars
    → Jars × Result UpdateError Release
unfolding gated update_gate
apply_update digest find q o j = gated digest find q j (update_gate o)
