-- ===== src/Slot/Watch/Release.antt =====
-- The directory after the teardown of `watchExit`.
use mcsm.Common.{◌≡◌, refl, ◌≢◌, false, Option, none, some}
use mcsm.Lock.Owner.{absent, McsmDir}
use mcsm.Lock.Acquire.{Held}
use mcsm.Lock.Acquire.Outcome.{owner_file-release}
use mcsm.Slot.Record.{Slot}
use mcsm.Slot.Watch.{release_lock, teardown}

release_lock-absent :
    (l : Option Held) (d : McsmDir) → l ≢ none → (release_lock false l d).owner_file ≡ absent
unfolding release_lock
release_lock-absent none d n = absurd (n refl)
release_lock-absent (some h) d n = owner_file-release h d

pub teardown-absent :
    (s : Slot) (d : McsmDir) → s.lock ≢ none → (teardown false s d).1.owner_file ≡ absent
unfolding teardown
teardown-absent s d n = release_lock-absent s.lock d n
