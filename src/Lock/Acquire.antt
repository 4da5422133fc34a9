-- ===== src/Lock/Acquire.antt =====
-- internal/lock/acquire.go: taking, refreshing and releasing a lock.
pub mod Outcome
pub mod Lease
use mcsm.Common.{
  ℕ, suc, ◌+◌, ◌-◌, Bool, true, false, not, Option, none, some, String, str_eq, ltb, ℤ,
  if◌then◌else◌, Result, ok, err,
}
use mcsm.Lock.Owner.{
  Owner, OwnerFile, absent, unreadable, garbled, holds, McsmDir, LockError, already_held,
  write_failed, State, free, owned_self, owned_other, stale, default_stale_after, read, classify,
  remove,
}

-- The call of `writeOwnerAtomic` that fails, if any, and whether the removal of the temporary file then fails
-- as well.
pub data Fault : Type 0 where
  no_fault mkdir marshal create_temp : Fault
  write close rename : Bool → Fault

-- `os.MkdirAll`
abbrev with_folder : McsmDir → McsmDir
with_folder d = record d { made = true }

abbrev with_temp : McsmDir → McsmDir
with_temp d = record d { temps = suc d.temps }

-- `os.Remove(tmpPath)`
abbrev drop_temp : Bool → McsmDir → McsmDir
drop_temp fails d = if fails then d else record d { temps = d.temps - 1 }

unfoldable pub write_owner_atomic : Fault → McsmDir → Owner → McsmDir × Result LockError (Unit {0})
write_owner_atomic mkdir d o = (d, err write_failed)
write_owner_atomic marshal d o = (with_folder d, err write_failed)
write_owner_atomic create_temp d o = (with_folder d, err write_failed)
write_owner_atomic (write b) d o = (drop_temp b (with_temp (with_folder d)), err write_failed)
write_owner_atomic (close b) d o = (drop_temp b (with_temp (with_folder d)), err write_failed)
write_owner_atomic (rename b) d o = (drop_temp b (with_temp (with_folder d)), err write_failed)
write_owner_atomic no_fault d o = (record d { made = true; owner_file = holds o }, ok tt)

-- `beating` tells that `cancel` is not nil: the heartbeat goroutine runs.
pub record Held : Type 0 where
  pub owner : Owner
  pub beating : Bool

-- The slot for which the record was written.
slot_of : Option Owner → String
slot_of none = ""
slot_of (some o) = o.slot

-- The `switch state` of `TryAcquire`: whether it goes on to write.
pub may_write : State → Option Owner → String → Bool → Bool
unfolding slot_of
may_write owned_self cur slot force = str_eq (slot_of cur) slot
may_write stale cur slot force = force
may_write owned_other cur slot force = false
may_write free cur slot force = true

pub fresh_owner : String → String → String → ℤ → ℕ → Owner
fresh_owner self slot host pid now = record {
  instance_name = self;
  slot = slot;
  host = host;
  pid = pid;
  started_at = now;
  heartbeat = now;
}

pub write_and_hold : Fault → McsmDir → Owner → McsmDir × Result LockError Held
unfolding write_owner_atomic
write_and_hold f d o =
    let (d', r) = write_owner_atomic f d o in
    (d', elim r [ ok _ ↦ ok (record { owner = o; beating = true }) | err e ↦ err e ])

-- `TryAcquire` from what it has read: the directory may have changed since.
unfoldable pub acquire_from :
    Fault
    → ℕ
    → Result LockError (Option Owner)
    → McsmDir
    → String
    → String
    → String
    → ℤ
    → Bool
    → McsmDir × Result LockError Held
unfolding write_and_hold may_write fresh_owner classify
acquire_from f now r d self slot host pid force = elim r [
  | err e ↦ (d, err e)
  | ok cur ↦
      if may_write (classify cur self default_stale_after now) cur slot force
      then write_and_hold f d (fresh_owner self slot host pid now)
      else (d, err already_held)
]

-- With nothing in between.
unfoldable pub try_acquire :
    Fault → ℕ → McsmDir → String → String → String → ℤ → Bool → McsmDir × Result LockError Held
unfolding acquire_from read
try_acquire f now d self slot host pid force =
    acquire_from f now (read d) d self slot host pid force

unfoldable pub refresh : Fault → ℕ → Held → McsmDir → Held × McsmDir × Result LockError (Unit {0})
unfolding write_owner_atomic
refresh f now h d =
    let o = record (h.owner) { heartbeat = now } in
    let (d', r) = write_owner_atomic f d o in (record h { owner = o }, d', r)

unfoldable pub release : Bool → Held → McsmDir → Held × McsmDir × Result LockError (Unit {0})
unfolding remove
release fails h d = let (d', r) = remove fails d in (record h { beating = false }, d', r)
