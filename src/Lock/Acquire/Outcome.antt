-- ===== src/Lock/Acquire/Outcome.antt =====
-- What each call of internal/lock/acquire.go does, on every branch.
use mcsm.Common.{
  ℕ, suc, if◌then◌else◌, ◌+◌, ◌≤◌, ◌<◌, ◌≡◌, refl, ◌≢◌, ◌↔◌, ◌⊎◌, inl, inr, Bool, true, false, some,
  String, str_eq_iff, ℤ, arith, Result, ok, err, Bool-cases,
}
use mcsm.Lock.Owner.{
  Owner, OwnerFile, absent, unreadable, garbled, holds, McsmDir, LockError, already_held,
  read_failed, parse_failed, write_failed, default_stale_after, read, classify, remove,
}
use mcsm.Lock.Acquire.{
  Fault, no_fault, mkdir, marshal, create_temp, write, close, rename, write_owner_atomic, Held,
  fresh_owner, may_write, write_and_hold, acquire_from, try_acquire, release,
}

-- The directory with `o` as its owner record.
abbrev pub owned_by : McsmDir → Owner → McsmDir
owned_by d o = record d { made = true; owner_file = holds o }

-- The removal of the temporary file fails.
abbrev pub leaves_temp : Fault → Bool
leaves_temp (write b) = b
leaves_temp (close b) = b
leaves_temp (rename b) = b
leaves_temp _ = false

-- Whatever call of the write fails, the owner file is the old one, a temporary file is left behind only if
-- its removal fails too, and the error tells; with no failure the file holds the new record.
pub write_owner_atomic_lem :
    (f : Fault) (d : McsmDir) (o : Owner)
    → ((f ≡ no_fault) × (write_owner_atomic f d o ≡ (owned_by d o, ok tt)))
      ⊎ ((f ≢ no_fault)
          × ((e : LockError) × (d' : McsmDir) × (write_owner_atomic f d o ≡ (d', err e))
              × (d'.owner_file ≡ d.owner_file)
              × (d'.temps ≡ (if leaves_temp f then suc d.temps else d.temps))))
unfolding write_owner_atomic
write_owner_atomic_lem no_fault d o = inl (refl, refl)
write_owner_atomic_lem mkdir d o = inr ((λ e. cc), (write_failed, _, refl, refl, refl))
write_owner_atomic_lem marshal d o = inr ((λ e. cc), (write_failed, _, refl, refl, refl))
write_owner_atomic_lem create_temp d o = inr ((λ e. cc), (write_failed, _, refl, refl, refl))
write_owner_atomic_lem (write true) d o = inr ((λ e. cc), (write_failed, _, refl, refl, refl))
write_owner_atomic_lem (close true) d o = inr ((λ e. cc), (write_failed, _, refl, refl, refl))
write_owner_atomic_lem (rename true) d o = inr ((λ e. cc), (write_failed, _, refl, refl, refl))
write_owner_atomic_lem (write false) d o =
    inr ((λ e. cc), (write_failed, _, refl, refl, omega arith))
write_owner_atomic_lem (close false) d o =
    inr ((λ e. cc), (write_failed, _, refl, refl, omega arith))
write_owner_atomic_lem (rename false) d o =
    inr ((λ e. cc), (write_failed, _, refl, refl, omega arith))

-- Who may take the lock: anyone, if there is no owner record; the same slot of the same instance,
-- if its heartbeat is fresh; with `force` anyone, if it is stale.
abbrev pub MayAcquire : OwnerFile → ℕ → String → String → Bool → Type 0
MayAcquire absent now self slot force = Unit
MayAcquire unreadable now self slot force = ⊥
MayAcquire garbled now self slot force = ⊥
MayAcquire (holds o) now self slot force =
    ((now ≤ o.heartbeat + default_stale_after) × (o.instance_name ≡ self) × (o.slot ≡ slot))
    ⊎ ((o.heartbeat + default_stale_after < now) × (force ≡ true))

module _ (now : ℕ) (self slot host : String) (pid : ℤ) (force : Bool) where
  -- The test of `TryAcquire` on a record that was read.
  may_write_iff :
      (o : Owner)
      → (may_write (classify (some o) self default_stale_after now) (some o) slot force ≡ true)
        ↔ MayAcquire (holds o) now self slot force
  unfolding may_write classify
  may_write_iff o = (
    λ h. ground (arith, str_eq_iff o.instance_name self, str_eq_iff o.slot slot),
    λ h. ground (arith, str_eq_iff o.instance_name self, str_eq_iff o.slot slot),
  )

  abbrev mine : Owner
  mine = fresh_owner self slot host pid now

  -- `TryAcquire` either writes this caller's fresh record, and then it may and no call failed; or it gives an
  -- error and the owner record is the old one: it may not, and then nothing at all is written, or a call
  -- failed, and then a temporary file is left only if its removal failed too.
  abbrev pub Decides : Fault → McsmDir → McsmDir × Result LockError Held → Type 0
  Decides f d out =
      ((out ≡ (owned_by d mine, ok (record { owner = mine; beating = true })))
        × MayAcquire d.owner_file now self slot force
        × (f ≡ no_fault))
      ⊎ ((e : LockError) × (d' : McsmDir) × (out ≡ (d', err e))
          × (d'.owner_file ≡ d.owner_file)
          × (((¬ MayAcquire d.owner_file now self slot force) × (d' ≡ d))
              ⊎ ((f ≢ no_fault) × (d'.temps ≡ (if leaves_temp f then suc d.temps else d.temps)))))

  write_and_hold-Decides :
      (f : Fault) (d : McsmDir)
      → MayAcquire d.owner_file now self slot force
      → Decides f d (write_and_hold f d mine)
  unfolding write_and_hold
  write_and_hold-Decides f d may = elim (write_owner_atomic_lem f d mine) [
    | inl (e, w) ↦ inl (rw (w, write_and_hold), may, e)
    | inr (n, (e, d', w, o, t)) ↦ inr (e, d', rw (w, write_and_hold), o, inr (n, t))
  ]

  -- A caller that may take the lock by what it has read goes on to write, and no other one does.
  pub acquire_from-may :
      (f : Fault) (file : OwnerFile) (made : Bool) (temps : ℕ) (d : McsmDir)
      → MayAcquire file now self slot force
      → acquire_from f now
          (read (record { made = made; owner_file = file; temps = temps }))
          d
          self
          slot
          host
          pid
          force
        ≡ write_and_hold f d mine
  unfolding acquire_from read
  acquire_from-may f absent made temps d h = refl
  acquire_from-may f unreadable made temps d h = absurd h
  acquire_from-may f garbled made temps d h = absurd h
  acquire_from-may f (holds o) made temps d h = rw ((may_write_iff o).1 h) refl

  try_acquire-on :
      (f : Fault) (file : OwnerFile) (made : Bool) (temps : ℕ)
      → let d : McsmDir = record { made = made; owner_file = file; temps = temps } in
        Decides f d (try_acquire f now d self slot host pid force)
  unfolding try_acquire acquire_from read
  try_acquire-on f absent made temps = write_and_hold-Decides f _ tt
  try_acquire-on f unreadable made temps = inr (read_failed, _, refl, refl, inl ((λ h. h), refl))
  try_acquire-on f garbled made temps = inr (parse_failed, _, refl, refl, inl ((λ h. h), refl))
  try_acquire-on f (holds o) made temps =
      elim (Bool-cases
        (may_write (classify (some o) self default_stale_after now) (some o) slot force)) [
          | inl e ↦ rw e (write_and_hold-Decides f _ ((may_write_iff o).0 e))
          | inr e ↦
              rw e
                (inr (already_held, _, refl, refl, inl ((λ h. cc ((may_write_iff o).1 h)), refl)))
        ]

  pub try_acquire-Decides :
      (f : Fault) (d : McsmDir) → Decides f d (try_acquire f now d self slot host pid force)
  try_acquire-Decides f d = try_acquire-on f d.owner_file d.made d.temps

release-on :
    (h : Held) (file : OwnerFile) (made : Bool) (temps : ℕ)
    → (release false h (record { made = made; owner_file = file; temps = temps })).1.owner_file
      ≡ absent
unfolding release remove
release-on h absent made temps = refl
release-on h _ made temps = refl

pub owner_file-release : (h : Held) (d : McsmDir) → (release false h d).1.owner_file ≡ absent
owner_file-release h d = release-on h d.owner_file d.made d.temps
