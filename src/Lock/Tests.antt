-- ===== src/Lock/Tests.antt =====
-- The theorems of Lock at concrete inputs, and tests.
use mcsm.Common.{
  ℕ, ◌*◌, ◌^◌, ◌≡◌, refl, ◌≢◌, ◌↔◌, ◌⊎◌, inl, true, false, some, [], ◌∷◌, String, str_eq_iff, pos,
  arith, ok, err,
}
use mcsm.Lock.Owner.{Owner, absent, holds, McsmDir, already_held, read}
use mcsm.Lock.Acquire.{no_fault, Held, fresh_owner, acquire_from, try_acquire, refresh, release}
use mcsm.Lock.Acquire.Outcome.{owned_by, Decides, try_acquire-Decides}
use mcsm.Lock.Acquire.Lease.{
  beats, taken, try_acquire-beats, acquire_from-both, release_after_steal,
}
use mcsm.Lock.Heartbeat.{
  awaiting, returned, ticked, stopped, call, acquire_mu, cancel, tick, run, step, start,
}
use mcsm.Lock.Heartbeat.Deadlock.{Stuck, Stuck-iff, into_deadlock, deadlocked, deadlock_ahead}

abbrev seconds : ℕ → ℕ
seconds n = n * 10 ^ 9

abbrev empty_dir : McsmDir
empty_dir = record { made = false; owner_file = absent; temps = 0 }

abbrev first : Owner
first = fresh_owner "alpha" "lobby" "host-a" (pos 100) (seconds 1000)

abbrev held_dir : McsmDir
held_dir = owned_by empty_dir first

ab : ◌≢◌ {A = String} "alpha" "beta"
ab = ground (arith, str_eq_iff "alpha" "beta")

took :
    try_acquire no_fault (seconds 1000) empty_dir "alpha" "lobby" "host-a" (pos 100) false
    ≡ taken empty_dir first
unfolding try_acquire
took = refl

try_acquire-Decides_example :
    Decides
      (seconds 1030)
      "beta"
      "lobby"
      "host-b"
      (pos 200)
      true
      no_fault
      held_dir
      (try_acquire no_fault (seconds 1030) held_dir "beta" "lobby" "host-b" (pos 200) true)
try_acquire-Decides_example =
    try_acquire-Decides (seconds 1030) "beta" "lobby" "host-b" (pos 200) true no_fault held_dir

-- Two beats in time, and a forced call of another instance 50 seconds after the second.
try_acquire-beats_example :
    let d =
      (beats
        (seconds 1010 ∷ seconds 1065 ∷ [])
        (record { owner = first; beating = true })
        held_dir).1 in
    acquire_from no_fault (seconds 1115) (read d) empty_dir "beta" "lobby" "host-b" (pos 200) true
    ≡ (empty_dir, err already_held)
try_acquire-beats_example =
    try_acquire-beats "beta" "lobby" "host-b" (pos 200) true (seconds 1010 ∷ seconds 1065 ∷ [])
      no_fault no_fault (seconds 1115) (seconds 1000) empty_dir empty_dir "alpha" "lobby" "host-a"
      (pos 100) false took (inl ab) (omega arith)

-- Both found the directory free; beta writes last, and alpha's next heartbeat takes the record back.
acquire_from-both_example :
    let (d1, r1) =
      acquire_from no_fault
        (seconds 1000)
        (read empty_dir)
        empty_dir
        "alpha"
        "lobby"
        "host-a"
        (pos 100)
        false in
    let (d2, r2) =
      acquire_from no_fault
        (seconds 1001)
        (read empty_dir)
        d1
        "beta"
        "lobby"
        "host-b"
        (pos 200)
        false in
    (h h' : Held) × (r1 ≡ ok h)
    × (r2 ≡ ok h')
    × (d2.owner_file ≡ holds (fresh_owner "beta" "lobby" "host-b" (pos 200) (seconds 1001)))
    × ((refresh no_fault (seconds 1010) h d2).1.owner_file
        ≡ holds (record first { heartbeat = seconds 1010 }))
acquire_from-both_example =
    acquire_from-both empty_dir (seconds 1000) (seconds 1001) (seconds 1010) "alpha" "beta" "lobby"
      "lobby" "host-a" "host-b" (pos 100) (pos 200) false false tt tt

-- Instance alpha went silent at second 1000; beta steals the lock at second 1061.
stolen :
    try_acquire no_fault (seconds 1061) held_dir "beta" "lobby" "host-b" (pos 200) true
    ≡ taken empty_dir (fresh_owner "beta" "lobby" "host-b" (pos 200) (seconds 1061))
unfolding try_acquire
stolen = refl

release_after_steal_example :
    let e = owned_by empty_dir (fresh_owner "beta" "lobby" "host-b" (pos 200) (seconds 1061)) in
    let freed = (release false (record { owner = first; beating = true }) e).1 in
    (try_acquire no_fault (seconds 1070) e "gamma" "lobby" "host-c" (pos 300) false
      ≡ (e, err already_held))
    × (try_acquire no_fault (seconds 1070) freed "gamma" "lobby" "host-c" (pos 300) false
        ≡ taken e (fresh_owner "gamma" "lobby" "host-c" (pos 300) (seconds 1070)))
release_after_steal_example =
    release_after_steal (record { owner = first; beating = true }) held_dir (seconds 1061)
      (seconds 1070) "beta" "gamma" "lobby" "lobby" "host-b" "host-c" (pos 200) (pos 300) stolen
      (omega arith) (inl (ground (arith, str_eq_iff "gamma" "beta")))

-- `Release` is called while the loop is at its `select`.
Stuck-iff_example :
    Stuck (deadlocked false)
    ↔ (((awaiting ≡ returned) × (ticked ≡ stopped)) ⊎ ((awaiting ≡ awaiting) × (ticked ≡ ticked)))
unfolding run step
Stuck-iff_example = Stuck-iff (tick ∷ call ∷ acquire_mu ∷ cancel ∷ []) (deadlocked false) refl

deadlock_ahead_example :
    (run (into_deadlock start.beater) start ≡ some (deadlocked false)) × Stuck (deadlocked false)
unfolding run
deadlock_ahead_example = deadlock_ahead [] start refl refl
