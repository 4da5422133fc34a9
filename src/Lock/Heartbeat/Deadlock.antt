-- ===== src/Lock/Heartbeat/Deadlock.antt =====
-- When the two goroutines of a lock can stop for good.
use mcsm.Common.{
  ◌≡◌, refl, ◌↔◌, ◌⊎◌, inl, inr, Bool, true, false, none, some, List, [], ◌∷◌, arith, Option-cases,
}
use mcsm.Lock.Heartbeat.{
  Releaser, not_called, canceling, awaiting, returned, Beater, ticked, refreshing, stopped, Sys,
  Action, call, acquire_mu, cancel, finish, tick, refresh_lock, refresh_unlock, exit, step, start,
  run,
}

abbrev holds_releaser : Releaser → Bool
holds_releaser canceling = true
holds_releaser awaiting = true
holds_releaser _ = false

abbrev holds_beater : Beater → Bool
holds_beater refreshing = true
holds_beater _ = false

abbrev has_canceled : Releaser → Bool
has_canceled awaiting = true
has_canceled returned = true
has_canceled _ = false

abbrev has_stopped : Beater → Bool
has_stopped stopped = true
has_stopped _ = false

-- The mutex is held by the goroutine that is between its `Lock` and `Unlock`, by one at most; the
-- context is canceled by `Release` alone, and `done` is closed as the loop returns.
record Inv (s : Sys) : Type 0 where
  mutex : holds_releaser s.releaser ≡ true → s.locked ≡ true
  mutex' : holds_beater s.beater ≡ true → s.locked ≡ true
  apart : holds_releaser s.releaser ≡ true → holds_beater s.beater ≡ false
  held : s.locked ≡ true → (holds_releaser s.releaser ≡ true) ⊎ (holds_beater s.beater ≡ true)
  context : s.canceled ≡ has_canceled s.releaser
  closed : s.done ≡ has_stopped s.beater
  why : s.beater ≡ stopped → s.canceled ≡ true
  last : s.releaser ≡ returned → s.beater ≡ stopped

start-Inv : Inv start
start-Inv = ground arith

step-Inv : (a : Action) (s : Sys) {t : Sys} → Inv s → step a s ≡ some t → Inv t
unfolding step
step-Inv call s v e = ground arith
step-Inv _ s v e = ground arith

run-Inv : (sched : List Action) (s : Sys) {t : Sys} → Inv s → run sched s ≡ some t → Inv t
unfolding run
run-Inv [] s v e = ground arith
run-Inv (a ∷ rest) s v e = elim (Option-cases (step a s)) [
  | inl n ↦ let q = rw (n, run) at e in cc
  | inr (u, p) ↦ run-Inv rest u (step-Inv a s v p) (rw (p, run) at e)
]

-- No goroutine can take a step.
abbrev pub Stuck : Sys → Type 0
Stuck s = (a : Action) → step a s ≡ none

Stuck-only :
    (s : Sys)
    → Inv s
    → Stuck s
    → ((s.releaser ≡ returned) × (s.beater ≡ stopped))
      ⊎ ((s.releaser ≡ awaiting) × (s.beater ≡ ticked))
unfolding step
Stuck-only s v st = ground (
  arith,
  st call,
  st acquire_mu,
  st cancel,
  st finish,
  st tick,
  st refresh_lock,
  st refresh_unlock,
  st exit,
)

Stuck-both :
    (s : Sys)
    → Inv s
    → ((s.releaser ≡ returned) × (s.beater ≡ stopped))
      ⊎ ((s.releaser ≡ awaiting) × (s.beater ≡ ticked))
    → Stuck s
unfolding step
Stuck-both s v h call = ground arith
Stuck-both s v h _ = ground arith

-- Whatever the two goroutines of a lock have done since `TryAcquire`, neither can take a further
-- step exactly when both have returned, or when `Release` waits on `done` with the mutex held while
-- the heartbeat loop, whose ticker has fired, waits for the mutex.
pub Stuck-iff :
    (sched : List Action) (t : Sys)
    → run sched start ≡ some t
    → Stuck t ↔ (
        ((t.releaser ≡ returned) × (t.beater ≡ stopped))
        ⊎ ((t.releaser ≡ awaiting) × (t.beater ≡ ticked)))
Stuck-iff sched t e = let v = run-Inv sched start start-Inv e in (Stuck-only t v, Stuck-both t v)

-- The steps that lead into the deadlock.
abbrev pub into_deadlock : Beater → List Action
into_deadlock refreshing = refresh_unlock ∷ tick ∷ call ∷ acquire_mu ∷ cancel ∷ []
into_deadlock ticked = call ∷ acquire_mu ∷ cancel ∷ []
into_deadlock _ = tick ∷ call ∷ acquire_mu ∷ cancel ∷ []

abbrev pub deadlocked : Bool → Sys
deadlocked d = record {
  releaser = awaiting;
  beater = ticked;
  locked = true;
  canceled = true;
  done = d;
}

deadlocked-Stuck : Stuck (deadlocked false)
unfolding step
deadlocked-Stuck call = refl
deadlocked-Stuck _ = refl

run-into_deadlock :
    (t : Sys)
    → Inv t
    → t.releaser ≡ not_called
    → run (into_deadlock t.beater) t ≡ some (deadlocked false)
unfolding run step
run-into_deadlock t v n = ground arith

-- As long as `Release` has not been called, the next steps can always be such that it never returns:
-- the ticker fires, and `Release` takes the mutex before `Refresh` does.
pub deadlock_ahead :
    (sched : List Action) (t : Sys)
    → run sched start ≡ some t
    → t.releaser ≡ not_called
    → (run (into_deadlock t.beater) t ≡ some (deadlocked false)) × Stuck (deadlocked false)
deadlock_ahead sched t e n =
    (run-into_deadlock t (run-Inv sched start start-Inv e) n, deadlocked-Stuck)
