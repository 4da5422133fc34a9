-- ===== src/Lock/Heartbeat.antt =====
-- internal/lock/acquire.go: `Release` and `heartbeatLoop` as two goroutines that share the mutex
-- `mu`, the context and the channel `done`. A schedule is a list of the steps that are taken.
pub mod Deadlock
use mcsm.Common.{Bool, true, false, Option, none, some, List, [], ◌∷◌}

-- `Release`: not called, at `h.mu.Lock()`, before `h.cancel()`, at `<-h.done`, returned.
pub data Releaser : Type 0 where
  not_called locking canceling awaiting returned : Releaser

-- `heartbeatLoop`: at the `select`, at `h.mu.Lock()` of `Refresh`, inside `Refresh`, returned.
pub data Beater : Type 0 where
  selecting ticked refreshing stopped : Beater

pub record Sys : Type 0 where
  pub releaser : Releaser
  pub beater : Beater
  pub locked : Bool
  pub canceled : Bool
  pub done : Bool

pub data Action : Type 0 where
  call acquire_mu cancel finish tick refresh_lock refresh_unlock exit : Action

-- Each step with its guard; `none` where the goroutine is elsewhere or has to wait.
call_step : Releaser → Sys → Option Sys
call_step not_called s = some (record s { releaser = locking })
call_step _ s = none

acquire_step : Releaser → Bool → Sys → Option Sys
acquire_step locking false s = some (record s { releaser = canceling; locked = true })
acquire_step _ _ s = none

cancel_step : Releaser → Sys → Option Sys
cancel_step canceling s = some (record s { releaser = awaiting; canceled = true })
cancel_step _ s = none

finish_step : Releaser → Bool → Sys → Option Sys
finish_step awaiting true s = some (record s { releaser = returned; locked = false })
finish_step _ _ s = none

-- The ticker may fire whenever the loop is at its `select`, also when the context is canceled.
tick_step : Beater → Sys → Option Sys
tick_step selecting s = some (record s { beater = ticked })
tick_step _ s = none

refresh_lock_step : Beater → Bool → Sys → Option Sys
refresh_lock_step ticked false s = some (record s { beater = refreshing; locked = true })
refresh_lock_step _ _ s = none

refresh_unlock_step : Beater → Sys → Option Sys
refresh_unlock_step refreshing s = some (record s { beater = selecting; locked = false })
refresh_unlock_step _ s = none

exit_step : Beater → Bool → Sys → Option Sys
exit_step selecting true s = some (record s { beater = stopped; done = true })
exit_step _ _ s = none

unfoldable pub step : Action → Sys → Option Sys
unfolding call_step acquire_step cancel_step finish_step tick_step refresh_lock_step
    refresh_unlock_step exit_step
step call s = call_step s.releaser s
step acquire_mu s = acquire_step s.releaser s.locked s
step cancel s = cancel_step s.releaser s
step finish s = finish_step s.releaser s.done s
step tick s = tick_step s.beater s
step refresh_lock s = refresh_lock_step s.beater s.locked s
step refresh_unlock s = refresh_unlock_step s.beater s
step exit s = exit_step s.beater s.canceled s

-- Just after `TryAcquire`.
abbrev pub start : Sys
start = record {
  releaser = not_called;
  beater = selecting;
  locked = false;
  canceled = false;
  done = false;
}

unfoldable pub run : List Action → Sys → Option Sys
run [] s = some s
run (a ∷ rest) s = elim (step a s) [ none ↦ none | some t ↦ run rest t ]
