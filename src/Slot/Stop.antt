-- ===== src/Slot/Stop.antt =====
-- internal/slot/slot.go: `Stop`, the ends of its goroutine, `AbortStop`, and `Restart` up to its
-- goroutine.
use mcsm.Common.{
  ℕ, true, false, Option, none, some, String, str_eq, ℤ, pos, ltb_ℤ, if◌then◌else◌, Result, ok, err,
}
use mcsm.Slot.State.{State, running, stopping, can_stop_from}
use mcsm.Slot.Record.{Slot, transition}

pub data StopError : Type 0 where
  slot_busy server_not_mounted : StopError

pub record StopOptions : Type 0 where
  pub graceful_seconds : ℤ
  pub kill_grace : ℤ

abbrev pub positive_or : ℤ → ℤ → ℤ
positive_or d n = if ltb_ℤ (pos 0) n then n else d

-- What is not positive gets the default: 30 seconds, and 10 seconds in nanoseconds.
pub with_defaults : StopOptions → StopOptions
with_defaults o = record {
  graceful_seconds = positive_or (pos 30) o.graceful_seconds;
  kill_grace = positive_or (pos 10_000_000_000) o.kill_grace;
}

-- The second section of `Stop`, after the test of the state, and the third one, where `abort` names the
-- channel that is made; the slot's process and connection go to the goroutine.
unfoldable pub enter_stop : ℕ → Slot → Slot
enter_stop now s = transition now stopping none s

unfoldable pub commit_stop : ℕ → Slot → Slot
commit_stop abort s = record s { stopping = true; stop_abort = some abort }

-- `Stop` with nothing in between.
unfoldable pub stop : ℕ → ℕ → Slot → Slot × Result StopError (Unit {0})
unfolding enter_stop commit_stop
stop now abort s =
    if can_stop_from s.state
    then (commit_stop abort (enter_stop now s), ok tt)
    else (s, err slot_busy)

pub data AbortError : Type 0 where
  not_stopping : AbortError

-- The channel that is closed, if the slot is stopping and nobody has closed it.
abort_channel : State → Option ℕ → Option ℕ
abort_channel stopping c = c
abort_channel _ c = none

unfoldable pub abort_stop : Slot → Slot × Result AbortError ℕ
unfolding abort_channel
abort_stop s = elim (abort_channel s.state s.stop_abort) [
  | none ↦ (s, err not_stopping)
  | some c ↦ (record s { stop_abort = none }, ok c)
]

-- The goroutine's section under the mutex when it sees the abort; `transition(StateRunning)` comes
-- after it, whatever the state is by then.
clear_stopping : State → Slot → Slot
clear_stopping stopping s = record s { stopping = false; stop_abort = none }
clear_stopping _ s = s

unfoldable pub see_abort : Slot → Slot
unfolding clear_stopping
see_abort s = clear_stopping s.state s

unfoldable pub resume : ℕ → Slot → Slot
resume now s = transition now running none s

-- The id that the goroutine of `Restart` starts again, once the stop is under way.
pub restart : ℕ → ℕ → Slot → Slot × Result StopError String
unfolding stop
restart now abort s =
    if str_eq s.mounted_id ""
    then (s, err server_not_mounted)
    else (let (s', r) = stop now abort s in (s', elim r [ ok _ ↦ ok s.mounted_id | err e ↦ err e ]))
