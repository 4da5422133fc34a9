-- ===== src/Slot/Run.antt =====
-- internal/slot/slot.go: one mount with the goroutines that `Start` and `Stop` leave running, as a
-- schedule of their steps: `watchExit`, `healthLoop`, `rconConnectLoop`, and any number of calls of `Stop`,
-- each with its goroutine. A step is a section under the slot's mutex, a channel operation, or a call of
-- `AbortStop`. No `Start` comes in between.
pub mod Safety
pub mod Races
use mcsm.Common.{
  ℕ, Bool, true, false, ◌&&◌, ◌||◌, Option, none, some, List, [], ◌∷◌, ◌++◌, if◌then◌else◌, Result,
  ok, err, ◌==◌, length, get_elem?, set,
}
use mcsm.Lock.Owner.{McsmDir}
use mcsm.Process.Exit.{ExitInfo, ExitChan, publish, receive}
use mcsm.Slot.State.{State, SlpInfo, can_stop_from}
use mcsm.Slot.Record.{Slot}
use mcsm.Slot.Stop.{enter_stop, commit_stop, abort_stop, see_abort, resume}
use mcsm.Slot.Watch.{teardown, close_discord_bot, land, probed, healthy, expired, store_rcon}

-- `watchExit`: at the receive, before the mutex, before `transition`, returned.
pub data Watcher : Type 0 where
  watching gone : Watcher
  notified : ExitInfo → Watcher
  leaving : Bool → ExitInfo → Watcher

-- A call of `Stop`: before `transition(StateStopping)`, before its third section; and its goroutine: at the
-- `select`, before `transition(StateRunning)`, in `Terminate`, returned.
pub data Grace : Type 0 where
  passed entered waiting aborted terminating over : Grace

-- `healthLoop`: at the ticker, before the first test with the probe's outcome, before the second,
-- returned.
pub data Health : Type 0 where
  polling ended : Health
  judging : Bool → State → Health
  timing : State → Health

-- The calls of `Stop` stand in the order of their tests; a call's place names the channel that it makes, and
-- `closed` has the channels that were closed. `connecting`: `rconConnectLoop` has not returned.
pub record Sys : Type 0 where
  pub slot : Slot
  pub dir : McsmDir
  pub chan : ExitChan
  pub watcher : Watcher
  pub stops : List Grace
  pub closed : List ℕ
  pub health : Health
  pub connecting : Bool

-- `watch_teardown` tells whether removing the owner record fails.
pub data Action : Type 0 where
  exits : ExitInfo → Action
  watch_receive watch_land : Action
  watch_teardown : Bool → Action
  stop_check abort_call : Action
  stop_enter stop_commit grace_exit grace_abort grace_resume grace_timeout terminate_exit :
      ℕ → Action
  probe : Option SlpInfo → Action
  judge : Action
  expire : Bool → Action
  rcon_store : ℕ → Action
  rcon_end : Action

receive_step : Watcher → Sys → Option Sys
receive_step watching s = elim (receive s.chan) [
  | none ↦ none
  | some (i, c) ↦ some (record s { chan = c; watcher = notified i })
]
receive_step _ s = none

teardown_step : Bool → Watcher → Sys → Option Sys
teardown_step fails (notified i) s =
    let (slot', dir') = teardown fails s.slot s.dir in
    some (record s { slot = slot'; dir = dir'; watcher = leaving s.slot.stopping i })
teardown_step fails _ s = none

land_step : ℕ → Watcher → Sys → Option Sys
land_step now (leaving b i) s =
    some (record s { slot = land now b i (close_discord_bot s.slot); watcher = gone })
land_step now _ s = none

-- A step of the call of `Stop` at place `i`.
at_stop : ℕ → (Grace → Sys → Option (Grace × Sys)) → Sys → Option Sys
at_stop i f s = elim (get_elem? s.stops i) [
  | none ↦ none
  | some g ↦ elim (f g s) [
    | none ↦ none
    | some (g', t) ↦ some (record t { stops = set t.stops i g' })
  ]
]

check_step : Sys → Option Sys
check_step s =
    if can_stop_from s.slot.state then some (record s { stops = s.stops ++ passed ∷ [] }) else none

enter_step : ℕ → Grace → Sys → Option (Grace × Sys)
enter_step now passed s = some (entered, record s { slot = enter_stop now s.slot })
enter_step now _ s = none

-- Where the slot has no process the goroutine ends at once.
grace_for : Option ℕ → Grace
grace_for none = over
grace_for (some p) = waiting

commit_step : ℕ → Grace → Sys → Option (Grace × Sys)
unfolding grace_for
commit_step i entered s = some (grace_for s.slot.process, record s { slot = commit_stop i s.slot })
commit_step i _ s = none

abort_step : Sys → Option Sys
abort_step s =
    let (slot', r) = abort_stop s.slot in
    elim r [ err e ↦ none | ok c ↦ some (record s { slot = slot'; closed = c ∷ s.closed }) ]

-- A read of the exit channel by the goroutine of `Stop`, at the `select` or in `Terminate`.
consume_step : Sys → Option (Grace × Sys)
consume_step s = elim (receive s.chan) [
  | none ↦ none
  | some (_, c) ↦ some (over, record s { chan = c })
]

grace_exit_step : Grace → Sys → Option (Grace × Sys)
unfolding consume_step
grace_exit_step waiting s = consume_step s
grace_exit_step _ s = none

is_among : ℕ → List ℕ → Bool
is_among i [] = false
is_among i (c ∷ cs) = c == i || is_among i cs

grace_abort_step : ℕ → Grace → Sys → Option (Grace × Sys)
unfolding is_among
grace_abort_step i waiting s =
    if is_among i s.closed then some (aborted, record s { slot = see_abort s.slot }) else none
grace_abort_step i _ s = none

grace_resume_step : ℕ → Grace → Sys → Option (Grace × Sys)
grace_resume_step now aborted s = some (over, record s { slot = resume now s.slot })
grace_resume_step now _ s = none

grace_timeout_step : Grace → Sys → Option (Grace × Sys)
grace_timeout_step waiting s = some (terminating, s)
grace_timeout_step _ s = none

terminate_step : Grace → Sys → Option (Grace × Sys)
unfolding consume_step
terminate_step terminating s = consume_step s
terminate_step _ s = none

abbrev answered : Option SlpInfo → Bool
answered none = false
answered (some i) = true

probe_step : ℕ → Option SlpInfo → Health → Sys → Option Sys
probe_step now r polling s =
    let (slot', st) = probed now r s.slot in
    some (record s { slot = slot'; health = judging (answered r) st })
probe_step now r _ s = none

judge_step : ℕ → Health → Sys → Option Sys
judge_step now (judging b st) s =
    some (record s { slot = healthy now b st s.slot; health = timing st })
judge_step now _ s = none

expire_step : ℕ → Bool → Health → Sys → Option Sys
expire_step now late (timing st) s =
    let (slot', ends) = expired now late st s.slot in
    some (record s { slot = slot'; health = if ends then ended else polling })
expire_step now late _ s = none

-- A connection that is made is stored, also if the context has been cancelled since.
rcon_step : ℕ → Bool → Sys → Option Sys
rcon_step c true s = some (record s { slot = store_rcon c s.slot; connecting = false })
rcon_step c false s = none

-- The loop sees that its context is cancelled.
rcon_end_step : Option ℕ → Sys → Option Sys
rcon_end_step none s = some (record s { connecting = false })
rcon_end_step (some c) s = none

-- `now` is the time of the step; `none` where the step cannot be taken.
unfoldable pub step : ℕ → Action → Sys → Option Sys
unfolding receive_step teardown_step land_step at_stop check_step enter_step commit_step abort_step
    grace_exit_step grace_abort_step grace_resume_step grace_timeout_step terminate_step probe_step
    judge_step expire_step publish rcon_step rcon_end_step
step now (exits i) s = some (record s { chan = publish i s.chan })
step now watch_receive s = receive_step s.watcher s
step now (watch_teardown fails) s = teardown_step fails s.watcher s
step now watch_land s = land_step now s.watcher s
step now stop_check s = check_step s
step now abort_call s = abort_step s
step now (stop_enter i) s = at_stop i (enter_step now) s
step now (stop_commit i) s = at_stop i (commit_step i) s
step now (grace_exit i) s = at_stop i grace_exit_step s
step now (grace_abort i) s = at_stop i (grace_abort_step i) s
step now (grace_resume i) s = at_stop i (grace_resume_step now) s
step now (grace_timeout i) s = at_stop i grace_timeout_step s
step now (terminate_exit i) s = at_stop i terminate_step s
step now (probe r) s = probe_step now r s.health s
step now judge s = judge_step now s.health s
step now (expire late) s = expire_step now late s.health s
step now (rcon_store c) s = rcon_step c s.connecting s
step now rcon_end s = rcon_end_step s.slot.cancel_ctx s

unfoldable pub run : List (ℕ × Action) → Sys → Option Sys
run [] s = some s
run ((now, a) ∷ rest) s = elim (step now a s) [ none ↦ none | some t ↦ run rest t ]

-- As `Start` leaves it.
abbrev pub mounted : Slot → McsmDir → Sys
mounted s d = record {
  slot = s;
  dir = d;
  chan = ExitChan.open_chan;
  watcher = watching;
  stops = [];
  closed = [];
  health = polling;
  connecting = true;
}
