-- ===== src/Slot/Run/Races.antt =====
-- Orders of steps after which the slot's state is not what happened to the process.
use mcsm.Common.{
  ℕ, ◌≡◌, subst, ◌≢◌, ◌⊎◌, inl, inr, true, false, Option, none, some, List, [], ◌∷◌, map, Bool,
  get_elem?, arith, Option-cases,
}
use mathlib.Core.Option
use mcsm.Process.Exit.{ExitInfo, normal, ready, receive, publish}
use mcsm.Slot.State.{State, idle, starting, running, stopping, crashed, can_start_from}
use mcsm.Slot.Record.{transition}
use mcsm.Slot.Stop.{enter_stop, commit_stop, abort_stop, see_abort, resume}
use mcsm.Slot.Watch.{teardown, close_discord_bot, land, probed, healthy, expired, store_rcon}
use mcsm.Slot.Run.{
  watching, gone, waiting, Health, polling, ended, judging, timing, Sys, Action, exits,
  watch_receive, watch_teardown, watch_land, abort_call, grace_exit, grace_abort, grace_resume,
  step, run,
}

abbrev pub state_after : ℕ → List Action → Sys → Option State
state_after now sched s = Option.map (λ (t : Sys). t.slot.state) (run (map (λ a. (now, a)) sched) s)

-- A process that ends normally while a stop is pending lands the slot in idle if `watchExit` reads
-- the exit channel, but in crashed if the goroutine of `Stop` reads it first.
pub exit_read_by_stop :
    (now place : ℕ) (fails : Bool) (s : Sys) (i : ExitInfo)
    → s.watcher ≡ watching
    → get_elem? s.stops place ≡ some waiting
    → s.chan ≡ ready i
    → s.slot.stopping ≡ true
    → i.reason ≡ normal
    → (state_after now (watch_receive ∷ watch_teardown fails ∷ watch_land ∷ []) s ≡ some idle)
      × (state_after now
            (grace_exit place ∷ watch_receive ∷ watch_teardown fails ∷ watch_land ∷ [])
            s
          ≡ some crashed)
unfolding step run receive teardown land close_discord_bot transition
exit_read_by_stop now place fails s i w g c st r = ground arith

-- The calls of `Stop` are named by their places.
abbrev pub race : Bool → ℕ → List Action
race fails place =
    abort_call
    ∷ watch_receive
    ∷ watch_teardown fails
    ∷ watch_land
    ∷ grace_abort place
    ∷ grace_resume place
    ∷ []

-- Not read while the slot was starting.
abbrev pub Settled : Health → Type 0
Settled polling = Unit
Settled ended = Unit
Settled (judging b st) = st ≢ starting
Settled (timing st) = st ≢ starting

-- A slot with no process that counts as running, or as stopping.
record IsWedged (s : Sys) : Type 0 where
  process : s.slot.process ≡ none
  watcher : s.watcher ≡ gone
  state : (s.slot.state ≡ running) ⊎ (s.slot.state ≡ stopping)
  health : Settled s.health

step-IsWedged :
    (now : ℕ) (a : Action) (s : Sys) {t : Sys} → IsWedged s → step now a s ≡ some t → IsWedged t
unfolding step publish receive teardown land close_discord_bot enter_stop commit_stop abort_stop
    see_abort resume probed healthy expired transition store_rcon
step-IsWedged now (exits i) s v e = ground arith
step-IsWedged now _ s v e = ground arith

run-IsWedged :
    (sched : List (ℕ × Action)) (s : Sys) {t : Sys} → IsWedged s → run sched s ≡ some t → IsWedged t
unfolding run
run-IsWedged [] s v e = subst IsWedged (ground (arith, e)) v
run-IsWedged ((now, a) ∷ rest) s v e = elim (Option-cases (step now a s)) [
  | inl n ↦ let q = rw (n, run) at e in cc
  | inr (u, p) ↦ run-IsWedged rest u (step-IsWedged now a s v p) (rw (p, run) at e)
]

race-IsWedged :
    (now c : ℕ) (fails : Bool) (s : Sys) (i : ExitInfo) (u : Sys)
    → s.slot.state ≡ stopping
    → s.slot.stop_abort ≡ some c
    → get_elem? s.stops c ≡ some waiting
    → s.watcher ≡ watching
    → s.chan ≡ ready i
    → Settled s.health
    → run (map (λ a. (now, a)) (race fails c)) s ≡ some u
    → IsWedged u × (u.slot.state ≡ running)
unfolding step run receive teardown land close_discord_bot abort_stop see_abort resume transition
race-IsWedged now c fails s i u st ab g w ch hl e = ground arith

can_start-wedged : (st : State) → (st ≡ running) ⊎ (st ≡ stopping) → can_start_from st ≡ false
unfolding can_start_from
can_start-wedged st h = ground arith

-- An `AbortStop` that comes before the process's end is seen, but whose goroutine runs after
-- `watchExit` has landed, leaves the slot running with no process, if no round of `healthLoop` is under way
-- that has read the state starting. From there no further steps, any calls of `Stop` and `AbortStop`
-- included, bring back a process or a state from which one can be started.
pub abort_after_exit :
    (now c : ℕ) (fails : Bool) (s : Sys) (i : ExitInfo) (u : Sys) (sched : List (ℕ × Action))
    (t : Sys)
    → s.slot.state ≡ stopping
    → s.slot.stop_abort ≡ some c
    → get_elem? s.stops c ≡ some waiting
    → s.watcher ≡ watching
    → s.chan ≡ ready i
    → Settled s.health
    → run (map (λ a. (now, a)) (race fails c)) s ≡ some u
    → run sched u ≡ some t
    → (u.slot.state ≡ running) × (t.slot.process ≡ none) × (can_start_from t.slot.state ≡ false)
abort_after_exit now c fails s i u sched t st ab g w ch hl e e' =
    let (wedged, r) = race-IsWedged now c fails s i u st ab g w ch hl e in
    let v = run-IsWedged sched u wedged e' in (r, v.process, can_start-wedged t.slot.state v.state)
