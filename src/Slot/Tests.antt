-- ===== src/Slot/Tests.antt =====
-- The theorems of Slot at concrete inputs, and tests.
use mcsm.Common.{ℕ, ◌≡◌, refl, ◌≢◌, ◌⊎◌, true, false, Option, none, some, List, [], ◌∷◌, ◌++◌, pos}
use mcsm.Lock.Owner.{absent, holds, McsmDir}
use mcsm.Lock.Acquire.{no_fault, Held, fresh_owner, try_acquire, release}
use mcsm.Process.Exit.{ExitInfo, ExitChan, ready, normal, receive, publish}
use mcsm.Slot.State.{
  idle, starting, running, stopping, crashed, error, SlpInfo, can_start_from, can_stop_from,
}
use mcsm.Slot.Record.{Server, SlotConfig, Slot, new, transition}
use mcsm.Slot.Memory.{check_accepts}
use mcsm.Slot.Stop.{enter_stop, commit_stop, abort_stop, see_abort, resume}
use mcsm.Slot.Mount.{Answers, start}
use mcsm.Slot.Mount.Outcome.{EndsAs, start-EndsAs}
use mcsm.Slot.Watch.{teardown, close_discord_bot, land, health_round}
use mcsm.Slot.Watch.Exits.{health_round_lem, notice_without_name}
use mcsm.Slot.Run.{
  Sys, gone, waiting, over, Action, exits, watch_receive, watch_teardown, watch_land, stop_check,
  stop_enter, stop_commit, grace_exit, step, run, mounted,
}
use mcsm.Slot.Run.Safety.{landed, is_torn, IsReleased, run-IsReleased}
use mcsm.Slot.Run.Races.{state_after, exit_read_by_stop, abort_after_exit}

abbrev pub config : SlotConfig
config = record {
  name = "lobby";
  port = 25565;
  public_address = "";
  auto_mount = "";
  accept_types = [];
  max_memory_mb = pos 0;
}

abbrev pub paper : Server
paper = record { id = "s1"; name = "Survival"; flavor = "paper"; version = ""; path = "/srv/s1" }

abbrev pub empty_dir : McsmDir
empty_dir = record { made = false; owner_file = absent; temps = 0 }

abbrev pub fresh : Slot
fresh = new config "alpha" "host-a" 0

abbrev pub answers : Answers
answers = record {
  now = 5;
  pid = pos 100;
  found = some paper;
  refreshed = none;
  accept_args = some [];
  java_args = some [];
  password = some "secret";
  patched = true;
  write_fault = no_fault;
  planned = true;
  spawned = some 7;
  remove_fails = false;
  context = 1;
}

abbrev pub held : Held
held = record { owner = fresh_owner "alpha" "lobby" "host-a" (pos 100) 5; beating = true }

-- The slot and its directory after a successful `Start`.
abbrev pub up : Slot
up = record fresh {
  state = starting;
  server = some paper;
  process = some 7;
  lock = some held;
  mounted_id = "s1";
}

abbrev pub up_dir : McsmDir
up_dir = record { made = true; owner_file = holds held.owner; temps = 0 }

start_works : (start answers false fresh empty_dir).1 ≡ up_dir
unfolding start new can_start_from check_accepts try_acquire
start_works = refl

abbrev pub clean_exit : ExitInfo
clean_exit = record { exit_code = pos 0; signal = none; failed = false; at = 9; reason = normal }

start-EndsAs_example : EndsAs answers false fresh empty_dir (start answers false fresh empty_dir)
start-EndsAs_example = start-EndsAs answers false fresh empty_dir

notice_test :
    (close_discord_bot (teardown false (record up { bot = true }) up_dir).0).notices ≡ [] ++ "" ∷ []
unfolding new
notice_test = notice_without_name false (record up { bot = true }) up_dir refl

-- A probe that is answered after the startup budget.
abbrev answer : SlpInfo
answer = record {
  online = true;
  players_online = pos 0;
  players_max = pos 20;
  motd = "";
  latency_ms = 3;
  sampled_at = 400;
}

late_answer_test :
    let (t, ends) = health_round 400 (some answer) true up in
    ((starting ≢ starting) × (t.state ≡ starting) × (ends ≡ false))
    ⊎ ((starting ≡ starting) × (true ≡ true) × (t.state ≡ error) × (ends ≡ true))
    ⊎ ((starting ≡ starting)
        × (true ≡ false)
        × (◌≢◌ {A = Option SlpInfo} (some answer) none)
        × (t.state ≡ running)
        × (ends ≡ false))
    ⊎ ((starting ≡ starting)
        × (true ≡ false)
        × (◌≡◌ {A = Option SlpInfo} (some answer) none)
        × (t.state ≡ starting)
        × (ends ≡ false))
late_answer_test = health_round_lem 400 (some answer) true up

-- A second `Start`, after the budget was over, that gets a second process.
abbrev again : Answers
again = record answers { now = 401; spawned = some 8 }

abbrev timed_out : Slot
timed_out = (health_round 400 none true up).0

-- The operator stops the slot, and its process ends normally, before anyone has seen it.
abbrev pub pending : Sys
pending =
    record (mounted (record up { state = stopping; stopping = true; stop_abort = some 0 }) up_dir) {
      chan = ready clean_exit;
      stops = waiting ∷ [];
    }

exit_read_by_stop_example :
    (state_after 10 (watch_receive ∷ watch_teardown false ∷ watch_land ∷ []) pending ≡ some idle)
    × (state_after 10
          (grace_exit 0 ∷ watch_receive ∷ watch_teardown false ∷ watch_land ∷ [])
          pending
        ≡ some crashed)
exit_read_by_stop_example = exit_read_by_stop 10 0 false pending clean_exit refl refl refl refl refl

-- The slot after the race of `abort_after_exit`.
abbrev pub wedged : Slot
wedged = record up {
  state = running;
  state_since = 10;
  server = none;
  process = none;
  lock = none;
  mounted_id = "";
  stopping = true;
  stop_abort = none;
  published =
      record { from_state = stopping; to_state = idle }
      ∷ record { from_state = idle; to_state = running }
      ∷ [];
}

abbrev after_race : Sys
after_race = record pending {
  slot = wedged;
  dir = record up_dir { owner_file = absent };
  chan = ExitChan.drained;
  watcher = gone;
  stops = over ∷ [];
  closed = 0 ∷ [];
}

abort_after_exit_example :
    (after_race.slot.state ≡ running)
    × (after_race.slot.process ≡ none)
    × (can_start_from after_race.slot.state ≡ false)
unfolding run step new receive teardown land close_discord_bot abort_stop see_abort resume
    transition release
abort_after_exit_example =
    abort_after_exit 10 0 false pending clean_exit after_race [] after_race refl refl refl refl refl
      tt refl refl

-- A stop, a normal exit, and what `watchExit` does then.
abbrev pub sched : List (ℕ × Action)
sched =
    (6, stop_check)
    ∷ (6, stop_enter 0)
    ∷ (6, stop_commit 0)
    ∷ (9, exits clean_exit)
    ∷ (10, watch_receive)
    ∷ (10, watch_teardown false)
    ∷ (10, watch_land)
    ∷ []

abbrev pub stopped : Sys
stopped = record pending {
  slot = record wedged {
    state = idle;
    stop_abort = some 0;
    published =
        record { from_state = starting; to_state = stopping }
        ∷ record { from_state = stopping; to_state = idle }
        ∷ [];
  };
  dir = record up_dir { owner_file = absent };
  chan = ExitChan.drained;
  watcher = gone;
}

run-IsReleased_example :
    ((landed idle ≡ false) ⊎ IsReleased up false stopped)
    × ((is_torn gone ≡ true)
        ⊎ ((stopped.slot.process ≡ up.process)
            × (stopped.slot.server ≡ up.server)
            × (stopped.slot.lock ≡ up.lock)))
unfolding run step new publish receive teardown land close_discord_bot enter_stop commit_stop
    transition release can_stop_from
run-IsReleased_example = run-IsReleased up up_dir sched stopped refl (λ e. cc) refl
