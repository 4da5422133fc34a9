-- ===== src/Slot/Run/Safety.antt =====
-- What every schedule of one mount keeps.
use mcsm.Common.{
  ℕ, ◌≡◌, refl, sym, subst, ◌∙◌, ◌≢◌, ◌⊎◌, inl, inr, Bool, true, false, ◌||◌, none, some, List, [],
  ◌∷◌, arith, if◌then◌else◌, Bool-cases, Option-cases,
}
use mcsm.Lock.Owner.{absent, McsmDir}
use mcsm.Process.Exit.{receive, publish}
use mcsm.Slot.State.{State, idle, mounting, crashed}
use mcsm.Slot.Record.{Slot, transition}
use mcsm.Slot.Stop.{enter_stop, commit_stop, abort_stop, see_abort, resume}
use mcsm.Slot.Watch.Release.{teardown-absent}
use mcsm.Slot.Watch.{teardown, close_discord_bot, land, probed, healthy, expired, store_rcon}
use mcsm.Slot.Run.{
  Watcher, watching, gone, notified, leaving, Sys, Action, watch_teardown, step, run, mounted,
}

abbrev pub is_torn : Watcher → Bool
is_torn watching = false
is_torn (notified i) = false
is_torn (leaving b i) = true
is_torn gone = true

abbrev pub is_gone : Watcher → Bool
is_gone gone = true
is_gone _ = false

-- Only `watchExit` lands in these states.
abbrev pub landed : State → Bool
landed idle = true
landed crashed = true
landed _ = false

-- The removal of the owner record fails at the teardown.
abbrev pub removal_fails : List (ℕ × Action) → Bool
removal_fails [] = false
removal_fails ((now, watch_teardown fails) ∷ rest) = fails || removal_fails rest
removal_fails ((now, _) ∷ rest) = removal_fails rest

-- `m` is the slot as `Start` left it; `failed` tells whether a removal has failed.
record Inv (m : Slot) (failed : Bool) (s : Sys) : Type 0 where
  process : s.slot.process ≡ (if is_torn s.watcher then none else m.process)
  server : s.slot.server ≡ (if is_torn s.watcher then none else m.server)
  lock : s.slot.lock ≡ (if is_torn s.watcher then none else m.lock)
  freed : is_torn s.watcher ≡ true → m.lock ≢ none → failed ≡ false → s.dir.owner_file ≡ absent
  down : landed s.slot.state ≡ true → is_gone s.watcher ≡ true
  unmounting : s.slot.state ≢ mounting

-- The flag after a step.
abbrev and_then : Bool → Action → Bool
and_then failed (watch_teardown fails) = failed || fails
and_then failed _ = failed

step-Inv :
    (m : Slot) (now : ℕ) (a : Action) (failed : Bool) (s : Sys) {t : Sys}
    → Inv m failed s
    → step now a s ≡ some t
    → Inv m (and_then failed a) t
unfolding step publish receive teardown land close_discord_bot enter_stop commit_stop abort_stop
    see_abort resume probed healthy expired transition store_rcon
step-Inv m now (watch_teardown false) failed s v e = ground (arith, teardown-absent s.slot s.dir)
step-Inv m now _ failed s v e = ground arith

fails_later : Bool → List (ℕ × Action) → Bool
fails_later failed [] = failed
fails_later failed ((now, a) ∷ rest) = fails_later (and_then failed a) rest

run-Inv :
    (m : Slot) (sched : List (ℕ × Action)) (failed : Bool) (s : Sys) {t : Sys}
    → Inv m failed s
    → run sched s ≡ some t
    → Inv m (fails_later failed sched) t
unfolding run fails_later
run-Inv m [] failed s v e = subst (Inv m failed) (ground (arith, e)) v
run-Inv m ((now, a) ∷ rest) failed s v e = elim (Option-cases (step now a s)) [
  | inl n ↦ let q = rw (n, run) at e in cc
  | inr (u, p) ↦
      run-Inv m rest (and_then failed a) u (step-Inv m now a failed s v p) (rw (p, run) at e)
]

fails_later-or :
    (failed : Bool) (sched : List (ℕ × Action))
    → fails_later failed sched ≡ (failed || removal_fails sched)
unfolding fails_later
fails_later-or failed [] = ground arith
fails_later-or failed ((now, watch_teardown fails) ∷ rest) =
    ground (fails_later-or (failed || fails) rest, arith)
fails_later-or failed ((now, _) ∷ rest) = fails_later-or failed rest

mounted-Inv :
    (m : Slot) (d : McsmDir)
    → landed m.state ≡ false
    → m.state ≢ mounting
    → Inv m false (mounted m d)
mounted-Inv m d h k = ground arith

-- What a slot that a mount left behind in state idle or crashed holds: nothing, and no lock on disk, unless
-- the mount had none or its removal failed.
pub record IsReleased (m : Slot) (failed : Bool) (t : Sys) : Type 0 where
  pub process : t.slot.process ≡ none
  pub server : t.slot.server ≡ none
  pub lock : t.slot.lock ≡ none
  pub freed : (m.lock ≡ none) ⊎ ((failed ≡ true) ⊎ (t.dir.owner_file ≡ absent))

gone-torn : (w : Watcher) → is_gone w ≡ true → is_torn w ≡ true
gone-torn gone h = refl
gone-torn watching h = cc
gone-torn (notified i) h = cc
gone-torn (leaving b i) h = cc

torn-IsReleased :
    (m : Slot) (failed : Bool) (t : Sys)
    → Inv m failed t
    → is_torn t.watcher ≡ true
    → IsReleased m failed t
torn-IsReleased m failed t v g = record {
  process = v.process ∙ rw g;
  server = v.server ∙ rw g;
  lock = v.lock ∙ rw g;
  freed = elim (Option-cases m.lock) [
    | inl e ↦ inl e
    | inr (h, e) ↦ inr (elim (Bool-cases failed) [
      | inl b ↦ inl b
      | inr b ↦ inr (v.freed g (λ q. let r = sym e ∙ q in cc) b)
    ])
  ];
}

-- Whatever the goroutines of a mount and any calls of `Stop` and `AbortStop` do, in any order, with no
-- `Start` in between: when the slot is idle or crashed, it holds no process, no server and no lock, and the
-- owner record is gone unless its removal failed; and until `watchExit` has torn the mount down, it holds
-- what `Start` left there.
pub run-IsReleased :
    (m : Slot) (d : McsmDir) (sched : List (ℕ × Action)) (t : Sys)
    → landed m.state ≡ false
    → m.state ≢ mounting
    → run sched (mounted m d) ≡ some t
    → ((landed t.slot.state ≡ false) ⊎ IsReleased m (removal_fails sched) t)
      × ((is_torn t.watcher ≡ true)
          ⊎ ((t.slot.process ≡ m.process) × (t.slot.server ≡ m.server) × (t.slot.lock ≡ m.lock)))
run-IsReleased m d sched t h k e = (
  elim (Bool-cases (landed t.slot.state)) [
    | inl l ↦ inr (torn-IsReleased m (removal_fails sched) t v (gone-torn t.watcher (v.down l)))
    | inr l ↦ inl l
  ],
  elim (Bool-cases (is_torn t.watcher)) [
    | inl l ↦ inl l
    | inr l ↦ inr (v.process ∙ rw l, v.server ∙ rw l, v.lock ∙ rw l)
  ],
)
  where
    v : Inv m (removal_fails sched) t
    v =
        subst (λ b. Inv m b t) (fails_later-or false sched)
          (run-Inv m sched false (mounted m d) (mounted-Inv m d h k) e)
