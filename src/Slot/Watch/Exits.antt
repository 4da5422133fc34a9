-- ===== src/Slot/Watch/Exits.antt =====
-- What the sections of `watchExit` and `healthLoop` do to the slot's state.
use mcsm.Common.{
  ℕ, ◌≡◌, ◌≢◌, ◌⊎◌, Bool, true, false, Option, none, some, [], ◌∷◌, ◌++◌, arith, if◌then◌else◌,
}
use mcsm.Lock.Owner.{McsmDir}
use mcsm.Process.Exit.{ExitInfo, Reason, normal, killed}
use mcsm.Slot.State.{State, starting, running, error, SlpInfo}
use mcsm.Slot.Record.{Slot, transition}
use mcsm.Slot.Watch.{teardown, close_discord_bot, land, health_round}

-- An end of the process that the operator asked for: the reason is normal or killed.
abbrev pub expected : Bool → Reason → Bool
expected true normal = true
expected true killed = true
expected _ _ = false

-- `watchExit` lands in idle exactly at an exit that was asked for, and in crashed at any other. A
-- normal stop clears the last error; every other exit records one, under its own code.
pub land_lem :
    (now : ℕ) (stopping : Bool) (i : ExitInfo) (s : Slot)
    → let t = land now stopping i s in
      (t.state ≡ (if expected stopping i.reason then State.idle else State.crashed))
      × (((t.last_err ≡ none) × (stopping ≡ true) × (i.reason ≡ normal))
          ⊎ ((t.last_err ≡ some (record { code = "killed_after_grace"; at = i.at }))
              × (stopping ≡ true)
              × (i.reason ≡ killed))
          ⊎ ((t.last_err ≡ some (record { code = "process_exited_nonzero"; at = i.at }))
              × (expected stopping i.reason ≡ false)))
unfolding land transition
land_lem now true i s = ground arith
land_lem now false i s = ground arith

-- One round of the health loop moves a starting slot to running if the probe was answered in time,
-- and to error, with the loop ended, if the budget is over, also when the probe was answered. It
-- leaves every other state alone.
pub health_round_lem :
    (now : ℕ) (r : Option SlpInfo) (late : Bool) (s : Slot)
    → let (t, ends) = health_round now r late s in
      ((s.state ≢ starting) × (t.state ≡ s.state) × (ends ≡ false))
      ⊎ ((s.state ≡ starting) × (late ≡ true) × (t.state ≡ error) × (ends ≡ true))
      ⊎ ((s.state ≡ starting) × (late ≡ false) × (r ≢ none) × (t.state ≡ running) × (ends ≡ false))
      ⊎ ((s.state ≡ starting) × (late ≡ false) × (r ≡ none) × (t.state ≡ starting) × (ends ≡ false))
unfolding health_round transition
health_round_lem now r late s = ground arith

-- The stop message never names the server: by the time it is sent the teardown has cleared it.
pub notice_without_name :
    (fails : Bool) (s : Slot) (d : McsmDir)
    → s.bot ≡ true
    → (close_discord_bot (teardown fails s d).0).notices ≡ s.notices ++ "" ∷ []
unfolding close_discord_bot teardown
notice_without_name fails s d b = ground arith
