-- ===== src/Slot/Mount/Outcome.antt =====
-- What a `Start` leaves behind, on every path.
use mcsm.Common.{
  ℕ, ◌≡◌, refl, sym, subst, ◌≢◌, ◌⊎◌, inl, inr, Bool, true, false, Option, none, some, List, Bytes,
  String, ok, err, if_rule,
}
use mcsm.Lock.Owner.{absent, holds, McsmDir}
use mcsm.Lock.Acquire.{no_fault, Held, fresh_owner, try_acquire, release}
use mcsm.Lock.Acquire.Outcome.{MayAcquire, try_acquire-Decides, owner_file-release}
use mcsm.Slot.State.{starting, error, can_start_from}
use mcsm.Slot.Record.{Server, Slot}
use mcsm.Slot.Memory.{check_accepts}
use mcsm.Slot.Mount.{
  StartError, slot_busy, server_not_found, server_incompatible, config_error, internal,
  properties_error, launch_plan, spawn, server_in_use, code_of, Answers, Outcome, begin_mount,
  commit, failed, failed_held, spawned_as, launch, prepared, configured, mount, chosen, start,
}

-- The code under which each failure is shown.
abbrev pub IsCode : StartError → String → Type 0
IsCode slot_busy c = c ≡ "slot_busy"
IsCode server_not_found c = c ≡ "server_not_found"
IsCode server_incompatible c = c ≡ "server_incompatible"
IsCode config_error c = c ≡ "config_error"
IsCode internal c = c ≡ "internal"
IsCode properties_error c = c ≡ "properties_error"
IsCode launch_plan c = c ≡ "launch_plan"
IsCode spawn c = c ≡ "spawn"
IsCode (server_in_use e) c = c ≡ "server_in_use"

-- The server that discovery knows, or finds when it is asked to look again.
abbrev pub IsFound : Answers → Server → Type 0
IsFound a srv = (a.found ≡ some srv) ⊎ ((a.found ≡ none) × (a.refreshed ≡ some srv))

-- What went wrong, for each failure but the refusal.
abbrev pub IsCaused : Answers → Bool → Slot → McsmDir → StartError → Type 0
IsCaused a force s d slot_busy = ⊥
IsCaused a force s d server_not_found = (a.found ≡ none) × (a.refreshed ≡ none)
IsCaused a force s d server_incompatible =
    (srv : Server) × IsFound a srv × (check_accepts s.cfg srv a.accept_args ≡ false)
IsCaused a force s d config_error = a.java_args ≡ none
IsCaused a force s d internal = a.password ≡ none
IsCaused a force s d properties_error = a.patched ≡ false
IsCaused a force s d launch_plan = a.planned ≡ false
IsCaused a force s d spawn = a.spawned ≡ none
IsCaused a force s d (server_in_use e) =
    (¬ MayAcquire d.owner_file a.now s.instance_name s.cfg.name force) ⊎ (a.write_fault ≢ no_fault)

-- The slot is in state error under the code of a failure that has its cause, with nothing mounted; the owner
-- record is as it was, or has been removed, or its removal failed.
pub record IsFailed (a : Answers) (force : Bool) (s : Slot) (d : McsmDir) (s' : Slot) (d' : McsmDir)
    : Type 0 where
  pub reason : StartError
  pub in_error : s'.state ≡ error
  pub caused : IsCaused a force s d reason
  pub coded :
      (c : String) × (s'.last_err ≡ some (record { code = c; at = a.now })) × IsCode reason c
  pub no_server : s'.server ≡ none
  pub no_process : s'.process ≡ none
  pub no_lock : s'.lock ≡ none
  pub no_rcon : s'.rcon_client ≡ none
  pub freed : (d'.owner_file ≡ d.owner_file) ⊎ (d'.owner_file ≡ absent) ⊎ (a.remove_fails ≡ true)
  pub silent : s'.published ≡ s.published

-- The slot is starting an accepted server under a lock that is this slot's own and that it could
-- take.
pub record IsStarted (a : Answers) (force : Bool) (s : Slot) (d : McsmDir) (s' : Slot)
    (d' : McsmDir) : Type 0 where
  pub srv : Server
  pub found : IsFound a srv
  pub in_starting : s'.state ≡ starting
  pub mounted : (s'.server ≡ some srv) × (s'.mounted_id ≡ srv.id)
  pub running : (a.spawned ≡ s'.process) × (s'.process ≢ none)
  pub accepted : check_accepts s.cfg srv a.accept_args ≡ true
  pub free_before : MayAcquire d.owner_file a.now s.instance_name s.cfg.name force
  pub locks :
      (held : Held) × (s'.lock ≡ some held)
      × (d'.owner_file ≡ holds held.owner)
      × (held.owner ≡ fresh_owner s.instance_name s.cfg.name s.host a.pid a.now)
  pub not_stopping : s'.stopping ≡ s.stopping
  pub silent : s'.published ≡ s.published

abbrev pub Ends : Answers → Bool → Slot → McsmDir → Outcome → Type 0
Ends a force s d (s', d', err e) = (f : IsFailed a force s d s' d') × (f.reason ≡ e)
Ends a force s d (s', d', ok _) = IsStarted a force s d s' d'

code_of-IsCode : (e : StartError) → IsCode e (code_of e)
unfolding code_of
code_of-IsCode slot_busy = refl
code_of-IsCode server_not_found = refl
code_of-IsCode server_incompatible = refl
code_of-IsCode config_error = refl
code_of-IsCode internal = refl
code_of-IsCode properties_error = refl
code_of-IsCode launch_plan = refl
code_of-IsCode spawn = refl
code_of-IsCode (server_in_use e) = refl

module _ (a : Answers) (force : Bool) (s : Slot) (d : McsmDir) where
  failed-Ends :
      (e : StartError) (d' : McsmDir)
      → IsCaused a force s d e
      → (d'.owner_file ≡ d.owner_file) ⊎ (d'.owner_file ≡ absent) ⊎ (a.remove_fails ≡ true)
      → Ends a force s d (failed a e s d')
  unfolding failed
  failed-Ends e d' cause freed = (
    record {
      reason = e;
      in_error = refl;
      caused = cause;
      coded = (_, refl, code_of-IsCode e);
      no_server = refl;
      no_process = refl;
      no_lock = refl;
      no_rcon = refl;
      freed = freed;
      silent = refl;
    },
    refl,
  )

  failed_held-Ends :
      (e : StartError) (held : Held) (d' : McsmDir)
      → IsCaused a force s d e
      → Ends a force s d (failed_held a e held s d')
  unfolding failed_held
  failed_held-Ends e held d' cause = failed-Ends e _ cause (freed a.remove_fails refl)
    where
      freed :
          (b : Bool)
          → a.remove_fails ≡ b
          → ((release a.remove_fails held d').1.owner_file ≡ d.owner_file)
            ⊎ ((release a.remove_fails held d').1.owner_file ≡ absent)
            ⊎ (a.remove_fails ≡ true)
      freed true e = inr (inr e)
      freed false e = inr (inl (rw e (owner_file-release held d')))

  module _ (srv : Server) (found : IsFound a srv)
      (ok_types : check_accepts s.cfg srv a.accept_args ≡ true) where
    commit-Ends :
        (pass : String) (held : Held) (d' : McsmDir) (p : ℕ)
        → a.spawned ≡ some p
        → MayAcquire d.owner_file a.now s.instance_name s.cfg.name force
        → d'.owner_file ≡ holds held.owner
        → held.owner ≡ fresh_owner s.instance_name s.cfg.name s.host a.pid a.now
        → Ends a force s d (commit a srv pass held p s, d', ok tt)
    unfolding commit
    commit-Ends pass held d' p e may file own = record {
      srv = srv;
      found = found;
      in_starting = refl;
      mounted = (refl, refl);
      running = (e, λ q. cc);
      accepted = ok_types;
      free_before = may;
      locks = (held, refl, file, own);
      not_stopping = refl;
      silent = refl;
    }

    spawned_as-Ends :
        (o : Option ℕ) (pass : String) (held : Held) (d' : McsmDir)
        → a.spawned ≡ o
        → MayAcquire d.owner_file a.now s.instance_name s.cfg.name force
        → d'.owner_file ≡ holds held.owner
        → held.owner ≡ fresh_owner s.instance_name s.cfg.name s.host a.pid a.now
        → Ends a force s d (spawned_as o a srv pass held s d')
    unfolding spawned_as
    spawned_as-Ends none pass held d' e may file own = failed_held-Ends spawn held d' e
    spawned_as-Ends (some p) pass held d' e may file own = commit-Ends pass held d' p e may file own

    launch-Ends :
        (pass : String)
        → Ends a force s d (
            launch a srv pass s
              (try_acquire a.write_fault a.now d s.instance_name s.cfg.name s.host a.pid force))
    unfolding launch
    launch-Ends pass =
        elim (try_acquire-Decides a.now s.instance_name s.cfg.name s.host a.pid force a.write_fault
          d) [
            | inl (w, may, _) ↦
                subst (λ out. Ends a force s d (launch a srv pass s out)) (sym w)
                  (if_rule (Ends a force s d) a.planned
                    (λ _. spawned_as-Ends a.spawned pass _ _ refl may refl refl)
                    (λ q. failed_held-Ends launch_plan _ _ q))
            | inr (e, d', w, same, why) ↦
                subst (λ out. Ends a force s d (launch a srv pass s out)) (sym w)
                  (failed-Ends (server_in_use e) d'
                    (elim why [ inl (n, _) ↦ inl n | inr (f, _) ↦ inr f ]) (inl same))
          ]

    prepared-Ends :
        (pass : Option String)
        → a.password ≡ pass
        → Ends a force s d (prepared pass a force srv s d)
    unfolding prepared
    prepared-Ends none e = failed-Ends internal d e (inl refl)
    prepared-Ends (some pass) e =
        if_rule (Ends a force s d) a.patched (λ _. launch-Ends pass)
          (λ q. failed-Ends properties_error d q (inl refl))

    configured-Ends :
        (args : Option (List Bytes))
        → a.java_args ≡ args
        → Ends a force s d (configured args a force srv s d)
    unfolding configured
    configured-Ends none e = failed-Ends config_error d e (inl refl)
    configured-Ends (some args) e = prepared-Ends a.password refl

  found-Ends : (srv : Server) → IsFound a srv → Ends a force s d (mount (some srv) a force s d)
  unfolding mount
  found-Ends srv found =
      if_rule (Ends a force s d) (check_accepts s.cfg srv a.accept_args)
        (λ e. configured-Ends srv found e a.java_args refl)
        (λ q. failed-Ends server_incompatible d (srv, found, q) (inl refl))

  mount-Ends :
      (found refreshed : Option Server)
      → a.found ≡ found
      → a.refreshed ≡ refreshed
      → Ends a force s d (mount (chosen found refreshed) a force s d)
  unfolding mount
  mount-Ends none none e e' = failed-Ends server_not_found d (e, e') (inl refl)
  mount-Ends none (some srv) e e' = found-Ends srv (inr (e, e'))
  mount-Ends (some srv) _ e e' = found-Ends srv (inl e)

abbrev pub EndsAs : Answers → Bool → Slot → McsmDir → Outcome → Type 0
EndsAs a force s d out =
    ((can_start_from s.state ≡ false) × (out ≡ (s, d, err slot_busy)))
    ⊎ ((can_start_from s.state ≡ true) × Ends a force (begin_mount a.now s) d out)

-- A `Start` in a state that does not allow it changes nothing and is refused as busy. Any other either fails:
-- the failure that it returns has its cause, the slot is in state error under that failure's code with nothing
-- mounted, and the lock is not left behind unless the removal of its record fails; or it starts: a server
-- that the slot accepts is starting under a lock that the slot could take and now holds.
pub start-EndsAs :
    (a : Answers) (force : Bool) (s : Slot) (d : McsmDir) → EndsAs a force s d (start a force s d)
unfolding start
start-EndsAs a force s d =
    if_rule (EndsAs a force s d) (can_start_from s.state)
      (λ e. inr (e, mount-Ends a force _ d a.found a.refreshed refl refl)) (λ e. inl (e, refl))
