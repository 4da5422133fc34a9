-- ===== src/Lock/Acquire/Lease.antt =====
-- What a held lock is worth to its holder: who is kept out, for how long, and what a release does.
use mcsm.Common.{
  ℕ, ◌+◌, ◌≤◌, ◌≡◌, refl, sym, ◌∙◌, ◌≢◌, ◌⊎◌, inl, inr, Bool, true, false, List, [], ◌∷◌, String,
  str_eq_iff, ℤ, arith, Result, ok, err,
}
use mcsm.Lock.Owner.{
  Owner, OwnerFile, absent, unreadable, garbled, holds, McsmDir, LockError, already_held,
  default_stale_after, read, classify, remove,
}
use mcsm.Lock.Acquire.{
  Fault, no_fault, write_owner_atomic, Held, fresh_owner, may_write, write_and_hold, acquire_from,
  try_acquire, refresh, release,
}
use mcsm.Lock.Acquire.Outcome.{owned_by, MayAcquire, acquire_from-may, try_acquire-Decides}

-- The heartbeat goroutine refreshes the record at the given times.
pub beats : List ℕ → Held → McsmDir → Held × McsmDir
beats [] h d = (h, d)
beats (t ∷ ts) h d = let (h', d', _) = refresh no_fault t h d in beats ts h' d'

-- Each time is at most the stale limit after the one before it, `now` after the last one.
abbrev pub Timely : ℕ → List ℕ → ℕ → Type 0
Timely last [] now = now ≤ last + default_stale_after
Timely last (t ∷ ts) now = (t ≤ last + default_stale_after) × Timely t ts now

-- The directory holds the record of `h`, last refreshed at time `last`.
abbrev Guards : Held → McsmDir → ℕ → Type 0
Guards h d last = (d.owner_file ≡ holds (h.owner)) × (h.owner.heartbeat ≡ last)

-- A caller that is not the holder.
abbrev pub Other : Owner → String → String → Type 0
Other o self slot = (o.instance_name ≢ self) ⊎ (o.slot ≢ slot)

module _ (now : ℕ) (self slot host : String) (pid : ℤ) (force : Bool) (o : Owner) where
  fresh_keeps_out :
      (f : Fault) (made : Bool) (temps : ℕ) (later : McsmDir)
      → now ≤ o.heartbeat + default_stale_after
      → Other o self slot
      → let d : McsmDir = record { made = made; owner_file = holds o; temps = temps } in
        acquire_from f now (read d) later self slot host pid force ≡ (later, err already_held)
  unfolding acquire_from read may_write classify
  fresh_keeps_out f made temps later h other =
      ground (arith, str_eq_iff o.instance_name self, str_eq_iff o.slot slot)

module _ (self slot host : String) (pid : ℤ) (force : Bool) where
  kept_out :
      (ts : List ℕ) (f : Fault) (now last : ℕ) (h : Held) (d later : McsmDir)
      → Guards h d last
      → Other h.owner self slot
      → Timely last ts now
      → acquire_from f now (read (beats ts h d).1) later self slot host pid force
        ≡ (later, err already_held)
  unfolding beats refresh write_owner_atomic
  kept_out [] f now last h d later g other t = fresh_keeps_out_at d.owner_file d.made d.temps g.0
    where
      fresh_keeps_out_at :
          (file : OwnerFile) (made : Bool) (temps : ℕ)
          → file ≡ holds h.owner
          → let d : McsmDir = record { made = made; owner_file = file; temps = temps } in
            acquire_from f now (read d) later self slot host pid force ≡ (later, err already_held)
      fresh_keeps_out_at file made temps e = rw e (
          fresh_keeps_out now self slot host pid force h.owner f made temps later
            (omega (arith, g.1)) other)
  kept_out (t ∷ ts) f now last h d later g other tm =
      kept_out ts f now t _ _ later (refl, refl) other tm.1

  -- Once taken, and as long as only its holder writes the record, at most the stale limit apart, the lock keeps
  -- out every call of another instance, or of another slot of the same one, that reads the record then, with
  -- or without `force`: the call is refused and writes nothing, whatever becomes of the directory between its
  -- reading and its end.
  pub try_acquire-beats :
      (ts : List ℕ) (f g : Fault) (now start : ℕ) (d later : McsmDir) (self' slot' host' : String)
      (pid' : ℤ) (force' : Bool) {h : Held} {e : McsmDir}
      → try_acquire g start d self' slot' host' pid' force' ≡ (e, ok h)
      → (self' ≢ self) ⊎ (slot' ≢ slot)
      → Timely start ts now
      → acquire_from f now (read (beats ts h e).1) later self slot host pid force
        ≡ (later, err already_held)
  unfolding fresh_owner
  try_acquire-beats ts f g now start d later self' slot' host' pid' force' {h} {e} took other tm =
      elim (try_acquire-Decides start self' slot' host' pid' force' g d) [
        | inl (w, _, _) ↦
            let q = sym w ∙ took in
            kept_out ts f now start h e later (ground (arith, q)) (ground (arith, q)) tm
        | inr (x, y, w, _, _) ↦ absurd (ground (arith, sym w ∙ took))
      ]

-- A caller's fresh record, and the lock that it then holds.
abbrev pub taken : McsmDir → Owner → McsmDir × Result LockError Held
taken d o = (owned_by d o, ok (record { owner = o; beating = true }))

module _ (h : Held) (now : ℕ) (self slot host : String) (pid : ℤ) (force : Bool) where
  abbrev pub Frees : McsmDir → Type 0
  Frees d =
      let (h', d', r) = release false h d in
      (r ≡ ok tt)
      × (release false h' d' ≡ (h', d', ok tt))
      × (try_acquire no_fault now d' self slot host pid force
          ≡ taken d (fresh_owner self slot host pid now))

  frees :
      (file : OwnerFile) (made : Bool) (temps : ℕ)
      → Frees (record { made = made; owner_file = file; temps = temps })
  unfolding release remove try_acquire acquire_from read may_write classify write_and_hold
      write_owner_atomic
  frees absent made temps = (refl, refl, ground arith)
  frees unreadable made temps = (refl, refl, ground arith)
  frees garbled made temps = (refl, refl, ground arith)
  frees (holds o) made temps = (refl, refl, ground arith)

  -- `Release` whose removal works frees the directory whoever holds it: a second `Release` changes nothing, and
  -- any caller whose write works takes the lock at once, without `force` too.
  pub release-Frees : (d : McsmDir) → Frees d
  release-Frees d = frees d.owner_file d.made d.temps

-- The record of a fresh lock that another instance stole goes with the first holder's `Release`:
-- after a stale lock was stolen by a forced call, the late `Release` of the old holder lets a third
-- caller in while the thief's heartbeat is fresh.
pub release_after_steal :
    (old : Held) (d : McsmDir) (t now : ℕ) (thief third slot slot' host host' : String)
    (pid pid' : ℤ) {h : Held} {e : McsmDir}
    → try_acquire no_fault t d thief slot host pid true ≡ (e, ok h)
    → now ≤ t + default_stale_after
    → (third ≢ thief) ⊎ (slot' ≢ slot)
    → let freed = (release false old e).1 in
      (try_acquire no_fault now e third slot' host' pid' false ≡ (e, err already_held))
      × (try_acquire no_fault now freed third slot' host' pid' false
          ≡ taken e (fresh_owner third slot' host' pid' now))
unfolding beats try_acquire
release_after_steal old d t now thief third slot slot' host host' pid pid' {h} {e} took fresh
      other =
    (
      try_acquire-beats third slot' host' pid' false [] no_fault no_fault now t d e thief slot host
          pid true took (elim other [ inl a ↦ inl (λ q. a (sym q)) | inr b ↦ inr (λ q. b (sym q)) ])
          fresh,
      (release-Frees old now third slot' host' pid' false e).2,
    )

-- Two callers that both read the record before either writes, and may both take the lock by it, both get it:
-- the record is the second one's, until the first one's next heartbeat writes over it.
pub acquire_from-both :
    (d : McsmDir) (now now' t : ℕ) (self self' slot slot' host host' : String) (pid pid' : ℤ)
    (force force' : Bool)
    → MayAcquire d.owner_file now self slot force
    → MayAcquire d.owner_file now' self' slot' force'
    → let (d1, r1) = acquire_from no_fault now (read d) d self slot host pid force in
      let (d2, r2) = acquire_from no_fault now' (read d) d1 self' slot' host' pid' force' in
      (h h' : Held) × (r1 ≡ ok h)
      × (r2 ≡ ok h')
      × (d2.owner_file ≡ holds (fresh_owner self' slot' host' pid' now'))
      × ((refresh no_fault t h d2).1.owner_file
          ≡ holds (record (fresh_owner self slot host pid now) { heartbeat = t }))
unfolding write_and_hold write_owner_atomic refresh
acquire_from-both d now now' t self self' slot slot' host host' pid pid' force force' may may' =
    let first =
      acquire_from-may now self slot host pid force no_fault d.owner_file d.made d.temps in
    let second =
      acquire_from-may now' self' slot' host' pid' force' no_fault d.owner_file d.made d.temps in
    rw (first d may) (rw (second _ may') (_, _, refl, refl, refl, refl))
