-- ===== src/Events/Bus/Safety.antt =====
-- No sequence of calls makes a bus panic.
use mcsm.Common.{ℕ, ◌≡◌, refl, ap, true, Bool-cases, inl, inr, some, List, [], ◌∷◌, arith, if_rule}
use mcsm.Channels.{member}
use mcsm.Channels.Keys.{
  IsTidy, IsTidy-add, IsTidy-remove, IsTidy-send_all, IsTidy-close_all, IsTidy-new,
}
use mcsm.Events.Bus.{
  Event, Bus, new_bus, subscribe, cancel, stamped, with_chans, publish, all_closed, close_bus, Call,
  subscribe_call, close_call, cancel_call, publish_call, call, calls,
}

-- The keys are in order, and a closed bus has none.
pub record IsSound (b : Bus) : Type 0 where
  pub tidy : IsTidy b.subs b.next_id b.chans
  pub emptied : b.is_closed ≡ true → b.subs ≡ []

subscribe-IsSound : (b : Bus) → IsSound b → IsSound (subscribe b)
unfolding subscribe
subscribe-IsSound b h =
    if_rule IsSound b.is_closed (λ t. h)
      (λ f. record {
        tidy = IsTidy-add b.subs b.next_id b.chans h.tidy 32;
        emptied = λ q. ground (f, q, arith);
      })

cancel-IsSound : (id : ℕ) (b : Bus) → IsSound b → (b' : Bus) × (cancel id b ≡ some b') × IsSound b'
unfolding cancel member
cancel-IsSound id b h = elim (Bool-cases (member id b.subs)) [
  | inr f ↦ (b, rw f refl, h)
  | inl t ↦
      let (c, p, k) = IsTidy-remove b.subs b.next_id b.chans h.tidy id t in
      (
        _,
        rw (t, p) refl,
        record { tidy = k; emptied = λ q. let e = rw (h.emptied q, member) at t in cc },
      )
]

publish-IsSound :
    (now : ℕ) (e : Event) (b : Bus)
    → IsSound b
    → (b' : Bus) × (publish now e b ≡ some b') × IsSound b'
unfolding publish
publish-IsSound now e b h =
    let (s, p, k) = IsTidy-send_all b.subs b.next_id b.chans h.tidy (stamped now e) in
    (_, ap (with_chans b) p, record { tidy = k; emptied = h.emptied })

close_bus-IsSound : (b : Bus) → IsSound b → (b' : Bus) × (close_bus b ≡ some b') × IsSound b'
unfolding close_bus
close_bus-IsSound b h = elim (Bool-cases b.is_closed) [
  | inl t ↦ (b, rw t refl, h)
  | inr f ↦
      let (s, p, k) = IsTidy-close_all b.subs b.next_id b.chans h.tidy in
      (
        record b { is_closed = true; subs = []; chans = s },
        rw f (ap (all_closed b) p),
        record { tidy = k; emptied = λ q. refl },
      )
]

call-IsSound : (c : Call) (b : Bus) → IsSound b → (b' : Bus) × (call c b ≡ some b') × IsSound b'
unfolding call
call-IsSound subscribe_call b h = (subscribe b, refl, subscribe-IsSound b h)
call-IsSound close_call b h = close_bus-IsSound b h
call-IsSound (cancel_call id) b h = cancel-IsSound id b h
call-IsSound (publish_call now e) b h = publish-IsSound now e b h

IsSound-calls :
    (cs : List Call) (b : Bus) → IsSound b → (b' : Bus) × (calls cs b ≡ some b') × IsSound b'
unfolding calls
IsSound-calls [] b h = (b, refl, h)
IsSound-calls (c ∷ cs) b h =
    let (b1, p, h1) = call-IsSound c b h in
    let (b2, q, h2) = IsSound-calls cs b1 h1 in (b2, rw (p, calls) q, h2)

new_bus-IsSound : IsSound new_bus
unfolding new_bus
new_bus-IsSound = record { tidy = IsTidy-new _; emptied = λ q. refl }

-- No sequence of calls on a new bus sends on a closed channel or closes one twice, which would
-- panic. Afterwards the channels under a key are open, every other channel that Subscribe made on the
-- open bus is closed, and a closed bus has no keys.
pub calls-IsSound : (cs : List Call) → (b : Bus) × (calls cs new_bus ≡ some b) × IsSound b
calls-IsSound cs = IsSound-calls cs new_bus new_bus-IsSound
