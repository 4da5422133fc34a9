-- ===== src/Peers/Pool/Pinged.antt =====
-- internal/peers/pool.go: a peer's status against the list of all pings.
use mathlib.Core.Option.{some-injective}
use mcsm.Common.{
  ℕ, ◌≡◌, refl, ap, subst, ◌∙◌, true, false, Bool-cases, inl, inr, Option, none, some, List, [],
  ◌∷◌, Bytes, equal, equal_iff, equal_refl, if◌then◌else◌, Result, ok, err,
}
use mcsm.Peers.Pool.{
  PeerStatus, Statuses, Pool, PeerConfigs, new_status, new_pool, add_peers, add_peer, status_of,
  Answered, Ping, after_outcome, ping_one, ping_all, ping_status,
}

-- The pings of one peer, the newest first.
abbrev pub history : Bytes → List Ping → List Ping → List Ping
history k seen [] = seen
history k seen (g ∷ gs) = history k (if equal g.name k then g ∷ seen else seen) gs

-- The newest ping that was answered.
abbrev pub last_answer : List Ping → Option Answered
last_answer [] = none
last_answer (g ∷ gs) = elim g.outcome [ ok a ↦ some a | err e ↦ last_answer gs ]

-- The status says of the newest ping when it was and how it went, and of the newest answer when it came and
-- from whom.
abbrev pub LastPing : List Ping → PeerStatus → Type 0
LastPing [] s =
    (s.last_attempt ≡ none) × (s.reachable ≡ false) × (s.rtt_ms ≡ 0) × (s.last_error ≡ [])
LastPing (g ∷ gs) s = (s.last_attempt ≡ some g.at) × elim g.outcome [
  | ok a ↦ (s.reachable ≡ true) × (s.rtt_ms ≡ a.rtt_ms) × (s.last_error ≡ [])
  | err e ↦ (s.reachable ≡ false) × (s.rtt_ms ≡ 0) × (s.last_error ≡ e)
]

abbrev pub LastSeen : Option Answered → PeerStatus → Type 0
LastSeen none s = (s.last_seen ≡ none) × (s.remote_name ≡ []) × (s.remote_version ≡ [])
LastSeen (some a) s =
    (s.last_seen ≡ some a.now)
    × (s.remote_name ≡ a.remote_name)
    × (s.remote_version ≡ a.remote_version)

abbrev pub Reports : List Ping → PeerStatus → Type 0
Reports seen s = LastPing seen s × LastSeen (last_answer seen) s

failed-LastSeen :
    (at : ℕ) (e : Bytes) (o : Option Answered) (s : PeerStatus)
    → LastSeen o s
    → LastSeen o (after_outcome at (err e) s)
unfolding after_outcome
failed-LastSeen at e none s h = h
failed-LastSeen at e (some a) s h = h

after_outcome-Reports :
    (name : Bytes) (at : ℕ) (r : Result Bytes Answered) (seen : List Ping) (s : PeerStatus)
    → Reports seen s
    → Reports (record { name = name; at = at; outcome = r } ∷ seen) (after_outcome at r s)
unfolding after_outcome
after_outcome-Reports name at (ok a) seen s h = ((refl, (refl, refl, refl)), (refl, refl, refl))
after_outcome-Reports name at (err e) seen s (l, h) =
    ((refl, (refl, refl, refl)), failed-LastSeen at e (last_answer seen) s h)

status_of-ping_self :
    (g : Ping) (m : Statuses) {s : PeerStatus}
    → status_of g.name m ≡ some s
    → status_of g.name (ping_one g m) ≡ some (after_outcome g.at g.outcome s)
unfolding ping_one status_of
status_of-ping_self g m h = rw h (rw (equal_refl g.name) refl)

status_of-ping_other :
    (g : Ping) (k : Bytes) (m : Statuses)
    → equal g.name k ≡ false
    → status_of k (ping_one g m) ≡ status_of k m
unfolding ping_one
status_of-ping_other g k m f = go (status_of g.name m)
  where
    go : (o : Option PeerStatus) → status_of k (ping_status g o m) ≡ status_of k m
    go none = refl
    go (some s) = rw f refl

-- From any status that says what was seen.
ping_all-Reports :
    (k : Bytes) (gs : List Ping) (p : Pool) (seen : List Ping) (s : PeerStatus)
    → status_of k p.status ≡ some s
    → Reports seen s
    → (t : PeerStatus) × (status_of k (ping_all gs p).status ≡ some t)
      × Reports (history k seen gs) t
unfolding ping_all
ping_all-Reports k [] p seen s h r = (s, h, r)
ping_all-Reports k (g ∷ gs) p seen s h r = elim (Bool-cases (equal g.name k)) [
  | inl t ↦
      let same : g.name ≡ k = (equal_iff g.name k).0 t in
      let now = after_outcome g.at g.outcome s in
      let next : status_of k (ping_one g p.status) ≡ some now =
        subst (λ n. status_of n (ping_one g p.status) ≡ some now) same
          (status_of-ping_self g p.status (ap (λ n. status_of n p.status) same ∙ h)) in
      rw t (
        ping_all-Reports k gs (record p { status = ping_one g p.status }) (g ∷ seen) now next
          (after_outcome-Reports g.name g.at g.outcome seen s r))
  | inr f ↦ rw f (
      ping_all-Reports k gs (record p { status = ping_one g p.status }) seen s
        (status_of-ping_other g k p.status f ∙ h) r)
]

-- Nothing is seen yet.
IsFresh : Statuses → Type 0
IsFresh [] = Unit
IsFresh ((k, s) ∷ m) = Reports [] s × IsFresh m

add_peers-IsFresh :
    (p : Pool) (cs : PeerConfigs) → IsFresh p.status → IsFresh (add_peers p cs).status
unfolding add_peers add_peer IsFresh new_status
add_peers-IsFresh p [] h = h
add_peers-IsFresh p ((name, url) ∷ cs) h =
    add_peers-IsFresh (add_peer p (name, url)) cs
      (((refl, refl, refl, refl), (refl, refl, refl)), h)

status_of-IsFresh :
    (k : Bytes) (m : Statuses) {s : PeerStatus} → IsFresh m → status_of k m ≡ some s → Reports [] s
unfolding status_of IsFresh
status_of-IsFresh k [] h e = cc
status_of-IsFresh k ((j, t) ∷ m) {s} h e = elim (Bool-cases (equal j k)) [
  | inl y ↦ subst (Reports []) (some-injective _ _ (rw y at e)) h.0
  | inr n ↦ status_of-IsFresh k m h.1 (rw n at e)
]

-- After any pings of the peers of a new pool, in whatever order they end, the status of a configured peer
-- tells of that peer's pings alone: whether and how the newest one went, and when and by whom the newest
-- answer was given, which a failure leaves as it was.
pub new_pool-Reports :
    (cs : PeerConfigs) (gs : List Ping) (k : Bytes) {s : PeerStatus}
    → status_of k (new_pool cs).status ≡ some s
    → (t : PeerStatus) × (status_of k (ping_all gs (new_pool cs)).status ≡ some t)
      × Reports (history k [] gs) t
unfolding new_pool IsFresh
new_pool-Reports cs gs k {s} h =
    ping_all-Reports k gs (new_pool cs) [] s h
      (status_of-IsFresh k (new_pool cs).status (add_peers-IsFresh _ cs tt) h)
