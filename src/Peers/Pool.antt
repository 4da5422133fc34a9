-- ===== src/Peers/Pool.antt =====
-- internal/peers/pool.go: the pool's clients and the status of each peer. What a ping answers is an
-- argument, and the pings stand in the order in which their goroutines take the mutex.
pub mod Pinged
use mcsm.Common.{
  ℕ, Bool, true, false, Option, none, some, List, [], ◌∷◌, ◌++◌, map, Bytes, equal, reverse_onto,
  ◌==◌, if◌then◌else◌, Result, ok, err,
}

pub record PeerStatus : Type 0 where
  pub name : Bytes
  pub url : Bytes
  pub reachable : Bool
  pub last_seen : Option ℕ
  -- None is the zero time.
  pub last_attempt : Option ℕ
  pub rtt_ms : ℕ
  pub remote_version : Bytes
  pub remote_name : Bytes
  pub last_error : Bytes

pub record PeerClient : Type 0 where
  pub name : Bytes
  pub url : Bytes

-- A map: the first entry of a key counts.
abbrev pub Statuses : Type 0
Statuses = List (Bytes × PeerStatus)

pub record Pool : Type 0 where
  pub clients : List PeerClient
  pub status : Statuses

-- The peers of the configuration: name and URL.
abbrev pub PeerConfigs : Type 0
PeerConfigs = List (Bytes × Bytes)

drop_slashes : Bytes → Bytes
drop_slashes [] = []
drop_slashes (c ∷ cs) = let rest = drop_slashes cs in if c == b'/' then rest else c ∷ cs

-- strings.TrimRight(url, "/")
trim_slashes : Bytes → Bytes
unfolding drop_slashes
trim_slashes url = reverse_onto (drop_slashes (reverse_onto url [])) []

unfoldable pub new_status : PeerClient → PeerStatus
new_status c = record {
  name = c.name;
  url = c.url;
  reachable = false;
  last_seen = none;
  last_attempt = none;
  rtt_ms = 0;
  remote_version = [];
  remote_name = [];
  last_error = [];
}

add_peer : Pool → Bytes × Bytes → Pool
unfolding new_status trim_slashes
add_peer p (name, url) =
    let c : PeerClient = record { name = name; url = trim_slashes url } in
    record { clients = p.clients ++ c ∷ []; status = (name, new_status c) ∷ p.status }

add_peers : Pool → PeerConfigs → Pool
unfolding add_peer
add_peers p [] = p
add_peers p (c ∷ cs) = add_peers (add_peer p c) cs

unfoldable pub new_pool : PeerConfigs → Pool
unfolding add_peers
new_pool cs = add_peers (record { clients = []; status = [] }) cs

unfoldable pub status_of : Bytes → Statuses → Option PeerStatus
status_of k [] = none
status_of k ((j, s) ∷ m) = if equal j k then some s else status_of k m

client_named : Bytes → List PeerClient → Option PeerClient
unfolding equal
client_named k [] = none
client_named k (c ∷ cs) = let rest = client_named k cs in if equal c.name k then some c else rest

unfoldable pub get_client : Pool → Bytes → Option PeerClient
unfolding client_named
get_client p k = client_named k p.clients

-- What the peer answers: the time then, how long it took, and its name and version.
pub record Answered : Type 0 where
  pub now : ℕ
  pub rtt_ms : ℕ
  pub remote_name : Bytes
  pub remote_version : Bytes

-- A ping of a peer: the time of the attempt, and its answer or error.
pub record Ping : Type 0 where
  pub name : Bytes
  pub at : ℕ
  pub outcome : Result Bytes Answered

unfoldable pub after_outcome : ℕ → Result Bytes Answered → PeerStatus → PeerStatus
after_outcome at (err e) s = record s {
  last_attempt = some at;
  reachable = false;
  last_error = e;
  rtt_ms = 0;
}
after_outcome at (ok a) s = record s {
  last_attempt = some at;
  reachable = true;
  last_error = [];
  last_seen = some a.now;
  rtt_ms = a.rtt_ms;
  remote_name = a.remote_name;
  remote_version = a.remote_version;
}

-- A peer without a status is passed over.
ping_status : Ping → Option PeerStatus → Statuses → Statuses
unfolding after_outcome
ping_status g none m = m
ping_status g (some s) m = (g.name, after_outcome g.at g.outcome s) ∷ m

unfoldable pub ping_one : Ping → Statuses → Statuses
unfolding ping_status status_of
ping_one g m = ping_status g (status_of g.name m) m

unfoldable pub ping_all : List Ping → Pool → Pool
unfolding ping_one
ping_all [] p = p
ping_all (g ∷ gs) p = ping_all gs (record p { status = ping_one g p.status })

-- `Status`, over the clients in place of the map's keys, which are the same as `Validate` wants the names to
-- differ; `sort` is the library's sorting by name.
found_statuses : List PeerClient → Statuses → List PeerStatus
unfolding status_of
found_statuses [] m = []
found_statuses (c ∷ cs) m =
    let rest = found_statuses cs m in elim (status_of c.name m) [ none ↦ rest | some s ↦ s ∷ rest ]

unfoldable pub status_list : (List PeerStatus → List PeerStatus) → Pool → List PeerStatus
unfolding found_statuses
status_list sort p = sort (found_statuses p.clients p.status)
