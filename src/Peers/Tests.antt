-- ===== src/Peers/Tests.antt =====
-- The theorems of Peers at concrete inputs, and tests.
use mcsm.Common.{◌≡◌, refl, false, some, List, [], ◌∷◌, Bytes, codes, equal, Result, ok, err}
use mcsm.Peers.Pool.{
  PeerStatus, PeerConfigs, new_pool, new_status, status_of, get_client, Answered, Ping, ping_all,
}
use mcsm.Peers.Pool.Pinged.{Reports, history, new_pool-Reports}

abbrev peers : PeerConfigs
peers = (codes "near", codes "http://n/") ∷ (codes "far", codes "http://f//") ∷ []

abbrev answered : Result Bytes Answered
answered =
    ok (record { now = 11; rtt_ms = 3; remote_name = codes "Near"; remote_version = codes "2" })

-- The peer answers once and then not.
abbrev pings : List Ping
pings =
    record { name = codes "near"; at = 10; outcome = answered }
    ∷ record { name = codes "far"; at = 12; outcome = err (codes "refused") }
    ∷ record { name = codes "near"; at = 20; outcome = err (codes "timeout") }
    ∷ []

abbrev near_fresh : PeerStatus
near_fresh = new_status (record { name = codes "near"; url = codes "http://n" })

new_pool-Reports_example :
    (t : PeerStatus) × (status_of (codes "near") (ping_all pings (new_pool peers)).status ≡ some t)
    × Reports (history (codes "near") [] pings) t
unfolding new_pool status_of equal
new_pool-Reports_example = new_pool-Reports peers pings (codes "near") {s = near_fresh} refl

near_status :
    status_of (codes "near") (ping_all pings (new_pool peers)).status
    ≡ some (record {
      name = codes "near";
      url = codes "http://n";
      reachable = false;
      last_seen = some 11;
      last_attempt = some 20;
      rtt_ms = 0;
      remote_version = codes "2";
      remote_name = codes "Near";
      last_error = codes "timeout";
    })
unfolding new_pool ping_all status_of equal
near_status = refl

far_client :
    get_client (new_pool peers) (codes "far")
    ≡ some (record { name = codes "far"; url = codes "http://f" })
unfolding new_pool get_client equal
far_client = refl
