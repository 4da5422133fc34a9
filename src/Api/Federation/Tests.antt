-- ===== src/Api/Federation/Tests.antt =====
-- The theorems of Api.Federation at concrete inputs, and tests.
use mcsm.Common.{
  Kept, ℕ, ◌≡◌, refl, Option, none, some, List, [], ◌∷◌, Bytes, codes, equal, length, pos,
}
use mcsm.Api.Federation.{
  Owned, Found, FoundObject, Report, find_server, own_servers, merged_servers, decode_remote_server,
}
use mcsm.Api.Federation.Freshest.{fresher, candidates, merged_servers-Kept}

-- A time is as long as its text.
abbrev parse_length : Bytes → Option ℕ
parse_length t = some (length t)

abbrev owned : Option ℕ → Owned
owned beat = record {
  state = codes "owned_self";
  instance_name = codes "home";
  slot = codes "a";
  host = codes "h";
  pid = pos 1;
  since = none;
  heartbeat = beat;
}

abbrev own_server : Option ℕ → Found
own_server beat = record {
  id = codes "s1";
  name = codes "own";
  flavor = codes "paper";
  version = [];
  path = codes "/srv/s1";
  discovered_root = codes "/srv";
  level_name = codes "world";
  icon_b64 = none;
  ownership = owned beat;
}

abbrev object : Bytes → Option Bytes → FoundObject
object name beat = record {
  id = some (codes "s1");
  name = some name;
  flavor = none;
  version = none;
  path = none;
  level_name = none;
  ownership = some (record {
    state = none;
    instance_name = none;
    slot = none;
    host = none;
    pid = none;
    since = none;
    heartbeat = beat;
  });
}

abbrev report : Bytes → Option Bytes → Bytes × Report
report name beat = (name, some (none ∷ some (object name beat) ∷ []))

-- The report of `far` has the latest heartbeat.
abbrev reports : List (Bytes × Report)
reports =
    report (codes "near") (some (codes "12"))
    ∷ report (codes "far") (some (codes "12345"))
    ∷ (codes "mute", none)
    ∷ []

merged_servers-Kept_example :
    Kept fresher
      (find_server (codes "s1") (own_servers (own_server (some 3) ∷ []) []))
      (candidates parse_length (codes "s1") reports)
      (find_server (codes "s1") (merged_servers parse_length (own_server (some 3) ∷ []) reports))
merged_servers-Kept_example =
    merged_servers-Kept parse_length (own_server (some 3) ∷ []) reports (codes "s1")

far_kept :
    find_server (codes "s1") (merged_servers parse_length (own_server (some 3) ∷ []) reports)
    ≡ some (decode_remote_server parse_length (object (codes "far") (some (codes "12345"))))
unfolding merged_servers find_server equal
far_kept = refl

-- With no heartbeats, the order in which the reports' map is ranged over decides.
near_first :
    find_server
      (codes "s1")
      (merged_servers parse_length [] (report (codes "near") none ∷ report (codes "far") none ∷ []))
    ≡ some (decode_remote_server parse_length (object (codes "near") none))
unfolding merged_servers find_server equal
near_first = refl

far_first :
    find_server
      (codes "s1")
      (merged_servers parse_length [] (report (codes "far") none ∷ report (codes "near") none ∷ []))
    ≡ some (decode_remote_server parse_length (object (codes "far") none))
unfolding merged_servers find_server equal
far_first = refl
