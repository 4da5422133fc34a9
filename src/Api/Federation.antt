-- ===== src/Api/Federation.antt =====
-- internal/api/handlers_federation.go: the merge of this instance's servers with those that its peers
-- report. A peer's report is a decoded JSON object; a field that is missing or of another type is `none`.
pub mod Freshest
mod Tests
use mcsm.Common.{
  ℕ, Bool, true, false, Option, none, some, List, [], ◌∷◌, ◌++◌, map, Bytes, equal, ℤ, pos, ltb,
  if◌then◌else◌, Result, ok, err,
}

-- discovery.Ownership and discovery.Server; a remote state can be any text.
pub record Owned : Type 0 where
  pub state : Bytes
  pub instance_name : Bytes
  pub slot : Bytes
  pub host : Bytes
  pub pid : ℤ
  pub since : Option ℕ
  pub heartbeat : Option ℕ

pub record Found : Type 0 where
  pub id : Bytes
  pub name : Bytes
  pub flavor : Bytes
  pub version : Bytes
  pub path : Bytes
  pub discovered_root : Bytes
  pub level_name : Bytes
  pub icon_b64 : Option Bytes
  pub ownership : Owned

-- The objects of a report; a number is cut to an integer.
pub record OwnedObject : Type 0 where
  pub state : Option Bytes
  pub instance_name : Option Bytes
  pub slot : Option Bytes
  pub host : Option Bytes
  pub pid : Option ℤ
  pub since : Option Bytes
  pub heartbeat : Option Bytes

pub record FoundObject : Type 0 where
  pub id : Option Bytes
  pub name : Option Bytes
  pub flavor : Option Bytes
  pub version : Option Bytes
  pub path : Option Bytes
  pub level_name : Option Bytes
  pub ownership : Option OwnedObject

-- The `servers` of a report, if it has a list there; an element that is no object is `none`.
abbrev pub Report : Type 0
Report = Option (List (Option FoundObject))

-- A map: the first entry of a key counts.
abbrev pub Servers : Type 0
Servers = List (Bytes × Found)

unfoldable pub find_server : Bytes → Servers → Option Found
find_server k [] = none
find_server k ((j, sv) ∷ m) = if equal j k then some sv else find_server k m

text_or_empty : Option Bytes → Bytes
text_or_empty none = []
text_or_empty (some t) = t

no_owner : Owned
no_owner = record {
  state = [];
  instance_name = [];
  slot = [];
  host = [];
  pid = pos 0;
  since = none;
  heartbeat = none;
}

number_or_zero : Option ℤ → ℤ
number_or_zero none = pos 0
number_or_zero (some n) = n

unfoldable pub later_beat : Option ℕ → Option ℕ → Bool
later_beat none c = false
later_beat (some r) none = true
later_beat (some r) (some c) = ltb c r

unfoldable pub remote_fresher : Owned → Owned → Bool
unfolding later_beat
remote_fresher remote current = later_beat remote.heartbeat current.heartbeat

-- The handler starts with this instance's own servers.
unfoldable pub own_servers : List Found → Servers → Servers
own_servers [] m = m
own_servers (sv ∷ svs) m = own_servers svs ((sv.id, sv) ∷ m)

-- Of a server that is there already, the one with the later heartbeat stays.
place_server : Bytes → Found → Option Found → Servers → Servers
unfolding remote_fresher
place_server k sv none m = (k, record sv { discovered_root = [] }) ∷ m
place_server k sv (some cur) m =
    if remote_fresher sv.ownership cur.ownership then (k, sv) ∷ m else m

-- time.Parse with the layout RFC 3339.
module _ (parse_time : Bytes → Option ℕ) where
  time_of : Option Bytes → Option ℕ
  time_of none = none
  time_of (some t) = parse_time t

  decode_ownership : Option OwnedObject → Owned
  unfolding text_or_empty number_or_zero time_of no_owner
  decode_ownership none = no_owner
  decode_ownership (some o) = record {
    state = text_or_empty o.state;
    instance_name = text_or_empty o.instance_name;
    slot = text_or_empty o.slot;
    host = text_or_empty o.host;
    pid = number_or_zero o.pid;
    since = time_of o.since;
    heartbeat = time_of o.heartbeat;
  }

  unfoldable pub decode_remote_server : FoundObject → Found
  unfolding text_or_empty decode_ownership
  decode_remote_server b = record {
    id = text_or_empty b.id;
    name = text_or_empty b.name;
    flavor = text_or_empty b.flavor;
    version = text_or_empty b.version;
    path = text_or_empty b.path;
    discovered_root = [];
    level_name = text_or_empty b.level_name;
    icon_b64 = none;
    ownership = decode_ownership b.ownership;
  }

  merge_server : Bytes → Found → Servers → Servers
  unfolding find_server place_server
  merge_server [] sv m = m
  merge_server (c ∷ cs) sv m = place_server (c ∷ cs) sv (find_server (c ∷ cs) m) m

  merge_item : Option FoundObject → Servers → Servers
  unfolding merge_server text_or_empty decode_remote_server
  merge_item none m = m
  merge_item (some b) m = merge_server (text_or_empty b.id) (decode_remote_server b) m

  merge_items : List (Option FoundObject) → Servers → Servers
  unfolding merge_item
  merge_items [] m = m
  merge_items (i ∷ is) m = merge_items is (merge_item i m)

  merge_report : Report → Servers → Servers
  unfolding merge_items
  merge_report none m = m
  merge_report (some is) m = merge_items is m

  merge_reports : List (Bytes × Report) → Servers → Servers
  unfolding merge_report
  merge_reports [] m = m
  merge_reports ((peer, r) ∷ rs) m = merge_reports rs (merge_report r m)

  -- The map `merged`, from this instance's catalog and the reports in the order in which their map is
  -- ranged over.
  unfoldable pub merged_servers : List Found → List (Bytes × Report) → Servers
  unfolding merge_reports own_servers
  merged_servers own reports = merge_reports reports (own_servers own [])
