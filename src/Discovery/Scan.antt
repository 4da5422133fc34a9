-- ===== src/Discovery/Scan.antt =====
-- internal/discovery/discovery.go: `Scan`, `scanOne` and `FindByID`. What is read of a directory is the
-- record `Entry`; `sort` is the library's sorting by name and then path.
pub mod First
use mcsm.Common.{
  ℕ, Bool, true, false, not, ◌&&◌, Option, none, some, String, str_eq, List, [], ◌∷◌, ◌++◌, Bytes,
  codes, ℤ, pos, if◌then◌else◌, Result, ok, err,
}
use mcsm.Lock.Owner.{Owner, McsmDir, State, free, read, classify}
use mcsm.Slot.Record.{Server}
use mcsm.ServerId.Flavor.{detect_flavor}
use mcsm.ServerId.Properties.{read_properties}

pub record Ownership : Type 0 where
  pub state : State
  pub instance_name : String
  pub slot : String
  pub host : String
  pub pid : ℤ
  pub since : Option ℕ
  pub heartbeat : Option ℕ

-- The fields that a slot reads are the field `server`.
pub record Discovered : Type 0 where
  pub server : Server
  pub discovered_root : String
  pub level_name : Bytes
  pub ownership : Ownership

-- The part of a server's .mcsm/config.yaml that is read here.
pub record ServerConfig : Type 0 where
  pub id : String
  pub name : String
  pub flavor : String

-- One entry of a root: its path, what serverid.Read answers, the lines of server.properties, the names
-- in the directory, and the folder of its owner record.
pub record Entry : Type 0 where
  pub path : String
  pub is_dir : Bool
  pub is_likely_server_dir : Bool
  pub config : Option ServerConfig
  pub properties : Option (List Bytes)
  pub names : Option (List Bytes)
  pub forge_dir : Bool
  pub mcsm_dir : McsmDir

or_empty : Option Bytes → Bytes
or_empty none = []
or_empty (some v) = v

level_of : Option (List Bytes) → Bytes
unfolding or_empty read_properties
level_of none = []
level_of (some lines) = or_empty (read_properties lines (codes "level-name"))

flavor_or : String → Option String → String
flavor_or old none = old
flavor_or old (some f) = if str_eq f "unknown" then old else f

-- An unreadable record counts as none.
owner_of : McsmDir → Option Owner
unfolding read
owner_of d = elim (read d) [ ok o ↦ o | err e ↦ none ]

own : State → Option Owner → Ownership
own state none = record {
  state = state;
  instance_name = "";
  slot = "";
  host = "";
  pid = pos 0;
  since = none;
  heartbeat = none;
}
own state (some o) = record {
  state = state;
  instance_name = o.instance_name;
  slot = o.slot;
  host = o.host;
  pid = o.pid;
  since = some o.started_at;
  heartbeat = some o.heartbeat;
}

unfoldable pub discovered : String → String → ℕ → ℕ → Entry → ServerConfig → Discovered
unfolding level_of flavor_or owner_of own detect_flavor classify
discovered root self threshold now e cfg = record {
  server = record {
    id = cfg.id;
    name = cfg.name;
    flavor = flavor_or cfg.flavor (detect_flavor e.names e.forge_dir);
    version = "";
    path = e.path;
  };
  discovered_root = root;
  level_name = level_of e.properties;
  ownership = own (classify (owner_of e.mcsm_dir) self threshold now) (owner_of e.mcsm_dir);
}

unfoldable pub scan_one : String → String → ℕ → ℕ → Entry → Option Discovered
unfolding discovered
scan_one root self threshold now e = elim e.config [
  | none ↦ none
  | some cfg ↦ some (discovered root self threshold now e cfg)
]

unfoldable pub has_id : String → List Discovered → Bool
has_id id [] = false
has_id id (d ∷ ds) = if str_eq d.server.id id then true else has_id id ds

-- `seenIDs` has the ids of the catalog so far.
add_one : Option Discovered → List Discovered → List Discovered
unfolding has_id
add_one none cat = cat
add_one (some d) cat = if has_id d.server.id cat then cat else cat ++ d ∷ []

scan_entry : String → String → ℕ → ℕ → Entry → List Discovered → List Discovered
unfolding scan_one add_one
scan_entry root self threshold now e cat =
    if e.is_dir && e.is_likely_server_dir
    then add_one (scan_one root self threshold now e) cat
    else cat

scan_entries : String → String → ℕ → ℕ → List Entry → List Discovered → List Discovered
unfolding scan_entry
scan_entries root self threshold now [] cat = cat
scan_entries root self threshold now (e ∷ es) cat =
    scan_entries root self threshold now es (scan_entry root self threshold now e cat)

-- A root that cannot be read is skipped.
scan_roots :
    String → ℕ → ℕ → List (String × Option (List Entry)) → List Discovered → List Discovered
unfolding scan_entries
scan_roots self threshold now [] cat = cat
scan_roots self threshold now ((root, none) ∷ rs) cat = scan_roots self threshold now rs cat
scan_roots self threshold now ((root, some es) ∷ rs) cat =
    scan_roots self threshold now rs (scan_entries root self threshold now es cat)

unfoldable pub scan :
    (List Discovered → List Discovered)
    → String
    → ℕ
    → ℕ
    → List (String × Option (List Entry))
    → List Discovered
unfolding scan_roots
scan sort self threshold now roots = sort (scan_roots self threshold now roots [])

unfoldable pub find_by_id : String → List Discovered → Option Discovered
find_by_id id [] = none
find_by_id id (d ∷ ds) = if str_eq d.server.id id then some d else find_by_id id ds
