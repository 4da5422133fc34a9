-- ===== src/Discovery/Tests.antt =====
-- The catalog at concrete directories.
use mcsm.Common.{
  ◌≡◌, refl, Bool, true, false, Option, none, some, String, List, [], ◌∷◌, Bytes, codes, equal,
  has_prefix, has_suffix, Permᴰ, ltb, ◌==◌, if◌then◌else◌, if_rule,
}
use mathlib.Core.Option
use mathlib.Core.List.Permᴰ
use mcsm.Lock.Owner.{absent}
use mcsm.ServerId.Flavor.{detect_flavor}
use mcsm.ServerId.Properties.{read_properties, parse_line, trim_left, trim_right}
use mcsm.Discovery.Scan.{Entry, Discovered, scan, find_by_id}
use mcsm.Discovery.Scan.First.{all_servers, find_by_id-scan}

-- The order of texts.
less : Bytes → Bytes → Bool
less [] [] = false
less [] (d ∷ ds) = true
less (c ∷ cs) [] = false
less (c ∷ cs) (d ∷ ds) =
    let rest = less cs ds in if ltb c d then true else (if c == d then rest else false)

before : Discovered → Discovered → Bool
unfolding less
before d e = less (codes d.server.name) (codes e.server.name)

place : Discovered → List Discovered → List Discovered
unfolding before
place d [] = d ∷ []
place d (e ∷ es) = let rest = place d es in if before e d then e ∷ rest else d ∷ e ∷ es

by_name : List Discovered → List Discovered
unfolding place
by_name [] = []
by_name (d ∷ ds) = place d (by_name ds)

place-perm : (d : Discovered) (ds : List Discovered) → Permᴰ (d ∷ ds) (place d ds)
unfolding place
place-perm d [] = Permᴰ.refl (d ∷ [])
place-perm d (e ∷ es) =
    if_rule (Permᴰ (d ∷ e ∷ es)) (before e d)
      (λ _. Permᴰ.trans (Permᴰ.swap refl refl) (Permᴰ.cons refl (place-perm d es)))
      (λ _. Permᴰ.refl (d ∷ e ∷ es))

by_name-perm : (ds : List Discovered) → Permᴰ ds (by_name ds)
unfolding by_name
by_name-perm [] = Permᴰ.nil
by_name-perm (d ∷ ds) = Permᴰ.trans (Permᴰ.cons refl (by_name-perm ds)) (place-perm d (by_name ds))

abbrev entry : String → String → String → Entry
entry path id name = record {
  path = path;
  is_dir = true;
  is_likely_server_dir = true;
  config = some (record { id = id; name = name; flavor = "vanilla" });
  properties = some (codes "level-name=world" ∷ []);
  names = some (codes "paper-1.21.jar" ∷ []);
  forge_dir = false;
  mcsm_dir = record { made = false; owner_file = absent; temps = 0 };
}

abbrev roots : List (String × Option (List Entry))
roots =
    ("/gone", none)
    ∷ ("/srv", some (entry "/srv/b" "1" "beta" ∷ entry "/srv/a" "2" "alpha" ∷ []))
    ∷ ("/old", some (entry "/old/b" "1" "copy" ∷ []))
    ∷ []

paths : List Discovered → List String
paths [] = []
paths (d ∷ ds) = d.server.path ∷ paths ds

-- The copy of the first server is left out, and the rest stand in the order of their names.
scan_sorts : paths (scan by_name "home" 60 0 roots) ≡ "/srv/a" ∷ "/srv/b" ∷ []
unfolding scan by_name paths
scan_sorts = refl

summary : Discovered → String × Bytes
summary d = (d.server.flavor, d.level_name)

flavor_of_first :
    Option.map summary (find_by_id "1" (scan by_name "home" 60 0 roots))
    ≡ some ("paper", codes "world")
unfolding scan find_by_id by_name summary detect_flavor has_prefix has_suffix equal read_properties
    parse_line trim_left trim_right
flavor_of_first = refl

find_by_id-scan_example :
    find_by_id "1" (scan by_name "home" 60 0 roots) ≡ find_by_id "1" (all_servers "home" 60 0 roots)
find_by_id-scan_example = (find_by_id-scan by_name by_name-perm "home" 60 0 roots "1").0

fabric_first :
    detect_flavor
      (some (codes "server.jar" ∷ codes "paper.jar" ∷ codes "fabric-server-launch.jar" ∷ []))
      true
    ≡ some "fabric"
unfolding detect_flavor has_prefix has_suffix equal
fabric_first = refl

forge_dir_counts : detect_flavor (some (codes "paper-1.jar" ∷ [])) true ≡ some "forge"
unfolding detect_flavor has_prefix has_suffix equal
forge_dir_counts = refl
