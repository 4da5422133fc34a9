-- ===== src/ServerId/Flavor.antt =====
-- internal/serverid/flavor.go: `DetectFlavor`. The entries are the names in the directory, or none if
-- it cannot be read; `forge_dir` says whether libraries/net/minecraftforge/forge is a directory.
use mcsm.Common.{
  Bool, true, false, ◌&&◌, ◌||◌, Option, none, some, String, List, [], ◌∷◌, Bytes, codes, equal,
  has_prefix, has_suffix, if◌then◌else◌,
}

-- What the loop has seen.
pub record Markers : Type 0 where
  pub fabric : Bool
  pub forge_jar : Bool
  pub paper_jar : Bool
  pub paper_history : Bool
  pub server_jar : Bool

unfoldable pub is_jar : String → Bytes → Bool
unfolding has_prefix has_suffix
is_jar start name = has_prefix (codes start) name && has_suffix (codes ".jar") name

unfoldable pub see : Bytes → Markers → Markers
unfolding is_jar equal
see name m =
    if equal name (codes "fabric-server-launch.jar")
    then record m { fabric = true }
    else (if is_jar "forge-" name
        then record m { forge_jar = true }
        else (if equal name (codes "paper.jar") || is_jar "paper-" name
            then record m { paper_jar = true }
            else (if equal name (codes "version_history.json")
                then record m { paper_history = true }
                else (if equal name (codes "server.jar")
                    then record m { server_jar = true }
                    else m))))

unfoldable pub see_all : List Bytes → Markers → Markers
unfolding see
see_all [] m = m
see_all (n ∷ ns) m = see_all ns (see n m)

unfoldable pub flavor_of : Bool → Markers → String
flavor_of forge_dir m =
    if m.fabric
    then "fabric"
    else (if m.forge_jar || forge_dir
        then "forge"
        else (if m.paper_jar || m.paper_history
            then "paper"
            else (if m.server_jar then "vanilla" else "unknown")))

unfoldable pub detect_flavor : Option (List Bytes) → Bool → Option String
unfolding see_all flavor_of
detect_flavor none forge_dir = none
detect_flavor (some names) forge_dir = some (
    flavor_of forge_dir (
      see_all names (record {
        fabric = false;
        forge_jar = false;
        paper_jar = false;
        paper_history = false;
        server_jar = false;
      })))
