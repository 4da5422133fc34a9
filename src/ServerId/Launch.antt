-- ===== src/ServerId/Launch.antt =====
-- internal/serverid/launch.go: `PlanLaunch`, `findLaunchJar`, `latestMatching`. The entries of the server's
-- directory are an argument, or none if it cannot be read; `stat` is os.Stat of a name in it.
pub mod Latest
pub mod Detected
use mcsm.Common.{
  ℕ, Bool, true, false, not, ◌&&◌, Option, none, some, String, str_eq, List, [], ◌∷◌, ◌++◌, map,
  Bytes, codes, has_prefix, has_suffix, ltb, ◌==◌, if◌then◌else◌, Result, ok, err, ◌>>=◌,
}

pub record DirEntry : Type 0 where
  pub name : Bytes
  pub is_dir : Bool

pub data LaunchError : Type 0 where
  unreadable no_jar unknown_flavor : LaunchError

-- Go's `>` on texts.
unfoldable pub above : Bytes → Bytes → Bool
above [] ys = false
above (a ∷ xs) [] = true
above (a ∷ xs) (b ∷ ys) = let rest = above xs ys in if a == b then rest else ltb b a

unfoldable pub fits : Bytes → Bytes → DirEntry → Bool
unfolding has_prefix has_suffix
fits prefix suffix e = not e.is_dir && (has_prefix prefix e.name && has_suffix suffix e.name)

take_later : Bytes → Bytes → Bytes → DirEntry → Bytes
unfolding fits above
take_later prefix suffix best e = if fits prefix suffix e && above e.name best then e.name else best

latest_from : Bytes → Bytes → Bytes → List DirEntry → Bytes
unfolding take_later
latest_from prefix suffix best [] = best
latest_from prefix suffix best (e ∷ es) =
    latest_from prefix suffix (take_later prefix suffix best e) es

unfoldable pub latest_matching : List DirEntry → Bytes → Bytes → Bytes
unfolding latest_from
latest_matching es prefix suffix = latest_from prefix suffix [] es

-- A jar that is there, or else what follows.
if_there : (Bytes → Bool) → Bytes → Result LaunchError Bytes → Result LaunchError Bytes
if_there stat name other = if stat name then ok name else other

-- The latest jar, if there is one, or else what follows.
or_latest : Bytes → Result LaunchError Bytes → Result LaunchError Bytes
or_latest [] other = other
or_latest (c ∷ cs) other = ok (c ∷ cs)

unfoldable pub launch_jar : (Bytes → Bool) → List DirEntry → String → Result LaunchError Bytes
unfolding latest_matching if_there or_latest
launch_jar stat es flavor =
    if str_eq flavor "paper"
    then if_there stat (codes "paper.jar")
        (or_latest (latest_matching es (codes "paper-") (codes ".jar")) (err no_jar))
    else (if str_eq flavor "vanilla"
        then if_there stat (codes "server.jar") (err no_jar)
        else (if str_eq flavor "fabric"
            then if_there stat (codes "fabric-server-launch.jar") (err no_jar)
            else (if str_eq flavor "forge"
                then or_latest (latest_matching es (codes "forge-") (codes "-universal.jar"))
                    (if_there stat (codes "server.jar") (err no_jar))
                else err unknown_flavor)))

unfoldable pub find_launch_jar :
    (Bytes → Bool) → Option (List DirEntry) → String → Result LaunchError Bytes
unfolding launch_jar
find_launch_jar stat none flavor = err unreadable
find_launch_jar stat (some es) flavor = launch_jar stat es flavor

pub record LaunchPlan : Type 0 where
  pub dir : Bytes
  pub command : Bytes
  pub args : List Bytes

default_jvm_args : List Bytes
default_jvm_args = map codes (
    "-XX:+UseG1GC" ∷ "-XX:+ParallelRefProcEnabled" ∷ "-XX:MaxGCPauseMillis=200"
    ∷ "-XX:+UnlockExperimentalVMOptions" ∷ "-XX:+DisableExplicitGC" ∷ "-XX:+AlwaysPreTouch"
    ∷ "-XX:G1NewSizePercent=30" ∷ "-XX:G1MaxNewSizePercent=40" ∷ "-XX:G1HeapRegionSize=8M"
    ∷ "-XX:G1ReservePercent=20" ∷ "-XX:G1HeapWastePercent=5" ∷ "-XX:G1MixedGCCountTarget=4"
    ∷ "-XX:InitiatingHeapOccupancyPercent=15" ∷ "-XX:G1MixedGCLiveThresholdPercent=90"
    ∷ "-XX:G1RSetUpdatingPauseTimePercent=5" ∷ "-XX:SurvivorRatio=32" ∷ "-XX:+PerfDisableSharedMem"
    ∷ "-XX:MaxTenuringThreshold=1" ∷ [])

unfoldable pub jvm_args : List Bytes → List Bytes
unfolding default_jvm_args
jvm_args [] = default_jvm_args
jvm_args (a ∷ xs) = a ∷ xs

plan_with : Bytes → List Bytes → Result LaunchError Bytes → Result LaunchError LaunchPlan
unfolding jvm_args
plan_with dir args (err e) = err e
plan_with dir args (ok jar) = ok (record {
  dir = dir;
  command = codes "java";
  args = jvm_args args ++ codes "-jar" ∷ jar ∷ codes "nogui" ∷ [];
})

-- The configuration's flavor and arguments, and the server's directory.
unfoldable pub plan_launch :
    (Bytes → Bool)
    → Option (List DirEntry)
    → String
    → List Bytes
    → Bytes
    → Result LaunchError LaunchPlan
unfolding plan_with find_launch_jar
plan_launch stat es flavor args dir = plan_with dir args (find_launch_jar stat es flavor)
