-- ===== src/ServerId/Tests.antt =====
-- The theorems of ServerId at concrete inputs, and tests.
use mcsm.ServerId.Flavor.{detect_flavor}
use mcsm.ServerId.Launch.{DirEntry, above, fits, find_launch_jar, plan_launch}
use mcsm.ServerId.Launch.Detected.{listed, Ends, find_launch_jar-Ends}
use mcsm.Common.{
  true, some, ok, has_prefix, has_suffix, false, ◌≡◌, refl, List, [], ◌∷◌, Bytes, codes, equal,
}
use mcsm.ServerId.Properties.{Patch, patch_properties, parse_line, trim_left, trim_right}

-- A file with a comment, a key that is set twice, and a key that the patch leaves alone.
abbrev file : List Bytes
file = codes "#world" ∷ codes "motd=old" ∷ codes " motd : x" ∷ codes "level-name=w" ∷ []

abbrev patch : Patch
patch = (codes "motd", codes "hi") ∷ (codes "max-players", codes "20") ∷ []

patched :
    patch_properties patch file
    ≡ codes "#world"
      ∷ codes "motd=hi"
      ∷ codes "motd:hi"
      ∷ codes "level-name=w"
      ∷ codes "max-players=20"
      ∷ []
unfolding patch_properties parse_line trim_left equal trim_right
patched = refl

abbrev file_at : Bytes → DirEntry
file_at n = record { name = n; is_dir = false }

-- Two jars of Paper, and a folder with a jar's name.
abbrev paper_dir : List DirEntry
paper_dir =
    file_at (codes "paper-1.21-99.jar")
    ∷ file_at (codes "paper-1.21-100.jar")
    ∷ record { name = codes "paper-9.jar"; is_dir = true }
    ∷ []

find_launch_jar-Ends_example :
    Ends paper_dir "paper" (find_launch_jar (listed paper_dir) (some paper_dir) "paper")
unfolding detect_flavor has_prefix has_suffix equal
find_launch_jar-Ends_example =
    find_launch_jar-Ends (listed paper_dir) paper_dir (λ n. refl) false refl

-- The build 99 is the last one in the order of texts.
older_build :
    find_launch_jar (listed paper_dir) (some paper_dir) "paper" ≡ ok (codes "paper-1.21-99.jar")
unfolding find_launch_jar fits above has_prefix has_suffix equal
older_build = refl

launch_args :
    plan_launch (listed paper_dir) (some paper_dir) "paper" (codes "-Xmx2G" ∷ []) (codes "/srv/a")
    ≡ ok (record {
      dir = codes "/srv/a";
      command = codes "java";
      args = codes "-Xmx2G" ∷ codes "-jar" ∷ codes "paper-1.21-99.jar" ∷ codes "nogui" ∷ [];
    })
unfolding plan_launch fits above has_prefix has_suffix equal
launch_args = refl
