-- ===== src/Backup/Paths.antt =====
-- filepath.Clean and filepath.Join on slash-separated paths, as internal/backup/backup.go uses them: a
-- clean path is its elements, and whether it starts with a slash.
pub mod Plain
use mcsm.Common.{
  Bool, true, false, not, ◌&&◌, ◌||◌, List, [], ◌∷◌, ◌++◌, Bytes, ◌==◌, if◌then◌else◌, equal,
  reverse_onto, ℕ,
}

pub record CleanPath : Type 0 where
  pub rooted : Bool
  pub parts : List Bytes

put_in : ℕ → List Bytes → List Bytes
put_in c [] = (c ∷ []) ∷ []
put_in c (p ∷ ps) = (c ∷ p) ∷ ps

-- strings.Split(path, "/")
split_slash : Bytes → List Bytes
unfolding put_in
split_slash [] = [] ∷ []
split_slash (c ∷ cs) = let more = split_slash cs in if c == b'/' then [] ∷ more else put_in c more

abbrev dot : Bytes
dot = b'.' ∷ []

abbrev pub dot_dot : Bytes
dot_dot = b'.' ∷ b'.' ∷ []

-- `..` takes the element before it away, if there is one that is not `..`; at a root it is dropped.
go_up : Bool → List Bytes → List Bytes
go_up rooted [] = if rooted then [] else dot_dot ∷ []
go_up rooted (top ∷ stack) = if equal top dot_dot then dot_dot ∷ top ∷ stack else stack

push : Bool → List Bytes → Bytes → List Bytes
unfolding go_up
push rooted stack part =
    if equal part [] || equal part dot
    then stack
    else (if equal part dot_dot then go_up rooted stack else part ∷ stack)

-- The stack has the last element in front.
push_all : Bool → List Bytes → List Bytes → List Bytes
unfolding push
push_all rooted stack [] = stack
push_all rooted stack (p ∷ ps) = push_all rooted (push rooted stack p) ps

starts_with_slash : Bytes → Bool
starts_with_slash [] = false
starts_with_slash (c ∷ cs) = c == b'/'

unfoldable pub clean : Bytes → CleanPath
unfolding push_all split_slash starts_with_slash
clean path =
    let rooted = starts_with_slash path in
    record { rooted = rooted; parts = reverse_onto (push_all rooted [] (split_slash path)) [] }

-- The clean path of a clean directory, a slash and a clean path.
unfoldable pub join : CleanPath → CleanPath → CleanPath
unfolding push_all
join dir path = record {
  rooted = dir.rooted;
  parts = reverse_onto (push_all dir.rooted (reverse_onto dir.parts []) path.parts) [];
}
