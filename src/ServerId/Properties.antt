-- ===== src/ServerId/Properties.antt =====
-- internal/serverid/properties.go and properties_writer.go: reading server.properties, and patching
-- it. A file is the list of its lines as bufio.Scanner gives them; a Go map that is only read at
-- keys is a function, and one that is ranged over is the list of its entries in the order of the
-- range.
pub mod Lines
pub mod Patch
pub mod Text
pub mod Rewrite
use mathlib.Core.Option
use mcsm.Common.{
  ℕ, Bool, true, false, not, ◌&&◌, ◌||◌, Option, none, some, List, [], ◌∷◌, ◌++◌, map, Bytes, ◌==◌,
  if◌then◌else◌, equal,
}

abbrev pub is_blank : ℕ → Bool
is_blank c = c == b' ' || c == b'\t'

abbrev pub is_sep : ℕ → Bool
is_sep c = c == b'=' || c == b':'

-- strings.TrimLeft(s, " \t")
unfoldable pub trim_left : Bytes → Bytes
trim_left [] = []
trim_left (c ∷ cs) = if is_blank c then trim_left cs else c ∷ cs

unless_blank : ℕ → Bytes → Bytes
unless_blank c [] = if is_blank c then [] else c ∷ []
unless_blank c (d ∷ ds) = c ∷ d ∷ ds

-- strings.TrimRight(s, " \t")
unfoldable pub trim_right : Bytes → Bytes
unfolding unless_blank
trim_right [] = []
trim_right (c ∷ cs) = unless_blank c (trim_right cs)

abbrev pub Split : Type 0
Split = Bytes × ℕ × Bytes

abbrev behind : ℕ → Split → Split
behind c (before, sep, after) = (c ∷ before, sep, after)

-- The text around the first separator with no backslash right before it; `escaped` tells of the byte
-- before this text.
split_sep : Bool → Bytes → Option Split
split_sep escaped [] = none
split_sep escaped (c ∷ cs) =
    let rest = Option.map (behind c) (split_sep (c == b'\\') cs) in
    if is_sep c && not escaped then some ([], c, cs) else rest

-- A line that is neither empty nor a comment, without its leading blanks: the key, the separator,
-- and what follows it.
keyed : Bytes → Option Split
unfolding split_sep
keyed [] = none
keyed (c ∷ cs) =
    if c == b'#' || c == b'!'
    then none
    else Option.map (λ (s : Split). (trim_right s.0, s.1, s.2)) (split_sep false (c ∷ cs))

unfoldable pub parse_line : Bytes → Option Split
unfolding keyed
parse_line raw = keyed (trim_left raw)

abbrev pub Properties : Type 0
Properties = Bytes → Option Bytes

abbrev update : Properties → Bytes → Bytes → Properties
update m k v j = if equal k j then some v else m j

pub read_line : Properties → Option Split → Properties
read_line m none = m
read_line m (some (key, sep, rest)) = update m key (trim_left rest)

pub read_lines : Properties → List Bytes → Properties
unfolding read_line
read_lines m [] = m
read_lines m (l ∷ ls) = read_lines (read_line m (parse_line l)) ls

unfoldable pub read_properties : List Bytes → Properties
unfolding read_lines
read_properties = read_lines (λ k. none)

abbrev pub Patch : Type 0
Patch = List (Bytes × Bytes)

unfoldable pub lookup : Bytes → Patch → Option Bytes
lookup k [] = none
lookup k ((j, v) ∷ p) = if equal j k then some v else lookup k p

abbrev line_with : Bytes → ℕ → Bytes → Bytes
line_with key sep v = key ++ sep ∷ v

-- The line that is written for a line of the file.
patch_value : Bytes → Bytes → ℕ → Option Bytes → Bytes
patch_value raw key sep none = raw
patch_value raw key sep (some v) = line_with key sep v

patch_keyed : Patch → Bytes → Option Split → Bytes
unfolding patch_value
patch_keyed p raw none = raw
patch_keyed p raw (some (key, sep, rest)) = patch_value raw key sep (lookup key p)

patch_line : Patch → Bytes → Bytes
unfolding patch_keyed
patch_line p raw = patch_keyed p raw (parse_line raw)

-- Whether the line sets the key.
sets : Bytes → Option Split → Bool
sets k none = false
sets k (some (key, sep, rest)) = equal key k

-- `written[k]`, for a key of the patch.
unfoldable pub written : Bytes → List Bytes → Bool
unfolding sets
written k [] = false
written k (l ∷ ls) = sets k (parse_line l) || written k ls

-- The lines for the keys that are not in the file.
appended : Patch → List Bytes → List Bytes
unfolding written
appended [] ls = []
appended ((k, v) ∷ p) ls =
    let rest = appended p ls in if written k ls then rest else line_with k b'=' v ∷ rest

unfoldable pub patch_properties : Patch → List Bytes → List Bytes
unfolding patch_line appended lookup
patch_properties p ls = map (patch_line p) ls ++ appended p ls
