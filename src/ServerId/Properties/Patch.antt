-- ===== src/ServerId/Properties/Patch.antt =====
-- What is read from a patched file.

use mcsm.Common.{
  ◌≡◌, refl, subst, ◌∙◌, Option, none, some, List, [], ◌∷◌, ◌++◌, map, Bytes, if◌then◌else◌, equal,
  equal_iff, arith, Option-cases, Bool-cases, inl, inr,
}
use mcsm.ServerId.Properties.{
  trim_left, parse_line, Properties, read_line, read_lines, read_properties, Patch, lookup,
  line_with, patch_value, patch_keyed, patch_line, sets, written, appended, patch_properties,
}
use mcsm.ServerId.Properties.Lines.{IsPlain, parse_line-line_with, parse_line-is_sep}

-- An entry of a patch: a plain key, and a value with no blank in front.
abbrev pub IsEntry : Bytes × Bytes → Type 0
IsEntry (k, v) = IsPlain k × (trim_left v ≡ v)

-- The entries of a Go map: each key once.
abbrev pub IsPatch : Patch → Type 0
IsPatch [] = Unit
IsPatch ((k, v) ∷ p) = IsEntry (k, v) × (lookup k p ≡ none) × IsPatch p

lookup-IsEntry :
    (k : Bytes) (p : Patch) {v : Bytes} → IsPatch p → lookup k p ≡ some v → IsEntry (k, v)
unfolding lookup
lookup-IsEntry k [] g e = cc
lookup-IsEntry k ((j, w) ∷ p) {v} g e = elim (Bool-cases (equal j k)) [
  | inl t ↦ subst IsEntry (ground (arith, t, equal_iff j k)) g.0
  | inr f ↦ lookup-IsEntry k p g.2 (rw (f, lookup) at e)
]

pub read_lines-append :
    (xs ys : List Bytes) (m : Properties)
    → read_lines m (xs ++ ys) ≡ read_lines (read_lines m xs) ys
unfolding read_lines
read_lines-append [] ys m = refl
read_lines-append (x ∷ xs) ys m = read_lines-append xs ys (read_line m (parse_line x))

module _ (k : Bytes) (p : Patch) (g : IsPatch p) where
  -- The patched form of a line of the file, by what the line and the patch hold.
  abbrev Reads : Bytes → Properties → Option Bytes → Type 0
  Reads l m o = read_line m (parse_line l) k ≡ o

  foreign_line :
      (l : Bytes) (m m' : Properties)
      → lookup k p ≡ none
      → m k ≡ m' k
      → Reads (patch_line p l) m (read_line m' (parse_line l) k)
  unfolding read_line patch_line
  foreign_line l m m' none_k e = elim (Option-cases (parse_line l)) [
    | inl n ↦ rw (n, patch_keyed) (rw (n, read_line) e)
    | inr ((key, sep, rest), q) ↦ elim (Option-cases (lookup key p)) [
      | inl n ↦ rw (q, patch_keyed) (rw (n, patch_value) (rw (q, read_line) (ground (arith, e))))
      | inr (v, w) ↦
          rw (q, patch_keyed)
            (rw (w, patch_value)
              (rw
                (
                  parse_line-line_with key sep v (lookup-IsEntry key p g w).0
                      (parse_line-is_sep l q),
                  read_line,
                )
                (ground (arith, e, equal_iff key k, w, none_k))))
    ]
  ]

  own_line :
      (l : Bytes) (m : Properties) {v : Bytes}
      → lookup k p ≡ some v
      → Reads (patch_line p l) m (if sets k (parse_line l) then some v else m k)
  unfolding read_line patch_line sets
  own_line l m {v} own = elim (Option-cases (parse_line l)) [
    | inl n ↦ rw (n, patch_keyed) (rw (n, read_line, sets))
    | inr ((key, sep, rest), q) ↦ elim (Option-cases (lookup key p)) [
      | inl n ↦
          rw (q, patch_keyed)
            (rw (n, patch_value)
              (rw (q, read_line, sets) (ground (arith, equal_iff key k, n, own))))
      | inr (w, e) ↦
          let entry = lookup-IsEntry key p g e in
          rw (q, patch_keyed)
            (rw (e, patch_value)
              (rw (parse_line-line_with key sep w entry.0 (parse_line-is_sep l q), read_line, sets)
                (ground (arith, equal_iff key k, e, own, entry.1))))
    ]
  ]

  read_lines-foreign :
      (ls : List Bytes) (m m' : Properties)
      → lookup k p ≡ none
      → m k ≡ m' k
      → read_lines m (map (patch_line p) ls) k ≡ read_lines m' ls k
  unfolding read_lines
  read_lines-foreign [] m m' n e = e
  read_lines-foreign (l ∷ ls) m m' n e = read_lines-foreign ls _ _ n (foreign_line l m m' n e)

  read_lines-own :
      (ls : List Bytes) (m : Properties) {v : Bytes}
      → lookup k p ≡ some v
      → read_lines m (map (patch_line p) ls) k ≡ (if written k ls then some v else m k)
  unfolding read_lines written
  read_lines-own [] m own = refl
  read_lines-own (l ∷ ls) m own = read_lines-own ls _ own ∙ ground (arith, own_line l m own)

abbrev pub or_else : Option Bytes → Option Bytes → Option Bytes
or_else (some v) o = some v
or_else none o = o

module _ (k : Bytes) (ls : List Bytes) where
  new_line :
      (j v : Bytes) (m : Properties)
      → IsEntry (j, v)
      → read_line m (parse_line (line_with j b'=' v)) k ≡ (if equal j k then some v else m k)
  unfolding read_line
  new_line j v m e = rw (parse_line-line_with j b'=' v e.0 refl, read_line) (ground (arith, e.1))

  read_lines-appended :
      (p : Patch) (m : Properties)
      → IsPatch p
      → read_lines m (appended p ls) k ≡ (if written k ls then m k else or_else (lookup k p) (m k))
  unfolding read_lines appended lookup
  read_lines-appended [] m g = ground arith
  read_lines-appended ((j, v) ∷ p) m g = elim (Bool-cases (written j ls)) [
    | inl t ↦ rw t (read_lines-appended p m g.2 ∙ ground (arith, t, equal_iff j k, g.1))
    | inr f ↦ rw f (
        read_lines-appended p (read_line m (parse_line (line_with j b'=' v))) g.2
        ∙ ground (arith, f, equal_iff j k, g.1, new_line j v m g.0))
  ]

-- After `PatchProperties`, `ReadProperties` gives every key of the patch its new value, and every
-- other key what it gave before, whatever the file holds: comments, other keys, and lines that set a
-- key twice.
pub read-patch_properties :
    (p : Patch) (ls : List Bytes) (k : Bytes)
    → IsPatch p
    → read_properties (patch_properties p ls) k ≡ or_else (lookup k p) (read_properties ls k)
unfolding patch_properties read_properties
read-patch_properties p ls k g =
    rw (read_lines-append (map (patch_line p) ls) (appended p ls) (λ j. none)) (
      read_lines-appended k ls p _ g ∙ elim (Option-cases (lookup k p)) [
        | inl n ↦ ground (arith, n, read_lines-foreign k p g ls (λ j. none) (λ j. none) n refl)
        | inr (v, e) ↦ ground (arith, e, read_lines-own k p g ls (λ j. none) e)
      ])
