-- ===== src/ServerId/Properties/Rewrite.antt =====
-- What is read back from a file's bytes after `PatchProperties`: with values of one line, and with a value
-- that holds a line end.
use mcsm.Common.{
  ℕ, ◌≡◌, refl, sym, subst, ap, ap₂, ◌∙◌, true, false, Bool-cases, Option-cases, inl, inr, none,
  some, List, [], ◌∷◌, ◌++◌, append-nil, append_assoc, map, Bytes, feed, feed-append, equal,
  equal_iff, equal_refl, All, All-append, arith,
}
use mcsm.ServerId.Properties.{
  is_sep, trim_left, Properties, Patch, parse_line, line_with, read_line, read_lines,
  read_properties, lookup, patch_line, patch_keyed, patch_value, sets, written, appended,
  patch_properties,
}
use mcsm.ServerId.Properties.Lines.{IsPlain, parse_line-line_with, parse_line-is_sep}
use mcsm.ServerId.Properties.Patch.{IsPatch, or_else, read-patch_properties, read_lines-append}
use mcsm.ServerId.Properties.Text.{
  scan, scan-line, scan-feed, scan-IsLine, read_text, patch_text, OnLine, IsLine, HasNoReturn,
}

-- Keys and values of one line.
abbrev pub IsOnLines : Patch → Type 0
IsOnLines = All (λ (e : Bytes × Bytes). IsLine e.0 × IsLine e.1)

lookup-IsLine :
    (k : Bytes) (p : Patch) {v : Bytes} → IsOnLines p → lookup k p ≡ some v → IsLine k × IsLine v
unfolding lookup
lookup-IsLine k [] h e = cc
lookup-IsLine k ((j, w) ∷ p) {v} h e = elim (Bool-cases (equal j k)) [
  | inl t ↦
      let same : w ≡ v = ground (arith, t, e) in
      (subst IsLine ((equal_iff j k).0 t) h.0.0, subst IsLine same h.0.1)
  | inr f ↦ lookup-IsLine k p h.1 (rw (f, lookup) at e)
]

line_with-IsLine :
    (k v : Bytes) (sep : ℕ) → is_sep sep ≡ true → IsLine k → IsLine v → IsLine (line_with k sep v)
line_with-IsLine k v sep s h g = All-append OnLine k (sep ∷ v) h (ground (arith, s), g)

module _ (p : Patch) (h : IsOnLines p) where
  patch_line-IsLine : (l : Bytes) → IsLine l → IsLine (patch_line p l)
  unfolding patch_line
  patch_line-IsLine l g = elim (Option-cases (parse_line l)) [
    | inl n ↦ rw (n, patch_keyed) g
    | inr ((key, sep, rest), q) ↦ elim (Option-cases (lookup key p)) [
      | inl n ↦ rw (q, patch_keyed) (rw (n, patch_value) g)
      | inr (v, w) ↦
          let entry = lookup-IsLine key p h w in
          rw (q, patch_keyed)
            (rw (w, patch_value)
              (line_with-IsLine key v sep (parse_line-is_sep l q) entry.0 entry.1))
    ]
  ]

  patched-IsLine : (ls : List Bytes) → All IsLine ls → All IsLine (map (patch_line p) ls)
  patched-IsLine [] g = tt
  patched-IsLine (l ∷ ls) g = (patch_line-IsLine l g.0, patched-IsLine ls g.1)

appended-IsLine : (p : Patch) (ls : List Bytes) → IsOnLines p → All IsLine (appended p ls)
unfolding appended
appended-IsLine [] ls h = tt
appended-IsLine ((k, v) ∷ p) ls h = elim (Bool-cases (written k ls)) [
  | inl t ↦ rw t (appended-IsLine p ls h.1)
  | inr f ↦ rw f (line_with-IsLine k v b'=' refl h.0.0 h.0.1, appended-IsLine p ls h.1)
]

-- The file's bytes after a patch are read as its lines.
scan-patch_text :
    (p : Patch) (t : Bytes)
    → IsOnLines p
    → HasNoReturn t
    → scan (patch_text p t) ≡ patch_properties p (scan t)
unfolding patch_text patch_properties
scan-patch_text p t h n =
    let ls = scan t in
    let new = map (patch_line p) ls ++ appended p ls in
    let lines =
      All-append IsLine (map (patch_line p) ls) (appended p ls)
        (patched-IsLine p h ls (scan-IsLine t n)) (appended-IsLine p ls h) in
    ap scan (sym (append-nil (feed new))) ∙ scan-feed new [] lines ∙ append-nil new

pub read-patch_text :
    (p : Patch) (t : Bytes) (k : Bytes)
    → IsPatch p
    → IsOnLines p
    → HasNoReturn t
    → read_text (patch_text p t) k ≡ or_else (lookup k p) (read_text t k)
unfolding read_text
read-patch_text p t k g h n =
    ap (λ ls. read_properties ls k) (scan-patch_text p t h n) ∙ read-patch_properties p (scan t) k g

-- A value with a line end sets another key.
abbrev pub smuggling : Bytes → Bytes → Bytes → Bytes
smuggling a k w = a ++ (b'\n' ∷ line_with k b'=' w)

patch_line_other : (j v l : Bytes) → sets j (parse_line l) ≡ false → patch_line ((j, v) ∷ []) l ≡ l
unfolding patch_line sets lookup
patch_line_other j v l h = elim (Option-cases (parse_line l)) [
  | inl n ↦ rw (n, patch_keyed) refl
  | inr ((key, sep, rest), q) ↦
      let other : equal j key ≡ false =
        ground (arith, rw (q, sets) at h, equal_iff j key, equal_iff key j) in
      rw (q, patch_keyed) (rw (other, patch_value) refl)
]

patched_other :
    (j v : Bytes) (ls : List Bytes) → written j ls ≡ false → map (patch_line ((j, v) ∷ [])) ls ≡ ls
unfolding written
patched_other j v [] h = refl
patched_other j v (l ∷ ls) h =
    ap₂ ◌∷◌ (patch_line_other j v l (ground (h, arith))) (patched_other j v ls (ground (h, arith)))

two_lines :
    (j a k w : Bytes)
    → feed (line_with j b'=' (smuggling a k w) ∷ [])
      ≡ line_with j b'=' a ++ (b'\n' ∷ (line_with k b'=' w ++ (b'\n' ∷ [])))
unfolding feed
two_lines j a k w = simp append_assoc

new_entry :
    (j v : Bytes) (ls : List Bytes)
    → written j ls ≡ false
    → patch_properties ((j, v) ∷ []) ls ≡ ls ++ line_with j b'=' v ∷ []
unfolding patch_properties appended
new_entry j v ls h = rw (patched_other j v ls h, h) refl

-- The bytes that are appended for such a value are two lines.
patch_text-smuggling :
    (j a k w t : Bytes)
    → written j (scan t) ≡ false
    → patch_text ((j, smuggling a k w) ∷ []) t
      ≡ feed (scan t) ++ (line_with j b'=' a ++ (b'\n' ∷ (line_with k b'=' w ++ (b'\n' ∷ []))))
unfolding patch_text
patch_text-smuggling j a k w t h =
    ap feed (new_entry j (smuggling a k w) (scan t) h)
    ∙ feed-append (scan t) (line_with j b'=' (smuggling a k w) ∷ [])
    ∙ ap (◌++◌ (feed (scan t))) (two_lines j a k w)

read_line_last :
    (m : Properties) (k w : Bytes)
    → IsPlain k
    → trim_left w ≡ w
    → read_line m (parse_line (line_with k b'=' w)) k ≡ some w
unfolding read_line
read_line_last m k w h g =
    rw (parse_line-line_with k b'=' w h refl, read_line) (ground (equal_refl k, g, arith))

pub read-smuggling :
    (j a k w t : Bytes)
    → written j (scan t) ≡ false
    → IsPlain k
    → trim_left w ≡ w
    → IsLine j × IsLine a × IsLine k × IsLine w
    → HasNoReturn t
    → read_text (patch_text ((j, smuggling a k w) ∷ []) t) k ≡ some w
unfolding read_text read_properties read_lines
read-smuggling j a k w t n h g (hj, ha, hk, hw) r =
    let x = line_with j b'=' a in
    let y = line_with k b'=' w in
    let lines : scan (patch_text ((j, smuggling a k w) ∷ []) t) ≡ scan t ++ (x ∷ y ∷ []) =
      ap scan (patch_text-smuggling j a k w t n)
      ∙ scan-feed (scan t) (x ++ (b'\n' ∷ (y ++ (b'\n' ∷ [])))) (scan-IsLine t r)
      ∙ ap (◌++◌ (scan t)) (
          scan-line x (y ++ (b'\n' ∷ [])) (line_with-IsLine j a b'=' refl hj ha)
          ∙ ap (◌∷◌ x) (scan-line y [] (line_with-IsLine k w b'=' refl hk hw))) in
    ap (λ ls. read_properties ls k) lines
    ∙ ap (λ (m : Properties). m k) (read_lines-append (scan t) (x ∷ y ∷ []) (λ j. none))
    ∙ read_line_last _ k w h g
