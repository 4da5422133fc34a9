-- ===== src/ServerId/Properties/Text.antt =====
-- internal/serverid/properties.go and properties_writer.go: the file's bytes around its lines. Lines are
-- bufio.ScanLines's: what stands before each line feed, without one carriage return at its end.
use mcsm.Common.{
  ℕ, ◌≡◌, refl, ap, ap₂, ◌∙◌, false, Bool-cases, inl, inr, List, [], ◌∷◌, ◌++◌, append_assoc, map,
  Bytes, feed, ◌==◌, if◌then◌else◌, All,
}
use mcsm.ServerId.Properties.{Properties, Patch, read_properties, patch_properties}

-- A byte in front of the first line.
onto : ℕ → List Bytes → List Bytes
onto c [] = (c ∷ []) ∷ []
onto c (l ∷ ls) = (c ∷ l) ∷ ls

scan_raw : Bytes → List Bytes
unfolding onto
scan_raw [] = []
scan_raw (c ∷ cs) = let rest = scan_raw cs in if c == b'\n' then [] ∷ rest else onto c rest

drop_return : Bytes → Bytes
drop_return [] = []
drop_return (c ∷ []) = if c == b'\r' then [] else c ∷ []
drop_return (c ∷ d ∷ ds) = c ∷ drop_return (d ∷ ds)

unfoldable pub scan : Bytes → List Bytes
unfolding scan_raw drop_return
scan t = map drop_return (scan_raw t)

-- ReadProperties and PatchProperties on a file that can be read and written.
unfoldable pub read_text : Bytes → Properties
unfolding scan read_properties
read_text t = read_properties (scan t)

unfoldable pub patch_text : Patch → Bytes → Bytes
unfolding scan patch_properties feed
patch_text p t = feed (patch_properties p (scan t))

abbrev pub OnLine : ℕ → Type 0
OnLine c = ((c == b'\n') ≡ false) × ((c == b'\r') ≡ false)

-- A text without line ends.
abbrev pub IsLine : Bytes → Type 0
IsLine = All OnLine

abbrev pub HasNoReturn : Bytes → Type 0
HasNoReturn = All (λ (c : ℕ). (c == b'\r') ≡ false)

scan_raw-line : (l rest : Bytes) → IsLine l → scan_raw (l ++ (b'\n' ∷ rest)) ≡ l ∷ scan_raw rest
unfolding scan_raw
scan_raw-line [] rest h = refl
scan_raw-line (c ∷ l) rest h = rw (h.0.0, scan_raw-line l rest h.1) refl

drop_return-IsLine : (l : Bytes) → IsLine l → drop_return l ≡ l
unfolding drop_return
drop_return-IsLine [] h = refl
drop_return-IsLine (c ∷ []) h = rw h.0.1 refl
drop_return-IsLine (c ∷ d ∷ ds) h = ap (◌∷◌ c) (drop_return-IsLine (d ∷ ds) h.1)

pub scan-line : (l rest : Bytes) → IsLine l → scan (l ++ (b'\n' ∷ rest)) ≡ l ∷ scan rest
unfolding scan
scan-line l rest h =
    ap (map drop_return) (scan_raw-line l rest h)
    ∙ ap (λ x. x ∷ map drop_return (scan_raw rest)) (drop_return-IsLine l h)

pub scan-feed :
    (ls : List Bytes) (rest : Bytes) → All IsLine ls → scan (feed ls ++ rest) ≡ ls ++ scan rest
unfolding feed
scan-feed [] rest h = refl
scan-feed (l ∷ ls) rest h =
    ap scan (append_assoc l (b'\n' ∷ feed ls) rest)
    ∙ scan-line l (feed ls ++ rest) h.0
    ∙ ap (◌∷◌ l) (scan-feed ls rest h.1)

onto-IsLine : (c : ℕ) (ls : List Bytes) → OnLine c → All IsLine ls → All IsLine (onto c ls)
unfolding onto
onto-IsLine c [] h k = ((h, tt), tt)
onto-IsLine c (l ∷ ls) h k = ((h, k.0), k.1)

scan_raw-IsLine : (t : Bytes) → HasNoReturn t → All IsLine (scan_raw t)
unfolding scan_raw
scan_raw-IsLine [] h = tt
scan_raw-IsLine (c ∷ t) h = elim (Bool-cases (c == b'\n')) [
  | inl e ↦ rw e (tt, scan_raw-IsLine t h.1)
  | inr e ↦ rw e (onto-IsLine c (scan_raw t) (e, h.0) (scan_raw-IsLine t h.1))
]

lines_kept : (ls : List Bytes) → All IsLine ls → map drop_return ls ≡ ls
lines_kept [] h = refl
lines_kept (l ∷ ls) h = ap₂ ◌∷◌ (drop_return-IsLine l h.0) (lines_kept ls h.1)

pub scan-IsLine : (t : Bytes) → HasNoReturn t → All IsLine (scan t)
unfolding scan
scan-IsLine t h = let ls = scan_raw-IsLine t h in rw (lines_kept (scan_raw t) ls) ls
