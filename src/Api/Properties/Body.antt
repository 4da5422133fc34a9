-- ===== src/Api/Properties/Body.antt =====
-- internal/api/handlers_properties.go: what the body of a patch asks for, and what goes into the file and the reply.
use mcsm.Common.{
  ◌≡◌, refl, sym, subst, ◌∙◌, inl, inr, Bool, true, false, not, Bool-cases, Option, none, some,
  List, [], ◌∷◌, Bytes, equal, equal_iff, if◌then◌else◌, arith,
}
use mcsm.ServerId.Properties.{Properties, Patch, lookup}
use mcsm.ServerId.Properties.Patch.{IsPatch, IsEntry, or_else}
use mcsm.ServerId.Properties.Text.{IsLine, HasNoReturn, read_text}
use mcsm.ServerId.Properties.Rewrite.{IsOnLines}
use mcsm.Api.Properties.{JsonValue, stringify, is_reserved, PatchReply, sort_entries}

abbrev pub Body : Type 0
Body = List (Bytes × JsonValue)

-- What the body asks for.
unfoldable pub asked : Bytes → Body → Option Bytes
asked k [] = none
asked k ((j, v) ∷ es) = if equal j k then some (stringify v) else asked k es

-- Plain keys, each once, and values of one line with no blank in front.
abbrev pub IsBody : Body → Type 0
IsBody [] = Unit
IsBody ((k, v) ∷ es) =
    IsEntry (k, stringify v) × IsLine k × IsLine (stringify v) × (asked k es ≡ none) × IsBody es

unfoldable pub patch_of : Body → Patch
unfolding sort_entries
patch_of es = (sort_entries es).0

pub lookup-patch_of :
    (k : Bytes) (es : Body) → lookup k (patch_of es) ≡ (if is_reserved k then none else asked k es)
unfolding patch_of lookup sort_entries asked
lookup-patch_of k [] = ground arith
lookup-patch_of k ((j, v) ∷ es) = elim (Bool-cases (is_reserved j)) [
  | inl t ↦ ground (t, equal_iff j k, lookup-patch_of k es, arith)
  | inr f ↦ ground (f, equal_iff j k, lookup-patch_of k es, arith)
]

pub patch_of_kept :
    (k : Bytes) (v : JsonValue) (es : Body)
    → is_reserved k ≡ true
    → patch_of ((k, v) ∷ es) ≡ patch_of es
unfolding patch_of sort_entries
patch_of_kept k v es t = ground (t, arith)

pub patch_of_set :
    (k : Bytes) (v : JsonValue) (es : Body)
    → is_reserved k ≡ false
    → patch_of ((k, v) ∷ es) ≡ (k, stringify v) ∷ patch_of es
unfolding patch_of sort_entries
patch_of_set k v es f = ground (f, arith)

abbrev pub IsWritable : Patch → Type 0
IsWritable p = IsPatch p × IsOnLines p

pub patch_of-IsWritable : (es : Body) → IsBody es → IsWritable (patch_of es)
unfolding patch_of sort_entries
patch_of-IsWritable [] h = (tt, tt)
patch_of-IsWritable ((k, v) ∷ es) (e, lk, lv, n, h) =
    let (whole, lines) = patch_of-IsWritable es h in
    elim (Bool-cases (is_reserved k)) [
      | inl t ↦ subst IsWritable (sym (patch_of_kept k v es t)) (whole, lines)
      | inr f ↦
          let once : lookup k (patch_of es) ≡ none = lookup-patch_of k es ∙ ground (f, n, arith) in
          subst IsWritable (sym (patch_of_set k v es f)) ((e, once, whole), ((lk, lv), lines))
    ]

-- What stands in a file, if it can be read.
abbrev pub read_file : Option Bytes → Properties
read_file none k = none
read_file (some t) k = read_text t k

abbrev pub FileHasNoReturn : Option Bytes → Type 0
FileHasNoReturn none = Unit
FileHasNoReturn (some t) = HasNoReturn t

-- The keys of a body that pass the test.
abbrev pub keys_that : (Bytes → Bool) → Body → List Bytes
keys_that p [] = []
keys_that p ((k, v) ∷ es) = if p k then k ∷ keys_that p es else keys_that p es

-- Reserved keys read as before and are rejected; the others read as asked for, and are applied.
pub record IsPatched (es : Body) (before after : Option Bytes) (r : PatchReply) : Type 0 where
  pub values :
      (k : Bytes)
      → read_file after k
        ≡ (if is_reserved k then read_file before k else or_else (asked k es) (read_file before k))
  pub rejected : r.rejected ≡ keys_that is_reserved es
  pub applied : r.applied ≡ keys_that (λ k. not (is_reserved k)) es

unfoldable pub reply_of : Body → PatchReply
unfolding sort_entries
reply_of es = (sort_entries es).1

pub rejected_lem : (es : Body) → (reply_of es).rejected ≡ keys_that is_reserved es
unfolding reply_of sort_entries
rejected_lem [] = refl
rejected_lem ((k, v) ∷ es) = ground (rejected_lem es, arith)

pub applied_lem : (es : Body) → (reply_of es).applied ≡ keys_that (λ k. not (is_reserved k)) es
unfolding reply_of sort_entries
applied_lem [] = refl
applied_lem ((k, v) ∷ es) = ground (applied_lem es, arith)
