-- ===== src/Api/Auth.antt =====
-- internal/api/auth.go and context.go: `authenticate` with `match`, `requireScope` with `HasScope`, and
-- the two in a chain, as router.go composes them. Argon2's comparison is an argument, and so is
-- strings.TrimSpace, `trim`.
pub mod Admitted
use mcsm.Common.{
  ℕ, Bool, true, false, not, ◌&&◌, ◌||◌, Option, none, some, List, [], ◌∷◌, Bytes, leb, ◌==◌,
  if◌then◌else◌, equal, drop, codes, has_prefix, reverse_onto, Result, ok, err, ◌>>=◌,
}

pub record ResolvedToken : Type 0 where
  pub name : Bytes
  pub scopes : List Bytes
  pub hash : Bytes

pub record TokenInfo : Type 0 where
  pub name : Bytes
  pub scopes : List Bytes

pub data Denial : Type 0 where
  missing_token invalid_token scope_denied : Denial

-- `derives hash raw`: the token's parameters derive its hash from the raw token.
find_token : (Bytes → Bytes → Bool) → Bytes → List ResolvedToken → Option ResolvedToken
find_token derives raw [] = none
find_token derives raw (t ∷ ts) =
    let rest = find_token derives raw ts in if derives t.hash raw then some t else rest

abbrev pub info_of : ResolvedToken → TokenInfo
info_of t = record { name = t.name; scopes = t.scopes }

matched : Option ResolvedToken → Result Denial TokenInfo
matched none = err invalid_token
matched (some t) = ok (info_of t)

with_raw : (Bytes → Bytes → Bool) → List ResolvedToken → Bytes → Result Denial TokenInfo
unfolding find_token matched
with_raw derives tokens [] = err missing_token
with_raw derives tokens (c ∷ raw) = matched (find_token derives (c ∷ raw) tokens)

-- The header is empty if there is none.
authenticate :
    (Bytes → Bytes) → (Bytes → Bytes → Bool) → List ResolvedToken → Bytes → Result Denial TokenInfo
unfolding with_raw has_prefix
authenticate trim derives tokens [] = err missing_token
authenticate trim derives tokens (c ∷ header) =
    if not (has_prefix (codes "Bearer ") (c ∷ header))
    then err missing_token
    else with_raw derives tokens (trim (drop 7 (c ∷ header)))

has_scope : Bytes → List Bytes → Bool
unfolding equal
has_scope scope [] = false
has_scope scope (s ∷ ss) =
    let rest = has_scope scope ss in if equal s (codes "*") || equal s scope then true else rest

require_scope : Bytes → TokenInfo → Result Denial TokenInfo
unfolding has_scope
require_scope scope tok = if has_scope scope tok.scopes then ok tok else err scope_denied

-- The handler behind a route with this scope runs, with the token's info.
unfoldable pub admit :
    (Bytes → Bytes)
    → (Bytes → Bytes → Bool)
    → List ResolvedToken
    → Bytes
    → Bytes
    → Result Denial TokenInfo
unfolding authenticate require_scope
admit trim derives tokens scope header =
    authenticate trim derives tokens header >>= require_scope scope
