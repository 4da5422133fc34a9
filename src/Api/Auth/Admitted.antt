-- ===== src/Api/Auth/Admitted.antt =====
-- internal/api/auth.go: which requests come to a handler.

use mcsm.Common.{◌≡◌, ◌≢◌, ◌⊎◌, Bool, true, false, List, [], ◌∷◌, Bytes, codes}
use mcsm.Api.Auth.{ResolvedToken, TokenInfo, info_of}

-- The first token whose hash is derived from the raw one.
abbrev pub IsFirst : (Bytes → Bytes → Bool) → Bytes → ResolvedToken → List ResolvedToken → Type 0
IsFirst derives raw t [] = ⊥
IsFirst derives raw t (u ∷ us) =
    ((derives u.hash raw ≡ true) × (u ≡ t))
    ⊎ ((derives u.hash raw ≡ false) × IsFirst derives raw t us)

-- The scope or `*` is among them.
abbrev pub IsGranted : Bytes → List Bytes → Type 0
IsGranted scope [] = ⊥
IsGranted scope (s ∷ ss) = ((s ≡ codes "*") ⊎ (s ≡ scope)) ⊎ IsGranted scope ss

abbrev pub IsAdmitted :
    (Bytes → Bytes → Bool) → List ResolvedToken → Bytes → Bytes → TokenInfo → Type 0
IsAdmitted derives tokens scope raw info =
    (raw ≢ [])
    × ((t : ResolvedToken) × (IsFirst derives raw t tokens
          × ((info_of t ≡ info) × IsGranted scope t.scopes)))
