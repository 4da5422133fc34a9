-- ===== src/Api/Router/Unguarded.antt =====
-- internal/api/router.go: which routes ask for no token.
use mcsm.Common.{
  ◌≡◌, refl, Bool, true, false, not, ◌&&◌, String, List, [], ◌∷◌, ◌++◌, if◌then◌else◌,
}
use mcsm.Api.Router.{
  Metrics, metrics_path, fixed_routes, metrics_routes, public, routes, Route, unguarded, needs,
}

-- The paths of the routes without a guard.
open_paths : List Route → List String
open_paths [] = []
open_paths (r ∷ rs) = elim r.guard [
  | unguarded ↦ r.path ∷ open_paths rs
  | needs scope ↦ open_paths rs
]

open_paths-metrics_routes :
    (enabled require_auth : Bool) (path : String)
    → open_paths (fixed_routes ++ (metrics_routes enabled require_auth path ++ public "" "/" ∷ []))
      ≡ "/healthz"
        ∷ "/readyz"
        ∷ "/version"
        ∷ "/openapi.json"
        ∷ ((if enabled && not require_auth then path ∷ [] else []) ++ "/" ∷ [])
unfolding open_paths fixed_routes metrics_routes
open_paths-metrics_routes false a path = refl
open_paths-metrics_routes true true path = refl
open_paths-metrics_routes true false path = refl

-- The routes without a guard are those of the health checks, the version and the API's description, the
-- metrics if they are on and ask for no token, and the answer for an unknown path.
open_paths-routes :
    (m : Metrics)
    → open_paths (routes m)
      ≡ "/healthz"
        ∷ "/readyz"
        ∷ "/version"
        ∷ "/openapi.json"
        ∷ ((if m.enabled && not m.require_auth then metrics_path m ∷ [] else []) ++ "/" ∷ [])
unfolding routes
open_paths-routes m = open_paths-metrics_routes m.enabled m.require_auth (metrics_path m)
