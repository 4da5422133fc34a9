-- ===== src/Api/Router.antt =====
-- internal/api/router.go: the table of routes, with what stands before each handler.
mod Unguarded
use mcsm.Common.{
  ◌≡◌, refl, Bool, true, false, Bool-cases, inl, inr, Option, none, some, String, str_eq, List, [],
  ◌∷◌, ◌++◌, Bytes, codes, if◌then◌else◌, Result, ok, err,
}
use mathlib.Core.Option
use mcsm.Api.Auth.{ResolvedToken, TokenInfo, Denial, admit}

-- Nothing, or the chain of authenticate and requireScope.
pub data Guard : Type 0 where
  unguarded : Guard
  needs : String → Guard

pub record Route : Type 0 where
  pub method : String
  pub path : String
  pub guard : Guard

pub record Metrics : Type 0 where
  pub enabled : Bool
  pub path : String
  pub require_auth : Bool

abbrev public : String → String → Route
public method path = record { method = method; path = path; guard = unguarded }

abbrev behind_scope : String → String → String → Route
behind_scope scope method path = record { method = method; path = path; guard = needs scope }

pub fixed_routes : List Route
fixed_routes =
    public "GET" "/healthz"
    ∷ public "GET" "/readyz"
    ∷ public "GET" "/version"
    ∷ public "GET" "/openapi.json"
    ∷ behind_scope "instance:read" "GET" "/api/v1/instance"
    ∷ behind_scope "discovery:read" "GET" "/api/v1/discovery"
    ∷ behind_scope "discovery:write" "POST" "/api/v1/discovery/refresh"
    ∷ behind_scope "discovery:write" "DELETE" "/api/v1/discovery/{server_id}/lock"
    ∷ behind_scope "slot:read" "GET" "/api/v1/slots"
    ∷ behind_scope "slot:read" "GET" "/api/v1/slots/{name}"
    ∷ behind_scope "slot:read" "GET" "/api/v1/slots/{name}/compatible-servers"
    ∷ behind_scope "slot:write" "POST" "/api/v1/slots/{name}/start"
    ∷ behind_scope "slot:write" "POST" "/api/v1/slots/{name}/stop"
    ∷ behind_scope "slot:write" "POST" "/api/v1/slots/{name}/restart"
    ∷ behind_scope "slot:write" "POST" "/api/v1/slots/{name}/abort-stop"
    ∷ behind_scope "server:command" "POST" "/api/v1/slots/{name}/server/command"
    ∷ behind_scope "server:command" "POST" "/api/v1/slots/{name}/server/say"
    ∷ behind_scope "server:read" "GET" "/api/v1/slots/{name}/server/players"
    ∷ behind_scope "server:moderate" "POST" "/api/v1/slots/{name}/server/players/{player}/kick"
    ∷ behind_scope "server:moderate" "POST" "/api/v1/slots/{name}/server/players/{player}/ban"
    ∷ behind_scope "server:moderate" "POST" "/api/v1/slots/{name}/server/players/{player}/unban"
    ∷ behind_scope "server:admin" "POST" "/api/v1/slots/{name}/server/players/{player}/op"
    ∷ behind_scope "server:admin" "POST" "/api/v1/slots/{name}/server/players/{player}/deop"
    ∷ behind_scope "server:read" "GET" "/api/v1/slots/{name}/server/whitelist"
    ∷ behind_scope "server:admin" "PUT" "/api/v1/slots/{name}/server/whitelist/{player}"
    ∷ behind_scope "server:admin" "DELETE" "/api/v1/slots/{name}/server/whitelist/{player}"
    ∷ behind_scope "server:admin" "POST" "/api/v1/slots/{name}/server/whitelist/reload"
    ∷ behind_scope "server:read" "GET" "/api/v1/slots/{name}/server/banlist"
    ∷ behind_scope "server:read" "GET" "/api/v1/slots/{name}/server/banlist/ips"
    ∷ behind_scope "server:read" "GET" "/api/v1/slots/{name}/server/properties"
    ∷ behind_scope "server:admin" "PATCH" "/api/v1/slots/{name}/server/properties"
    ∷ behind_scope "server:read" "GET" "/api/v1/slots/{name}/server/logs"
    ∷ behind_scope "server:read" "GET" "/api/v1/slots/{name}/server/logs/stream"
    ∷ behind_scope "slot:read" "GET" "/api/v1/slots/{name}/events"
    ∷ behind_scope "server:admin" "GET" "/api/v1/slots/{name}/server/update"
    ∷ behind_scope "server:admin" "POST" "/api/v1/slots/{name}/server/update"
    ∷ behind_scope "server:admin" "GET" "/api/v1/slots/{name}/server/backups"
    ∷ behind_scope "server:admin" "POST" "/api/v1/slots/{name}/server/backups"
    ∷ behind_scope "server:admin" "GET" "/api/v1/slots/{name}/server/backups/{id}"
    ∷ behind_scope "server:admin" "POST" "/api/v1/slots/{name}/server/backups/{id}/restore"
    ∷ behind_scope "server:admin" "DELETE" "/api/v1/slots/{name}/server/backups/{id}"
    ∷ behind_scope "system:read" "GET" "/api/v1/system/temperature"
    ∷ behind_scope "system:read" "GET" "/api/v1/system/resources"
    ∷ behind_scope "audit:read" "GET" "/api/v1/audit"
    ∷ behind_scope "peer:read" "GET" "/api/v1/peers"
    ∷ behind_scope "peer:read" "POST" "/api/v1/peers/refresh"
    ∷ behind_scope "discovery:read" "GET" "/api/v1/federation/discovery"
    ∷ behind_scope "slot:read" "GET" "/api/v1/federation/slots"
    ∷ []

abbrev pub metrics_path : Metrics → String
metrics_path m = if str_eq m.path "" then "/metrics" else m.path

-- Whether the metrics are on, and whether they ask for a token.
metrics_routes : Bool → Bool → String → List Route
metrics_routes false require_auth path = []
metrics_routes true true path = behind_scope "metrics:read" "GET" path ∷ []
metrics_routes true false path = public "GET" path ∷ []

-- The last one, for any method, answers that there is no such route.
unfoldable pub routes : Metrics → List Route
unfolding fixed_routes metrics_routes
routes m =
    fixed_routes ++ (metrics_routes m.enabled m.require_auth (metrics_path m) ++ public "" "/" ∷ [])

-- Whether the handler of a route runs for a header, and the token that it sees.
unfoldable pub pass :
    (Bytes → Bytes)
    → (Bytes → Bytes → Bool)
    → List ResolvedToken
    → Guard
    → Bytes
    → Result Denial (Option TokenInfo)
pass trim derives tokens unguarded header = ok none
pass trim derives tokens (needs scope) header =
    elim (admit trim derives tokens (codes scope) header) [
      | ok info ↦ ok (some info)
      | err d ↦ err d
    ]
