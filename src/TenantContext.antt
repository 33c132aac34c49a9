-- ===== src/TenantContext.antt =====
-- packages/tenant-context/src: who a request is from, and whether it may go on. `jwtVerify` is a
-- parameter, which gives the payload's claims.
pub mod Admission
use Prim.Native.String.{slice, len}
use text.Mathlib.Text.{starts_with}
use flash_bite.Prelude.{
  ℕ, String, Bool, true, false, List, [], ◌∷◌, Option, none, some, Result, ok, throw, includes,
  error, auth_context, unauthorized, forbidden, service_unavailable, Exn, ◌==◌, if◌then◌else◌,
}
use flash_bite.Contracts.{TenantView}
use flash_bite.Shared.TenantCatalog.{Catalog, Fetched, is_active}

pub record AuthContext : Type 0 where
  pub tenant_id : String
  pub role : String
  pub sub : String

-- the claims of a payload that are texts
pub record Claims : Type 0 where
  pub tenant_id : Option String
  pub role : Option String
  pub sub : Option String

-- `storage.getStore()` is an argument.
unfoldable pub get_auth_context : Option AuthContext → Result AuthContext
get_auth_context none = throw (auth_context "No auth context in scope")
get_auth_context (some ctx) = ok ctx

abbrev context_of : Option String → Option String → Option String → Result AuthContext
context_of (some tenant_id) (some role) (some sub) =
    ok (record { tenant_id = tenant_id; role = role; sub = sub })
context_of _ _ _ = throw (error "token missing required claims")

-- `jwt_verify` takes a token, and what it checks it for: issuer and audience, under RS256.
unfoldable pub verify :
    (String → String → String → Result Claims) → String → String → String → Result AuthContext
verify jwt_verify issuer audience token = elim (jwt_verify issuer audience token) [
  | ok payload ↦ context_of payload.tenant_id payload.role payload.sub
  | throw e ↦ throw e
]

-- The token that a header carries, an empty one being none.
abbrev pub token_of : Option String → Option String
token_of none = none
token_of (some header) =
    let token = slice header 7 (len header) in
    if starts_with header "Bearer " then if token == "" then none else some token else none

-- AuthMiddleware: the context that the request goes on in, or the exception that `next` gets.
unfoldable pub authenticate : (String → Result AuthContext) → Option String → Result AuthContext
authenticate verifier header = elim (token_of header) [
  | none ↦ throw (unauthorized "Missing bearer token")
  | some token ↦ elim (verifier token) [
    | throw e ↦ throw (unauthorized "Invalid token")
    | ok ctx ↦ ok ctx
  ]
]

-- RolesGuard; the roles that a handler or its class demands, `none` when there is no such metadata
unfoldable pub roles_guard : Option (List String) → Option AuthContext → Result Bool
unfolding get_auth_context
roles_guard none auth = ok true
roles_guard (some []) auth = ok true
roles_guard (some (r ∷ rs)) auth = elim (get_auth_context auth) [
  | throw e ↦ throw e
  | ok ctx ↦ if includes ctx.role (r ∷ rs) then ok true else throw (forbidden "Insufficient role")
]

-- TenantGuard
unfoldable pub tenant_guard : ℕ → ℕ → Fetched → Option AuthContext → Catalog → Result Bool × Catalog
unfolding is_active
tenant_guard ttl_ms now fetched none c = (ok true, c)
tenant_guard ttl_ms now fetched (some auth) c =
    if auth.role == "operator"
    then (ok true, c)
    else let checked = is_active ttl_ms now fetched auth.tenant_id c in
      (
        elim checked.0 [
          | throw e ↦ throw (service_unavailable "tenant catalog unavailable")
          | ok true ↦ ok true
          | ok false ↦ throw (forbidden "Unknown or inactive tenant")
        ],
        checked.1,
      )
