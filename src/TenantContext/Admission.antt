-- ===== src/TenantContext/Admission.antt =====
-- What a request that the middleware and the guards let through is known to be.
use flash_bite.Prelude.{
  ℕ, String, ◌≡◌, refl, true, false, ◌&&◌, List, [], ◌∷◌, any, find, Option, none, some, Result, ok,
  throw, includes, service_unavailable, Exn, ◌==◌, inl, inr, arith, Option-cases, Result-cases,
  Bool-cases, if◌then◌else◌, eq_iff, false≢true, forbidden,
}
use flash_bite.Contracts.{TenantView}
use flash_bite.Shared.TenantCatalog.{
  Catalog, Fetched, ensure_fresh, is_active, has_status, on_rows, active_tenant,
}
use flash_bite.TenantContext.{
  AuthContext, token_of, authenticate, roles_guard, tenant_guard, get_auth_context,
}

-- The rows have an active tenant of that slug.
abbrev pub IsActiveIn : String → List TenantView → Type 0
IsActiveIn slug rows = any (λ t. t.slug == slug && has_status t) rows ≡ true

active_found :
    (slug : String) (t : TenantView) (rows : List TenantView)
    → find (λ t. t.slug == slug) rows ≡ some t
    → has_status t ≡ true
    → IsActiveIn slug rows
active_found slug t [] e h = ground (arith, e)
active_found slug t (r ∷ rows) e h = elim (Bool-cases (r.slug == slug)) [
  | inl hit ↦ ground (arith, e, h, hit)
  | inr miss ↦ ground (arith, e, miss, active_found slug t rows (rw miss at e) h)
]

active_of :
    (slug : String) (o : Option TenantView) (rows : List TenantView)
    → find (λ t. t.slug == slug) rows ≡ o
    → active_tenant o ≡ true
    → IsActiveIn slug rows
active_of slug none rows e h = absurd (false≢true h)
active_of slug (some t) rows e h = active_found slug t rows e h

of_rows :
    (slug : String) (r : Result (List TenantView) × Catalog)
    → (on_rows (λ rows. active_tenant (find (λ t. t.slug == slug) rows)) r).0 ≡ ok true
    → (rows : List TenantView) × (r.0 ≡ ok rows) × IsActiveIn slug rows
of_rows slug (ok rows, c) h =
    (rows, refl, active_of slug (find (λ t. t.slug == slug) rows) rows refl (ground (arith, h)))
of_rows slug (throw e, c) h = ground (arith, h)

module _ (ttl_ms now : ℕ) (fetched : Fetched) where
  is_active_rows :
      (slug : String) (c : Catalog)
      → (is_active ttl_ms now fetched slug c).0 ≡ ok true
      → (rows : List TenantView) × ((ensure_fresh ttl_ms now fetched c).0 ≡ ok rows)
        × IsActiveIn slug rows
  unfolding is_active
  is_active_rows slug c h = of_rows slug (ensure_fresh ttl_ms now fetched c) h

  -- What TenantGuard knows of a request that is let through.
  pub data Cleared (auth : AuthContext) (c : Catalog) : Type 0 where
    operator : auth.role ≡ "operator" → Cleared auth c
    tenant :
        (rows : List TenantView)
        → (ensure_fresh ttl_ms now fetched c).0 ≡ ok rows
        → IsActiveIn auth.tenant_id rows
        → Cleared auth c

  guard-Cleared :
      (auth : AuthContext) (c : Catalog)
      → (tenant_guard ttl_ms now fetched (some auth) c).0 ≡ ok true
      → Cleared auth c
  unfolding tenant_guard
  guard-Cleared auth c h = elim (Bool-cases (auth.role == "operator")) [
    | inl op ↦ Cleared.operator ((eq_iff auth.role "operator").0 op)
    | inr other ↦ elim (Result-cases (is_active ttl_ms now fetched auth.tenant_id c).0) [
      | inr (x, e) ↦ ground (arith, h, other, e)
      | inl (true, e) ↦
          let (rows, fresh, active) = is_active_rows auth.tenant_id c e in
          Cleared.tenant rows fresh active
      | inl (false, e) ↦ ground (arith, h, other, e)
    ]
  ]

  role_allowed :
      (r : String) (rs : List String) (auth : AuthContext)
      → roles_guard (some (r ∷ rs)) (some auth) ≡ ok true
      → includes auth.role (r ∷ rs) ≡ true
  unfolding roles_guard get_auth_context
  role_allowed r rs auth h = elim (Bool-cases (includes auth.role (r ∷ rs))) [
    | inl e ↦ e
    | inr e ↦ ground (arith, h, e)
  ]

  authenticated :
      (verifier : String → Result AuthContext) (header : Option String) (auth : AuthContext)
      → authenticate verifier header ≡ ok auth
      → (token : String) × (token_of header ≡ some token) × (verifier token ≡ ok auth)
  unfolding authenticate
  authenticated verifier header auth h = elim (Option-cases (token_of header)) [
    | inl e ↦ ground (arith, h, e)
    | inr (token, e) ↦ elim (Result-cases (verifier token)) [
      | inr (x, f) ↦ ground (arith, h, e, f)
      | inl (ctx, f) ↦ (token, e, ground (arith, h, e, f))
    ]
  ]

  -- A request that passes the middleware and both guards, at a handler that demands roles: its
  -- bearer token was verified, its role is one of those demanded, and it is an operator's or its
  -- tenant is active in the catalog.
  pub admitted :
      (verifier : String → Result AuthContext) (header : Option String) (r : String)
      (rs : List String) (auth : AuthContext) (c : Catalog)
      → authenticate verifier header ≡ ok auth
      → roles_guard (some (r ∷ rs)) (some auth) ≡ ok true
      → (tenant_guard ttl_ms now fetched (some auth) c).0 ≡ ok true
      → ((token : String) × (token_of header ≡ some token) × (verifier token ≡ ok auth))
        × (includes auth.role (r ∷ rs) ≡ true)
        × Cleared auth c
  admitted verifier header r rs auth c h h' h'' =
      (authenticated verifier header auth h, role_allowed r rs auth h', guard-Cleared auth c h'')

module _ (ttl_ms now : ℕ) (x : Exn) where
  outage_fresh :
      (c : Catalog)
      → ensure_fresh ttl_ms now (throw x) c
        ≡ (elim c.cache [ none ↦ throw x | some rows ↦ ok rows ], c)
  unfolding ensure_fresh
  outage_fresh c = elim (Option-cases c.cache) [
    | inl e ↦ ground (arith, e)
    | inr (rows, e) ↦ ground (arith, e)
  ]

  -- While the database cannot be read, the guard goes by the tenants that were read last, however
  -- old, and refuses all but operators with 503 when none ever were.
  pub tenant_guard_outage :
      (auth : AuthContext) (c : Catalog)
      → (auth.role == "operator") ≡ false
      → tenant_guard ttl_ms now (throw x) (some auth) c ≡ (
        elim c.cache [
          | none ↦ throw (service_unavailable "tenant catalog unavailable")
          | some rows ↦
              if active_tenant (find (λ t. t.slug == auth.tenant_id) rows)
              then ok true
              else throw (forbidden "Unknown or inactive tenant")
        ],
        c,
      )
  unfolding tenant_guard is_active
  tenant_guard_outage auth c other = elim (Option-cases c.cache) [
    | inl e ↦ ground (arith, e, other, outage_fresh c)
    | inr (rows, e) ↦ ground (arith, e, other, outage_fresh c)
  ]
