-- ===== src/Shared/TenantCatalog.antt =====
-- packages/shared/src/tenant-catalog.ts: the cached catalog of tenants. What the database answers, and
-- the clock, are arguments: `fetched` is the outcome of `tenant.findMany()` as the views it maps to.
use flash_bite.Prelude.{
  ℕ, ◌+◌, String, Bool, false, List, filter, find, Option, none, some, Result, ok, throw, ◌==◌, ltb,
  if◌then◌else◌,
}
use flash_bite.Contracts.{TenantView}

pub record Catalog : Type 0 where
  pub cache : Option (List TenantView)
  pub loaded_at : ℕ

-- what is read from the database: the rows, or an error
abbrev pub Fetched : Type 0
Fetched = Result (List TenantView)

abbrev refetch : ℕ → Fetched → Catalog → Result (List TenantView) × Catalog
refetch now (ok rows) c = (ok rows, record { cache = some rows; loaded_at = now })
refetch now (throw e) c = elim c.cache [ some stale ↦ (ok stale, c) | none ↦ (throw e, c) ]

-- `Date.now() - loadedAt < ttlMs`, without the subtraction
abbrev pub still_fresh : ℕ → ℕ → Catalog → Bool
still_fresh ttl_ms now c = ltb now (c.loaded_at + ttl_ms)

unfoldable pub ensure_fresh : ℕ → ℕ → Fetched → Catalog → Result (List TenantView) × Catalog
ensure_fresh ttl_ms now fetched c = elim c.cache [
  | none ↦ refetch now fetched c
  | some rows ↦ if still_fresh ttl_ms now c then (ok rows, c) else refetch now fetched c
]

abbrev pub has_status : TenantView → Bool
has_status t = t.status == "active"

abbrev pub on_rows {ℓ} :
    {A : Type ℓ} → (List TenantView → A) → Result (List TenantView) × Catalog → Result A × Catalog
on_rows f (ok rows, c) = (ok (f rows), c)
on_rows f (throw e, c) = (throw e, c)

unfoldable pub list : ℕ → ℕ → Fetched → Bool → Catalog → Result (List TenantView) × Catalog
unfolding ensure_fresh
list ttl_ms now fetched active_only c =
    on_rows (λ all. if active_only then filter has_status all else all)
      (ensure_fresh ttl_ms now fetched c)

unfoldable pub get : ℕ → ℕ → Fetched → String → Catalog → Result (Option TenantView) × Catalog
unfolding ensure_fresh
get ttl_ms now fetched slug c =
    on_rows (λ rows. find (λ t. t.slug == slug) rows) (ensure_fresh ttl_ms now fetched c)

abbrev pub active_tenant : Option TenantView → Bool
active_tenant none = false
active_tenant (some t) = has_status t

unfoldable pub is_active : ℕ → ℕ → Fetched → String → Catalog → Result Bool × Catalog
unfolding ensure_fresh
is_active ttl_ms now fetched slug c =
    on_rows (λ rows. active_tenant (find (λ t. t.slug == slug) rows))
      (ensure_fresh ttl_ms now fetched c)

-- `refresh`: the error of a failed read is the caller's.
unfoldable pub refresh : ℕ → ℕ → Fetched → Catalog → Result (List TenantView) × Catalog
unfolding ensure_fresh
refresh ttl_ms now fetched c = ensure_fresh ttl_ms now fetched (record c { cache = none })
