-- ===== src/ReadApi/Admin.antt =====
-- apps/read-api/src/admin: what the operators are shown, of all tenants (admin.service.ts,
-- admin.controller.ts). The catalog's answer is an argument.
use flash_bite.Prelude.{
  ℕ, String, Bool, true, List, [], ◌∷◌, ◌++◌, map, Result, ok, ◌>>=◌, includes, if◌then◌else◌,
}
use flash_bite.Contracts.{OrderView, TenantView}
use flash_bite.Contracts.Keys.{driver_geo_key}
use flash_bite.Telemetry.{GeoSets}
use flash_bite.ReadApi.Drivers.{NearbyDriver, nearby_of}
use flash_bite.ReadApi.Streams.{OrderStreamEvent}

-- `ADMIN_NEARBY_RADIUS_KM`, as it is printed
abbrev pub admin_nearby_radius_km : String
admin_nearby_radius_km = "50"

pub record TenantNearbyDriver : Type 0 where
  pub tenant_id : String
  pub driver : NearbyDriver

-- GET admin/orders; `find_newest` gives the documents that a filter picks, the newest first, up to the
-- limit.
unfoldable pub list_all_orders :
    {Db : Type 0} → (Db → (OrderView → Bool) → ℕ → List OrderView) → ℕ → Db → List OrderView
list_all_orders find_newest limit db = find_newest db (λ _. true) limit

module _ (geo : GeoSets) where
  unfoldable pub tenant_drivers : geo.Db → TenantView → List TenantNearbyDriver
  unfolding driver_geo_key
  tenant_drivers db t =
      map (λ row. record { tenant_id = t.slug; driver = nearby_of row })
        (geo.geosearch db (driver_geo_key t.slug) (t.lng, t.lat) admin_nearby_radius_km)

  -- `perTenant.flat()`
  unfoldable pub flat : List (List TenantNearbyDriver) → List TenantNearbyDriver
  flat [] = []
  flat (ds ∷ rest) = ds ++ flat rest

  -- GET admin/drivers, of the tenants that the catalog lists
  unfoldable pub list_all_drivers :
      Result (List TenantView) → geo.Db → Result (List TenantNearbyDriver)
  unfolding tenant_drivers flat
  list_all_drivers tenants db = tenants >>= λ listed. ok (flat (map (tenant_drivers db) listed))

-- An event of the merged streams, with its tenant
pub record AdminEvent : Type 0 where
  pub tenant_id : String
  pub event : OrderStreamEvent

-- GET admin/orders/stream: what a connection sends of the events that are published, each to a
-- tenant, when it has merged the streams of the tenants that were listed.
unfoldable pub orders_stream : List String → List (String × OrderStreamEvent) → List AdminEvent
orders_stream slugs [] = []
orders_stream slugs ((t, event) ∷ published) =
    let rest = orders_stream slugs published in
    if includes t slugs then record { tenant_id = t; event = event } ∷ rest else rest
