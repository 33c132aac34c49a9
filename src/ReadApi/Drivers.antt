-- ===== src/ReadApi/Drivers.antt =====
-- apps/read-api/src: drivers/drivers.controller.ts, behind its guard of roles, and the position of an
-- order's driver (dispatch/driver-location.ts, dispatch/dispatch.controller.ts). Redis' sets are those
-- of the saga worker, its geo sets those of the telemetry worker.
pub mod Shown
use flash_bite.Prelude.{
  ℕ, String, Bool, true, false, not, ◌&&◌, List, map, Option, none, some, Result, ok, throw, error,
  bad_request, ◌>>=◌, ◌==◌, if◌then◌else◌,
}
use flash_bite.Contracts.{DispatchView, DispatchStatus, DriverTelemetryPayload}
use flash_bite.Contracts.Keys.{driver_geo_key, driver_online_key}
use flash_bite.Shared.AggregateStore.{Fresh}
use flash_bite.Outbox.{Broker}
use flash_bite.Telemetry.{Position, GeoRow, GeoSets, publish}
use flash_bite.SagaWorker.Drivers.{Redis}
use flash_bite.TenantContext.{AuthContext}
use flash_bite.ReadApi.Queries.{DispatchCollection, current_tenant, scoped_geo_key, by_order}

-- `DriverLocationDto`. `within n x` is `@IsNumber() @Min(-n) @Max(n)`.
pub record DriverLocationDto : Type 0 where
  pub lng : String
  pub lat : String
  pub order_id : Option String

abbrev pub is_location : (ℕ → String → Bool) → DriverLocationDto → Bool
is_location within dto = within 180 dto.lng && within 90 dto.lat

abbrev pub telemetry_of : String → DriverLocationDto → DriverTelemetryPayload
telemetry_of driver_id dto = record {
  driver_id = driver_id;
  order_id = dto.order_id;
  lng = dto.lng;
  lat = dto.lat;
}

-- POST drivers/:driverId/location, behind its validation
unfoldable pub report_location :
    Broker
    → (ℕ → String → Bool)
    → Fresh
    → Option AuthContext
    → String
    → DriverLocationDto
    → Result String
unfolding publish current_tenant
report_location broker within env auth driver_id dto =
    if not (is_location within dto)
    then throw (bad_request "validation")
    else current_tenant auth >>= λ tenant_id.
        publish broker env tenant_id (telemetry_of driver_id dto) >>= λ _. ok driver_id

pub record NearbyDriver : Type 0 where
  pub driver_id : String
  pub distance_km : String
  pub lng : String
  pub lat : String

abbrev pub nearby_of : GeoRow → NearbyDriver
nearby_of row = record {
  driver_id = row.member;
  distance_km = row.distance;
  lng = row.position.0;
  lat = row.position.1;
}

module _ (geo : GeoSets) where
  -- GET drivers/nearby
  unfoldable pub nearby :
      Option AuthContext → String → String → Option String → geo.Db → Result (List NearbyDriver)
  unfolding scoped_geo_key
  nearby auth lng lat radius_km db = scoped_geo_key auth >>= λ key.
      ok (
        map nearby_of
          (geo.geosearch db key (lng, lat) (elim radius_km [ none ↦ "5" | some r ↦ r ])))

module _ (redis : Redis) where
  open redis use {Db, sismember, sadd, srem}

  -- GET drivers/:driverId/online
  unfoldable pub is_online : Option AuthContext → String → Db → Result (String × Bool)
  unfolding current_tenant driver_online_key
  is_online auth driver_id db = current_tenant auth >>= λ tenant_id.
      ok (driver_id, sismember db (driver_online_key tenant_id) driver_id)

  -- POST drivers/:driverId/online
  unfoldable pub go_online : Option AuthContext → String → Db → Result (String × Bool) × Db
  unfolding current_tenant driver_online_key
  go_online auth driver_id db = elim (current_tenant auth) [
    | throw e ↦ (throw e, db)
    | ok tenant_id ↦ (ok (driver_id, true), sadd db (driver_online_key tenant_id) driver_id)
  ]

  -- POST drivers/:driverId/offline
  unfoldable pub go_offline : Option AuthContext → String → Db → Result (String × Bool) × Db
  unfolding current_tenant driver_online_key
  go_offline auth driver_id db = elim (current_tenant auth) [
    | throw e ↦ (throw e, db)
    | ok tenant_id ↦ (ok (driver_id, false), srem db (driver_online_key tenant_id) driver_id)
  ]

unfoldable pub driver_location_visible : DispatchStatus → Bool
driver_location_visible DispatchStatus.dispatched = true
driver_location_visible DispatchStatus.picked_up = true
driver_location_visible DispatchStatus.offered = false
driver_location_visible DispatchStatus.delivered = false
driver_location_visible DispatchStatus.failed = false

-- The driver whose position may be shown: `d.driverId`, which is not empty, while it is visible.
abbrev pub driver_of : DispatchStatus → Option String → Option String
driver_of status none = none
driver_of status (some driver_id) =
    if driver_id == ""
    then none
    else if driver_location_visible status
    then some driver_id
    else none

unfoldable pub shown_driver : Option DispatchView → Option String
unfolding driver_location_visible
shown_driver none = none
shown_driver (some view) = driver_of view.status view.driver_id

module _ (dispatches : DispatchCollection) (geo : GeoSets) where
  abbrev pub position_of : String → geo.Db → Option String → Option Position
  position_of tenant_id positions none = none
  position_of tenant_id positions (some driver_id) =
      geo.geopos positions (driver_geo_key tenant_id) driver_id

  -- GET orders/:orderId/driver-location
  unfoldable pub driver_location :
      Option AuthContext → String → dispatches.Db → geo.Db → Result (Option Position)
  unfolding current_tenant by_order driver_geo_key shown_driver
  driver_location auth order_id db positions = current_tenant auth >>= λ tenant_id.
      ok
        (position_of tenant_id positions (shown_driver (by_order dispatches tenant_id order_id db)))
