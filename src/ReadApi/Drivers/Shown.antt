-- ===== src/ReadApi/Drivers/Shown.antt =====
-- What a customer is shown of a driver's position, and what a driver who is offline is offered.
use flash_bite.Prelude.{
  String, ◌<>◌, ◌≡◌, ◌≢◌, refl, sym, ap, ◌∙◌, subst, false, List, Option, none, some, Result, ok,
  ◌==◌, eq_iff, eq_refl, arith, inl, inr, Bool-cases,
}
use flash_bite.Contracts.{
  DriverTelemetryPayload, DispatchStatus, DispatchView, Event, TenantView,
  driver_telemetry_streamed,
}
use flash_bite.Contracts.Keys.{scoped_id, driver_geo_key, driver_online_key}
use flash_bite.Shared.AggregateStore.{Fresh}
use flash_bite.Telemetry.{Position, GeoSets, apply_telemetry, telemetry_envelope}
use flash_bite.SagaWorker.Drivers.{
  Redis, select_nearest_available_driver, is_available, IsFirst, select_nearest,
}
use flash_bite.TenantContext.{AuthContext, get_auth_context}
use flash_bite.ReadApi.Queries.{DispatchCollection, by_order, current_tenant}
use flash_bite.ReadApi.Drivers.{
  driver_location, driver_location_visible, driver_of, go_offline, shown_driver, position_of,
}

module _ (dispatches : DispatchCollection) (geo : GeoSets) (cast : Event → DriverTelemetryPayload)
    (cast-telemetry : (p : DriverTelemetryPayload) → cast (driver_telemetry_streamed p) ≡ p) where
  -- What an order's page is shown in each status of the order's dispatch
  pub data IsShown (position : Position) : DispatchStatus → Result (Option Position) → Type 0 where
    while_dispatched : IsShown position DispatchStatus.dispatched (ok (some position))
    while_picked_up : IsShown position DispatchStatus.picked_up (ok (some position))
    not_while_offered : IsShown position DispatchStatus.offered (ok none)
    not_once_delivered : IsShown position DispatchStatus.delivered (ok none)
    not_once_failed : IsShown position DispatchStatus.failed (ok none)

  module _ (auth : AuthContext) (env : Fresh) (ping : DriverTelemetryPayload)
      (positions : geo.Db) where
    -- The geo set once the position has been taken from the topic
    abbrev taken : geo.Db
    taken = apply_telemetry geo cast (telemetry_envelope env auth.tenant_id ping) positions

    stored :
        position_of dispatches geo auth.tenant_id taken (some ping.driver_id)
        ≡ some (geo.rounded (ping.lng, ping.lat))
    unfolding apply_telemetry telemetry_envelope
    stored =
        ap
          (λ p.
            geo.geopos
              (geo.geoadd positions (driver_geo_key auth.tenant_id) (p.lng, p.lat) p.driver_id)
              (driver_geo_key auth.tenant_id) ping.driver_id)
          (cast-telemetry ping)
        ∙ rw (geo.geopos-geoadd, eq_refl (driver_geo_key auth.tenant_id), eq_refl ping.driver_id)
            refl

    shown :
        (status : DispatchStatus)
        → (ping.driver_id == "") ≡ false
        → IsShown (geo.rounded (ping.lng, ping.lat)) status (
            ok (
              position_of dispatches geo auth.tenant_id taken
                (driver_of status (some ping.driver_id))))
    unfolding driver_location_visible
    shown DispatchStatus.dispatched named = rw named (
        subst (λ x. IsShown (geo.rounded (ping.lng, ping.lat)) DispatchStatus.dispatched (ok x))
          (sym stored) while_dispatched)
    shown DispatchStatus.picked_up named = rw named (
        subst (λ x. IsShown (geo.rounded (ping.lng, ping.lat)) DispatchStatus.picked_up (ok x))
          (sym stored) while_picked_up)
    shown DispatchStatus.offered named = rw named not_while_offered
    shown DispatchStatus.delivered named = rw named not_once_delivered
    shown DispatchStatus.failed named = rw named not_once_failed

    -- Once a position that a driver sent has been taken from the topic, the page of an order of the
    -- tenant that the driver has is shown it, rounded, while the order is dispatched or picked up, and
    -- is shown no position while it is offered or once it is delivered or has failed.
    pub driver_location-apply_telemetry :
        (order_id : String) (view : DispatchView) (db : dispatches.Db)
        → dispatches.find_by_id db (auth.tenant_id <> ":" <> order_id) ≡ some view
        → view.driver_id ≡ some ping.driver_id
        → ping.driver_id ≢ ""
        → IsShown (geo.rounded (ping.lng, ping.lat)) view.status (
            driver_location dispatches geo
              (some auth)
              order_id
              db
              (apply_telemetry geo cast (telemetry_envelope env auth.tenant_id ping) positions))
    unfolding driver_location current_tenant get_auth_context shown_driver by_order scoped_id
    driver_location-apply_telemetry order_id view db found has named =
        let to_show : Option String → Result (Option Position) =
          λ o. ok (position_of dispatches geo auth.tenant_id taken o) in
        subst (IsShown (geo.rounded (ping.lng, ping.lat)) view.status)
          (sym (
            ap (λ v. to_show (shown_driver v)) found
            ∙ ap (λ d. to_show (driver_of view.status d)) has))
          (shown view.status (not_equal named))
      where
        not_equal : ping.driver_id ≢ "" → (ping.driver_id == "") ≡ false
        not_equal n = elim (Bool-cases (ping.driver_id == "")) [
          | inl e ↦ absurd (n ((eq_iff ping.driver_id "").0 e))
          | inr e ↦ e
        ]

module _ (redis : Redis) (center : TenantView) (auth : AuthContext) where
  -- A driver who went offline is offered no order of the tenant.
  pub offline_not_selected :
      (exclude : List String) (d : String) (db : redis.Db)
      → select_nearest_available_driver redis
          (some center)
          auth.tenant_id
          exclude
          (go_offline redis (some auth) d db).1
        ≢ some d
  unfolding go_offline current_tenant get_auth_context
  offline_not_selected exclude d db h =
      let left = redis.srem db (driver_online_key auth.tenant_id) d in
      let first =
        subst
          (IsFirst (is_available redis auth.tenant_id exclude left)
            (redis.geosearch left (driver_geo_key auth.tenant_id) center.lng center.lat))
          h (select_nearest redis center auth.tenant_id exclude left) in
      ground (
        arith,
        first.0,
        redis.sismember-srem db (driver_online_key auth.tenant_id) d
            (driver_online_key auth.tenant_id) d,
        eq_refl d,
        eq_refl (driver_online_key auth.tenant_id),
      )
