-- ===== src/Telemetry.antt =====
-- apps/telemetry-worker/src and apps/read-api/src/drivers/telemetry-producer.service.ts: the positions
-- of drivers, from the API over a topic into the geo sets of Redis. These sets are an interface, with
-- what GEOADD and GEOPOS are documented to do: a member has one position, the last that it was given,
-- rounded as Redis stores it.
use flash_bite.Prelude.{ℕ, String, ◌≡◌, ◌&&◌, List, Option, none, some, Result, ◌==◌, if◌then◌else◌}
use flash_bite.Contracts.{
  Event, EventEnvelope, DriverTelemetryPayload, Topic, driver_telemetry_streamed,
}
use flash_bite.Contracts.Keys.{driver_geo_key, scoped_id}
use flash_bite.Shared.AggregateStore.{Fresh, build_envelope}
use flash_bite.Messaging.Headers.{KafkaMessage}
use flash_bite.Messaging.Consume.{each_message}
use flash_bite.Outbox.{Broker, publish_envelope}

-- Longitude and latitude, as texts
abbrev pub Position : Type 0
Position = String × String

-- A row of GEOSEARCH, WITHDIST and WITHCOORD
pub record GeoRow : Type 0 where
  pub member : String
  pub distance : String
  pub position : Position

pub record GeoSets : Type 1 where
  pub Db : Type 0
  pub rounded : Position → Position
  pub geoadd : Db → String → Position → String → Db
  pub geopos : Db → String → String → Option Position
  pub geosearch : Db → String → Position → String → List GeoRow
  pub geopos-geoadd :
      (db : Db) (k k' m m' : String) (p : Position)
      → geopos (geoadd db k p m) k' m'
        ≡ (if k == k' && m == m' then some (rounded p) else geopos db k' m')

module _ (geo : GeoSets) where
  open geo use {Db, geoadd}

  -- `envelope.payload as DriverTelemetryPayload`; nothing but telemetry is on the topic, and `cast`
  -- is what the fields of another payload are read as.
  unfoldable pub apply_telemetry : (Event → DriverTelemetryPayload) → EventEnvelope → Db → Db
  unfolding driver_geo_key
  apply_telemetry cast envelope db =
      let p = cast envelope.event in
      geoadd db (driver_geo_key envelope.tenant_id) (p.lng, p.lat) p.driver_id

  -- `runTelemetryConsumer`, of each message
  unfoldable pub run_telemetry_consumer :
      (Payload : Type 0)
      → (String → Result Payload)
      → (number time_of : String → ℕ) → (String → Payload → Event)
      → (Event → DriverTelemetryPayload)
      → String
      → KafkaMessage
      → Db
      → Result (Unit {0}) × Db
  unfolding each_message apply_telemetry
  run_telemetry_consumer Payload decode number time_of as_event cast =
      each_message Payload decode number time_of as_event (apply_telemetry cast)

-- `publish` of the producer service, with its fresh ids
unfoldable pub telemetry_envelope : Fresh → String → DriverTelemetryPayload → EventEnvelope
unfolding build_envelope
telemetry_envelope env tenant_id payload =
    build_envelope env tenant_id 1 none (driver_telemetry_streamed payload)

unfoldable pub publish : Broker → Fresh → String → DriverTelemetryPayload → Result (Unit {0})
unfolding telemetry_envelope publish_envelope scoped_id
publish broker env tenant_id payload =
    publish_envelope broker Topic.telemetry_streams (scoped_id tenant_id payload.driver_id)
      (telemetry_envelope env tenant_id payload)
