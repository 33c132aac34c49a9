-- ===== src/ReadApi/Feeder.antt =====
-- apps/read-api/src/sse: the services that hold the subjects of the tenants (order-stream.service.ts,
-- dispatch-stream.service.ts), the feeder that publishes to them (sse-feeder.service.ts) and the
-- connections of merchants and drivers (merchant-sse.controller.ts, merchant-dispatch-sse.controller.ts,
-- driver-sse.controller.ts).
pub mod Sent
use flash_bite.Prelude.{
  ℕ, String, Bool, true, List, [], ◌∷◌, ◌++◌, map, Option, none, some, or_else, Result, ok, throw,
  ◌>>=◌, ◌==◌, if◌then◌else◌,
}
use flash_bite.Contracts.{Event, EventEnvelope, DispatchView, Topic}
use flash_bite.Messaging.Headers.{KafkaMessage}
use flash_bite.Messaging.Consume.{each_message}
use flash_bite.TenantContext.{AuthContext}
use flash_bite.ReadApi.Streams.{
  OrderStreamEvent, DeliveryView, to_stream_event, to_dispatch_view, to_delivery_view,
}
use flash_bite.ReadApi.Queries.{DispatchCollection, current_tenant, all_for_tenant}

-- Whose connection is subscribed to a subject: a merchant's, or that of a driver with an id
pub data Follower : Type 0 where
  merchant : Follower
  driver : String → Follower

module _ (V : Type 0) where
  -- A subject keeps nothing; it is seen by what it has given to each of its subscribers, in order.
  abbrev pub Subject : Type 0
  Subject = List (Follower × List V)

  -- `Map<string, Subject>`
  abbrev pub Subjects : Type 0
  Subjects = String → Option Subject

  abbrev pub set : Subjects → String → Subject → Subjects
  set subjects tenant_id subject k = if tenant_id == k then some subject else subjects k

  abbrev made_if_missing : Subjects → String → Option Subject → Subject × Subjects
  made_if_missing subjects tenant_id none = ([], set subjects tenant_id [])
  made_if_missing subjects tenant_id (some subject) = (subject, subjects)

  unfoldable pub subject_for : String → Subjects → Subject × Subjects
  subject_for tenant_id subjects = made_if_missing subjects tenant_id (subjects tenant_id)

  abbrev pub next : V → Subject → Subject
  next view subject = map (λ c. (c.0, c.1 ++ view ∷ [])) subject

  unfoldable pub publish : String → V → Subjects → Subjects
  unfolding subject_for
  publish tenant_id view subjects =
      let found = subject_for tenant_id subjects in set found.1 tenant_id (next view found.0)

  -- `stream`, and a subscription to what it returns
  unfoldable pub stream : Follower → String → Subjects → Subjects
  unfolding subject_for
  stream follower tenant_id subjects =
      let found = subject_for tenant_id subjects in
      set found.1 tenant_id (found.0 ++ (follower, []) ∷ [])

  -- What each merchant's subscription to a subject has been given
  abbrev pub merchants : Subject → List (List V)
  merchants [] = []
  merchants ((merchant, given) ∷ rest) = given ∷ merchants rest
  merchants ((driver _, given) ∷ rest) = merchants rest

pub record Services : Type 0 where
  pub orders : Subjects OrderStreamEvent
  pub dispatches : Subjects DispatchView

abbrev publish_view : String → Option DispatchView → Subjects DispatchView → Subjects DispatchView
publish_view tenant_id none subjects = subjects
publish_view tenant_id (some view) subjects = publish DispatchView tenant_id view subjects

-- What is done with an envelope of a topic
unfoldable pub feed : ℕ → Topic → EventEnvelope → Services → Services
unfolding publish to_dispatch_view to_stream_event
feed offer_timeout_seconds Topic.dispatch_events envelope s = record s {
  dispatches =
      publish_view envelope.tenant_id (to_dispatch_view offer_timeout_seconds envelope)
        s.dispatches;
}
feed offer_timeout_seconds Topic.order_events envelope s = record s {
  orders = publish OrderStreamEvent envelope.tenant_id (to_stream_event envelope) s.orders;
}
feed offer_timeout_seconds Topic.telemetry_streams envelope s = record s {
  orders = publish OrderStreamEvent envelope.tenant_id (to_stream_event envelope) s.orders;
}

-- `eachMessage` of the feeder
unfoldable pub feed_message :
    (Payload : Type 0)
    → (String → Result Payload)
    → (number time_of : String → ℕ) → (String → Payload → Event)
    → ℕ
    → Topic
    → String
    → KafkaMessage
    → Services
    → Result (Unit {0}) × Services
unfolding each_message feed
feed_message Payload decode number time_of as_event offer_timeout_seconds topic =
    each_message Payload decode number time_of as_event (feed offer_timeout_seconds topic)

-- GET merchant/orders/stream
unfoldable pub orders_stream : Option AuthContext → Services → Result Services
unfolding current_tenant stream
orders_stream auth s = current_tenant auth >>= λ tenant_id.
    ok (record s { orders = stream OrderStreamEvent merchant tenant_id s.orders })

-- GET merchant/dispatch/stream
unfoldable pub dispatch_stream : Option AuthContext → Services → Result Services
unfolding current_tenant stream
dispatch_stream auth s = current_tenant auth >>= λ tenant_id.
    ok (record s { dispatches = stream DispatchView merchant tenant_id s.dispatches })

-- The `pipe(map(...))` of that connection: what it sends of what its subscription is given
unfoldable pub merchant_frames : List DispatchView → List DeliveryView
unfolding to_delivery_view
merchant_frames given = map to_delivery_view given

-- The live part of GET driver/dispatch/stream, once the view that the driver has is read
unfoldable pub driver_live_stream : Option AuthContext → String → Services → Result Services
unfolding current_tenant stream
driver_live_stream auth driver_id s = current_tenant auth >>= λ tenant_id.
    ok (record s { dispatches = stream DispatchView (driver driver_id) tenant_id s.dispatches })

-- GET merchant/dispatch
unfoldable pub snapshot :
    (dispatches : DispatchCollection)
    → Option AuthContext
    → dispatches.Db
    → Result (List DeliveryView)
unfolding current_tenant all_for_tenant to_delivery_view
snapshot dispatches auth db = current_tenant auth >>= λ tenant_id.
    ok (map to_delivery_view (all_for_tenant dispatches tenant_id db))
