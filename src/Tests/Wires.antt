-- ===== src/Tests/Wires.antt =====
-- Messages over topics, with the theorems applied to them.
use flash_bite.Prelude.{
  ℕ, zero, suc, String, ◌≡◌, ◌≢◌, refl, ap, sym, List, [], ◌∷◌, ◌++◌, map, Option, none, some,
  Result, ok, throw, error, arith, eq_iff, ◌==◌, if◌then◌else◌, ok-inj,
}
use flash_bite.Contracts.{
  Event, EventEnvelope, DispatchView, OrderView, Topic, order_accepted, order_placed,
  driver_telemetry_streamed, order_cancelled, event_type, driver_offered, dispatch_accepted,
  order_picked_up, order_delivered, other,
}
use flash_bite.Stores.{KeyedStore, association_list}
use flash_bite.Messaging.Headers.{KafkaMessage, build_headers}
use flash_bite.Messaging.Serde.{Registry, encode_payload, reset_id_cache}
use flash_bite.Messaging.Wire.{Texts, message_for, receive, receive-message_for, IsNamed, meta_of}
use flash_bite.Projection.{Collections}
use flash_bite.Projection.Consumers.{run_consumer, run_dispatch_consumer, consumers_again}
use flash_bite.ReadApi.Streams.{OrderStreamEvent}
use flash_bite.ReadApi.Feeder.{Follower, Subject, Services}
use flash_bite.ReadApi.Feeder.Sent.{
  without_driver, dispatch_frames, connections, published_to, feed_all, order_events_of,
  dispatch_views_of, connections-feed_all,
}
use flash_bite.Tests.Messages.{is_not}
use flash_bite.Tests.Workers.{orders, inbox}

-- Numbers as tallies, with a mark in front
abbrev tally : ℕ → String
tally zero = "|"
tally (suc n) = String.◌∷◌ "l" (tally n)

abbrev less_one : ℕ → ℕ
less_one zero = zero
less_one (suc n) = n

abbrev letters : String → ℕ
letters String.[] = 0
letters (String.◌∷◌ c s) = suc (letters s)

abbrev count_of : String → ℕ
count_of s = less_one (letters s)

letters-tally : (n : ℕ) → letters (tally n) ≡ suc n
letters-tally zero = refl
letters-tally (suc n) = ap (λ k. suc k) (letters-tally n)

tally_some : (n : ℕ) → tally n ≢ ""
tally_some n e = ground (arith, letters-tally n, ap letters e)

abbrev texts : Texts Event
texts = record {
  text_of = tally;
  number = count_of;
  iso = tally;
  time_of = count_of;
  payload_of = λ e. e;
  as_event = λ name e. e;
  number-text_of = λ n. ap less_one (letters-tally n);
  text_of_some = tally_some;
  time_of-iso = λ n. ap less_one (letters-tally n);
}

-- A schema for acceptances alone
abbrev encode : ℕ → Event → Result String
encode id (order_accepted p) = ok p.order_id
encode id e = throw (error "no such schema")

abbrev decode : String → Result Event
decode value = ok (order_accepted (record { order_id = value }))

decode-encode : (id : ℕ) (p : Event) (value : String) → encode id p ≡ ok value → decode value ≡ ok p
decode-encode id (order_accepted p) value e =
    sym (ap (λ s. ok (order_accepted (record { order_id = s }))) (ok-inj e))
decode-encode id (order_placed _) value e = ground (arith, e)
decode-encode id (order_cancelled _) value e = ground (arith, e)
decode-encode id (driver_telemetry_streamed _) value e = ground (arith, e)
decode-encode id (driver_offered _) value e = ground (arith, e)
decode-encode id (dispatch_accepted _) value e = ground (arith, e)
decode-encode id (order_picked_up _) value e = ground (arith, e)
decode-encode id (order_delivered _) value e = ground (arith, e)
decode-encode id (Event.dispatch_failed _) value e = ground (arith, e)
decode-encode id (other _ _) value e = ground (arith, e)

abbrev registry : Registry Event
registry = record {
  Db = List String;
  get_latest_schema_id = λ db subject. ok 7;
  register = λ db subject schema. (ok 7, subject ∷ db);
  encode = encode;
  decode = decode;
  decode-encode = decode-encode;
}

abbrev accepted_event : EventEnvelope
accepted_event = record {
  tenant_id = "berlin";
  event_id = "event-2";
  version = 2;
  occurred_at = 3;
  correlation_id = "correlation";
  event = order_accepted (record { order_id = "order-1" });
}

accepted_event-IsNamed : IsNamed Event texts registry accepted_event
unfolding event_type
accepted_event-IsNamed = record {
  has_type = is_not "OrderAccepted" refl;
  has_tenant = is_not "berlin" refl;
  has_id = is_not "event-2" refl;
  has_correlation = is_not "correlation" refl;
  is_of_its_type = refl;
}

abbrev on_topic : KafkaMessage
on_topic = record {
  value = some "order-1";
  headers = build_headers tally (meta_of Event texts registry accepted_event);
}

-- The handler keeps what it was given.
receive-message_for_example :
    receive Event texts registry (λ e (db : List EventEnvelope). e ∷ db) "fresh" on_topic []
    ≡ (ok tt, accepted_event ∷ [])
unfolding message_for encode_payload
receive-message_for_example =
    receive-message_for Event texts registry (λ e db. e ∷ db) "fresh" "order-events-OrderAccepted"
      accepted_event [] reset_id_cache on_topic [] accepted_event-IsNamed refl

abbrev decoded : String → Result Event
decoded = decode

abbrev no_orders : Collections OrderView orders inbox
no_orders = record { view = []; inbox = [] }

abbrev dispatches : KeyedStore String DispatchView
dispatches = association_list String DispatchView ◌==◌ eq_iff

abbrev no_dispatches : Collections DispatchView dispatches inbox
no_dispatches = record { view = []; inbox = [] }

consumers_again_example :
    let first =
      run_consumer Event decode count_of count_of (λ n e. e) inbox orders "a" on_topic no_orders in
    let first' =
      run_dispatch_consumer Event decode count_of count_of
        (λ n e. e)
        inbox
        dispatches
        30
        "a"
        on_topic
        no_dispatches in
    (run_consumer Event decode count_of count_of (λ n e. e) inbox orders "b" on_topic first.1
      ≡ first)
    × (run_dispatch_consumer Event decode count_of count_of
          (λ n e. e)
          inbox
          dispatches
          30
          "b"
          on_topic
          first'.1
        ≡ first')
consumers_again_example =
    consumers_again Event decode count_of count_of (λ n e. e) inbox orders dispatches 30 "a" "b"
      on_topic no_orders no_dispatches

abbrev berlin_orders : String → Option (Subject OrderStreamEvent)
berlin_orders t = if t == "berlin" then some ((Follower.merchant, []) ∷ []) else none

-- A merchant's connection, and one of the driver who is offered the order.
abbrev berlin_dispatches : String → Option (Subject DispatchView)
berlin_dispatches t =
    if t == "berlin"
    then some ((Follower.merchant, []) ∷ (Follower.driver "driver-1", []) ∷ [])
    else none

abbrev one_merchant : Services
one_merchant = record { orders = berlin_orders; dispatches = berlin_dispatches }

abbrev offer_made : Event
offer_made = driver_offered (record { order_id = "order-1"; driver_id = "driver-1" })

abbrev three_messages : List (Topic × EventEnvelope)
three_messages =
    (Topic.order_events, accepted_event)
    ∷ (Topic.dispatch_events, record accepted_event { event = offer_made })
    ∷ (Topic.order_events, record accepted_event { tenant_id = "tokyo" })
    ∷ []

connections-feed_all_example :
    (connections OrderStreamEvent (feed_all 30 three_messages one_merchant).orders "berlin"
      ≡ map
          (λ sent.
            sent ++ published_to OrderStreamEvent "berlin" (order_events_of 30 three_messages))
          (connections OrderStreamEvent one_merchant.orders "berlin"))
    × (dispatch_frames 30 (feed_all 30 three_messages one_merchant) "berlin"
        ≡ map
            (λ sent.
              sent
              ++ map without_driver
                  (published_to DispatchView "berlin" (dispatch_views_of 30 three_messages)))
            (dispatch_frames 30 one_merchant "berlin"))
connections-feed_all_example = connections-feed_all 30 "berlin" three_messages one_merchant
