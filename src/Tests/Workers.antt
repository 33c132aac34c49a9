-- ===== src/Tests/Workers.antt =====
-- The theorems on the workers, applied to one order: its workflows, its payment, its driver, its events.
use mathlib.Core.Path.{ap₂}
use flash_bite.Prelude.{
  ◌≤◌, String, ◌≡◌, refl, Bool, true, false, ◌&&◌, ◌||◌, not, List, [], ◌∷◌, filter, none, some, ok,
  ◌==◌, eq_iff, ◌↔◌, ap, arith,
}
use flash_bite.Contracts.{
  PaymentStatus, TenantView, EventEnvelope, OrderView, OrderStatus, order_placed, Topic,
}
use flash_bite.Stores.{KeyedStore, association_list, find_entry}
use flash_bite.Shared.EventDb.{OutboxStatus}
use flash_bite.Payments.{Payment, authorize, capture, void}
use flash_bite.Payments.Overlap.{Event, step_all}
use flash_bite.Payments.Overlap.Kept.{IsKept}
use flash_bite.Payments.Overlap.Runs.{overlap-IsKept}
use flash_bite.Payments.History.{captures, voids, serve_all, settled_stays}
use flash_bite.SagaWorker.PaymentsClient.{
  returned, non_retryable, authorize_payment, capture_payment, void_payment, served, retried,
  authorize_payment-retried,
}
use flash_bite.SagaWorker.Drivers.{Redis}
use flash_bite.Projection.{ProcessedEvent, Collections}
use flash_bite.Projection.Orders.{project_order}
use flash_bite.Projection.Redelivery.{project_order_later}
use flash_bite.Outbox.{Broker, take, is_pending, poll_once}
use flash_bite.Outbox.Delivery.{IsDelivery, poll_once-IsDelivery}
use flash_bite.Tests.Tables.{Tables, lists}
use flash_bite.Tests.Streams.{order_1}

-- Keys of two texts
abbrev pub same_pair : String × String → String × String → Bool
same_pair a b = a.0 == b.0 && a.1 == b.1

both : (p q : Bool) → (p && q) ≡ true → (p ≡ true) × (q ≡ true)
both true true h = (refl, refl)
both true false h = ground (arith, h)
both false q h = ground (arith, h)

same_pair_iff : (a b : String × String) → (same_pair a b ≡ true) ↔ (a ≡ b)
same_pair_iff (a, b) (c, d) = (
  λ h.
      let (h₀, h₁) = both (a == c) (b == d) h in
      ap₂ (λ x y. (x, y)) ((eq_iff a c).0 h₀) ((eq_iff b d).0 h₁),
  λ e. rw ((eq_iff a c).1 (ap (λ p. p.0) e), (eq_iff b d).1 (ap (λ p. p.1) e)) refl,
)

abbrev payments : KeyedStore (String × String) Payment
payments = association_list (String × String) Payment same_pair same_pair_iff

abbrev captured : Payment
captured = record {
  id = "payment-1";
  order_id = "order-1";
  amount = 900;
  status = PaymentStatus.captured;
  authorized_at = some 1000;
  captured_at = some 2000;
  voided_at = none;
}

abbrev paid : List ((String × String) × Payment)
paid = (("berlin", "order-1"), captured) ∷ []

settled_stays_example :
    payments.find
      (serve_all payments
        (voids 3000 "berlin" "order-1" ∷ captures 4000 "berlin" "order-2" ∷ [])
        paid)
      ("berlin", "order-1")
    ≡ some captured
unfolding find_entry
settled_stays_example =
    settled_stays payments (voids 3000 "berlin" "order-1" ∷ captures 4000 "berlin" "order-2" ∷ [])
      ("berlin", "order-1") captured paid tt refl

abbrev key : String × String
key = ("berlin", "order-1")

-- A capture and a void that both found the payment held
abbrev at_once : List (Event payments)
at_once =
    Event.looks (captures 5 "berlin" "order-1")
    ∷ Event.looks (voids 6 "berlin" "order-1")
    ∷ Event.commits 1
    ∷ Event.commits 0
    ∷ []

abbrev held : Payment
held = record captured { status = PaymentStatus.authorized; captured_at = none }

overlap-IsKept_example :
    (p' : Payment) × (payments.find
        (step_all payments at_once (record { db = (key, held) ∷ []; pending = [] })).db
        key
      ≡ some p')
    × IsKept held p'
unfolding find_entry
overlap-IsKept_example = overlap-IsKept payments at_once ((key, held) ∷ []) key held refl

-- The set of busy drivers and that of those online, and the drivers nearby
abbrev redis : Redis
redis = record {
  Db = String → String → Bool;
  geosearch = λ db k lng lat. "driver-1" ∷ "driver-2" ∷ [];
  sismember = λ db k m. db k m;
  sadd = λ db k m k' m'. (k == k' && m == m') || db k' m';
  srem = λ db k m k' m'. not (k == k' && m == m') && db k' m';
  sismember-sadd = λ db k m k' m'. refl;
  sismember-srem = λ db k m k' m'. refl;
}

abbrev berlin : TenantView
berlin = record {
  slug = "berlin";
  display_name = "Berlin";
  lng = "13.4";
  lat = "52.5";
  status = "active";
  brand_color = none;
}

abbrev all_online : String → String → Bool
all_online k m = k == "tenant:{berlin}:drivers:online"

abbrev pub orders : KeyedStore String OrderView
orders = association_list String OrderView ◌==◌ eq_iff

abbrev pub inbox : KeyedStore String ProcessedEvent
inbox = association_list String ProcessedEvent ◌==◌ eq_iff

abbrev placed_event : EventEnvelope
placed_event = record {
  tenant_id = "berlin";
  event_id = "event-1";
  version = 1;
  occurred_at = 1000;
  correlation_id = "correlation";
  event = order_placed order_1;
}

abbrev no_documents : Collections OrderView orders inbox
no_documents = record { view = []; inbox = [] }

abbrev accepted_view : OrderView
accepted_view = record {
  tenant_id = "berlin";
  order_id = "order-1";
  customer_id = "customer-1";
  items = [];
  total_amount = 900;
  status = OrderStatus.accepted;
  version = 2;
  updated_at = 2000;
  cancel_reason = none;
}

project_order_later_example :
    (v : OrderView) × (orders.find
        (project_order orders placed_event (("berlin:order-1", accepted_view) ∷ []))
        "berlin:order-1"
      ≡ some v)
    × (2 ≤ v.version)
unfolding find_entry
project_order_later_example =
    project_order_later orders placed_event (("berlin:order-1", accepted_view) ∷ [])
      "berlin:order-1" accepted_view refl

abbrev broker : Broker
broker = record { encode = λ subject event. ok "avro"; send = λ message. ok tt }

abbrev one_waiting : Tables
one_waiting = record {
  events = [];
  outbox =
      record {
        id = "event-1";
        tenant_id = "berlin";
        topic = Topic.order_events;
        partition_key = "berlin:order-1";
        payload = placed_event;
        status = OutboxStatus.pending;
      }
      ∷ [];
}

poll_once-IsDelivery_example :
    IsDelivery broker lists
      (take 100 (filter is_pending one_waiting.outbox))
      one_waiting
      (poll_once broker lists one_waiting).1
poll_once-IsDelivery_example = poll_once-IsDelivery broker lists one_waiting

authorize_payment-retried_example :
    let last =
      retried payments "berlin" "order-1" 900 100000
        (("payment-2", 2000) ∷ ("payment-3", 3000) ∷ [])
        (authorize payments "payment-1" 1000 "berlin" "order-1" 900 100000 []) in
    (last.1 ≡ (authorize payments "payment-1" 1000 "berlin" "order-1" 900 100000 []).1)
    × (authorize_payment (served last.0) ≡ returned true)
    × (capture_payment (served (capture payments 4000 "berlin" "order-1" last.1).0) ≡ returned tt)
    × (capture_payment (served (capture payments 4000 "berlin" "order-1" []).0)
        ≡ non_retryable "payments /payments/capture failed: 404")
    × (void_payment (served (void payments 4000 "berlin" "order-1" []).0)
        ≡ non_retryable "payments /payments/void failed: 404")
unfolding find_entry
authorize_payment-retried_example =
    authorize_payment-retried payments "berlin" "order-1" 900 100000 "payment-1" 1000 4000
      (("payment-2", 2000) ∷ ("payment-3", 3000) ∷ []) [] refl
