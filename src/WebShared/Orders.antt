-- ===== src/WebShared/Orders.antt =====
-- packages/web-shared/src/orders/order-events.ts: the order rows that a dashboard keeps.
use flash_bite.Prelude.{
  String, ◌≡◌, ◌≢◌, not, List, map, any, Option, none, some, ◌==◌, eq_iff, arith, ltb,
  if◌then◌else◌, inl, inr, Bool-cases,
}
use flash_bite.Contracts.{
  EventEnvelope, Event, OrderView, OrderStatus, PaymentStatus, order_placed, order_accepted,
  order_cancelled, event_type, driver_telemetry_streamed, driver_offered, dispatch_accepted,
  order_picked_up, order_delivered, other,
}
use flash_bite.Projection.{payload_order_id}
use flash_bite.Projection.Orders.{written_order}
use flash_bite.ReadApi.Streams.{OrderStreamEvent, to_stream_event}

unfoldable pub status_from_event_type : String → Option OrderStatus
status_from_event_type name =
    if name == "OrderPlaced"
    then some OrderStatus.placed
    else if name == "OrderAccepted"
    then some OrderStatus.accepted
    else if name == "OrderCancelled"
    then some OrderStatus.cancelled
    else none

-- `event.cancelReason ? ... : ...`; an empty reason is none
abbrev pub reason_or : Option String → Option String → Option String
reason_or none old = old
reason_or (some reason) old = if reason == "" then old else some reason

abbrev pub updated_row : OrderStreamEvent → OrderStatus → OrderView → OrderView
updated_row event status r =
    if r.order_id == event.order_id
    then record r { status = status; cancel_reason = reason_or event.cancel_reason r.cancel_reason }
    else r

unfoldable pub apply_order_event : List OrderView → OrderStreamEvent → List OrderView
unfolding status_from_event_type
apply_order_event rows event = elim (status_from_event_type event.event_type) [
  | none ↦ rows
  | some status ↦
      if not (any (λ r. r.order_id == event.order_id) rows)
      then rows
      else map (updated_row event status) rows
]

unfoldable pub cancel_reason_label : Option String → String
cancel_reason_label none = ""
cancel_reason_label (some reason) =
    if reason == "SLA_BREACH"
    then "SLA breach"
    else if reason == "DECLINED"
    then "Declined by merchant"
    else if reason == "PAYMENT_FAILED"
    then "Payment failed"
    else if reason == "PAYMENT_TIMEOUT"
    then "Payment not confirmed"
    else reason

unfoldable pub payment_status_label : Option PaymentStatus → String
payment_status_label none = ""
payment_status_label (some PaymentStatus.authorized) = "Authorized"
payment_status_label (some PaymentStatus.captured) = "Paid"
payment_status_label (some PaymentStatus.voided) = "Voided"
payment_status_label (some PaymentStatus.declined) = "Declined"

-- A cancellation gives a reason.
abbrev pub IsReasoned : Event → Type 0
IsReasoned (order_cancelled p) = p.reason ≢ ""
IsReasoned _ = Unit

abbrev pub Agrees : OrderView → OrderView → Type 0
Agrees a b = (a.status ≡ b.status) × (a.cancel_reason ≡ b.cancel_reason)

module _ (e : EventEnvelope) (v w : OrderView) where
  -- what the dashboard makes of its row for an event of that kind
  abbrev pub row_after : Event → OrderView
  row_after ev = updated_row (to_stream_event (record e { event = ev })) w.status v

  -- Where the read model's view of an order moves on by an event, the dashboard's row moves to the
  -- same status and the same reason, if a cancellation gives one.
  pub row_after-written_order :
      (ev : Event)
      → v.order_id ≡ payload_order_id ev
      → IsReasoned ev
      → written_order e ev (some v) ≡ some w
      → (status_from_event_type (event_type ev) ≡ some w.status) × Agrees (row_after ev) w
  unfolding status_from_event_type to_stream_event payload_order_id written_order event_type
  row_after-written_order (order_placed p) o q h = elim (Bool-cases (ltb v.version e.version)) [
    | inr k ↦ ground (arith, h, k)
    | inl k ↦ ground (arith, h, k, (eq_iff v.order_id p.order_id).1 o)
  ]
  row_after-written_order (order_accepted p) o q h = elim (Bool-cases (ltb v.version e.version)) [
    | inr k ↦ ground (arith, h, k)
    | inl k ↦ ground (arith, h, k, (eq_iff v.order_id p.order_id).1 o)
  ]
  row_after-written_order (order_cancelled p) o q h = elim (Bool-cases (ltb v.version e.version)) [
    | inr k ↦ ground (arith, h, k)
    | inl k ↦ elim (Bool-cases (p.reason == "")) [
      | inl empty ↦ absurd (q ((eq_iff p.reason "").0 empty))
      | inr full ↦ ground (arith, h, k, full, (eq_iff v.order_id p.order_id).1 o)
    ]
  ]
  row_after-written_order (driver_telemetry_streamed _) o q h = ground (arith, h)
  row_after-written_order (driver_offered _) o q h = ground (arith, h)
  row_after-written_order (dispatch_accepted _) o q h = ground (arith, h)
  row_after-written_order (order_picked_up _) o q h = ground (arith, h)
  row_after-written_order (order_delivered _) o q h = ground (arith, h)
  row_after-written_order (Event.dispatch_failed _) o q h = ground (arith, h)
  row_after-written_order (other _ _) o q h = ground (arith, h)
