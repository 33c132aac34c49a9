-- ===== src/Contracts.antt =====
-- packages/contracts/src/index.ts: the events, the statuses and the keys that the services share.
-- A field that the source types by a set of string constants is an enumeration here, an optional
-- field is an `Option`, and a time (an ISO text in an envelope, a `Date` elsewhere) is the number of
-- milliseconds that it stands for. Amounts are whole cents, as the request validation demands.
pub mod Keys
use flash_bite.Prelude.{ℕ, String, List, Option}

pub record OrderItem : Type 0 where
  pub sku : String
  pub qty : ℕ
  pub price : ℕ

pub record OrderPlacedPayload : Type 0 where
  pub order_id : String
  pub customer_id : String
  pub items : List OrderItem
  pub total_amount : ℕ

pub record OrderAcceptedPayload : Type 0 where
  pub order_id : String

pub record OrderCancelledPayload : Type 0 where
  pub order_id : String
  pub reason : String

-- Coordinates are texts, as Redis is given them.
pub record DriverTelemetryPayload : Type 0 where
  pub driver_id : String
  pub order_id : Option String
  pub lng : String
  pub lat : String

pub record DriverOfferedPayload : Type 0 where
  pub order_id : String
  pub driver_id : String

pub record DispatchAcceptedPayload : Type 0 where
  pub order_id : String
  pub driver_id : String

pub record OrderPickedUpPayload : Type 0 where
  pub order_id : String

pub record OrderDeliveredPayload : Type 0 where
  pub order_id : String

pub record DispatchFailedPayload : Type 0 where
  pub order_id : String
  pub reason : String

-- An event's type and its payload in one: the code casts a payload by the type that stands beside
-- it. `other` is an event of a type that `EVENT_TYPES` does not list, whose payload nobody reads
-- but for its order id.
pub data Event : Type 0 where
  order_placed : OrderPlacedPayload → Event
  order_accepted : OrderAcceptedPayload → Event
  order_cancelled : OrderCancelledPayload → Event
  driver_telemetry_streamed : DriverTelemetryPayload → Event
  driver_offered : DriverOfferedPayload → Event
  dispatch_accepted : DispatchAcceptedPayload → Event
  order_picked_up : OrderPickedUpPayload → Event
  order_delivered : OrderDeliveredPayload → Event
  dispatch_failed : DispatchFailedPayload → Event
  other : String → String → Event

-- `eventType`, as it goes over the wire
unfoldable pub event_type : Event → String
event_type (order_placed _) = "OrderPlaced"
event_type (order_accepted _) = "OrderAccepted"
event_type (order_cancelled _) = "OrderCancelled"
event_type (driver_telemetry_streamed _) = "DriverTelemetryStreamed"
event_type (driver_offered _) = "DriverOffered"
event_type (dispatch_accepted _) = "DispatchAccepted"
event_type (order_picked_up _) = "OrderPickedUp"
event_type (order_delivered _) = "OrderDelivered"
event_type (dispatch_failed _) = "DispatchFailed"
event_type (other name _) = name

pub record EventEnvelope : Type 0 where
  pub tenant_id : String
  pub event_id : String
  pub version : ℕ
  pub occurred_at : ℕ
  pub correlation_id : String
  pub event : Event

pub data AggregateType : Type 0 where
  order dispatch : AggregateType

pub data OrderStatus : Type 0 where
  placed accepted cancelled : OrderStatus

pub data DispatchStatus : Type 0 where
  offered dispatched picked_up delivered failed : DispatchStatus

pub data PaymentStatus : Type 0 where
  authorized captured voided declined : PaymentStatus

pub data Topic : Type 0 where
  order_events telemetry_streams dispatch_events : Topic

-- `ORDER_CANCEL_REASONS` and `ORDER_SAGA_RESULTS`
pub data CancelReason : Type 0 where
  sla_breach declined_by_merchant payment_failed payment_timeout : CancelReason

pub data SagaResult : Type 0 where
  accepted cancelled_sla cancelled_declined cancelled_payment_failed : SagaResult
  cancelled_payment_timeout delivered dispatch_failed : SagaResult

unfoldable pub reason_text : CancelReason → String
reason_text sla_breach = "SLA_BREACH"
reason_text declined_by_merchant = "DECLINED"
reason_text payment_failed = "PAYMENT_FAILED"
reason_text payment_timeout = "PAYMENT_TIMEOUT"

-- `DISPATCH_FAIL_REASONS`
abbrev pub no_drivers_available : String
no_drivers_available = "NO_DRIVERS_AVAILABLE"

abbrev pub delivery_timeout : String
delivery_timeout = "DELIVERY_TIMEOUT"

pub record OrderView : Type 0 where
  pub tenant_id : String
  pub order_id : String
  pub customer_id : String
  pub items : List OrderItem
  pub total_amount : ℕ
  pub status : OrderStatus
  pub version : ℕ
  pub updated_at : ℕ
  pub cancel_reason : Option String

pub record DispatchView : Type 0 where
  pub tenant_id : String
  pub order_id : String
  pub status : DispatchStatus
  pub driver_id : Option String
  pub offered_driver_id : Option String
  pub reason : Option String
  pub version : ℕ
  pub updated_at : ℕ
  pub offer_expires_at : Option ℕ

pub data Role : Type 0 where
  customer merchant driver admin operator : Role

pub record TenantView : Type 0 where
  pub slug : String
  pub display_name : String
  pub lng : String
  pub lat : String
  pub status : String
  pub brand_color : Option String
