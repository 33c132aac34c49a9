-- ===== src/Tests/Messages.antt =====
-- Messages, signals and reads, with the theorems on them applied.
use flash_bite.Prelude.{
  ℕ, String, ◌≡◌, ◌≢◌, Bool, true, false, List, [], ◌∷◌, filter, find, All, none, some, ◌==◌, ◌<>◌,
  arith, Bool-cases, inl, inr, false≢true, eq_iff, sym, ◌∙◌,
}
use flash_bite.Contracts.{
  DispatchView, DispatchStatus, OrderView, OrderStatus, EventEnvelope, order_cancelled,
}
use flash_bite.Messaging.Headers.{EnvelopeMeta}
use flash_bite.WriteApi.Signals.{Signal, Delivery}
use flash_bite.TenantContext.{AuthContext}
use flash_bite.ReadApi.Queries.{DispatchCollection}

abbrev meta : EnvelopeMeta
meta = record {
  event_type = "OrderPlaced";
  tenant_id = "berlin";
  event_id = "event-1";
  version = 1;
  occurred_at = "2026-06-16T00:00:00.000Z";
  correlation_id = "correlation";
}

-- Enough of `String` and of `Number` for the version that is sent
abbrev text_of : ℕ → String
text_of n = "1"

abbrev number : String → ℕ
number s = 1

pub is_not : (s : String) → (s == "") ≡ false → s ≢ ""
is_not s h e = false≢true (sym h ∙ (eq_iff s "").1 e)

-- Temporal as the list of the signals that it took
abbrev deliver : String → Signal → List (String × Signal) → Delivery × List (String × Signal)
deliver id signal w = (Delivery.delivered, (id, signal) ∷ w)

abbrev pub offered : DispatchView
offered = record {
  tenant_id = "berlin";
  order_id = "order-1";
  status = DispatchStatus.offered;
  driver_id = none;
  offered_driver_id = some "driver-1";
  reason = none;
  version = 1;
  updated_at = 1000;
  offer_expires_at = some 31000;
}

pub found_meets :
    (db : List DispatchView) (p : DispatchView → Bool) (v : DispatchView)
    → find p db ≡ some v
    → p v ≡ true
found_meets [] p v e = ground (arith, e)
found_meets (x ∷ db) p v e = elim (Bool-cases (p x)) [
  | inl h ↦ ground (arith, h, rw h at e)
  | inr h ↦ found_meets db p v (rw h at e)
]

pub All-meet :
    (db : List DispatchView) (p : DispatchView → Bool) → All (λ v. p v ≡ true) (filter p db)
All-meet [] p = tt
All-meet (x ∷ db) p = elim (Bool-cases (p x)) [
  | inl h ↦ rw h (h, All-meet db p)
  | inr h ↦ rw h (All-meet db p)
]

abbrev pub collection : DispatchCollection
collection = record {
  Db = List DispatchView;
  find_by_id = λ db id. find (λ v. (v.tenant_id <> ":" <> v.order_id) == id) db;
  find_one = λ db p. find p db;
  find_many = λ db p. filter p db;
  find_one_meets = found_meets;
  find_many_meets = All-meet;
}

abbrev pub driver : AuthContext
driver = record { tenant_id = "berlin"; role = "driver"; sub = "driver-1" }

abbrev placed_view : OrderView
placed_view = record {
  tenant_id = "berlin";
  order_id = "order-1";
  customer_id = "customer-1";
  items = [];
  total_amount = 900;
  status = OrderStatus.placed;
  version = 1;
  updated_at = 1000;
  cancel_reason = none;
}

abbrev cancelled_view : OrderView
cancelled_view = record placed_view {
  status = OrderStatus.cancelled;
  version = 2;
  updated_at = 2000;
  cancel_reason = some "DECLINED";
}

abbrev cancellation : EventEnvelope
cancellation = record {
  tenant_id = "berlin";
  event_id = "event-2";
  version = 2;
  occurred_at = 2000;
  correlation_id = "correlation";
  event = order_cancelled (record { order_id = "order-1"; reason = "DECLINED" });
}
