-- ===== src/Tests/Pages.antt =====
-- Positions of drivers, a page that polls and a checkout, with the theorems applied to them.
use flash_bite.Prelude.{
  ℕ, zero, suc, String, ◌≡◌, ◌≢◌, refl, ap, true, false, ◌&&◌, List, [], ◌∷◌, Option, none, some,
  arith, ◌==◌, if◌then◌else◌,
}
use flash_bite.Contracts.{
  Event, DispatchView, DispatchStatus, DriverTelemetryPayload, driver_telemetry_streamed,
}
use flash_bite.Shared.AggregateStore.{Fresh}
use flash_bite.Telemetry.{GeoSets, Position, apply_telemetry, telemetry_envelope}
use flash_bite.ReadApi.Drivers.{driver_location}
use flash_bite.ReadApi.Drivers.Shown.{IsShown, driver_location-apply_telemetry}
use flash_bite.WebApps.Tracking.{Page, Answers, run, begun, visible}
use flash_bite.WebShared.Cart.{CartItem, Action, act_all, add}
use flash_bite.WriteApi.Orders.{is_valid_order}
use flash_bite.WebApps.Checkout.{request_of, dto_of, amount_of, checkout_valid}
use flash_bite.WebApps.Tracking.Ends.{IsSettled, tracking_ends}
use flash_bite.Tests.Messages.{collection, driver, offered}

-- Geo sets that round nothing
abbrev pinned :
    (String → String → Option Position)
    → String
    → Position
    → String
    → String
    → String
    → Option Position
pinned db k p m k' m' = if k == k' && m == m' then some p else db k' m'

abbrev geo : GeoSets
geo = record {
  Db = String → String → Option Position;
  rounded = λ p. p;
  geoadd = pinned;
  geopos = λ db k m. db k m;
  geosearch = λ db k p r. [];
  geopos-geoadd = λ db k k' m m' p. refl;
}

abbrev ping : DriverTelemetryPayload
ping = record { driver_id = "driver-1"; order_id = none; lng = "13.40"; lat = "52.52" }

abbrev cast : Event → DriverTelemetryPayload
cast (driver_telemetry_streamed p) = p
cast e = ping

abbrev env : Fresh
env = record {
  event_id = "event-3";
  now = 4;
  inserted_at = 5;
  context_correlation_id = none;
  new_correlation_id = "correlation";
}

abbrev on_the_way : DispatchView
on_the_way = record offered { status = DispatchStatus.dispatched; driver_id = some "driver-1" }

abbrev nowhere : String → String → Option Position
nowhere k m = none

driver_location-apply_telemetry_example :
    IsShown collection geo cast
      (λ p. refl)
      ("13.40", "52.52")
      DispatchStatus.dispatched
      (driver_location collection geo
        (some driver)
        "order-1"
        (on_the_way ∷ [])
        (apply_telemetry geo cast (telemetry_envelope env "berlin" ping) nowhere))
driver_location-apply_telemetry_example =
    driver_location-apply_telemetry collection geo cast (λ p. refl) driver env ping nowhere
      "order-1" on_the_way (on_the_way ∷ []) refl refl named
  where
    named : ping.driver_id ≢ ""
    named e = cc

abbrev no_page : Page
no_page = record {
  order = none;
  waiting = true;
  stopped = false;
  payment_status = none;
  dispatch = none;
  driver_location = none;
}

-- The order is not found.
abbrev not_found : Answers
not_found = record {
  hidden = false;
  order = none;
  payment = none;
  dispatch = none;
  location = none;
}

abbrev times : ℕ → Answers → List Answers
times zero a = []
times (suc n) a = a ∷ times n a

visible-times : (n : ℕ) → visible (times n not_found) ≡ n
unfolding visible
visible-times zero = refl
visible-times (suc n) = ap (λ k. suc k) (visible-times n)

tracking_ends_example :
    ((run none (times 200 not_found) (begun no_page)).1.scheduled ≡ false)
    × IsSettled (run none (times 200 not_found) (begun no_page)).0
tracking_ends_example =
    tracking_ends none (times 200 not_found) no_page (ground (arith, visible-times 200))

abbrev pizza : CartItem
pizza = record { sku = "pizza"; name = "Pizza"; price_cents = 1200 }

abbrev two_pizzas : List Action
two_pizzas = Action.adds pizza ∷ Action.adds pizza ∷ []

some_lines : act_all two_pizzas [] ≢ []
unfolding add
some_lines e = ground (arith, e)

checkout_valid_example :
    let req = request_of (λ s. s) "order-1" "" (act_all two_pizzas []) in
    (is_valid_order (dto_of req) ≡ true) × (amount_of req.items ≡ req.total_amount)
checkout_valid_example = checkout_valid (λ s. s) "order-1" "" two_pizzas some_lines
