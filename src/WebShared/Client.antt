-- ===== src/WebShared/Client.antt =====
-- packages/web-shared/src/api/client.ts: the calls of the two APIs. `fetch` is `authedFetch`, `text_of`
-- prints a number, and `encode` is `encodeURIComponent`; the JSON of a response is what it is cast to.
use flash_bite.Prelude.{
  ℕ, String, ◌≡◌, refl, Bool, true, ◌&&◌, List, Option, none, some, Result, ok, throw, error, ◌>>=◌,
  ◌<>◌, ltb, leb, nat_eq, if◌then◌else◌, is_some,
}
use flash_bite.Contracts.{OrderItem, OrderView, PaymentStatus, DispatchView, TenantView}
use flash_bite.WriteApi.Signals.{signal_of}

pub record PlaceOrderRequest : Type 0 where
  pub order_id : String
  pub customer_id : String
  pub items : List OrderItem
  pub total_amount : ℕ

pub record ReportLocationBody : Type 0 where
  pub lng : String
  pub lat : String
  pub order_id : Option String

pub record NearbyDriver : Type 0 where
  pub driver_id : String
  pub distance_km : String
  pub lng : String
  pub lat : String

pub record TenantNearbyDriver : Type 0 where
  pub tenant_id : String
  pub driver : NearbyDriver

-- What `JSON.stringify` is given
pub data Body : Type 0 where
  no_body : Body
  order_body : PlaceOrderRequest → Body
  location_body : ReportLocationBody → Body
  driver_body : String → Body

pub data Method : Type 0 where
  get post : Method

pub record Request : Type 0 where
  pub method : Method
  pub path : String
  pub body : Body

pub record Online : Type 0 where
  pub driver_id : String
  pub online : Bool

-- A position, or none of it
abbrev pub Location : Type 0
Location = String × String

-- The JSON texts that the APIs answer with
pub data Json : Type 0 where
  order_id_of : String → Json
  order_view : OrderView → Json
  order_views : List OrderView → Json
  payment : Option PaymentStatus → Json
  driver_id_of : String → Json
  nearby : List NearbyDriver → Json
  tenant_nearby : List TenantNearbyDriver → Json
  online : Online → Json
  dispatches : List DispatchView → Json
  dispatch : Option DispatchView → Json
  tenants : List TenantView → Json
  location : Option Location → Json

pub record Response : Type 0 where
  pub status : ℕ
  pub json : Json

-- `res.ok`
abbrev pub is_ok : ℕ → Bool
is_ok status = leb 200 status && ltb status 300

pub data MerchantAction : Type 0 where
  accept decline : MerchantAction

abbrev pub merchant_action : MerchantAction → String
merchant_action accept = "accept"
merchant_action decline = "decline"

pub data DriverAction : Type 0 where
  accept reject pickup deliver : DriverAction

abbrev pub driver_action : DriverAction → String
driver_action accept = "accept"
driver_action reject = "reject"
driver_action pickup = "pickup"
driver_action deliver = "deliver"

module _ (text_of : ℕ → String) (encode : String → String) (fetch : Request → Result Response) where
  -- `if (!res.ok) throw …; return res.json()`
  unfoldable pub json_or_throw : String → Response → Result Json
  json_or_throw name res =
      if is_ok res.status
      then ok res.json
      else throw (error (name <> " failed: " <> text_of res.status))

  -- `if (!res.ok) throw …`, and no more
  unfoldable pub done_or_throw : String → Response → Result (Unit {0})
  done_or_throw name res =
      if is_ok res.status then ok tt else throw (error (name <> " failed: " <> text_of res.status))

  abbrev pub read : String → String → Result Json
  read name path =
      fetch (record { method = get; path = path; body = no_body }) >>= json_or_throw name

  abbrev pub send : String → String → Body → Result Json
  send name path body =
      fetch (record { method = post; path = path; body = body }) >>= json_or_throw name

  abbrev pub signal : String → String → Body → Result (Unit {0})
  signal name path body =
      fetch (record { method = post; path = path; body = body }) >>= done_or_throw name

  unfoldable pub place_order : PlaceOrderRequest → Result Json
  unfolding json_or_throw
  place_order req = send "placeOrder" "/api/write/orders" (order_body req)

  -- `none` is `null`, when the read model has not caught up.
  unfoldable pub get_order : String → Result (Option Json)
  unfolding json_or_throw
  get_order order_id =
      fetch (record { method = get; path = "/api/read/orders/" <> encode order_id; body = no_body })
      >>= λ res.
          if nat_eq res.status 404
          then ok none
          else json_or_throw "getOrder" res >>= λ json. ok (some json)

  unfoldable pub fetch_order_payment : String → Result Json
  unfolding json_or_throw
  fetch_order_payment order_id =
      read "fetchOrderPayment" ("/api/read/orders/" <> encode order_id <> "/payment")

  unfoldable pub list_orders : Result Json
  unfolding json_or_throw
  list_orders = read "listOrders" "/api/read/merchant/orders"

  unfoldable pub signal_order : String → MerchantAction → Result (Unit {0})
  unfolding done_or_throw
  signal_order order_id action =
      signal (merchant_action action <> "Order")
        ("/api/write/orders/" <> encode order_id <> "/" <> merchant_action action) no_body

  unfoldable pub confirm_payment : String → Result (Unit {0})
  unfolding done_or_throw
  confirm_payment order_id =
      signal "confirmPayment" ("/api/write/orders/" <> encode order_id <> "/confirm-payment")
        no_body

  unfoldable pub report_location : String → ReportLocationBody → Result Json
  unfolding json_or_throw
  report_location driver_id body =
      send "reportLocation" ("/api/read/drivers/" <> encode driver_id <> "/location")
        (location_body body)

  -- The coordinates and the radius as `URLSearchParams` prints them
  unfoldable pub get_nearby_drivers : String → String → String → Result Json
  unfolding json_or_throw
  get_nearby_drivers lng lat radius_km =
      read "getNearbyDrivers"
        ("/api/read/drivers/nearby?lng=" <> lng <> "&lat=" <> lat <> "&radiusKm=" <> radius_km)

  unfoldable pub get_admin_orders : Result Json
  unfolding json_or_throw
  get_admin_orders = read "getAdminOrders" "/api/read/admin/orders"

  unfoldable pub get_admin_drivers : Result Json
  unfolding json_or_throw
  get_admin_drivers = read "getAdminDrivers" "/api/read/admin/drivers"

  unfoldable pub go_online : String → Result Json
  unfolding json_or_throw
  go_online driver_id =
      send "goOnline" ("/api/read/drivers/" <> encode driver_id <> "/online") no_body

  unfoldable pub go_offline : String → Result Json
  unfolding json_or_throw
  go_offline driver_id =
      send "goOffline" ("/api/read/drivers/" <> encode driver_id <> "/offline") no_body

  abbrev pub online_of : Json → Result Bool
  online_of (online o) = ok o.online
  online_of _ = throw (error "no such field")

  unfoldable pub get_driver_online : String → Result Bool
  unfolding json_or_throw
  get_driver_online driver_id =
      read "getDriverOnline" ("/api/read/drivers/" <> encode driver_id <> "/online") >>= online_of

  unfoldable pub signal_dispatch : String → DriverAction → String → Result (Unit {0})
  unfolding done_or_throw
  signal_dispatch order_id action driver_id =
      signal (driver_action action <> "Dispatch")
        ("/api/write/dispatch/" <> encode order_id <> "/" <> driver_action action)
        (driver_body driver_id)

  unfoldable pub get_merchant_dispatches : Result Json
  unfolding json_or_throw
  get_merchant_dispatches = read "getMerchantDispatches" "/api/read/merchant/dispatch"

  unfoldable pub get_order_dispatch : String → Result Json
  unfolding json_or_throw
  get_order_dispatch order_id =
      read "getOrderDispatch" ("/api/read/orders/" <> encode order_id <> "/dispatch")

  -- `query` is the id as `URLSearchParams` prints it.
  unfoldable pub get_dispatch_for_driver : String → Result Json
  unfolding json_or_throw
  get_dispatch_for_driver query =
      read "getDispatchForDriver" ("/api/read/driver/dispatch?driverId=" <> query)

  unfoldable pub get_tenants : Result Json
  unfolding json_or_throw
  get_tenants = read "getTenants" "/api/read/tenants"

  abbrev pub location_of : Json → Result (Option Location)
  location_of (location l) = ok l
  location_of _ = throw (error "no such field")

  unfoldable pub get_order_driver_location : String → Result (Option Location)
  unfolding json_or_throw
  get_order_driver_location order_id =
      read "getOrderDriverLocation" ("/api/read/orders/" <> encode order_id <> "/driver-location")
      >>= location_of

-- Every action that the driver's app sends is one that the write API turns into a signal.
pub signal_of-driver_action :
    (action : DriverAction) (driver_id : String)
    → is_some (signal_of (driver_action action) driver_id) ≡ true
unfolding signal_of
signal_of-driver_action accept driver_id = refl
signal_of-driver_action reject driver_id = refl
signal_of-driver_action pickup driver_id = refl
signal_of-driver_action deliver driver_id = refl
