-- ===== src/WebShared/Catalog.antt =====
-- packages/web-shared/src: the catalog of tenants that the components of a page share
-- (tenants/use-tenants.ts), the labels of a dispatch (dispatch/labels.ts) and the menus of the demo
-- (menu/seed.ts). A status is one that the contracts list.
use flash_bite.Prelude.{
  ℕ, String, Bool, true, false, List, [], ◌∷◌, filter, Option, none, some, Result, ok, throw, ◌==◌,
  if◌then◌else◌,
}
use flash_bite.Contracts.{TenantView, DispatchStatus}

-- The two variables of the module: the catalog, and whether a call is under way or has been answered.
pub record Shared : Type 0 where
  pub cache : Option (List TenantView)
  pub inflight : Bool

-- `load`: what it answers at once, if it does, and whether it sends a request.
unfoldable pub load : Shared → Option (List TenantView) × Bool × Shared
load s = elim s.cache [
  | some tenants ↦ (some tenants, false, s)
  | none ↦
      if s.inflight
      then (none, false, s)
      else (none, true, record { cache = s.cache; inflight = true })
]

-- The request settles; a failure allows a later one.
unfoldable pub settle : Result (List TenantView) → Shared → Shared
settle (ok tenants) s = record { cache = some tenants; inflight = s.inflight }
settle (throw e) s = record { cache = s.cache; inflight = false }

-- What `useTenants` gives, before the load settles and after; the component is there still.
pub record TenantsState : Type 0 where
  pub tenants : List TenantView
  pub loading : Bool

unfoldable pub initial_tenants : Shared → TenantsState
initial_tenants s = elim s.cache [
  | none ↦ record { tenants = []; loading = true }
  | some tenants ↦ record { tenants = tenants; loading = false }
]

unfoldable pub loaded : Result (List TenantView) → TenantsState → TenantsState
loaded (ok tenants) state = record { tenants = tenants; loading = false }
loaded (throw e) state = record state { loading = false }

unfoldable pub dispatch_status_label : DispatchStatus → String
dispatch_status_label DispatchStatus.offered = "New offer"
dispatch_status_label DispatchStatus.dispatched = "Accepted — head to pickup"
dispatch_status_label DispatchStatus.picked_up = "Picked up — deliver"
dispatch_status_label DispatchStatus.delivered = "Delivered"
dispatch_status_label DispatchStatus.failed = "No longer available"

unfoldable pub delivery_status_label : DispatchStatus → String
delivery_status_label DispatchStatus.offered = "Finding a driver"
delivery_status_label DispatchStatus.dispatched = "Driver assigned"
delivery_status_label DispatchStatus.picked_up = "Out for delivery"
delivery_status_label DispatchStatus.delivered = "Delivered"
delivery_status_label DispatchStatus.failed = "Delivery unavailable"

pub data Category : Type 0 where
  pizza burgers sides desserts mains : Category

pub record MenuItem : Type 0 where
  pub sku : String
  pub name : String
  pub description : String
  pub price_cents : ℕ
  pub category : Category
  pub popular : Bool

abbrev item : String → String → String → ℕ → Category → Bool → MenuItem
item sku name description price_cents category popular = record {
  sku = sku;
  name = name;
  description = description;
  price_cents = price_cents;
  category = category;
  popular = popular;
}

abbrev pub berlin_menu : List MenuItem
berlin_menu =
    item "pizza" "Pizza Margherita" "San Marzano, basil" 1200 pizza true
    ∷ item "burger" "Cheeseburger" "Aged cheddar" 950 burgers true
    ∷ item "fries" "Fries" "Sea salt" 400 sides true
    ∷ item "tiramisu" "Tiramisu" "Mascarpone, cocoa" 600 desserts false
    ∷ []

abbrev pub tokyo_menu : List MenuItem
tokyo_menu =
    item "sushi" "Sushi Set" "Chef's selection" 1800 mains true
    ∷ item "ramen" "Tonkotsu Ramen" "Pork broth" 1300 mains true
    ∷ item "gyoza" "Gyoza (6)" "Pan-fried" 700 sides false
    ∷ item "mochi" "Mochi" "Red bean" 500 desserts false
    ∷ []

unfoldable pub get_menu : String → List MenuItem
get_menu tenant = if tenant == "tokyo" then tokyo_menu else berlin_menu

unfoldable pub get_popular : String → List MenuItem
unfolding get_menu
get_popular tenant = filter (λ i. i.popular) (get_menu tenant)
