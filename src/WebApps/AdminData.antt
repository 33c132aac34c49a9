-- ===== src/WebApps/AdminData.antt =====
-- apps/web-admin/hooks/use-admin-data.ts, whose handling of events is that of
-- apps/web-merchant/app/page.tsx, too, and `upsertOrder` of packages/web-shared. `sort` is the language's,
-- under the comparison that puts what was updated later first.
use flash_bite.Prelude.{
  ℕ, suc, ◌+◌, ◌≤◌, String, Bool, true, false, not, List, [], ◌∷◌, ◌++◌, filter, any, includes,
  Option, none, some, Result, ok, throw, ltb, ◌==◌, if◌then◌else◌, arith, Bool-cases, inl, inr,
}
use flash_bite.Contracts.{OrderView, OrderStatus}
use flash_bite.ReadApi.Streams.{OrderStreamEvent}
use flash_bite.WebShared.Orders.{apply_order_event, status_from_event_type}
use flash_bite.WebShared.Client.{NearbyDriver, TenantNearbyDriver}

unfoldable pub upsert_order :
    (List OrderView → List OrderView) → List OrderView → OrderView → List OrderView
upsert_order sort rows order = sort (order ∷ filter (λ r. not (r.order_id == order.order_id)) rows)

abbrev is_placed : Option OrderStatus → Bool
is_placed (some OrderStatus.placed) = true
is_placed _ = false

pub data Handling : Type 0 where
  updates : List OrderView → Handling
  fetches ignores : Handling

-- `handleEvent`
unfoldable pub handle_event : List OrderView → OrderStreamEvent → Handling
unfolding apply_order_event status_from_event_type
handle_event rows e =
    if any (λ r. r.order_id == e.order_id) rows
    then updates (apply_order_event rows e)
    else if is_placed (status_from_event_type e.event_type)
    then fetches
    else ignores

-- `fetchRow`, of a page that is open, with what its calls of `getOrder` bring, one after another: how
-- many it made, and the rows.
unfoldable pub fetch_row :
    (List OrderView → List OrderView)
    → ℕ
    → List (Result (Option OrderView))
    → List OrderView
    → ℕ × List OrderView
unfolding upsert_order
fetch_row sort tries [] rows = (tries, rows)
fetch_row sort tries (throw e ∷ answers) rows = (tries + 1, rows)
fetch_row sort tries (ok (some order) ∷ answers) rows = (tries + 1, upsert_order sort rows order)
fetch_row sort tries (ok none ∷ answers) rows =
    let rest = fetch_row sort (tries + 1) answers rows in
    if ltb (tries + 1) 10 then rest else (tries + 1, rows)

-- A new order is asked for ten times at most.
pub fetch_row_bounded :
    (sort : List OrderView → List OrderView) (tries : ℕ)
    (answers : List (Result (Option OrderView))) (rows : List OrderView)
    → suc tries ≤ 10
    → (fetch_row sort tries answers rows).0 ≤ 10
unfolding fetch_row
fetch_row_bounded sort tries [] rows h = omega arith
fetch_row_bounded sort tries (throw e ∷ answers) rows h = omega arith
fetch_row_bounded sort tries (ok (some order) ∷ answers) rows h = omega arith
fetch_row_bounded sort tries (ok none ∷ answers) rows h = elim (Bool-cases (ltb (tries + 1) 10)) [
  | inl e ↦ rw e (fetch_row_bounded sort (tries + 1) answers rows (ground (arith, e)))
  | inr e ↦ rw e (omega arith)
]

-- `noteError`, `resync`
unfoldable pub note_error : String → List String → List String
note_error msg prev = if includes msg prev then prev else prev ++ msg ∷ []

pub record AdminData : Type 0 where
  pub orders : List OrderView
  pub drivers_by_tenant : List (String × List NearbyDriver)
  pub errors : List String
  pub loading : Bool

unfoldable pub resync : Result (List OrderView) → AdminData → AdminData
unfolding note_error
resync (ok rows) page = record page { orders = rows; loading = false }
resync (throw e) page = record page {
  errors = note_error "orders: admin" page.errors;
  loading = false;
}

-- `(grouped[tenantId] ??= []).push(driver)`
unfoldable pub push :
    String → NearbyDriver → List (String × List NearbyDriver) → List (String × List NearbyDriver)
push tenant_id driver [] = (tenant_id, driver ∷ []) ∷ []
push tenant_id driver ((t, drivers) ∷ grouped) =
    let rest = push tenant_id driver grouped in
    if t == tenant_id then (t, drivers ++ driver ∷ []) ∷ grouped else (t, drivers) ∷ rest

unfoldable pub group_drivers :
    List TenantNearbyDriver → List (String × List NearbyDriver) → List (String × List NearbyDriver)
unfolding push
group_drivers [] grouped = grouped
group_drivers (d ∷ drivers) grouped = group_drivers drivers (push d.tenant_id d.driver grouped)

-- A tick of the poll for drivers
unfoldable pub drivers_tick : Result (List TenantNearbyDriver) → AdminData → AdminData
unfolding group_drivers note_error
drivers_tick (ok drivers) page = record page { drivers_by_tenant = group_drivers drivers [] }
drivers_tick (throw e) page = record page { errors = note_error "drivers: admin" page.errors }
