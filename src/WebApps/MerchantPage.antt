-- ===== src/WebApps/MerchantPage.antt =====
-- apps/web-merchant: the orders of the merchant's page (app/page.tsx) and the sheet that shows one of
-- them (components/order-detail-sheet.tsx). The answers of the calls are arguments, of a sheet that is
-- still open on its order.
use flash_bite.Prelude.{
  Bool, true, false, List, filter, find, Option, none, some, or_else, Result, ok, throw, ◌==◌,
}
use flash_bite.Contracts.{OrderView, OrderStatus, DispatchView, PaymentStatus}
use flash_bite.WebShared.Analytics.{has_status}

pub record MerchantState : Type 0 where
  pub orders : List OrderView
  pub load_error : Bool
  pub loading : Bool

unfoldable pub resync : Result (List OrderView) → MerchantState → MerchantState
resync (ok rows) s = record { orders = rows; load_error = false; loading = false }
resync (throw e) s = record s { load_error = true; loading = false }

-- `selected ? orders.find(…) ?? selected : null`
unfoldable pub current : Option OrderView → List OrderView → Option OrderView
current none orders = none
current (some selected) orders =
    some (or_else (find (λ o. o.order_id == selected.order_id) orders) selected)

-- `none` is "ALL".
unfoldable pub visible : Option OrderStatus → List OrderView → List OrderView
visible none orders = orders
visible (some status) orders = filter (has_status status) orders

pub record Sheet : Type 0 where
  pub busy : Bool
  pub payment_status : Option PaymentStatus
  pub dispatch_fallback : Option DispatchView

-- The effects begin, of another order.
abbrev pub sheet_opened : Sheet
sheet_opened = record { busy = false; payment_status = none; dispatch_fallback = none }

unfoldable pub payment_came : Result (Option PaymentStatus) → Sheet → Sheet
payment_came (ok status) s = record s { payment_status = status }
payment_came (throw e) s = record s { payment_status = none }

-- `none` is `{ status: null }`.
unfoldable pub dispatch_came : Result (Option DispatchView) → Sheet → Sheet
dispatch_came (ok (some d)) s = record s { dispatch_fallback = some d }
dispatch_came (ok none) s = s
dispatch_came (throw e) s = s

-- What the sheet shows of the delivery: the stream's view before the one that it asked for.
unfoldable pub delivery : Option DispatchView → Sheet → Option DispatchView
delivery none s = s.dispatch_fallback
delivery (some d) s = some d

-- `act`: whether the sheet closes, once its call has settled.
unfoldable pub act : Option OrderView → Result (Unit {0}) → Sheet → Bool × Sheet
act none answer s = (false, s)
act (some order) (ok _) s = (true, record s { busy = false })
act (some order) (throw e) s = (false, record s { busy = false })
