-- ===== src/WebApps/Checkout.antt =====
-- apps/web-customer/app/checkout/page.tsx: the order that the checkout makes of a cart, and its button.
-- `trim` is the language's.
use flash_bite.Prelude.{
  ℕ, suc, ◌+◌, ◌*◌, ◌≤◌, String, ◌≡◌, ◌≢◌, refl, ap, Bool, true, false, List, [], ◌∷◌, map, ◌==◌,
  if◌then◌else◌, arith, Bool-cases, inl, inr,
}
use flash_bite.Contracts.{OrderItem, OrderPlacedPayload}
use flash_bite.WebShared.Cart.{CartLine, IsCart, Action, act_all, act_all-IsCart, total_cents}
use flash_bite.WebShared.Client.{PlaceOrderRequest}
use flash_bite.WriteApi.Orders.{is_valid_order, all_items}

abbrev pub item_of : CartLine → OrderItem
item_of l = record { sku = l.sku; qty = l.qty; price = l.price_cents }

abbrev name_or_guest : String → String
name_or_guest name = if name == "" then "guest" else name

-- `order_id` is `crypto.randomUUID()`.
unfoldable pub request_of : (String → String) → String → String → List CartLine → PlaceOrderRequest
unfolding total_cents
request_of trim order_id name items = record {
  order_id = order_id;
  customer_id = name_or_guest (trim name);
  items = map item_of items;
  total_amount = total_cents items;
}

-- The body of the request, as the write API's controller is given it
abbrev pub dto_of : PlaceOrderRequest → OrderPlacedPayload
dto_of req = record {
  order_id = req.order_id;
  customer_id = req.customer_id;
  items = req.items;
  total_amount = req.total_amount;
}

abbrev pub amount_of : List OrderItem → ℕ
amount_of [] = 0
amount_of (i ∷ items) = i.price * i.qty + amount_of items

amount-items : (items : List CartLine) → amount_of (map item_of items) ≡ total_cents items
unfolding total_cents
amount-items [] = refl
amount-items (l ∷ items) = ap (λ n. l.price_cents * l.qty + n) (amount-items items)

all_items-cart : (items : List CartLine) → IsCart items → all_items (map item_of items) ≡ true
all_items-cart [] h = refl
all_items-cart (l ∷ items) h = ground (arith, h.0, all_items-cart items h.2)

cart_valid :
    (trim : String → String) (order_id name : String) (items : List CartLine)
    → items ≢ []
    → IsCart items
    → is_valid_order (dto_of (request_of trim order_id name items)) ≡ true
unfolding is_valid_order request_of
cart_valid trim order_id name [] some_line h = absurd (some_line refl)
cart_valid trim order_id name (l ∷ items) some_line h = all_items-cart (l ∷ items) h

-- Whatever was done to the cart, an order that the checkout makes of it, if it is not empty, passes the
-- validation of the write API, and its total is what its items cost.
pub checkout_valid :
    (trim : String → String) (order_id name : String) (actions : List Action)
    → act_all actions [] ≢ []
    → let req = request_of trim order_id name (act_all actions []) in
      (is_valid_order (dto_of req) ≡ true) × (amount_of req.items ≡ req.total_amount)
unfolding request_of
checkout_valid trim order_id name actions some_line = (
  cart_valid trim order_id name (act_all actions []) some_line (act_all-IsCart actions),
  amount-items (act_all actions []),
)

-- `inFlight` and `busy`, and how many requests were sent.
pub record Button : Type 0 where
  pub in_flight : Bool
  pub busy : Bool
  pub sent : ℕ

pub data Press : Type 0 where
  pressed placed failed : Press

-- `submit`, up to its call; that the call is answered; that it throws.
unfoldable pub press : Press → Button → Button
press pressed b =
    if b.in_flight then b else record { in_flight = true; busy = true; sent = suc b.sent }
press placed b = b
press failed b = record b { in_flight = false; busy = false }

unfoldable pub press_all : List Press → Button → Button
unfolding press
press_all [] b = b
press_all (p ∷ ps) b = press_all ps (press p b)

unfoldable pub failures : List Press → ℕ
failures [] = 0
failures (failed ∷ ps) = suc (failures ps)
failures (pressed ∷ ps) = failures ps
failures (placed ∷ ps) = failures ps

abbrev open_for : Bool → ℕ
open_for true = 0
open_for false = 1

sent_bound :
    (ps : List Press) (b : Button)
    → (press_all ps b).sent ≤ b.sent + open_for b.in_flight + failures ps
unfolding press_all press failures
sent_bound [] b = omega arith
sent_bound (failed ∷ ps) b = ground (arith, sent_bound ps (press failed b))
sent_bound (placed ∷ ps) b = sent_bound ps b
sent_bound (pressed ∷ ps) b = elim (Bool-cases b.in_flight) [
  | inl e ↦ rw (e) (ground (arith, sent_bound ps b, e))
  | inr e ↦ rw (e) (ground (arith, sent_bound ps (press pressed b), e))
]

abbrev pub idle_button : Button
idle_button = record { in_flight = false; busy = false; sent = 0 }

-- However often the button is pressed, no more than one order is sent, and one more for each call that
-- failed.
pub sends_once : (ps : List Press) → (press_all ps idle_button).sent ≤ suc (failures ps)
sends_once ps = ground (arith, sent_bound ps idle_button)
