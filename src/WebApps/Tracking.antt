-- ===== src/WebApps/Tracking.antt =====
-- apps/web-customer/app/orders/[orderId]/page.tsx: the page that follows an order, on which its polls
-- leave their marks. A tick is that of a page that stays open; the answers that its awaits bring are
-- arguments, `none` where the call threw.
pub mod Ends
use flash_bite.Prelude.{
  ℕ, suc, ◌+◌, ◌≤◌, ◌<◌, ◌≡◌, refl, String, Bool, true, false, ◌||◌, List, [], ◌∷◌, Option, none,
  some, ltb, leb, if◌then◌else◌, arith, ◌⊎◌, inl, inr, Bool-cases,
}
use flash_bite.Contracts.{OrderView, OrderStatus, DispatchView, DispatchStatus, PaymentStatus}
use flash_bite.Telemetry.{Position}

abbrev pub max_attempts : ℕ
max_attempts = 170

pub record Page : Type 0 where
  pub order : Option OrderView
  pub waiting : Bool
  pub stopped : Bool
  pub payment_status : Option PaymentStatus
  pub dispatch : Option DispatchView
  pub driver_location : Option Position

-- What the effect keeps between its ticks; `scheduled` says whether the timer is set.
pub record Poll : Type 0 where
  pub tries : ℕ
  pub misses : ℕ
  pub scheduled : Bool

pub record Answers : Type 0 where
  pub hidden : Bool
  pub order : Option OrderView
  pub payment : Option (Option PaymentStatus)
  pub dispatch : Option (Option DispatchView)
  pub location : Option (Option Position)

abbrev pub is_en_route : Option DispatchStatus → Bool
is_en_route (some DispatchStatus.dispatched) = true
is_en_route (some DispatchStatus.picked_up) = true
is_en_route _ = false

abbrev pub is_finished : Option DispatchStatus → Bool
is_finished (some DispatchStatus.delivered) = true
is_finished (some DispatchStatus.failed) = true
is_finished _ = false

abbrev pub status_of : Option DispatchView → Option DispatchStatus
status_of none = none
status_of (some d) = some d.status

-- `setPaymentStatus` and `setDispatch`, of an answer that came
abbrev pub with_payment : Option (Option PaymentStatus) → Page → Page
with_payment none page = page
with_payment (some status) page = record page { payment_status = status }

-- The dispatch that the tick goes on with: `kept` is what the page had when the effect began.
abbrev pub next_dispatch :
    Option DispatchView → OrderStatus → Option (Option DispatchView) → Option DispatchView
next_dispatch kept OrderStatus.accepted (some (some d)) = some d
next_dispatch kept _ _ = kept

abbrev pub with_dispatch : OrderStatus → Option (Option DispatchView) → Page → Page
with_dispatch OrderStatus.accepted (some (some d)) page = record page { dispatch = some d }
with_dispatch _ _ page = page

abbrev pub with_location : Bool → Option (Option Position) → Page → Page
with_location false answer page = record page { driver_location = none }
with_location true none page = page
with_location true (some location) page = record page { driver_location = location }

-- Whether the tick returns for good.
abbrev pub is_over : OrderStatus → Option DispatchStatus → Bool
is_over OrderStatus.cancelled d = true
is_over OrderStatus.accepted d = is_finished d
is_over OrderStatus.placed d = false

-- The end of a tick: one more try, and another tick unless it was the last.
abbrev pub count_try : Page → Poll → Page × Poll
count_try page poll =
    if leb max_attempts (poll.tries + 1)
    then (record page { stopped = true }, record poll { tries = poll.tries + 1; scheduled = false })
    else (page, record poll { tries = poll.tries + 1; scheduled = true })

abbrev pub seen : Option DispatchView → Answers → OrderView → Page → Page
seen kept a o page =
    with_location (is_en_route (status_of (next_dispatch kept o.status a.dispatch))) a.location (
      with_dispatch o.status a.dispatch
        (with_payment a.payment (record page { order = some o; waiting = false })))

unfoldable pub found : Option DispatchView → Answers → OrderView → Page → Poll → Page × Poll
found kept a o page poll =
    if is_over o.status (status_of (next_dispatch kept o.status a.dispatch))
    then (seen kept a o page, record poll { scheduled = false })
    else count_try (seen kept a o page) poll

unfoldable pub missed : Page → Poll → Page × Poll
missed page poll =
    count_try (record page { waiting = if ltb 5 (poll.misses + 1) then false else page.waiting })
      (record poll { misses = poll.misses + 1 })

abbrev pub answered : Option DispatchView → Answers → Option OrderView → Page → Poll → Page × Poll
answered kept a none page poll = missed page poll
answered kept a (some o) page poll = found kept a o page poll

-- `tick`; with the tab in the background it only comes again.
unfoldable pub tick : Option DispatchView → Answers → Page → Poll → Page × Poll
unfolding found missed
tick kept a page poll = if a.hidden then (page, poll) else answered kept a a.order page poll

-- The effect begins: with the page it finds, and a first tick at once.
abbrev pub begun : Page → Page × Poll
begun page = (record page { stopped = false }, record { tries = 0; misses = 0; scheduled = true })

abbrev pub ticked : Option DispatchView → Answers → Page × Poll → Page × Poll
ticked kept a (page, poll) = if poll.scheduled then tick kept a page poll else (page, poll)

-- The ticks of one effect; none runs when the timer is not set.
unfoldable pub run : Option DispatchView → List Answers → Page × Poll → Page × Poll
unfolding tick
run kept [] s = s
run kept (a ∷ rest) s = run kept rest (ticked kept a s)

-- The ticks that go to the network
unfoldable pub visible : List Answers → ℕ
visible [] = 0
visible (a ∷ rest) = if a.hidden then visible rest else suc (visible rest)
