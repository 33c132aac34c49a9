-- ===== src/WebApps/Tracking/Ends.antt =====
-- When the page that follows an order (apps/web-customer/app/orders/[orderId]/page.tsx) has polled
-- for the last time.
use flash_bite.Prelude.{
  ℕ, ◌+◌, ◌≤◌, ◌<◌, ◌≡◌, refl, ap, ◌∙◌, sym, subst, if◌then◌else◌, Bool, true, false, List, [], ◌∷◌,
  Option, none, some, leb, arith, ◌⊎◌, inl, inr, Bool-cases, Option-cases,
}
use flash_bite.Contracts.{OrderView, OrderStatus, DispatchView, DispatchStatus, PaymentStatus}
use flash_bite.Telemetry.{Position}
use flash_bite.WebApps.Tracking.{
  Page, Poll, Answers, is_over, seen, count_try, found, missed, tick, run, ticked, answered,
  visible, begun, status_of, next_dispatch, is_en_route, with_location, with_dispatch, with_payment,
}

-- The page offers to look again, or it shows an order that was accepted or cancelled.
pub data IsSettled (page : Page) : Type 0 where
  gave_up : page.stopped ≡ true → IsSettled page
  resolved :
      (o : OrderView)
      → page.order ≡ some o
      → (o.status ≡ OrderStatus.accepted) ⊎ (o.status ≡ OrderStatus.cancelled)
      → IsSettled page

-- A state after a tick that was the `n`-th try.
data Tried (n : ℕ) (s : Page × Poll) : Type 0 where
  ended : s.1.scheduled ≡ false → IsSettled s.0 → Tried n s
  goes_on : s.1.scheduled ≡ true → s.1.tries ≡ n → n < 170 → Tried n s

count_try-Tried : (page : Page) (poll : Poll) → Tried (poll.tries + 1) (count_try page poll)
count_try-Tried page poll = elim (Bool-cases (leb 170 (poll.tries + 1))) [
  | inl e ↦ rw e (ended refl (gave_up refl))
  | inr e ↦ rw e (goes_on refl refl (ground (arith, e)))
]

with_payment_order :
    (p : Option (Option PaymentStatus)) (page : Page) → (with_payment p page).order ≡ page.order
with_payment_order none page = refl
with_payment_order (some p) page = refl

with_dispatch_order :
    (s : OrderStatus) (d : Option (Option DispatchView)) (page : Page)
    → (with_dispatch s d page).order ≡ page.order
with_dispatch_order OrderStatus.accepted none page = refl
with_dispatch_order OrderStatus.accepted (some none) page = refl
with_dispatch_order OrderStatus.accepted (some (some d)) page = refl
with_dispatch_order OrderStatus.placed d page = refl
with_dispatch_order OrderStatus.cancelled d page = refl

with_location_order :
    (b : Bool) (l : Option (Option Position)) (page : Page)
    → (with_location b l page).order ≡ page.order
with_location_order false l page = refl
with_location_order true none page = refl
with_location_order true (some l) page = refl

seen_order :
    (kept : Option DispatchView) (a : Answers) (o : OrderView) (page : Page)
    → (seen kept a o page).order ≡ some o
seen_order kept a o page =
    with_location_order (is_en_route (status_of (next_dispatch kept o.status a.dispatch)))
      a.location _
    ∙ with_dispatch_order o.status a.dispatch _
    ∙ with_payment_order a.payment _

resolved_status :
    (s : OrderStatus) (d : Option DispatchStatus)
    → is_over s d ≡ true
    → (s ≡ OrderStatus.accepted) ⊎ (s ≡ OrderStatus.cancelled)
resolved_status OrderStatus.accepted d h = inl refl
resolved_status OrderStatus.cancelled d h = inr refl
resolved_status OrderStatus.placed d h = ground (arith, h)

module _ (kept : Option DispatchView) where
  found-Tried :
      (a : Answers) (o : OrderView) (page : Page) (poll : Poll)
      → Tried (poll.tries + 1) (found kept a o page poll)
  unfolding found
  found-Tried a o page poll =
      elim (Bool-cases (is_over o.status (status_of (next_dispatch kept o.status a.dispatch)))) [
        | inl e ↦
            rw (found, e)
              (ended refl (resolved o (seen_order kept a o page) (resolved_status o.status _ e)))
        | inr e ↦ rw (found, e) (count_try-Tried (seen kept a o page) poll)
      ]

  tick-Tried :
      (a : Answers) (page : Page) (poll : Poll)
      → a.hidden ≡ false
      → Tried (poll.tries + 1) (tick kept a page poll)
  unfolding tick missed
  tick-Tried a page poll h = elim (Option-cases a.order) [
    | inl e ↦ rw (tick, h, e) (count_try-Tried _ (record poll { misses = poll.misses + 1 }))
    | inr (o, e) ↦ rw (tick, h, e) (found-Tried a o page poll)
  ]

  idle : (a : Answers) (s : Page × Poll) → s.1.scheduled ≡ false → ticked kept a s ≡ s
  idle a s h = ap (λ b. if b then tick kept a s.0 s.1 else s) h

  wakes :
      (a : Answers) (s : Page × Poll) → s.1.scheduled ≡ true → ticked kept a s ≡ tick kept a s.0 s.1
  wakes a s h = ap (λ b. if b then tick kept a s.0 s.1 else s) h

  waits : (a : Answers) (s : Page × Poll) → a.hidden ≡ true → tick kept a s.0 s.1 ≡ s
  unfolding tick
  waits a s h = ap (λ b. if b then s else answered kept a a.order s.0 s.1) h

  stays :
      (answers : List Answers) (s : Page × Poll) → s.1.scheduled ≡ false → run kept answers s ≡ s
  unfolding run
  stays [] s h = refl
  stays (a ∷ rest) s h = ap (run kept rest) (idle a s h) ∙ stays rest s h

  Done : Page × Poll → Type 0
  Done s = (s.1.scheduled ≡ false) × IsSettled s.0

  ends :
      (answers : List Answers) (s : Page × Poll) (n : ℕ)
      → Tried n s
      → 170 ≤ n + visible answers
      → Done (run kept answers s)
  unfolding run visible Done
  ends answers s n (ended h settled) many = subst Done (sym (stays answers s h)) (h, settled)
  ends [] s n (goes_on h t few) many = ground (arith, few, many)
  ends (a ∷ rest) s n (goes_on h t few) many = elim (Bool-cases a.hidden) [
    | inl e ↦
        subst (λ x. Done (run kept rest x)) (sym (wakes a s h ∙ waits a s e))
          (ends rest s n (goes_on h t few) (rw e at many))
    | inr e ↦
        subst (λ x. Done (run kept rest x)) (sym (wakes a s h))
          (ends rest (tick kept a s.0 s.1) (s.1.tries + 1) (tick-Tried a s.0 s.1 e)
            (ground (arith, rw e at many, t)))
  ]

  -- However a page's calls are answered, it polls no more after 170 ticks in the foreground: it then
  -- offers to look again, or shows an order that was accepted or cancelled.
  pub tracking_ends :
      (answers : List Answers) (page : Page)
      → 170 ≤ visible answers
      → ((run kept answers (begun page)).1.scheduled ≡ false)
        × IsSettled (run kept answers (begun page)).0
  unfolding Done
  tracking_ends answers page many =
      ends answers (begun page) 0 (goes_on refl refl (omega arith)) (ground (arith, many))
