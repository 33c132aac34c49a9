-- ===== src/Shared/OrderAggregate/Lifecycle.antt =====
-- The streams that the commands of order-aggregate.ts make.
use flash_bite.Prelude.{String, ◌≡◌, refl, List, [], ◌∷◌, map, none, some, ok, ◌⊎◌, inl, inr, arith}
use flash_bite.Contracts.{
  OrderPlacedPayload, OrderAcceptedPayload, OrderCancelledPayload, Event, order_placed,
  order_accepted, order_cancelled, OrderStatus,
}
use flash_bite.Shared.EventDb.{EventDb, EventRow}
use flash_bite.Shared.OrderAggregate.{
  OrderState, initial_order_state, fold_order, place, accept, cancel,
}
use flash_bite.Shared.AggregateStore.Legal.{IsLegal}
use flash_bite.Shared.AggregateStore.Interleaving.{World, Reach, interleaving_safe}

-- The event is what one of the commands decides for in this state.
pub data OrderCommand (s : OrderState) (e : Event) : Type 0 where
  placing :
      (cmd p : OrderPlacedPayload) → place s cmd ≡ some p → e ≡ order_placed p → OrderCommand s e
  accepting :
      (id : String) (p : OrderAcceptedPayload)
      → accept s id ≡ ok p
      → e ≡ order_accepted p
      → OrderCommand s e
  cancelling :
      (id reason : String) (p : OrderCancelledPayload)
      → cancel s id reason ≡ ok p
      → e ≡ order_cancelled p
      → OrderCommand s e

-- The lives that an order can have.
pub data OrderLife (es : List Event) : Type 0 where
  absent : es ≡ [] → OrderLife es
  placed : (p : OrderPlacedPayload) → es ≡ order_placed p ∷ [] → OrderLife es
  accepted :
      (p : OrderPlacedPayload) (q : OrderAcceptedPayload)
      → es ≡ order_placed p ∷ order_accepted q ∷ []
      → OrderLife es
  cancelled :
      (p : OrderPlacedPayload) (q : OrderCancelledPayload)
      → es ≡ order_placed p ∷ order_cancelled q ∷ []
      → OrderLife es

abbrev pub events_of : List EventRow → List Event
events_of = map (λ r. r.event)

module _ (s : OrderState) (e : Event) where
  first_command :
      s.status ≡ none → OrderCommand s e → (p : OrderPlacedPayload) × (e ≡ order_placed p)
  unfolding place accept cancel
  first_command h (placing cmd p c q) = (p, q)
  first_command h (accepting id p c q) = ground arith
  first_command h (cancelling id reason p c q) = ground arith

  second_command :
      s.status ≡ some OrderStatus.placed
      → OrderCommand s e
      → ((p : OrderAcceptedPayload) × (e ≡ order_accepted p))
        ⊎ ((p : OrderCancelledPayload) × (e ≡ order_cancelled p))
  unfolding place accept cancel
  second_command h (placing cmd p c q) = ground arith
  second_command h (accepting id p c q) = inl (p, q)
  second_command h (cancelling id reason p c q) = inr (p, q)

  no_third_command :
      (s.status ≡ some OrderStatus.accepted) ⊎ (s.status ≡ some OrderStatus.cancelled)
      → ¬ OrderCommand s e
  unfolding place accept cancel
  no_third_command h (placing cmd p c q) = ground arith
  no_third_command h (accepting id p c q) = ground arith
  no_third_command h (cancelling id reason p c q) = ground arith

placed_status :
    (s : OrderState) (p : OrderPlacedPayload)
    → (fold_order s (order_placed p)).status ≡ some OrderStatus.placed
unfolding fold_order
placed_status s p = refl

accepted_status :
    (s : OrderState) (p : OrderAcceptedPayload)
    → (fold_order s (order_accepted p)).status ≡ some OrderStatus.accepted
unfolding fold_order
accepted_status s p = refl

cancelled_status :
    (s : OrderState) (p : OrderCancelledPayload)
    → (fold_order s (order_cancelled p)).status ≡ some OrderStatus.cancelled
unfolding fold_order
cancelled_status s p = refl

after_two :
    (s : OrderState) (rs : List EventRow)
    → (s.status ≡ some OrderStatus.accepted) ⊎ (s.status ≡ some OrderStatus.cancelled)
    → IsLegal fold_order OrderCommand s rs
    → rs ≡ []
after_two s [] h l = refl
after_two s (r ∷ rs) h l = absurd (no_third_command s r.event h l.0)

after_one :
    (p : OrderPlacedPayload) (s : OrderState) (rs : List EventRow)
    → s.status ≡ some OrderStatus.placed
    → IsLegal fold_order OrderCommand s rs
    → OrderLife (order_placed p ∷ events_of rs)
after_one p s [] h l = placed p refl
after_one p s (r ∷ rs) h l = elim (second_command s r.event h l.0) [
  | inl (q, e) ↦
      accepted p q
        (rw (e, after_two (fold_order s r.event) rs (inl (rw e (accepted_status s q))) l.1) refl)
  | inr (q, e) ↦
      cancelled p q
        (rw (e, after_two (fold_order s r.event) rs (inr (rw e (cancelled_status s q))) l.1) refl)
]

pub OrderLife_of_IsLegal :
    (rs : List EventRow)
    → IsLegal fold_order OrderCommand initial_order_state rs
    → OrderLife (events_of rs)
OrderLife_of_IsLegal [] l = absent refl
OrderLife_of_IsLegal (r ∷ rs) l =
    let (p, e) = first_command initial_order_state r.event refl l.0 in
    rw e (
      after_one p (fold_order initial_order_state r.event) rs
        (rw e (placed_status initial_order_state p)) l.1)

-- Whatever writers place, accept and cancel one order, in whatever interleaving of their loads and
-- appends, its stream is empty, a placement, or a placement and one acceptance or one cancellation.
pub order_lifecycle :
    (pg : EventDb) (t a : String) (w w' : World pg)
    → pg.rows w.db t a ≡ []
    → w.pending ≡ []
    → Reach pg fold_order initial_order_state OrderCommand t a w w'
    → OrderLife (events_of (pg.rows w'.db t a))
order_lifecycle pg t a w w' empty idle r =
    OrderLife_of_IsLegal (pg.rows w'.db t a)
      (interleaving_safe pg fold_order initial_order_state OrderCommand t a w w' empty idle r).1
