-- ===== src/Shared/DispatchAggregate/Lifecycle.antt =====
-- The streams that the commands of dispatch-aggregate.ts make.
use flash_bite.Prelude.{
  String, ◌≡◌, refl, List, [], ◌∷◌, Option, none, some, ok, ◌⊎◌, inl, inr, arith, eq_iff,
  Option-cases,
}
use flash_bite.Contracts.{
  DriverOfferedPayload, DispatchAcceptedPayload, OrderPickedUpPayload, OrderDeliveredPayload,
  DispatchFailedPayload, Event, driver_offered, dispatch_accepted, order_picked_up, order_delivered,
  DispatchStatus,
}
use flash_bite.Shared.EventDb.{EventDb, EventRow}
use flash_bite.Shared.DispatchAggregate.{
  DispatchState, initial_dispatch_state, fold_dispatch, offer, accept_offer, pickup, deliver, fail,
}
use flash_bite.Shared.OrderAggregate.Lifecycle.{events_of}
use flash_bite.Shared.AggregateStore.Legal.{IsLegal}
use flash_bite.Shared.AggregateStore.Interleaving.{World, Reach, interleaving_safe}

-- The event is what one of the commands decides for in this state.
pub data DispatchCommand (s : DispatchState) (e : Event) : Type 0 where
  offering :
      (id d : String) (p : DriverOfferedPayload)
      → offer s id d ≡ ok p
      → e ≡ driver_offered p
      → DispatchCommand s e
  accepting :
      (id d : String) (p : DispatchAcceptedPayload)
      → accept_offer s id d ≡ ok p
      → e ≡ dispatch_accepted p
      → DispatchCommand s e
  picking_up :
      (id : String) (p : OrderPickedUpPayload)
      → pickup s id ≡ ok p
      → e ≡ order_picked_up p
      → DispatchCommand s e
  delivering :
      (id : String) (p : OrderDeliveredPayload)
      → deliver s id ≡ ok p
      → e ≡ order_delivered p
      → DispatchCommand s e
  failing :
      (id reason : String) (p : DispatchFailedPayload)
      → fail s id reason ≡ ok p
      → e ≡ Event.dispatch_failed p
      → DispatchCommand s e

-- What may follow an event. Once the job is picked up it is delivered or fails; once it is accepted,
-- it is picked up or fails.
abbrev pub Closing : List Event → Type 0
Closing es = (es ≡ []) ⊎ ((p : DispatchFailedPayload) × (es ≡ Event.dispatch_failed p ∷ []))

abbrev pub AfterPickup : List Event → Type 0
AfterPickup es = Closing es ⊎ ((p : OrderDeliveredPayload) × (es ≡ order_delivered p ∷ []))

pub data AfterAccept (es : List Event) : Type 0 where
  closed : Closing es → AfterAccept es
  picked :
      (p : OrderPickedUpPayload) (rest : List Event)
      → es ≡ order_picked_up p ∷ rest
      → AfterPickup rest
      → AfterAccept es

-- Offers, one after the other; an acceptance is by the driver to whom the last offer went.
pub data Offering : Option String → List Event → Type 0 where
  closed : {last : Option String} {es : List Event} → Closing es → Offering last es
  offered :
      {last : Option String} {es : List Event} (p : DriverOfferedPayload) (rest : List Event)
      → es ≡ driver_offered p ∷ rest
      → Offering (some p.driver_id) rest
      → Offering last es
  accepted :
      {last : Option String} {es : List Event} (p : DispatchAcceptedPayload) (rest : List Event)
      → last ≡ some p.driver_id
      → es ≡ dispatch_accepted p ∷ rest
      → AfterAccept rest
      → Offering last es

abbrev Open : Option DispatchStatus → Type 0
Open o = (o ≡ none) ⊎ (o ≡ some DispatchStatus.offered)

module _ (s : DispatchState) (e : Event) where
  command_closed :
      (s.status ≡ some DispatchStatus.delivered) ⊎ (s.status ≡ some DispatchStatus.failed)
      → ¬ DispatchCommand s e
  unfolding offer accept_offer pickup deliver fail
  command_closed h (offering id d p c q) = ground arith
  command_closed h (accepting id d p c q) = ground arith
  command_closed h (picking_up id p c q) = ground arith
  command_closed h (delivering id p c q) = ground arith
  command_closed h (failing id reason p c q) = ground arith

  command_picked_up :
      s.status ≡ some DispatchStatus.picked_up
      → DispatchCommand s e
      → ((p : OrderDeliveredPayload) × (e ≡ order_delivered p))
        ⊎ ((p : DispatchFailedPayload) × (e ≡ Event.dispatch_failed p))
  unfolding offer accept_offer pickup deliver fail
  command_picked_up h (offering id d p c q) = ground arith
  command_picked_up h (accepting id d p c q) = ground arith
  command_picked_up h (picking_up id p c q) = ground arith
  command_picked_up h (delivering id p c q) = inl (p, q)
  command_picked_up h (failing id reason p c q) = inr (p, q)

  command_dispatched :
      s.status ≡ some DispatchStatus.dispatched
      → DispatchCommand s e
      → ((p : OrderPickedUpPayload) × (e ≡ order_picked_up p))
        ⊎ ((p : DispatchFailedPayload) × (e ≡ Event.dispatch_failed p))
  unfolding offer accept_offer pickup deliver fail
  command_dispatched h (offering id d p c q) = ground arith
  command_dispatched h (accepting id d p c q) = ground arith
  command_dispatched h (picking_up id p c q) = inl (p, q)
  command_dispatched h (delivering id p c q) = ground arith
  command_dispatched h (failing id reason p c q) = inr (p, q)

-- What a command can do while the job is on offer.
data WhileOpen (last : Option String) (e : Event) : Type 0 where
  offered : (p : DriverOfferedPayload) → e ≡ driver_offered p → WhileOpen last e
  accepted :
      (p : DispatchAcceptedPayload)
      → last ≡ some p.driver_id
      → e ≡ dispatch_accepted p
      → WhileOpen last e
  failed : (p : DispatchFailedPayload) → e ≡ Event.dispatch_failed p → WhileOpen last e

accepted_last :
    (s : DispatchState) (id d : String) (p : DispatchAcceptedPayload)
    → accept_offer s id d ≡ ok p
    → s.offered_driver_id ≡ some p.driver_id
unfolding accept_offer
accepted_last s id d p h = elim (Option-cases s.offered_driver_id) [
  | inl e ↦ ground (arith, e)
  | inr (x, e) ↦ ground (arith, e, eq_iff x d)
]

command_open :
    (s : DispatchState) (e : Event)
    → Open s.status
    → DispatchCommand s e
    → WhileOpen s.offered_driver_id e
unfolding pickup deliver
command_open s e h (offering id d p c q) = offered p q
command_open s e h (accepting id d p c q) = accepted p (accepted_last s id d p c) q
command_open s e h (picking_up id p c q) = ground arith
command_open s e h (delivering id p c q) = ground arith
command_open s e h (failing id reason p c q) = failed p q

abbrev Legal : DispatchState → List EventRow → Type 0
Legal = IsLegal fold_dispatch DispatchCommand

closed_stream :
    (s : DispatchState) (rs : List EventRow)
    → (s.status ≡ some DispatchStatus.delivered) ⊎ (s.status ≡ some DispatchStatus.failed)
    → Legal s rs
    → rs ≡ []
closed_stream s [] h l = refl
closed_stream s (r ∷ rs) h l = absurd (command_closed s r.event h l.0)

failed_last :
    (s : DispatchState) (r : EventRow) (rs : List EventRow) (p : DispatchFailedPayload)
    → r.event ≡ Event.dispatch_failed p
    → Legal (fold_dispatch s r.event) rs
    → events_of (r ∷ rs) ≡ Event.dispatch_failed p ∷ []
unfolding fold_dispatch
failed_last s r rs p e l =
    rw (e, closed_stream (fold_dispatch s r.event) rs (inr (rw e refl)) l) refl

delivered_last :
    (s : DispatchState) (r : EventRow) (rs : List EventRow) (p : OrderDeliveredPayload)
    → r.event ≡ order_delivered p
    → Legal (fold_dispatch s r.event) rs
    → events_of (r ∷ rs) ≡ order_delivered p ∷ []
unfolding fold_dispatch
delivered_last s r rs p e l =
    rw (e, closed_stream (fold_dispatch s r.event) rs (inl (rw e refl)) l) refl

after_pickup :
    (s : DispatchState) (rs : List EventRow)
    → s.status ≡ some DispatchStatus.picked_up
    → Legal s rs
    → AfterPickup (events_of rs)
after_pickup s [] h l = inl (inl refl)
after_pickup s (r ∷ rs) h l = elim (command_picked_up s r.event h l.0) [
  | inl (p, e) ↦ inr (p, delivered_last s r rs p e l.1)
  | inr (p, e) ↦ inl (inr (p, failed_last s r rs p e l.1))
]

after_accept :
    (s : DispatchState) (rs : List EventRow)
    → s.status ≡ some DispatchStatus.dispatched
    → Legal s rs
    → AfterAccept (events_of rs)
unfolding fold_dispatch
after_accept s [] h l = AfterAccept.closed (inl refl)
after_accept s (r ∷ rs) h l = elim (command_dispatched s r.event h l.0) [
  | inl (p, e) ↦
      picked p (events_of rs) (rw e refl)
        (after_pickup (fold_dispatch s r.event) rs (rw e refl) l.1)
  | inr (p, e) ↦ AfterAccept.closed (inr (p, failed_last s r rs p e l.1))
]

pub Offering_of_IsLegal :
    (s : DispatchState) (rs : List EventRow)
    → Open s.status
    → Legal s rs
    → Offering s.offered_driver_id (events_of rs)
unfolding fold_dispatch
Offering_of_IsLegal s [] h l = Offering.closed (inl refl)
Offering_of_IsLegal s (r ∷ rs) h l =
    let rest = Offering_of_IsLegal (fold_dispatch s r.event) rs in
    elim (command_open s r.event h l.0) [
      | offered p e ↦
          Offering.offered p (events_of rs) (rw e refl) (rw e at (rest (inr (rw e refl)) l.1))
      | accepted p last e ↦
          Offering.accepted p (events_of rs) last (rw e refl)
            (after_accept (fold_dispatch s r.event) rs (rw e refl) l.1)
      | failed p e ↦ Offering.closed (inr (p, failed_last s r rs p e l.1))
    ]

-- Whatever writers offer, accept, pick up, deliver and fail one dispatch, in whatever interleaving of
-- their loads and appends: offers, then an acceptance by the driver of the last offer, a pickup and a
-- delivery, each at most once and in this order, and a failure at most once, as the last event.
pub dispatch_lifecycle :
    (pg : EventDb) (t a : String) (w w' : World pg)
    → pg.rows w.db t a ≡ []
    → w.pending ≡ []
    → Reach pg fold_dispatch initial_dispatch_state DispatchCommand t a w w'
    → Offering none (events_of (pg.rows w'.db t a))
dispatch_lifecycle pg t a w w' empty idle r =
    Offering_of_IsLegal initial_dispatch_state (pg.rows w'.db t a) (inl refl)
      (interleaving_safe pg fold_dispatch initial_dispatch_state DispatchCommand t a w w' empty idle
        r).1
