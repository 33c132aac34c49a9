-- ===== src/SagaWorker/OrderWorkflow/Traces.antt =====
-- The histories that `orderLifecycleWorkflow` of workflows.ts can have.
use flash_bite.Prelude.{
  ◌≡◌, refl, Bool, true, false, List, [], ◌∷◌, ◌++◌, Option, none, some, ◌⊎◌, inl, inr,
}
use flash_bite.Contracts.{
  CancelReason, sla_breach, declined_by_merchant, payment_failed, payment_timeout, SagaResult,
  delivered, dispatch_failed, DispatchStatus,
}
use flash_bite.SagaWorker.OrderWorkflow.{
  Activity, Outcome, Await, OrderWorkflow, Event, authorize_payment, capture_payment, void_payment,
  record_accepted, run_dispatch, record_cancelled, returned, refused, threw, confirm, authorizing,
  approval, capturing, voiding_after_capture, accepting, dispatching, voiding, cancelling, finished,
  crashed, confirm_payment, timer_fired, merchant_approval, activity_ended, child_ended, start,
  step, run, cancelled_result,
}

abbrev pub Trace : Type 0
Trace = List (Activity × Outcome)

abbrev pub held : Trace
held = (authorize_payment, returned) ∷ []

abbrev pub captured : Trace
captured = (authorize_payment, returned) ∷ (capture_payment, returned) ∷ []

-- A reason for which the hold is voided before the cancellation.
abbrev pub IsMerchantReason : CancelReason → Type 0
IsMerchantReason reason = (reason ≡ declined_by_merchant) ⊎ (reason ≡ sla_breach)

-- The histories that lead to the record of a cancellation.
pub data Cancelled (reason : CancelReason) (t : Trace) : Type 0 where
  unconfirmed : reason ≡ payment_timeout → t ≡ [] → Cancelled reason t
  unauthorized :
      (o : Outcome)
      → (o ≡ refused) ⊎ (o ≡ threw)
      → reason ≡ payment_failed
      → t ≡ (authorize_payment, o) ∷ []
      → Cancelled reason t
  uncaptured :
      (o : Outcome)
      → reason ≡ payment_failed
      → t ≡ held ++ (capture_payment, threw) ∷ (void_payment, o) ∷ []
      → Cancelled reason t
  released :
      IsMerchantReason reason → t ≡ held ++ (void_payment, returned) ∷ [] → Cancelled reason t

-- The histories of a workflow that has returned, by what it returned.
pub data Ended (r : SagaResult) (t : Trace) : Type 0 where
  fulfilled :
      r ≡ delivered
      → t ≡ captured ++ (record_accepted, returned) ∷ (run_dispatch, returned) ∷ []
      → Ended r t
  unfulfilled :
      (o : Outcome)
      → r ≡ dispatch_failed
      → t ≡ captured ++ (record_accepted, returned) ∷ (run_dispatch, o) ∷ []
      → Ended r t
  rejected :
      (reason : CancelReason) (before : Trace)
      → Cancelled reason before
      → r ≡ cancelled_result reason
      → t ≡ before ++ (record_cancelled reason, returned) ∷ []
      → Ended r t

-- The histories of a workflow that an exception has ended: the last activity threw.
pub data Failed (t : Trace) : Type 0 where
  unaccepted : t ≡ captured ++ (record_accepted, threw) ∷ [] → Failed t
  unvoided : t ≡ held ++ (void_payment, threw) ∷ [] → Failed t
  uncancelled :
      (reason : CancelReason) (before : Trace)
      → Cancelled reason before
      → t ≡ before ++ (record_cancelled reason, threw) ∷ []
      → Failed t

-- The history of a workflow, by where it stands.
abbrev pub History : Await → Trace → Type 0
History confirm t = t ≡ []
History authorizing t = t ≡ []
History approval t = t ≡ held
History capturing t = t ≡ held
History voiding_after_capture t = t ≡ held ++ (capture_payment, threw) ∷ []
History accepting t = t ≡ captured
History dispatching t = t ≡ captured ++ (record_accepted, returned) ∷ []
History (voiding reason) t = IsMerchantReason reason × (t ≡ held)
History (cancelling reason) t = Cancelled reason t
History (finished r) t = Ended r t
History crashed t = Failed t

abbrev HistoryOf : OrderWorkflow → Type 0
HistoryOf wf = History wf.at wf.trace

abbrev of_record : Bool → Option Bool → Await → Trace → OrderWorkflow
of_record c v at t = record { confirmed = c; approved = v; at = at; trace = t }

module _ (c : Bool) (v : Option Bool) (t : Trace) where
  confirm-History :
      (at : Await) → History at t → HistoryOf (step (of_record c v at t) confirm_payment)
  unfolding step
  confirm-History confirm h = h
  confirm-History _ h = h

  approval-History :
      (value : Bool) (at : Await)
      → History at t
      → HistoryOf (step (of_record c v at t) (merchant_approval value))
  unfolding step
  approval-History true approval h = h
  approval-History false approval h = (inl refl, h)
  approval-History value _ h = h

  timer-History : (at : Await) → History at t → HistoryOf (step (of_record c v at t) timer_fired)
  unfolding step
  timer-History confirm h = unconfirmed refl h
  timer-History approval h = (inr refl, h)
  timer-History _ h = h

  child-History :
      (s : DispatchStatus) (at : Await)
      → History at t
      → HistoryOf (step (of_record c v at t) (child_ended s))
  unfolding step
  child-History DispatchStatus.delivered dispatching h = fulfilled refl (rw h)
  child-History DispatchStatus.offered dispatching h = unfulfilled returned refl (rw h)
  child-History DispatchStatus.dispatched dispatching h = unfulfilled returned refl (rw h)
  child-History DispatchStatus.picked_up dispatching h = unfulfilled returned refl (rw h)
  child-History DispatchStatus.failed dispatching h = unfulfilled returned refl (rw h)
  child-History s _ h = h

authorized-History :
    (c : Bool) (v : Option Bool) (t : Trace)
    → t ≡ []
    → HistoryOf (step (of_record c v authorizing t) (activity_ended returned))
unfolding step
authorized-History c none t h = rw h
authorized-History c (some true) t h = rw h
authorized-History c (some false) t h = (inl refl, rw h)

module _ (c : Bool) (v : Option Bool) (t : Trace) where
  activity-History :
      (o : Outcome) (at : Await)
      → History at t
      → HistoryOf (step (of_record c v at t) (activity_ended o))
  unfolding step
  activity-History returned authorizing h = authorized-History c v t h
  activity-History refused authorizing h = unauthorized refused (inl refl) refl (rw h)
  activity-History threw authorizing h = unauthorized threw (inr refl) refl (rw h)
  activity-History threw capturing h = rw h
  activity-History returned capturing h = rw h
  activity-History returned voiding_after_capture h = uncaptured returned refl (rw h)
  activity-History threw voiding_after_capture h = uncaptured threw refl (rw h)
  activity-History returned accepting h = rw h
  activity-History threw accepting h = unaccepted (rw h)
  activity-History threw dispatching h = unfulfilled threw refl (rw h)
  activity-History returned (voiding reason) h = released h.0 (rw h.1)
  activity-History threw (voiding reason) h = unvoided (rw h.1)
  activity-History returned (cancelling reason) h = rejected reason t h refl refl
  activity-History threw (cancelling reason) h = uncancelled reason t h refl
  activity-History o _ h = h

step-History : (wf : OrderWorkflow) (e : Event) → HistoryOf wf → HistoryOf (step wf e)
step-History wf confirm_payment h = confirm-History wf.confirmed wf.approved wf.trace wf.at h
step-History wf timer_fired h = timer-History wf.confirmed wf.approved wf.trace wf.at h
step-History wf (merchant_approval value) h =
    approval-History wf.confirmed wf.approved wf.trace value wf.at h
step-History wf (activity_ended o) h = activity-History wf.confirmed wf.approved wf.trace o wf.at h
step-History wf (child_ended s) h = child-History wf.confirmed wf.approved wf.trace s wf.at h

run-History : (wf : OrderWorkflow) (es : List Event) → HistoryOf wf → HistoryOf (run wf es)
unfolding run
run-History wf [] h = h
run-History wf (e ∷ es) h = run-History (step wf e) es (step-History wf e h)

-- Whatever signals, timers and outcomes come, in whatever order, the activities of an order's
-- workflow have one of the histories of `History` for the state that it is in.
pub run-start-History : (es : List Event) → History (run start es).at (run start es).trace
unfolding start
run-start-History es = run-History start es refl
