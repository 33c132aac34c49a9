-- ===== src/SagaWorker/OrderWorkflow/Termination.antt =====
-- How many answers the workflow of an order (workflows.ts) waits for.
use flash_bite.Prelude.{
  ℕ, ◌+◌, ◌≤◌, ◌≡◌, refl, Bool, true, false, List, [], ◌∷◌, ◌++◌, Option, none, some, arith, ◌⊎◌,
  inl, inr, ◌∙◌,
}
use flash_bite.Contracts.{DispatchStatus}
use flash_bite.SagaWorker.OrderWorkflow.{
  Activity, Outcome, Await, OrderWorkflow, Event, confirm, authorizing, approval, capturing,
  voiding_after_capture, accepting, dispatching, voiding, cancelling, finished, crashed, returned,
  refused, threw, confirm_payment, timer_fired, merchant_approval, activity_ended, child_ended,
  confirm_signalled, approval_signalled, timed_out, ended, child_returned, start, step, run,
}

abbrev is_end : Outcome → Bool
is_end returned = true
is_end threw = true
is_end refused = false

-- Whether the event answers what the workflow waits for: the end of the timer, of the activity or of
-- the child workflow. Signals are not counted.
abbrev pub answers : Await → Event → Bool
answers confirm timer_fired = true
answers approval timer_fired = true
answers authorizing (activity_ended outcome) = true
answers capturing (activity_ended outcome) = is_end outcome
answers voiding_after_capture (activity_ended outcome) = is_end outcome
answers accepting (activity_ended outcome) = is_end outcome
answers (voiding reason) (activity_ended outcome) = is_end outcome
answers (cancelling reason) (activity_ended outcome) = is_end outcome
answers dispatching (activity_ended threw) = true
answers dispatching (child_ended status) = true
answers _ _ = false

-- An upper bound on the answers that are still to come.
abbrev pub rank : Await → ℕ
rank confirm = 6
rank authorizing = 5
rank approval = 4
rank capturing = 3
rank voiding_after_capture = 2
rank accepting = 2
rank (voiding reason) = 2
rank dispatching = 1
rank (cancelling reason) = 1
rank (finished result) = 0
rank crashed = 0

abbrev pub tick : Bool → ℕ
tick true = 1
tick false = 0

module _ (c : Bool) (a : Option Bool) (t : List (Activity × Outcome)) where
  abbrev at_state : Await → OrderWorkflow
  at_state at = record { confirmed = c; approved = a; at = at; trace = t }

  rank-confirm :
      (at : Await)
      → rank (step (at_state at) confirm_payment).at + tick (answers at confirm_payment) ≤ rank at
  unfolding step confirm_signalled
  rank-confirm confirm = omega arith
  rank-confirm _ = omega arith

  rank-approval :
      (b : Bool) (at : Await)
      → rank (step (at_state at) (merchant_approval b)).at + tick (answers at (merchant_approval b))
        ≤ rank at
  unfolding step approval_signalled
  rank-approval true approval = omega arith
  rank-approval false approval = omega arith
  rank-approval b _ = omega arith

  rank-timer :
      (at : Await)
      → rank (step (at_state at) timer_fired).at + tick (answers at timer_fired) ≤ rank at
  unfolding step timed_out
  rank-timer confirm = omega arith
  rank-timer approval = omega arith
  rank-timer _ = omega arith

  rank-child :
      (s : DispatchStatus) (at : Await)
      → rank (step (at_state at) (child_ended s)).at + tick (answers at (child_ended s)) ≤ rank at
  unfolding step child_returned
  rank-child s dispatching = omega arith
  rank-child s _ = omega arith

module _ (c : Bool) (t : List (Activity × Outcome)) where
  Falls : Option Bool → Outcome → Await → Type 0
  Falls a o at =
      rank (step (at_state c a t at) (activity_ended o)).at + tick (answers at (activity_ended o))
      ≤ rank at

  rank-authorizing : (a : Option Bool) (o : Outcome) → Falls a o authorizing
  unfolding Falls step ended
  rank-authorizing none returned = omega arith
  rank-authorizing (some true) returned = omega arith
  rank-authorizing (some false) returned = omega arith
  rank-authorizing a refused = omega arith
  rank-authorizing a threw = omega arith

  rank-ended : (a : Option Bool) (o : Outcome) (at : Await) → Falls a o at
  unfolding Falls step ended
  rank-ended a o authorizing = rank-authorizing a o
  rank-ended a returned at = rank-returned a at
    where
      rank-returned : (a : Option Bool) (at : Await) → Falls a returned at
      rank-returned a authorizing = rank-authorizing a returned
      rank-returned a _ = omega arith
  rank-ended a refused at = omega arith
  rank-ended a threw at = omega arith

rank-step :
    (wf : OrderWorkflow) (e : Event) → rank (step wf e).at + tick (answers wf.at e) ≤ rank wf.at
unfolding Falls
rank-step wf confirm_payment = rank-confirm wf.confirmed wf.approved wf.trace wf.at
rank-step wf (merchant_approval b) = rank-approval wf.confirmed wf.approved wf.trace b wf.at
rank-step wf timer_fired = rank-timer wf.confirmed wf.approved wf.trace wf.at
rank-step wf (activity_ended o) = rank-ended wf.confirmed wf.trace wf.approved o wf.at
rank-step wf (child_ended s) = rank-child wf.confirmed wf.approved wf.trace s wf.at

-- how many of the events answer an await
abbrev pub answered : OrderWorkflow → List Event → ℕ
answered wf [] = 0
answered wf (e ∷ es) = tick (answers wf.at e) + answered (step wf e) es

rank-run :
    (wf : OrderWorkflow) (es : List Event) → rank (run wf es).at + answered wf es ≤ rank wf.at
unfolding run
rank-run wf [] = omega arith
rank-run wf (e ∷ es) = omega (arith, rank-step wf e, rank-run (step wf e) es)

abbrev pub IsOver : Await → Type 0
IsOver (finished r) = Unit
IsOver crashed = Unit
IsOver _ = ⊥

some_answer : (at : Await) → IsOver at ⊎ ((e : Event) × (answers at e ≡ true))
some_answer confirm = inr (timer_fired, refl)
some_answer approval = inr (timer_fired, refl)
some_answer (finished r) = inl tt
some_answer crashed = inl tt
some_answer dispatching = inr (activity_ended threw, refl)
some_answer authorizing = inr (activity_ended returned, refl)
some_answer capturing = inr (activity_ended returned, refl)
some_answer voiding_after_capture = inr (activity_ended returned, refl)
some_answer accepting = inr (activity_ended returned, refl)
some_answer (voiding r) = inr (activity_ended returned, refl)
some_answer (cancelling r) = inr (activity_ended returned, refl)

answered-append :
    (wf : OrderWorkflow) (es : List Event) (e : Event)
    → answered wf (es ++ e ∷ []) ≡ answered wf es + tick (answers (run wf es).at e)
unfolding run
answered-append wf [] e = omega arith
answered-append wf (x ∷ es) e = omega (arith, answered-append (step wf x) es e)

-- Six answers at most, and another one is possible while the workflow has not ended.
abbrev pub Ends : List Event → Type 0
Ends es =
    (answered start es ≤ 6)
    × (IsOver (run start es).at
        ⊎ ((e : Event) × (answered start (es ++ e ∷ []) ≡ answered start es + 1)))

pub order_terminates : (es : List Event) → Ends es
unfolding start
order_terminates es = (
  omega (arith, rank-run start es),
  elim (some_answer (run start es).at) [
    | inl over ↦ inl over
    | inr (e, h) ↦ inr (e, answered-append start es e ∙ rw h refl)
  ],
)
