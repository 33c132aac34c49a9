-- ===== src/SagaWorker/DispatchWorkflow/Signals.antt =====
-- The protocol of dispatch-workflow.ts when a signal comes.
use flash_bite.Prelude.{ℕ, String, Bool, true, List, ◌∷◌}
use flash_bite.SagaWorker.DispatchWorkflow.{
  Activity, Await, DispatchWorkflow, accept_signal, reject_signal, pickup_signal, deliver_signal,
  step,
}
use flash_bite.SagaWorker.DispatchWorkflow.Protocol.{IsLawful}
use flash_bite.SagaWorker.DispatchWorkflow.Lawful.{check-IsLawful, of_parts}
use flash_bite.SagaWorker.DispatchWorkflow.Kept.{more-Answered, pickup-Signalled, deliver-Signalled}

module _ (max : ℕ) (a r : List String) (p d : Bool) (t : List String) (i : ℕ)
    (l : List Activity) where
  abbrev here : Await → DispatchWorkflow
  here at = of_parts a r p d t i at l

  abbrev Lawful : Await → Type 0
  Lawful at = IsLawful max (here at)

  pub accept-IsLawful :
      (x : String) (at : Await) → Lawful at → IsLawful max (step max (here at) (accept_signal x))
  unfolding step
  accept-IsLawful x at s = check-IsLawful max (x ∷ a) r t i l p d at (record {
    history = s.history;
    rounds = s.rounds;
    answered = more-Answered x a at s.answered;
    signalled = s.signalled;
  })

  pub reject-IsLawful :
      (x : String) (at : Await) → Lawful at → IsLawful max (step max (here at) (reject_signal x))
  unfolding step
  reject-IsLawful x at s = check-IsLawful max a (x ∷ r) t i l p d at (record {
    history = s.history;
    rounds = s.rounds;
    answered = s.answered;
    signalled = s.signalled;
  })

  pub pickup-IsLawful : (at : Await) → Lawful at → IsLawful max (step max (here at) pickup_signal)
  unfolding step
  pickup-IsLawful at s = check-IsLawful max a r t i l true d at (record {
    history = s.history;
    rounds = s.rounds;
    answered = s.answered;
    signalled = pickup-Signalled at p d s.signalled;
  })

  pub deliver-IsLawful : (at : Await) → Lawful at → IsLawful max (step max (here at) deliver_signal)
  unfolding step
  deliver-IsLawful at s = check-IsLawful max a r t i l p true at (record {
    history = s.history;
    rounds = s.rounds;
    answered = s.answered;
    signalled = deliver-Signalled at p d s.signalled;
  })
