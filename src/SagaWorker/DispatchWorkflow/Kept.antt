-- ===== src/SagaWorker/DispatchWorkflow/Kept.antt =====
-- What the protocol of dispatch-workflow.ts says of the signals received, before a further one and
-- after it.
use flash_bite.Prelude.{ℕ, ◌≤◌, String, ◌≡◌, refl, Bool, true, List, ◌∷◌, arith, includes}
use flash_bite.SagaWorker.DispatchWorkflow.{
  Await, DispatchResult, selecting, offering, replying, marking, accepting, picking_up,
  recording_pickup, delivering, recording_delivery, clearing, releasing, finished,
}
use flash_bite.SagaWorker.DispatchWorkflow.Protocol.{Rounds, Answered, Signalled}

module _ (d : String) (accepted : List String) where
  -- a further signal does not shake an acceptance
  pub more_includes : (e : String) → includes e accepted ≡ true → includes e (d ∷ accepted) ≡ true
  more_includes e h = ground (arith, h)

  pub more-Answered : (at : Await) → Answered at accepted → Answered at (d ∷ accepted)
  more-Answered (marking e) h = more_includes e h
  more-Answered (accepting e) h = more_includes e h
  more-Answered (picking_up e) h = more_includes e h
  more-Answered (recording_pickup e) h = more_includes e h
  more-Answered (delivering e) h = more_includes e h
  more-Answered (recording_delivery e) h = more_includes e h
  more-Answered (clearing e) h = more_includes e h
  more-Answered (releasing e) h = more_includes e h
  more-Answered _ h = h

pub pickup-Signalled : (at : Await) (p d : Bool) → Signalled at p d → Signalled at true d
pickup-Signalled (recording_pickup e) p d h = refl
pickup-Signalled (delivering e) p d h = refl
pickup-Signalled (recording_delivery e) p d h = (refl, h.1)
pickup-Signalled (clearing e) p d h = (refl, h.1)
pickup-Signalled (finished DispatchResult.delivered) p d h = (refl, h.1)
pickup-Signalled _ p d h = h

pub deliver-Signalled : (at : Await) (p d : Bool) → Signalled at p d → Signalled at p true
deliver-Signalled (recording_delivery e) p d h = (h.0, refl)
deliver-Signalled (clearing e) p d h = (h.0, refl)
deliver-Signalled (finished DispatchResult.delivered) p d h = (h.0, refl)
deliver-Signalled _ p d h = h

-- at most as many drivers are tried as offers are allowed
pub tried_bound : (max i n : ℕ) (at : Await) → Rounds max at i n → n ≤ max
tried_bound max i n selecting h = omega (arith, h.1)
tried_bound max i n (offering d) h = h.1
tried_bound max i n (replying d) h = h.1
tried_bound max i n _ h = h
