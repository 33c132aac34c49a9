-- ===== src/SagaWorker/DispatchWorkflow/Protocol.antt =====
-- The order in which dispatch-workflow.ts asks for its activities.
use flash_bite.Prelude.{
  ℕ, ◌+◌, ◌≤◌, ◌<◌, String, ◌≡◌, Bool, true, false, List, [], ◌∷◌, ◌++◌, includes, length,
  append_assoc, append-nil,
}
use flash_bite.Contracts.{no_drivers_available, delivery_timeout}
use flash_bite.SagaWorker.DispatchWorkflow.{
  Activity, Await, DispatchWorkflow, DispatchResult, select_driver, record_offered, mark_busy,
  record_accepted, clear_busy, record_picked_up, record_delivered, record_failed, selecting,
  offering, replying, marking, accepting, picking_up, recording_pickup, delivering,
  recording_delivery, clearing, releasing, recording_failure, finished, crashed,
}

-- The rounds that offered the job to `ds` in turn, each choosing among the drivers not yet tried.
abbrev pub offers : List String → List String → List Activity
offers before [] = []
offers before (d ∷ ds) = select_driver before ∷ record_offered d ∷ offers (before ++ d ∷ []) ds

pub offers-append :
    (before ds : List String) (d : String)
    → offers before (ds ++ d ∷ [])
      ≡ offers before ds ++ select_driver (before ++ ds) ∷ record_offered d ∷ []
offers-append before [] d = rw append-nil
offers-append before (x ∷ ds) d =
    rw (offers-append (before ++ x ∷ []) ds d, append_assoc before (x ∷ []) ds)

-- What follows the offers once `d` has accepted, step by step.
abbrev pub job : String → List Activity
job d = mark_busy d ∷ record_accepted d ∷ []

-- The two ways in which the dispatch of an accepted job is given up.
abbrev pub given_up : String → Bool → List Activity
given_up d false = job d ++ clear_busy d ∷ []
given_up d true = job d ++ record_picked_up ∷ clear_busy d ∷ []

-- The driver to whom the job was offered last.
abbrev pub IsLast : String → List String → Type 0
IsLast d tried = (others : List String) × (tried ≡ others ++ d ∷ [])

-- The activities behind the offers of a dispatch that records a failure.
pub data Failure (reason : String) (tried : List String) (tail : List Activity) : Type 0 where
  out_of_rounds :
      reason ≡ no_drivers_available → tail ≡ record_failed reason ∷ [] → Failure reason tried tail
  out_of_drivers :
      reason ≡ no_drivers_available
      → tail ≡ select_driver tried ∷ record_failed reason ∷ []
      → Failure reason tried tail
  abandoned :
      (d : String) (picked : Bool)
      → IsLast d tried
      → reason ≡ delivery_timeout
      → tail ≡ given_up d picked ++ record_failed reason ∷ []
      → Failure reason tried tail

-- The activities asked for, behind the offers to the drivers tried, by where the workflow stands.
abbrev pub Tail : Await → List String → List Activity → Type 0
Tail selecting tried t = t ≡ select_driver tried ∷ []
Tail (offering d) tried t = IsLast d tried × (t ≡ [])
Tail (replying d) tried t = IsLast d tried × (t ≡ [])
Tail (marking d) tried t = IsLast d tried × (t ≡ mark_busy d ∷ [])
Tail (accepting d) tried t = IsLast d tried × (t ≡ job d)
Tail (picking_up d) tried t = IsLast d tried × (t ≡ job d)
Tail (recording_pickup d) tried t = IsLast d tried × (t ≡ job d ++ record_picked_up ∷ [])
Tail (delivering d) tried t = IsLast d tried × (t ≡ job d ++ record_picked_up ∷ [])
Tail (recording_delivery d) tried t =
    IsLast d tried × (t ≡ job d ++ record_picked_up ∷ record_delivered ∷ [])
Tail (clearing d) tried t =
    IsLast d tried × (t ≡ job d ++ record_picked_up ∷ record_delivered ∷ clear_busy d ∷ [])
Tail (releasing d) tried t = (picked : Bool) × IsLast d tried × (t ≡ given_up d picked)
Tail (recording_failure reason) tried t = Failure reason tried t
Tail (finished DispatchResult.failed) tried t = (reason : String) × Failure reason tried t
Tail (finished DispatchResult.delivered) tried t =
    (d : String) × IsLast d tried
    × (t ≡ job d ++ record_picked_up ∷ record_delivered ∷ clear_busy d ∷ [])
Tail crashed tried t = Unit

abbrev pub History : Await → List String → List Activity → Type 0
History at tried issued = (t : List Activity) × (issued ≡ offers [] tried ++ t) × Tail at tried t

-- The loop's counter against the drivers tried.
abbrev pub Rounds : ℕ → Await → ℕ → ℕ → Type 0
Rounds max selecting i n = (i ≡ n) × (n < max)
Rounds max (offering d) i n = (i + 1 ≡ n) × (n ≤ max)
Rounds max (replying d) i n = (i + 1 ≡ n) × (n ≤ max)
Rounds max _ i n = n ≤ max

-- A driver who has the job, or had it, has accepted it.
abbrev pub Answered : Await → List String → Type 0
Answered (marking d) accepted = includes d accepted ≡ true
Answered (accepting d) accepted = includes d accepted ≡ true
Answered (picking_up d) accepted = includes d accepted ≡ true
Answered (recording_pickup d) accepted = includes d accepted ≡ true
Answered (delivering d) accepted = includes d accepted ≡ true
Answered (recording_delivery d) accepted = includes d accepted ≡ true
Answered (clearing d) accepted = includes d accepted ≡ true
Answered (releasing d) accepted = includes d accepted ≡ true
Answered _ accepted = Unit

-- The pickup and the delivery are recorded only once they were signalled.
abbrev pub Signalled : Await → Bool → Bool → Type 0
Signalled (recording_pickup d) picked_up delivered = picked_up ≡ true
Signalled (delivering d) picked_up delivered = picked_up ≡ true
Signalled (recording_delivery d) picked_up delivered = (picked_up ≡ true) × (delivered ≡ true)
Signalled (clearing d) picked_up delivered = (picked_up ≡ true) × (delivered ≡ true)
Signalled (finished DispatchResult.delivered) picked_up delivered =
    (picked_up ≡ true) × (delivered ≡ true)
Signalled _ picked_up delivered = Unit

pub record IsLawful (max : ℕ) (wf : DispatchWorkflow) : Type 0 where
  pub history : History wf.at wf.tried wf.issued
  pub rounds : Rounds max wf.at wf.round (length wf.tried)
  pub answered : Answered wf.at wf.accepted
  pub signalled : Signalled wf.at wf.picked_up wf.delivered
