-- ===== src/SagaWorker/DispatchWorkflow/Termination.antt =====
-- How many answers dispatch-workflow.ts waits for.
use flash_bite.Prelude.{
  ℕ, ◌+◌, ◌-◌, ◌*◌, ◌≤◌, String, ◌≡◌, refl, Bool, true, false, List, [], ◌∷◌, ◌++◌, Option, none,
  some, arith, includes, ◌||◌, Bool-cases, inl, inr, ◌⊎◌, ◌∙◌,
}
use flash_bite.SagaWorker.DispatchWorkflow.Lawful.{of_parts}
use flash_bite.SagaWorker.DispatchWorkflow.{
  Activity, Await, DispatchWorkflow, Event, selecting, offering, replying, marking, accepting,
  picking_up, recording_pickup, delivering, recording_delivery, clearing, releasing,
  recording_failure, finished, crashed, accept_signal, reject_signal, pickup_signal, deliver_signal,
  timer_fired, selected, activity_returned, activity_threw, begin_round, reply_to_offer, check,
  step, initial, start, run,
}

-- Whether the event answers what the workflow waits for: the end of the activity, the choice of a
-- driver, or the end of the timer. Signals are not counted.
abbrev pub answers : Await → Event → Bool
answers selecting (selected o) = true
answers selecting activity_threw = true
answers selecting _ = false
answers (replying d) timer_fired = true
answers (replying d) _ = false
answers (picking_up d) timer_fired = true
answers (picking_up d) _ = false
answers (delivering d) timer_fired = true
answers (delivering d) _ = false
answers (finished r) _ = false
answers crashed _ = false
answers _ activity_returned = true
answers _ activity_threw = true
answers _ _ = false

-- An upper bound on the answers that are still to come: `left` further rounds of three.
abbrev pub rank : ℕ → Await → ℕ
rank left selecting = 3 * left + 11
rank left (offering d) = 3 * left + 10
rank left (replying d) = 3 * left + 9
rank left (marking d) = 8
rank left (accepting d) = 7
rank left (picking_up d) = 6
rank left (recording_pickup d) = 5
rank left (delivering d) = 4
rank left (recording_delivery d) = 3
rank left (clearing d) = 2
rank left (releasing d) = 2
rank left (recording_failure reason) = 1
rank left (finished r) = 0
rank left crashed = 0

abbrev pub tick : Bool → ℕ
tick true = 1
tick false = 0

abbrev pub rank_of : ℕ → DispatchWorkflow → ℕ
rank_of max wf = rank (max - wf.round) wf.at

module _ (max : ℕ) where
  rank-begin_round :
      (i : ℕ) (wf : DispatchWorkflow) → rank_of max (begin_round max i wf) ≤ 3 * (max - i) + 11
  unfolding begin_round
  rank-begin_round i wf = ground arith

  rank-begin_round_next :
      (i : ℕ) (wf : DispatchWorkflow) → rank_of max (begin_round max (i + 1) wf) ≤ 3 * (max - i) + 8
  unfolding begin_round
  rank-begin_round_next i wf = ground arith

  rank-reply_to_offer :
      (d : String) (wf : DispatchWorkflow)
      → rank_of max (reply_to_offer max d wf) ≤ 3 * (max - wf.round) + 8
  unfolding reply_to_offer
  rank-reply_to_offer d wf = elim (Bool-cases (includes d wf.accepted)) [
    | inl said_yes ↦ rw said_yes (omega arith)
    | inr other ↦ rw other (rank-begin_round_next wf.round wf)
  ]

  module _ (a r : List String) (p d : Bool) (t : List String) (i : ℕ) (l : List Activity) where
    abbrev at_state : Await → DispatchWorkflow
    at_state at = of_parts a r p d t i at l

    rank-check : (at : Await) → rank_of max (check max at (at_state at)) ≤ rank (max - i) at
    unfolding check
    rank-check (replying c) = elim (Bool-cases (includes c a || includes c r)) [
      | inl answer ↦ rw answer (omega (arith, rank-reply_to_offer c (at_state (replying c))))
      | inr silence ↦ rw silence (omega arith)
    ]
    rank-check (picking_up c) = ground arith
    rank-check (delivering c) = ground arith
    rank-check _ = omega arith

    rank-timer :
        (at : Await)
        → rank_of max (step max (at_state at) timer_fired) + tick (answers at timer_fired)
          ≤ rank (max - i) at
    unfolding step
    rank-timer (replying c) = omega (arith, rank-begin_round_next i (at_state (replying c)))
    rank-timer _ = omega arith

    rank-selected :
        (o : Option String) (at : Await)
        → rank_of max (step max (at_state at) (selected o)) + tick (answers at (selected o))
          ≤ rank (max - i) at
    unfolding step
    rank-selected none selecting = omega arith
    rank-selected (some c) selecting = ground arith
    rank-selected o _ = omega arith

    rank-threw :
        (at : Await)
        → rank_of max (step max (at_state at) activity_threw) + tick (answers at activity_threw)
          ≤ rank (max - i) at
    unfolding step
    rank-threw selecting = omega arith
    rank-threw _ = omega arith

module _ (max : ℕ) (a r : List String) (p d : Bool) (t : List String) (i : ℕ)
    (l : List Activity) where
  rank-returned :
      (at : Await)
      → rank_of max (step max (of_parts a r p d t i at l) activity_returned)
          + tick (answers at activity_returned)
        ≤ rank (max - i) at
  unfolding step
  rank-returned (offering c) = omega (arith, rank-check max a r p d t i l (replying c))
  rank-returned (accepting c) = omega (arith, rank-check max a r p d t i l (picking_up c))
  rank-returned (recording_pickup c) = omega (arith, rank-check max a r p d t i l (delivering c))
  rank-returned _ = omega arith

  rank-signal :
      (e : Event) (at : Await)
      → (answers at e ≡ false)
        × (rank_of max (step max (of_parts a r p d t i at l) e) ≤ rank (max - i) at)
      → rank_of max (step max (of_parts a r p d t i at l) e) + tick (answers at e)
        ≤ rank (max - i) at
  rank-signal e at (h, le) = rw h (omega arith)

no_answer :
    (at : Await) (x : String)
    → (answers at (accept_signal x) ≡ false)
      × (answers at (reject_signal x) ≡ false)
      × (answers at pickup_signal ≡ false)
      × (answers at deliver_signal ≡ false)
no_answer selecting x = (refl, refl, refl, refl)
no_answer _ x = (refl, refl, refl, refl)

module _ (max : ℕ) (wf : DispatchWorkflow) where
  open wf use {accepted, rejected, picked_up, delivered, tried, round, at, issued}

  rank-step : (e : Event) → rank_of max (step max wf e) + tick (answers at e) ≤ rank_of max wf
  unfolding step
  rank-step (accept_signal x) =
      rank-signal max accepted rejected picked_up delivered tried round issued (accept_signal x) at
        (
          (no_answer at x).0,
          rank-check max (x ∷ accepted) rejected picked_up delivered tried round issued at,
        )
  rank-step (reject_signal x) =
      rank-signal max accepted rejected picked_up delivered tried round issued (reject_signal x) at
        (
          (no_answer at x).1,
          rank-check max accepted (x ∷ rejected) picked_up delivered tried round issued at,
        )
  rank-step pickup_signal =
      rank-signal max accepted rejected picked_up delivered tried round issued pickup_signal at
        ((no_answer at "").2, rank-check max accepted rejected true delivered tried round issued at)
  rank-step deliver_signal =
      rank-signal max accepted rejected picked_up delivered tried round issued deliver_signal at
        ((no_answer at "").3, rank-check max accepted rejected picked_up true tried round issued at)
  rank-step timer_fired = rank-timer max accepted rejected picked_up delivered tried round issued at
  rank-step (selected o) =
      rank-selected max accepted rejected picked_up delivered tried round issued o at
  rank-step activity_returned =
      rank-returned max accepted rejected picked_up delivered tried round issued at
  rank-step activity_threw =
      rank-threw max accepted rejected picked_up delivered tried round issued at

-- how many of the events answer an await
abbrev pub answered : ℕ → DispatchWorkflow → List Event → ℕ
answered max wf [] = 0
answered max wf (e ∷ es) = tick (answers wf.at e) + answered max (step max wf e) es

rank-run :
    (max : ℕ) (wf : DispatchWorkflow) (es : List Event)
    → rank_of max (run max wf es) + answered max wf es ≤ rank_of max wf
unfolding run
rank-run max wf [] = omega arith
rank-run max wf (e ∷ es) = omega (arith, rank-step max wf e, rank-run max (step max wf e) es)

abbrev pub IsOver : Await → Type 0
IsOver (finished r) = Unit
IsOver crashed = Unit
IsOver _ = ⊥

-- Where the workflow has not ended, some event answers what it waits for.
some_answer : (at : Await) → IsOver at ⊎ ((e : Event) × (answers at e ≡ true))
some_answer selecting = inr (selected none, refl)
some_answer (replying d) = inr (timer_fired, refl)
some_answer (picking_up d) = inr (timer_fired, refl)
some_answer (delivering d) = inr (timer_fired, refl)
some_answer (finished r) = inl tt
some_answer crashed = inl tt
some_answer _ = inr (activity_returned, refl)

answered-append :
    (max : ℕ) (wf : DispatchWorkflow) (es : List Event) (e : Event)
    → answered max wf (es ++ e ∷ []) ≡ answered max wf es + tick (answers (run max wf es).at e)
unfolding run
answered-append max wf [] e = omega arith
answered-append max wf (x ∷ es) e = omega (arith, answered-append max (step max wf x) es e)

-- 3 * max + 11 answers at most, and another one is possible while the workflow has not ended.
abbrev pub Ends : ℕ → List Event → Type 0
Ends max es =
    (answered max (start max) es ≤ 3 * max + 11)
    × (IsOver (run max (start max) es).at
        ⊎ ((e : Event) × (answered max (start max) (es ++ e ∷ [])
              ≡ answered max (start max) es + 1)))

pub dispatch_terminates : (max : ℕ) (es : List Event) → Ends max es
unfolding start
dispatch_terminates max es = (
  omega (arith, rank-run max (start max) es, rank-begin_round max 0 initial),
  elim (some_answer (run max (start max) es).at) [
    | inl over ↦ inl over
    | inr (e, h) ↦ inr (e, answered-append max (start max) es e ∙ rw h refl)
  ],
)
