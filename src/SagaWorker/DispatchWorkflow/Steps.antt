-- ===== src/SagaWorker/DispatchWorkflow/Steps.antt =====
-- The protocol of dispatch-workflow.ts, over timers, choices, activities and whole runs.
use flash_bite.Prelude.{
  ℕ, ◌+◌, String, ◌≡◌, refl, sym, Bool, true, false, List, [], ◌∷◌, ◌++◌, Option, none, some, arith,
  length, length-append, append-nil, ◌==◌, inl, inr, Bool-cases, ◌∙◌,
}
use flash_bite.Contracts.{no_drivers_available, delivery_timeout}
use flash_bite.SagaWorker.DispatchWorkflow.{
  Activity, Await, DispatchWorkflow, Event, record_offered, record_accepted, clear_busy,
  record_failed, selecting, offering, replying, marking, accepting, picking_up, recording_pickup,
  delivering, recording_delivery, clearing, releasing, recording_failure, finished, crashed,
  accept_signal, reject_signal, pickup_signal, deliver_signal, timer_fired, selected,
  activity_returned, activity_threw, goto, step, initial, start, run,
}
use flash_bite.SagaWorker.DispatchWorkflow.Protocol.{
  offers, offers-append, given_up, out_of_drivers, abandoned, IsLawful,
}
use flash_bite.SagaWorker.DispatchWorkflow.Lawful.{
  begin_round-IsLawful, check-IsLawful, extend, of_parts,
}
use flash_bite.SagaWorker.DispatchWorkflow.Kept.{tried_bound}
use flash_bite.SagaWorker.DispatchWorkflow.Signals.{
  accept-IsLawful, reject-IsLawful, pickup-IsLawful, deliver-IsLawful,
}

module _ (max : ℕ) (a r : List String) (p d : Bool) (t : List String) (i : ℕ)
    (l : List Activity) where
  abbrev here : Await → DispatchWorkflow
  here at = of_parts a r p d t i at l

  abbrev Lawful : Await → Type 0
  Lawful at = IsLawful max (here at)

  timer-IsLawful : (at : Await) → Lawful at → IsLawful max (step max (here at) timer_fired)
  unfolding step
  timer-IsLawful (replying c) s =
      let (_, e, (last, f)) = s.history in
      begin_round-IsLawful max (i + 1) (here (replying c)) (e ∙ rw (f, append-nil) refl) s.rounds.0
        s.rounds.1
  timer-IsLawful (picking_up c) s =
      let (_, e, (last, f)) = s.history in
      record {
        history = (given_up c false, extend (offers [] t) (clear_busy c) e f, (false, last, refl));
        rounds = s.rounds;
        answered = s.answered;
        signalled = tt;
      }
  timer-IsLawful (delivering c) s =
      let (_, e, (last, f)) = s.history in
      record {
        history = (given_up c true, extend (offers [] t) (clear_busy c) e f, (true, last, refl));
        rounds = s.rounds;
        answered = s.answered;
        signalled = tt;
      }
  timer-IsLawful _ s = s

  no_driver-IsLawful :
      Lawful selecting
      → IsLawful max (goto (recording_failure no_drivers_available) (here selecting))
  unfolding goto
  no_driver-IsLawful s =
      let (_, e, f) = s.history in
      record {
        history = (
          _,
          extend (offers [] t) (record_failed no_drivers_available) e f,
          out_of_drivers refl refl,
        );
        rounds = omega (arith, s.rounds);
        answered = tt;
        signalled = tt;
      }

  offering-IsLawful :
      (c : String)
      → Lawful selecting
      → IsLawful max (goto (offering c) (record (here selecting) { tried = t ++ c ∷ [] }))
  unfolding goto
  offering-IsLawful c s =
      let (_, e, f) = s.history in
      let n : length (t ++ c ∷ []) ≡ length t + 1 = length-append t (c ∷ []) in
      record {
        history = (
          [],
          extend (offers [] t) (record_offered c) e f
              ∙ (sym (offers-append [] t c) ∙ sym (append-nil _)),
          ((t, refl), refl),
        );
        rounds = (omega (arith, s.rounds, n), omega (arith, s.rounds, n));
        answered = tt;
        signalled = tt;
      }

  selected-IsLawful :
      (o : Option String) (at : Await) → Lawful at → IsLawful max (step max (here at) (selected o))
  unfolding step
  selected-IsLawful none selecting s = no_driver-IsLawful s
  selected-IsLawful (some c) selecting s = elim (Bool-cases (c == "")) [
    | inl falsy ↦ rw falsy (no_driver-IsLawful s)
    | inr named ↦ rw named (offering-IsLawful c s)
  ]
  selected-IsLawful o _ s = s

  crash-IsLawful : (at : Await) → Lawful at → IsLawful max (goto crashed (here at))
  unfolding goto
  crash-IsLawful at s =
      let (tl, e, _) = s.history in
      record {
        history = (tl, e, tt);
        rounds = tried_bound max i (length t) at s.rounds;
        answered = tt;
        signalled = tt;
      }

  threw-IsLawful : (at : Await) → Lawful at → IsLawful max (step max (here at) activity_threw)
  unfolding step
  threw-IsLawful (replying c) s = s
  threw-IsLawful (picking_up c) s = s
  threw-IsLawful (delivering c) s = s
  threw-IsLawful (finished x) s = s
  threw-IsLawful crashed s = s
  threw-IsLawful at s = crash-IsLawful at s

  returned-IsLawful : (at : Await) → Lawful at → IsLawful max (step max (here at) activity_returned)
  unfolding step
  returned-IsLawful (offering c) s =
      check-IsLawful max a r t i l p d (replying c)
        (record { history = s.history; rounds = s.rounds; answered = tt; signalled = tt })
  returned-IsLawful (marking c) s =
      let (_, e, (last, f)) = s.history in
      record {
        history = (_, extend (offers [] t) (record_accepted c) e f, (last, refl));
        rounds = s.rounds;
        answered = s.answered;
        signalled = tt;
      }
  returned-IsLawful (accepting c) s =
      check-IsLawful max a r t i l p d (picking_up c)
        (record { history = s.history; rounds = s.rounds; answered = s.answered; signalled = tt })
  returned-IsLawful (recording_pickup c) s =
      check-IsLawful max a r t i l p d (delivering c) (record {
        history = s.history;
        rounds = s.rounds;
        answered = s.answered;
        signalled = s.signalled;
      })
  returned-IsLawful (recording_delivery c) s =
      let (_, e, (last, f)) = s.history in
      record {
        history = (_, extend (offers [] t) (clear_busy c) e f, (last, refl));
        rounds = s.rounds;
        answered = s.answered;
        signalled = s.signalled;
      }
  returned-IsLawful (clearing c) s =
      let (tl, e, g) = s.history in
      record {
        history = (tl, e, (c, g.0, g.1));
        rounds = s.rounds;
        answered = tt;
        signalled = s.signalled;
      }
  returned-IsLawful (releasing c) s =
      let (_, e, (picked, last, f)) = s.history in
      record {
        history = (
          _,
          extend (offers [] t) (record_failed delivery_timeout) e f,
          abandoned c picked last refl refl,
        );
        rounds = s.rounds;
        answered = tt;
        signalled = tt;
      }
  returned-IsLawful (recording_failure reason) s =
      let (tl, e, g) = s.history in
      record { history = (tl, e, (reason, g)); rounds = s.rounds; answered = tt; signalled = tt }
  returned-IsLawful _ s = s

module _ (max : ℕ) (wf : DispatchWorkflow) where
  open wf use {accepted, rejected, picked_up, delivered, tried, round, at, issued}

  step-IsLawful : (e : Event) → IsLawful max wf → IsLawful max (step max wf e)
  step-IsLawful (accept_signal x) =
      accept-IsLawful max accepted rejected picked_up delivered tried round issued x at
  step-IsLawful (reject_signal x) =
      reject-IsLawful max accepted rejected picked_up delivered tried round issued x at
  step-IsLawful pickup_signal =
      pickup-IsLawful max accepted rejected picked_up delivered tried round issued at
  step-IsLawful deliver_signal =
      deliver-IsLawful max accepted rejected picked_up delivered tried round issued at
  step-IsLawful timer_fired =
      timer-IsLawful max accepted rejected picked_up delivered tried round issued at
  step-IsLawful (selected o) =
      selected-IsLawful max accepted rejected picked_up delivered tried round issued o at
  step-IsLawful activity_returned =
      returned-IsLawful max accepted rejected picked_up delivered tried round issued at
  step-IsLawful activity_threw =
      threw-IsLawful max accepted rejected picked_up delivered tried round issued at

run-IsLawful :
    (max : ℕ) (wf : DispatchWorkflow) (es : List Event)
    → IsLawful max wf
    → IsLawful max (run max wf es)
unfolding run
run-IsLawful max wf [] s = s
run-IsLawful max wf (e ∷ es) s = run-IsLawful max (step max wf e) es (step-IsLawful max wf e s)

-- Whatever comes, in whatever order, the dispatch workflow is lawful: it has asked for a round of
-- choosing and offering for each driver tried, at most `max` of them, and then for what its state
-- says; it gives the job to a driver who accepted it, and records a pickup and a delivery that were
-- signalled.
pub run-start-IsLawful : (max : ℕ) (es : List Event) → IsLawful max (run max (start max) es)
unfolding start
run-start-IsLawful max es =
    run-IsLawful max (start max) es (begin_round-IsLawful max 0 initial refl refl (omega arith))
