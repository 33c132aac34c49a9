-- ===== src/SagaWorker/DispatchWorkflow.antt =====
-- apps/saga-worker/src/dispatch-workflow.ts: `driverDispatchWorkflow` as a state machine. Each `await`
-- is a state, and what Temporal delivers is an event, as in OrderWorkflow.antt.
pub mod Protocol
pub mod Lawful
pub mod Kept
pub mod Signals
pub mod Steps
pub mod Busy
pub mod Termination
use flash_bite.Prelude.{
  ℕ, ◌+◌, String, Bool, true, false, ◌||◌, List, [], ◌∷◌, ◌++◌, Option, none, some, includes, ltb,
  ◌==◌, if◌then◌else◌,
}
use flash_bite.Contracts.{no_drivers_available, delivery_timeout}

-- What the workflow asks its activities to do.
pub data Activity : Type 0 where
  select_driver : List String → Activity
  record_offered mark_busy record_accepted clear_busy : String → Activity
  record_picked_up record_delivered : Activity
  record_failed : String → Activity

pub data DispatchResult : Type 0 where
  delivered failed : DispatchResult

-- Where the function waits. `releasing d` and `recording_failure` are `failAfterAccept`, and
-- `recording_failure` is also the end of the loop.
pub data Await : Type 0 where
  selecting : Await
  offering replying marking accepting : String → Await
  picking_up recording_pickup delivering recording_delivery clearing : String → Await
  releasing : String → Await
  recording_failure : String → Await
  finished : DispatchResult → Await
  crashed : Await

pub record DispatchWorkflow : Type 0 where
  pub accepted : List String
  pub rejected : List String
  pub picked_up : Bool
  pub delivered : Bool
  pub tried : List String
  -- the loop's `i`
  pub round : ℕ
  pub at : Await
  -- the activities that were asked for, in their order
  pub issued : List Activity

pub data Event : Type 0 where
  accept_signal reject_signal : String → Event
  pickup_signal deliver_signal timer_fired : Event
  selected : Option String → Event
  activity_returned activity_threw : Event

-- what is asked for on entering a state
abbrev pub activity : List String → Await → Option Activity
activity tried selecting = some (select_driver tried)
activity tried (offering d) = some (record_offered d)
activity tried (marking d) = some (mark_busy d)
activity tried (accepting d) = some (record_accepted d)
activity tried (recording_pickup d) = some record_picked_up
activity tried (recording_delivery d) = some record_delivered
activity tried (clearing d) = some (clear_busy d)
activity tried (releasing d) = some (clear_busy d)
activity tried (recording_failure reason) = some (record_failed reason)
activity tried _ = none

abbrev pub ask : Option Activity → List Activity → List Activity
ask none issued = issued
ask (some a) issued = issued ++ a ∷ []

unfoldable pub goto : Await → DispatchWorkflow → DispatchWorkflow
goto await wf = record wf { at = await; issued = ask (activity wf.tried await) wf.issued }

-- the loop's test, before the round `i`, and what stands after the loop
unfoldable pub begin_round : ℕ → ℕ → DispatchWorkflow → DispatchWorkflow
unfolding goto
begin_round max_offers i wf =
    goto (if ltb i max_offers then selecting else recording_failure no_drivers_available)
      (record wf { round = i })

-- after the `condition` of an offer: the candidate has answered
unfoldable pub reply_to_offer : ℕ → String → DispatchWorkflow → DispatchWorkflow
unfolding goto begin_round
reply_to_offer max_offers candidate wf =
    if includes candidate wf.accepted
    then goto (marking candidate) wf
    else begin_round max_offers (wf.round + 1) wf

-- A `condition` that is entered, or whose predicate may have changed, is left at once if it holds.
unfoldable pub check : ℕ → Await → DispatchWorkflow → DispatchWorkflow
unfolding goto reply_to_offer
check max_offers (replying d) wf =
    if includes d wf.accepted || includes d wf.rejected then reply_to_offer max_offers d wf else wf
check max_offers (picking_up d) wf = if wf.picked_up then goto (recording_pickup d) wf else wf
check max_offers (delivering d) wf = if wf.delivered then goto (recording_delivery d) wf else wf
check max_offers _ wf = wf

-- Waiting states are entered through their test.
abbrev pub wait : ℕ → Await → DispatchWorkflow → DispatchWorkflow
wait max_offers await wf = check max_offers await (goto await wf)

timed_out : ℕ → Await → DispatchWorkflow → DispatchWorkflow
timed_out max_offers (replying d) wf = begin_round max_offers (wf.round + 1) wf
timed_out max_offers (picking_up d) wf = goto (releasing d) wf
timed_out max_offers (delivering d) wf = goto (releasing d) wf
timed_out max_offers _ wf = wf

-- The loop's body from `if (!candidate)`; the empty text is falsy too.
driver_selected : Await → Option String → DispatchWorkflow → DispatchWorkflow
driver_selected selecting none wf = goto (recording_failure no_drivers_available) wf
driver_selected selecting (some candidate) wf =
    if candidate == ""
    then goto (recording_failure no_drivers_available) wf
    else goto (offering candidate) (record wf { tried = wf.tried ++ candidate ∷ [] })
driver_selected _ _ wf = wf

returned : ℕ → Await → DispatchWorkflow → DispatchWorkflow
returned max_offers (offering d) wf = wait max_offers (replying d) wf
returned max_offers (marking d) wf = goto (accepting d) wf
returned max_offers (accepting d) wf = wait max_offers (picking_up d) wf
returned max_offers (recording_pickup d) wf = wait max_offers (delivering d) wf
returned max_offers (recording_delivery d) wf = goto (clearing d) wf
returned max_offers (clearing d) wf = goto (finished delivered) wf
returned max_offers (releasing d) wf = goto (recording_failure delivery_timeout) wf
returned max_offers (recording_failure reason) wf = goto (finished failed) wf
returned max_offers _ wf = wf

-- An activity whose retries are exhausted ends the workflow.
threw : Await → DispatchWorkflow → DispatchWorkflow
threw (replying d) wf = wf
threw (picking_up d) wf = wf
threw (delivering d) wf = wf
threw (finished r) wf = wf
threw crashed wf = wf
threw _ wf = goto crashed wf

unfoldable pub step : ℕ → DispatchWorkflow → Event → DispatchWorkflow
unfolding timed_out driver_selected returned threw check goto begin_round
step max_offers wf (accept_signal d) =
    check max_offers wf.at (record wf { accepted = d ∷ wf.accepted })
step max_offers wf (reject_signal d) =
    check max_offers wf.at (record wf { rejected = d ∷ wf.rejected })
step max_offers wf pickup_signal = check max_offers wf.at (record wf { picked_up = true })
step max_offers wf deliver_signal = check max_offers wf.at (record wf { delivered = true })
step max_offers wf timer_fired = timed_out max_offers wf.at wf
step max_offers wf (selected candidate) = driver_selected wf.at candidate wf
step max_offers wf activity_returned = returned max_offers wf.at wf
step max_offers wf activity_threw = threw wf.at wf

abbrev pub initial : DispatchWorkflow
initial = record {
  accepted = [];
  rejected = [];
  picked_up = false;
  delivered = false;
  tried = [];
  round = 0;
  at = selecting;
  issued = [];
}

-- up to the first `await`
unfoldable pub start : ℕ → DispatchWorkflow
unfolding begin_round
start max_offers = begin_round max_offers 0 initial

unfoldable pub run : ℕ → DispatchWorkflow → List Event → DispatchWorkflow
run max_offers wf [] = wf
run max_offers wf (e ∷ es) = run max_offers (step max_offers wf e) es
