-- ===== src/SagaWorker/DispatchWorkflow/Busy.antt =====
-- The drivers that dispatch-workflow.ts marks busy, and clears.
use flash_bite.Prelude.{
  ℕ, String, ◌≡◌, refl, true, false, not, List, [], ◌∷◌, ◌++◌, filter, ◌==◌, eq_refl, subst, ◌∙◌,
  ap,
}
use flash_bite.SagaWorker.DispatchWorkflow.{
  Activity, DispatchResult, Event, mark_busy, clear_busy, finished, start, run,
}
use flash_bite.SagaWorker.DispatchWorkflow.Protocol.{
  offers, Failure, out_of_rounds, out_of_drivers, abandoned, History,
}
use flash_bite.SagaWorker.DispatchWorkflow.Steps.{run-start-IsLawful}

-- The busy set after the activities, if each is carried out: SADD and SREM.
unfoldable pub busy_after : List String → List Activity → List String
busy_after busy [] = busy
busy_after busy (mark_busy d ∷ rest) = busy_after (d ∷ busy) rest
busy_after busy (clear_busy d ∷ rest) = busy_after (filter (λ x. not (x == d)) busy) rest
busy_after busy (_ ∷ rest) = busy_after busy rest

busy_after-offers :
    (before ds : List String) (t : List Activity)
    → busy_after [] (offers before ds ++ t) ≡ busy_after [] t
unfolding busy_after
busy_after-offers before [] t = refl
busy_after-offers before (d ∷ ds) t = busy_after-offers (before ++ d ∷ []) ds t

busy_after-Failure :
    (reason : String) (tried : List String) (t : List Activity)
    → Failure reason tried t
    → busy_after [] t ≡ []
unfolding busy_after
busy_after-Failure reason tried t (out_of_rounds _ e) = rw e
busy_after-Failure reason tried t (out_of_drivers _ e) = rw e
busy_after-Failure reason tried t (abandoned d true _ _ e) = rw e (rw (eq_refl d))
busy_after-Failure reason tried t (abandoned d false _ _ e) = rw e (rw (eq_refl d))

busy_after-finished :
    (r : DispatchResult) (tried : List String) (issued : List Activity)
    → History (finished r) tried issued
    → busy_after [] issued ≡ []
unfolding busy_after
busy_after-finished DispatchResult.failed tried issued (t, e, (reason, f)) =
    ap (busy_after []) e ∙ (busy_after-offers [] tried t ∙ busy_after-Failure reason tried t f)
busy_after-finished DispatchResult.delivered tried issued (t, e, (d, _, f)) =
    ap (busy_after []) e ∙ (busy_after-offers [] tried t ∙ rw f (rw (eq_refl d)))

-- When the dispatch workflow has returned, delivered or failed, whatever happened on the way, each
-- driver that it marked busy has been cleared.
pub no_driver_stays_busy :
    (max : ℕ) (es : List Event) (r : DispatchResult)
    → (run max (start max) es).at ≡ finished r
    → busy_after [] (run max (start max) es).issued ≡ []
no_driver_stays_busy max es r e =
    let wf = run max (start max) es in
    busy_after-finished r wf.tried wf.issued
      (subst (λ at. History at wf.tried wf.issued) e (run-start-IsLawful max es).history)
