-- ===== src/WebShared/Session/Flight.antt =====
-- Refreshes go one at a time (store/auth-store.ts).
use flash_bite.Prelude.{
  ℕ, String, ◌≡◌, refl, Bool, true, false, List, [], ◌∷◌, Option, none, some, arith, inl, inr,
  Bool-cases, Option-cases,
}
use flash_bite.WebShared.Session.{
  AuthClaims, Phase, sent, awaiting, resent, threw, returned, Call, Traffic, refresh_sent,
  refresh_settled, logout_sent, Browser, start, Event, boot, fetch, logout, app_refresh, answered,
  request_failed, refresh_ended, logged_in, phase_at, set_phase, join_refresh, log_out, logouts,
  respond, lose, end_refresh, bootstrap, step, run,
}

abbrev pub taken_off : Option Bool → Option Bool
taken_off (some false) = some true
taken_off _ = none

abbrev pub landed : Option Bool → Option Bool
landed (some true) = some false
landed _ = none

-- Whether a refresh is under way after this traffic; `none` if one was sent while another was, or one
-- settled that was not sent.
unfoldable pub flight : List Traffic → Option Bool
flight [] = some false
flight (refresh_sent ∷ traffic) = taken_off (flight traffic)
flight (refresh_settled ∷ traffic) = landed (flight traffic)
flight (logout_sent ∷ traffic) = flight traffic

abbrev pub InOrder : Browser → Type 0
InOrder b = flight b.traffic ≡ some b.refreshing

flight-logouts :
    (cs : List Call) (traffic : List Traffic) → flight (logouts cs traffic) ≡ flight traffic
unfolding flight
flight-logouts [] traffic = refl
flight-logouts (c ∷ cs) traffic = ground (arith, flight-logouts cs traffic)

join_refresh-InOrder : (b : Browser) → InOrder b → InOrder (join_refresh b)
unfolding join_refresh flight
join_refresh-InOrder b h = elim (Bool-cases b.refreshing) [
  | inl e ↦ ground (arith, h, e)
  | inr e ↦ ground (arith, h, e)
]

respond-InOrder :
    (i status : ℕ) (p : Phase) (b : Browser) → InOrder b → InOrder (respond i status p b)
unfolding respond log_out flight
respond-InOrder i status sent b h = ground (arith, join_refresh-InOrder (set_phase i awaiting b) h)
respond-InOrder i status resent b h = ground (arith, h)
respond-InOrder i status awaiting b h = h
respond-InOrder i status threw b h = h
respond-InOrder i status (returned _) b h = h

lose-InOrder : (i : ℕ) (p : Phase) (b : Browser) → InOrder b → InOrder (lose i p b)
unfolding lose
lose-InOrder i sent b h = h
lose-InOrder i resent b h = h
lose-InOrder i awaiting b h = h
lose-InOrder i threw b h = h
lose-InOrder i (returned _) b h = h

module _ (read_payload : String → Option AuthClaims) where
  end_refresh-InOrder :
      (result : Option String) (b : Browser)
      → b.refreshing ≡ true
      → InOrder b
      → InOrder (end_refresh read_payload result b)
  unfolding end_refresh flight
  end_refresh-InOrder (some t) b r h = ground (arith, r, h)
  end_refresh-InOrder none b r h =
      ground (arith, r, h, flight-logouts b.calls (refresh_settled ∷ b.traffic))

  step-InOrder : (e : Event) (b : Browser) → InOrder b → InOrder (step read_payload e b)
  unfolding step bootstrap log_out flight
  step-InOrder boot b h =
      ground (arith, h, join_refresh-InOrder (record b { bootstrapped = true; boot_waits = true }))
  step-InOrder fetch b h = h
  step-InOrder logout b h = h
  step-InOrder app_refresh b h = join_refresh-InOrder b h
  step-InOrder (answered i status) b h = elim (Option-cases (phase_at i b.calls)) [
    | inl e ↦ rw (step, e) h
    | inr (p, e) ↦ rw (step, e) (respond-InOrder i status p b h)
  ]
  step-InOrder (request_failed i) b h = elim (Option-cases (phase_at i b.calls)) [
    | inl e ↦ rw (step, e) h
    | inr (p, e) ↦ rw (step, e) (lose-InOrder i p b h)
  ]
  step-InOrder (refresh_ended result) b h = elim (Bool-cases b.refreshing) [
    | inl e ↦ ground (arith, e, end_refresh-InOrder result b e h)
    | inr e ↦ ground (arith, e, h)
  ]
  step-InOrder (logged_in none) b h = h
  step-InOrder (logged_in (some t)) b h = h

  run-InOrder : (es : List Event) (b : Browser) → InOrder b → InOrder (run read_payload es b)
  unfolding run
  run-InOrder [] b h = h
  run-InOrder (e ∷ es) b h = run-InOrder es (step read_payload e b) (step-InOrder e b h)

  -- Whatever the app, its user and the network do, in whatever order: no refresh is sent while another
  -- is under way, none settles that was not sent, and `refreshing` says whether one is under way.
  pub single_flight : (es : List Event) → InOrder (run read_payload es start)
  unfolding flight
  single_flight es = run-InOrder es start refl
