-- ===== src/Tests/Sessions.antt =====
-- A browser whose token has run out.
use flash_bite.Prelude.{String, ◌≡◌, refl, true, List, [], ◌∷◌, Option, none, some}
use flash_bite.WebShared.Session.{
  Event, boot, fetch, answered, refresh_ended, app_refresh, AuthClaims, run, start, step, phase_at,
  awaiting, resent, threw, bootstrap, join_refresh, respond, end_refresh,
}
use flash_bite.WebShared.Session.Flight.{InOrder, single_flight}
use flash_bite.WebShared.Session.Waits.{Calls, run-start-Calls, awaiting_ends}

abbrev read_none : String → Option AuthClaims
read_none payload = none

abbrev stale : List Event
stale =
    boot
    ∷ refresh_ended (some "first")
    ∷ fetch
    ∷ fetch
    ∷ answered 0 401
    ∷ app_refresh
    ∷ answered 1 401
    ∷ []

single_flight_example : InOrder (run read_none stale start)
single_flight_example = single_flight read_none stale

run-start-Calls_example : Calls (run read_none stale start)
run-start-Calls_example = run-start-Calls read_none stale

call_awaits : phase_at 1 (run read_none stale start).calls ≡ some awaiting
unfolding run step bootstrap join_refresh respond end_refresh
call_awaits = refl

awaiting_ends_example :
    ((run read_none stale start).refreshing ≡ true)
    × (phase_at 1 (step read_none (refresh_ended (some "second")) (run read_none stale start)).calls
        ≡ some resent)
    × (phase_at 1 (step read_none (refresh_ended none) (run read_none stale start)).calls
        ≡ some threw)
awaiting_ends_example = awaiting_ends read_none stale 1 "second" call_awaits
