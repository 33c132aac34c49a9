-- ===== src/WebShared/Session.antt =====
-- packages/web-shared/src: the session of a browser app (store/auth-store.ts), the requests that are
-- made in it (`authedFetch` of api/client.ts), and what is shown of it (components/auth-gate.tsx). A
-- promise that waits is a phase of its call; what settles it is an event, and events are handled one at
-- a time. `read_payload` is base64, UTF-8 and JSON, `none` where one of them throws.
pub mod Flight
pub mod Waits
use flash_bite.Prelude.{
  ℕ, zero, suc, String, ◌≡◌, ◌≢◌, Bool, true, false, not, ◌&&◌, List, [], ◌∷◌, ◌++◌, map, any,
  Option, none, some, or_else, is_some, ◌==◌, nat_eq, if◌then◌else◌, split,
}

pub record AuthClaims : Type 0 where
  pub sub : String
  pub tenant_id : String
  pub role : String

abbrev pub second : List String → String
second (_ ∷ payload ∷ _) = payload
second _ = ""

-- `decodeClaims`
unfoldable pub decode_claims : (String → Option AuthClaims) → String → AuthClaims
decode_claims read_payload token =
    or_else (read_payload (second (split b'.' token)))
      (record { sub = ""; tenant_id = ""; role = "" })

-- Where an `authedFetch` is: its first request is out, it awaits the refresh, its second request is
-- out, or it has returned or thrown.
pub data Phase : Type 0 where
  sent awaiting resent threw : Phase
  returned : ℕ → Phase

-- A call, with the tokens that its requests bore, the last one first.
pub record Call : Type 0 where
  pub phase : Phase
  pub tokens : List (Option String)

-- What goes to the identity service, and that a refresh has settled.
pub data Traffic : Type 0 where
  refresh_sent refresh_settled logout_sent : Traffic

-- The store, the two variables of its module, and the calls so far. `boot_waits` is a `bootstrap` that
-- awaits the refresh. The traffic has its last entry first.
pub record Browser : Type 0 where
  pub token : Option String
  pub claims : Option AuthClaims
  pub booting : Bool
  pub bootstrapped : Bool
  pub boot_waits : Bool
  pub refreshing : Bool
  pub calls : List Call
  pub traffic : List Traffic

abbrev pub start : Browser
start = record {
  token = none;
  claims = none;
  booting = true;
  bootstrapped = false;
  boot_waits = false;
  refreshing = false;
  calls = [];
  traffic = [];
}

-- `app_refresh` is another caller of `refreshAuthSession`, such as a stream's hook.
pub data Event : Type 0 where
  boot fetch logout app_refresh : Event
  answered : ℕ → ℕ → Event
  request_failed : ℕ → Event
  refresh_ended logged_in : Option String → Event

abbrev pub change : ℕ → (Call → Call) → List Call → List Call
change i f [] = []
change zero f (c ∷ cs) = f c ∷ cs
change (suc i) f (c ∷ cs) = c ∷ change i f cs

abbrev pub phase_at : ℕ → List Call → Option Phase
phase_at i [] = none
phase_at zero (c ∷ cs) = some c.phase
phase_at (suc i) (c ∷ cs) = phase_at i cs

abbrev pub set_phase : ℕ → Phase → Browser → Browser
set_phase i p b = record b { calls = change i (λ c. record c { phase = p }) b.calls }

abbrev pub is_awaiting : Call → Bool
is_awaiting c = elim c.phase [ awaiting ↦ true | _ ↦ false ]

-- `refreshAuthSession`: one refresh at a time, which all its callers await.
unfoldable pub join_refresh : Browser → Browser
join_refresh b =
    if b.refreshing then b else record b { refreshing = true; traffic = refresh_sent ∷ b.traffic }

unfoldable pub log_out : Browser → Browser
log_out b = record b { token = none; claims = none; traffic = logout_sent ∷ b.traffic }

-- What a call does when the refresh that it awaits has given a token, or none.
abbrev pub retried : String → Call → Call
retried token c =
    if is_awaiting c then record c { phase = resent; tokens = some token ∷ c.tokens } else c

abbrev pub given_up : Call → Call
given_up c = if is_awaiting c then record c { phase = threw } else c

abbrev pub logouts : List Call → List Traffic → List Traffic
logouts [] traffic = traffic
logouts (c ∷ cs) traffic =
    let rest = logouts cs traffic in if is_awaiting c then logout_sent ∷ rest else rest

-- The response of a request of the call `i`.
unfoldable pub respond : ℕ → ℕ → Phase → Browser → Browser
unfolding join_refresh log_out
respond i status sent b =
    if nat_eq status 401
    then join_refresh (set_phase i awaiting b)
    else set_phase i (returned status) b
respond i status resent b =
    if nat_eq status 401 then log_out (set_phase i threw b) else set_phase i (returned status) b
respond i status _ b = b

unfoldable pub lose : ℕ → Phase → Browser → Browser
lose i sent b = set_phase i threw b
lose i resent b = set_phase i threw b
lose i _ b = b

module _ (read_payload : String → Option AuthClaims) where
  abbrev pub set_token : String → Browser → Browser
  set_token t b = record b { token = some t; claims = some (decode_claims read_payload t) }

  abbrev pub settled : Browser → Browser
  settled b = record b {
    refreshing = false;
    traffic = refresh_settled ∷ b.traffic;
    booting = if b.boot_waits then false else b.booting;
    boot_waits = false;
  }

  -- The refresh has stored a token, or has failed; each call that awaits it goes on.
  unfoldable pub end_refresh : Option String → Browser → Browser
  unfolding decode_claims
  end_refresh (some t) b =
      let done = settled (set_token t b) in record done { calls = map (retried t) b.calls }
  end_refresh none b = record (settled b) {
    calls = map given_up b.calls;
    token = if any is_awaiting b.calls then none else b.token;
    claims = if any is_awaiting b.calls then none else b.claims;
    traffic = logouts b.calls (refresh_settled ∷ b.traffic);
  }

  unfoldable pub bootstrap : Browser → Browser
  unfolding join_refresh
  bootstrap b =
      if b.bootstrapped
      then b
      else join_refresh (record b { bootstrapped = true; boot_waits = true })

  unfoldable pub step : Event → Browser → Browser
  unfolding bootstrap end_refresh respond lose join_refresh log_out
  step boot b = bootstrap b
  step fetch b = record b { calls = b.calls ++ record { phase = sent; tokens = b.token ∷ [] } ∷ [] }
  step logout b = log_out b
  step app_refresh b = join_refresh b
  step (answered i status) b = elim (phase_at i b.calls) [
    | none ↦ b
    | some p ↦ respond i status p b
  ]
  step (request_failed i) b = elim (phase_at i b.calls) [ none ↦ b | some p ↦ lose i p b ]
  step (refresh_ended result) b = if b.refreshing then end_refresh result b else b
  step (logged_in none) b = b
  step (logged_in (some t)) b = set_token t b

  unfoldable pub run : List Event → Browser → Browser
  unfolding step
  run [] b = b
  run (e ∷ es) b = run es (step e b)

-- AuthGate
pub data Screen : Type 0 where
  loading login_form wrong_role app : Screen

abbrev pub has_role : String → Option AuthClaims → Bool
has_role role none = false
has_role role (some claims) = claims.role == role

abbrev pub is_given : Option String → Bool
is_given none = false
is_given (some s) = not (s == "")

unfoldable pub auth_gate : Option String → Browser → Screen
auth_gate required b =
    if b.booting
    then loading
    else if not (is_given b.token)
    then login_form
    else if is_given required && not (has_role (or_else required "") b.claims)
    then wrong_role
    else app
