-- ===== src/WebShared/Session/Waits.antt =====
-- What becomes of the calls (`authedFetch` of api/client.ts).
use flash_bite.Prelude.{
  ℕ, zero, suc, ◌≤◌, String, ◌≡◌, refl, Bool, true, false, List, [], ◌∷◌, map, subst, All,
  All-append, Option, none, some, length, nat_eq, if◌then◌else◌, arith, inl, inr, Bool-cases,
  Option-cases,
}
use flash_bite.WebShared.Session.{
  AuthClaims, Phase, sent, awaiting, resent, threw, returned, Call, Browser, start, Event, boot,
  fetch, logout, app_refresh, answered, request_failed, refresh_ended, logged_in, change, phase_at,
  set_phase, retried, given_up, join_refresh, log_out, respond, lose, end_refresh, bootstrap, step,
  run,
}

-- What a call has done in each of its phases: one request before the refresh, which is under way while
-- the call awaits it, and one after.
abbrev pub HasSent : Bool → Phase → ℕ → Type 0
HasSent refreshing sent n = n ≡ 1
HasSent refreshing awaiting n = (n ≡ 1) × (refreshing ≡ true)
HasSent refreshing resent n = n ≡ 2
HasSent refreshing threw n = n ≤ 2
HasSent refreshing (returned _) n = n ≤ 2

abbrev pub IsCall : Bool → Call → Type 0
IsCall refreshing c = HasSent refreshing c.phase (length c.tokens)

abbrev pub Calls : Browser → Type 0
Calls b = All (IsCall b.refreshing) b.calls

-- Every call is one that a refresh under way may be awaited by.
under_way : (r : Bool) (cs : List Call) → All (IsCall r) cs → All (IsCall true) cs
under_way true cs h = h
under_way false [] h = h
under_way false (c ∷ cs) h = (still c.phase (length c.tokens) h.0, under_way false cs h.1)
  where
    still : (p : Phase) (n : ℕ) → HasSent false p n → HasSent true p n
    still sent n h = h
    still awaiting n h = (h.0, refl)
    still resent n h = h
    still threw n h = h
    still (returned _) n h = h

some-inj {ℓ} : {A : Type ℓ} {a b : A} → ◌≡◌ {A = Option A} (some a) (some b) → a ≡ b
some-inj e = cc

changed :
    (r : Bool) (i : ℕ) (p q : Phase) (cs : List Call)
    → ((n : ℕ) → HasSent r p n → HasSent r q n)
    → phase_at i cs ≡ some p
    → All (IsCall r) cs
    → All (IsCall r) (change i (λ c. record c { phase = q }) cs)
changed r i p q [] f e h = h
changed r zero p q (c ∷ cs) f e h =
    (f (length c.tokens) (subst (λ x. HasSent r x (length c.tokens)) (some-inj e) h.0), h.1)
changed r (suc i) p q (c ∷ cs) f e h = (h.0, changed r i p q cs f e h.1)

joined : (b : Browser) → (join_refresh b).refreshing ≡ true
unfolding join_refresh
joined b = ground arith

same_calls : (b : Browser) → (join_refresh b).calls ≡ b.calls
unfolding join_refresh
same_calls b = ground arith

join_refresh-Calls : (b : Browser) → All (IsCall true) b.calls → Calls (join_refresh b)
join_refresh-Calls b h = rw (joined b, same_calls b) h

respond-Calls :
    (i status : ℕ) (p : Phase) (b : Browser)
    → phase_at i b.calls ≡ some p
    → Calls b
    → Calls (respond i status p b)
unfolding respond log_out
respond-Calls i status sent b e h = elim (Bool-cases (nat_eq status 401)) [
  | inl f ↦
      rw (respond, f)
        (join_refresh-Calls (set_phase i awaiting b) (
          changed true i sent awaiting b.calls (λ n s. (s, refl)) e
            (under_way b.refreshing b.calls h)))
  | inr f ↦
      rw (respond, f)
        (changed b.refreshing i sent (returned status) b.calls (λ n s. omega (arith, s)) e h)
]
respond-Calls i status resent b e h = elim (Bool-cases (nat_eq status 401)) [
  | inl f ↦
      rw (respond, f) (changed b.refreshing i resent threw b.calls (λ n s. omega (arith, s)) e h)
  | inr f ↦
      rw (respond, f)
        (changed b.refreshing i resent (returned status) b.calls (λ n s. omega (arith, s)) e h)
]
respond-Calls i status awaiting b e h = h
respond-Calls i status threw b e h = h
respond-Calls i status (returned _) b e h = h

lose-Calls :
    (i : ℕ) (p : Phase) (b : Browser) → phase_at i b.calls ≡ some p → Calls b → Calls (lose i p b)
unfolding lose
lose-Calls i sent b e h = changed b.refreshing i sent threw b.calls (λ n s. omega (arith, s)) e h
lose-Calls i resent b e h =
    changed b.refreshing i resent threw b.calls (λ n s. omega (arith, s)) e h
lose-Calls i awaiting b e h = h
lose-Calls i threw b e h = h
lose-Calls i (returned _) b e h = h

retried-IsCall :
    (r : Bool) (t : String) (p : Phase) (ts : List (Option String))
    → HasSent r p (length ts)
    → IsCall false (retried t (record { phase = p; tokens = ts }))
retried-IsCall r t sent ts h = h
retried-IsCall r t awaiting ts h = omega (arith, h.0)
retried-IsCall r t resent ts h = h
retried-IsCall r t threw ts h = h
retried-IsCall r t (returned _) ts h = h

given_up-IsCall :
    (r : Bool) (p : Phase) (ts : List (Option String))
    → HasSent r p (length ts)
    → IsCall false (given_up (record { phase = p; tokens = ts }))
given_up-IsCall r sent ts h = h
given_up-IsCall r awaiting ts h = omega (arith, h.0)
given_up-IsCall r resent ts h = h
given_up-IsCall r threw ts h = h
given_up-IsCall r (returned _) ts h = h

-- What is done to each call.
mapped :
    (r s : Bool) (f : Call → Call)
    → ((c : Call) → IsCall r c → IsCall s (f c))
    → (cs : List Call) → All (IsCall r) cs
    → All (IsCall s) (map f cs)
mapped r s f k [] h = h
mapped r s f k (c ∷ cs) h = (k c h.0, mapped r s f k cs h.1)

either : (t : Bool) (x y : Browser) → Calls x → Calls y → Calls (if t then x else y)
either true x y hx hy = hx
either false x y hx hy = hy

module _ (read_payload : String → Option AuthClaims) where
  end_refresh-Calls :
      (result : Option String) (b : Browser) → Calls b → Calls (end_refresh read_payload result b)
  unfolding end_refresh
  end_refresh-Calls (some t) b h =
      mapped b.refreshing false (retried t)
        (λ c k. retried-IsCall b.refreshing t c.phase c.tokens k) b.calls h
  end_refresh-Calls none b h =
      mapped b.refreshing false given_up (λ c k. given_up-IsCall b.refreshing c.phase c.tokens k)
        b.calls h

  step-Calls : (e : Event) (b : Browser) → Calls b → Calls (step read_payload e b)
  unfolding step bootstrap log_out
  step-Calls boot b h = elim (Bool-cases b.bootstrapped) [
    | inl e ↦ rw (step, bootstrap, e) h
    | inr e ↦
        rw (step, bootstrap, e)
          (join_refresh-Calls (record b { bootstrapped = true; boot_waits = true })
            (under_way b.refreshing b.calls h))
  ]
  step-Calls fetch b h =
      All-append (IsCall b.refreshing) b.calls (record { phase = sent; tokens = b.token ∷ [] } ∷ [])
        h (refl, tt)
  step-Calls logout b h = h
  step-Calls app_refresh b h = join_refresh-Calls b (under_way b.refreshing b.calls h)
  step-Calls (answered i status) b h = elim (Option-cases (phase_at i b.calls)) [
    | inl e ↦ rw (step, e) h
    | inr (p, e) ↦ rw (step, e) (respond-Calls i status p b e h)
  ]
  step-Calls (request_failed i) b h = elim (Option-cases (phase_at i b.calls)) [
    | inl e ↦ rw (step, e) h
    | inr (p, e) ↦ rw (step, e) (lose-Calls i p b e h)
  ]
  step-Calls (refresh_ended result) b h =
      either b.refreshing (end_refresh read_payload result b) b (end_refresh-Calls result b h) h
  step-Calls (logged_in none) b h = h
  step-Calls (logged_in (some t)) b h = h

  run-Calls : (es : List Event) (b : Browser) → Calls b → Calls (run read_payload es b)
  unfolding run
  run-Calls [] b h = h
  run-Calls (e ∷ es) b h = run-Calls es (step read_payload e b) (step-Calls e b h)

  -- Whatever the app, its user and the network do, in whatever order: a call has sent one request until a
  -- refresh that it awaited gave a token, two from then on, and no third; and it awaits only while a
  -- refresh is under way.
  pub run-start-Calls : (es : List Event) → Calls (run read_payload es start)
  run-start-Calls es = run-Calls es start tt

  phase_of-retried :
      (i : ℕ) (t : String) (cs : List Call)
      → phase_at i cs ≡ some awaiting
      → phase_at i (map (retried t) cs) ≡ some resent
  phase_of-retried i t [] e = cc
  phase_of-retried zero t (c ∷ cs) e = ground (arith, e)
  phase_of-retried (suc i) t (c ∷ cs) e = phase_of-retried i t cs e

  phase_of-given_up :
      (i : ℕ) (cs : List Call)
      → phase_at i cs ≡ some awaiting
      → phase_at i (map given_up cs) ≡ some threw
  phase_of-given_up i [] e = cc
  phase_of-given_up zero (c ∷ cs) e = ground (arith, e)
  phase_of-given_up (suc i) (c ∷ cs) e = phase_of-given_up i cs e

  awaiting_joins :
      (r : Bool) (i : ℕ) (cs : List Call)
      → All (IsCall r) cs
      → phase_at i cs ≡ some awaiting
      → r ≡ true
  awaiting_joins r i [] h e = cc
  awaiting_joins r zero (c ∷ cs) h e =
      (subst (λ p. HasSent r p (length c.tokens)) (some-inj e) h.0).1
  awaiting_joins r (suc i) (c ∷ cs) h e = awaiting_joins r i cs h.1 e

  -- No call awaits in vain: whenever one awaits, a refresh is under way, and its end, whatever it
  -- brings, lets the call go on: with a token, to its second request, and without, to its exception.
  pub awaiting_ends :
      (es : List Event) (i : ℕ) (t : String)
      → phase_at i (run read_payload es start).calls ≡ some awaiting
      → ((run read_payload es start).refreshing ≡ true)
        × (phase_at i (step read_payload (refresh_ended (some t)) (run read_payload es start)).calls
            ≡ some resent)
        × (phase_at i (step read_payload (refresh_ended none) (run read_payload es start)).calls
            ≡ some threw)
  unfolding step end_refresh
  awaiting_ends es i t e =
      let b = run read_payload es start in
      let under = awaiting_joins b.refreshing i b.calls (run-start-Calls es) e in
      (
        under,
        rw (step, under) (phase_of-retried i t b.calls e),
        rw (step, under) (phase_of-given_up i b.calls e),
      )
