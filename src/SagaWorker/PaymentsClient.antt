-- ===== src/SagaWorker/PaymentsClient.antt =====
-- apps/saga-worker/src/payments-client.ts and the activities of activities.ts that call it. What `fetch`
-- comes to is an argument; `served` is what the payments service makes of a request.
use flash_bite.Prelude.{
  ℕ, ◌≡◌, refl, ap, ◌∙◌, String, ◌<>◌, Bool, true, false, ◌&&◌, List, [], ◌∷◌, none, some, Result,
  ok, throw, conflict, not_found, leb, ltb, arith, if◌then◌else◌, inl, inr, Bool-cases,
}
use flash_bite.Stores.{KeyedStore}
use flash_bite.Contracts.{PaymentStatus}
use flash_bite.Payments.{
  OutcomeWord, Payment, PaymentOutcome, captured_at, authorize, capture, void, created, decision,
  decide_authorize, next_on_capture, move_row, transition,
}
use flash_bite.Payments.History.{authorize-authorize}

-- A response's status with its body's outcome, or no response.
pub data HttpAnswer : Type 0 where
  answered : ℕ → String → OutcomeWord → HttpAnswer
  unreachable : String → HttpAnswer

-- What an activity comes to: `non_retryable` is an ApplicationFailure that Temporal does not retry.
pub data Called {ℓ} (A : Type ℓ) : Type ℓ where
  returned : A → Called A
  non_retryable retryable : String → Called A

-- `res.ok`
abbrev pub is_success : ℕ → Bool
is_success status = leb 200 status && ltb status 300

-- `code` is the status as a text.
unfoldable pub post : String → HttpAnswer → Called OutcomeWord
post path (unreachable message) = retryable message
post path (answered status code outcome) =
    if is_success status
    then returned outcome
    else if leb 400 status && ltb status 500
    then non_retryable ("payments " <> path <> " failed: " <> code)
    else retryable ("payments " <> path <> " failed: " <> code)

abbrev is_authorized : OutcomeWord → Bool
is_authorized OutcomeWord.declined = false
is_authorized _ = true

abbrev map_called {ℓ κ} : {A : Type ℓ} {B : Type κ} → (A → B) → Called A → Called B
map_called f (returned a) = returned (f a)
map_called f (non_retryable m) = non_retryable m
map_called f (retryable m) = retryable m

unfoldable pub authorize_payment : HttpAnswer → Called Bool
unfolding post
authorize_payment answer = map_called is_authorized (post "/payments/authorize" answer)

unfoldable pub capture_payment : HttpAnswer → Called (Unit {0})
unfolding post
capture_payment answer = map_called (λ _. tt) (post "/payments/capture" answer)

unfoldable pub void_payment : HttpAnswer → Called (Unit {0})
unfolding post
void_payment answer = map_called (λ _. tt) (post "/payments/void" answer)

-- The statuses that the framework gives to what the payments controller returns and throws
abbrev pub served : Result PaymentOutcome → HttpAnswer
served (ok p) = answered 201 "201" p.outcome
served (throw (not_found _)) = answered 404 "404" OutcomeWord.declined
served (throw (conflict _)) = answered 409 "409" OutcomeWord.declined
served (throw _) = answered 500 "500" OutcomeWord.declined

module _ (table : KeyedStore (String × String) Payment) (t o : String) (amount threshold : ℕ) where
  open table use {Db, find, put}

  -- The activity, tried again after responses that were lost: one id and one time for each time that
  -- the service is asked once more.
  unfoldable pub retried :
      List (String × ℕ) → Result PaymentOutcome × Db → Result PaymentOutcome × Db
  retried [] last = last
  retried ((id, now) ∷ more) last =
      retried more (authorize table id now t o amount threshold last.1)

  again :
      (id : String) (now : ℕ) (more : List (String × ℕ)) (db : Db)
      → find db (t, o) ≡ none
      → let first = authorize table id now t o amount threshold db in retried more first ≡ first
  unfolding retried
  again id now [] db h = refl
  again id now ((id', now') ∷ more) db h =
      ap (retried more) (authorize-authorize table id id' now now' t o amount amount threshold db h)
      ∙ again id now more db h

  -- the status of a first authorization, by the amount
  decided : PaymentStatus
  decided = if ltb amount threshold then PaymentStatus.authorized else PaymentStatus.declined

  decide_authorize-decided : decide_authorize amount threshold ≡ decided
  unfolding decide_authorize decided
  decide_authorize-decided = ground arith

  authorize-decided :
      (id : String) (now : ℕ) (db : Db)
      → find db (t, o) ≡ none
      → authorize table id now t o amount threshold db ≡ (
        ok (record { payment_id = id; outcome = decision decided }),
        put db (t, o) (created id now o amount decided),
      )
  unfolding authorize
  authorize-decided id now db h = rw (h, authorize, decide_authorize-decided) refl

  learnt :
      (id : String) (now : ℕ) (db : Db)
      → find db (t, o) ≡ none
      → authorize_payment (served (authorize table id now t o amount threshold db).0)
        ≡ returned (ltb amount threshold)
  unfolding authorize_payment post decided
  learnt id now db h =
      ap (λ r. authorize_payment (served r.0)) (authorize-decided id now db h)
      ∙ elim (Bool-cases (ltb amount threshold)) [
        | inl e ↦ rw (e, decided) refl
        | inr e ↦ rw (e, decided) refl
      ]

  captured_from :
      (later : ℕ) (p : Payment) (db : Db)
      → find db (t, o) ≡ some p
      → (capture table later t o db).0
        ≡ (move_row table next_on_capture captured_at OutcomeWord.captured later (t, o) p db).0
  unfolding capture transition
  captured_from later p db h = rw (h, transition) refl

  captured_later :
      (id : String) (now later : ℕ) (db : Db)
      → find db (t, o) ≡ none
      → capture_payment
          (served (capture table later t o (authorize table id now t o amount threshold db).1).0)
        ≡ (if ltb amount threshold
            then returned tt
            else non_retryable "payments /payments/capture failed: 409")
  unfolding capture_payment post move_row next_on_capture decided
  captured_later id now later db h =
      let made = put db (t, o) (created id now o amount decided) in
      ap (λ r. capture_payment (served (capture table later t o r.1).0))
        (authorize-decided id now db h)
      ∙ ap (λ r. capture_payment (served r))
          (captured_from later (created id now o amount decided) made (
            table.find-put db (t, o) (t, o) (created id now o amount decided)
            ∙ rw ((table.same_iff (t, o) (t, o)).1 refl) refl))
      ∙ elim (Bool-cases (ltb amount threshold)) [
        | inl e ↦ rw (e, decided) refl
        | inr e ↦ rw (e, decided) refl
      ]

  unpaid_capture :
      (later : ℕ) (db : Db)
      → find db (t, o) ≡ none
      → capture_payment (served (capture table later t o db).0)
        ≡ non_retryable "payments /payments/capture failed: 404"
  unfolding capture_payment post capture transition
  unpaid_capture later db h = rw (h, transition) refl

  unpaid_void :
      (later : ℕ) (db : Db)
      → find db (t, o) ≡ none
      → void_payment (served (void table later t o db).0)
        ≡ non_retryable "payments /payments/void failed: 404"
  unfolding void_payment post void transition
  unpaid_void later db h = rw (h, transition) refl

  -- However often the authorization of an order without a payment is sent again, because responses
  -- are lost, the payment is the one that the first request made. The saga learns that it is authorized
  -- when the amount is below the threshold, and that it is not otherwise; a capture later on then
  -- answers, or, of a payment that was declined, fails and is not tried again. A capture or a void
  -- without the authorization fails and is not tried again.
  pub authorize_payment-retried :
      (id : String) (now later : ℕ) (more : List (String × ℕ)) (db : Db)
      → find db (t, o) ≡ none
      → let last = retried more (authorize table id now t o amount threshold db) in
        (last.1 ≡ (authorize table id now t o amount threshold db).1)
        × (authorize_payment (served last.0) ≡ returned (ltb amount threshold))
        × (capture_payment (served (capture table later t o last.1).0) ≡ (
            if ltb amount threshold
            then returned tt
            else non_retryable "payments /payments/capture failed: 409"))
        × (capture_payment (served (capture table later t o db).0)
            ≡ non_retryable "payments /payments/capture failed: 404")
        × (void_payment (served (void table later t o db).0)
            ≡ non_retryable "payments /payments/void failed: 404")
  authorize_payment-retried id now later more db h =
      let same = again id now more db h in
      (
        ap (λ r. r.1) same,
        ap (λ r. authorize_payment (served r.0)) same ∙ learnt id now db h,
        ap (λ r. capture_payment (served (capture table later t o r.1).0)) same
            ∙ captured_later id now later db h,
        unpaid_capture later db h,
        unpaid_void later db h,
      )
