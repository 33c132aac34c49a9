-- ===== src/SagaWorker/Consumer.antt =====
-- apps/saga-worker/src/main.ts: the consumer that starts one workflow for each order that is placed.
-- Temporal's client is a parameter.
use flash_bite.Prelude.{
  ℕ, ◌≤◌, ◌<◌, String, ◌<>◌, ◌≡◌, refl, sym, ap, subst, ◌∙◌, false, List, [], ◌∷◌, ◌++◌, count,
  count-append, Option, none, some, Result, ok, throw, error, ◌==◌, eq_iff, eq_refl, if◌then◌else◌,
  arith, ◌⊎◌, inl, inr, Bool-cases,
}
use flash_bite.Contracts.{OrderPlacedPayload}
use flash_bite.Contracts.Keys.{scoped_id}
use flash_bite.Messaging.Headers.{EnvelopeMeta, KafkaMessage, read_envelope}
use flash_bite.SagaWorker.Starts.{
  SagaTimes, SagaInput, has_id, ReusePolicy, Started, begun, already_started, failed,
  already_started_text, says, Temporal, is_already_started,
}

module _ (temporal : Temporal) (times : SagaTimes) (P : Type 0) (as_placed : P → OrderPlacedPayload)
    (decode : String → Result P) (number : String → ℕ) where
  open temporal use {Db, executions, start}

  abbrev pub workflow_id : EnvelopeMeta → P → String
  workflow_id meta payload = scoped_id meta.tenant_id (as_placed payload).order_id

  abbrev pub input_of : EnvelopeMeta → P → SagaInput
  input_of meta payload = record {
    tenant_id = meta.tenant_id;
    order_id = (as_placed payload).order_id;
    total_amount = (as_placed payload).total_amount;
    times = times;
    correlation_id = meta.correlation_id;
  }

  -- The `catch`: `throw` for an exception whose text does not say that the workflow was started
  abbrev caught : String → Result (Unit {0})
  caught text = if is_already_started text then ok tt else throw (error text)

  abbrev answer : Started → Result (Unit {0})
  answer begun = ok tt
  answer already_started = caught already_started_text
  answer (failed text) = caught text

  unfoldable pub start_workflow : EnvelopeMeta → P → Db → Result (Unit {0}) × Db
  unfolding is_already_started
  start_workflow meta payload db =
      let done =
        start ReusePolicy.reject_duplicate db (workflow_id meta payload) (input_of meta payload) in
      (answer done.0, done.1)

  abbrev pub handle : Result (Option (EnvelopeMeta × P)) → Db → Result (Unit {0}) × Db
  handle (throw e) db = (throw e, db)
  handle (ok none) db = (ok tt, db)
  handle (ok (some (meta, payload))) db =
      if meta.event_type == "OrderPlaced" then start_workflow meta payload db else (ok tt, db)

  -- `eachMessage`; a message whose handling throws comes again.
  unfoldable pub each_message : String → KafkaMessage → Db → Result (Unit {0}) × Db
  unfolding read_envelope start_workflow
  each_message new_id message db = handle (read_envelope decode number new_id message) db

  -- Deliveries, in whatever order and however often
  unfoldable pub deliver_all : List (String × KafkaMessage) → Db → Db
  unfolding each_message
  deliver_all [] db = db
  deliver_all ((new_id, message) ∷ rest) db = deliver_all rest (each_message new_id message db).1

  -- No two executions have one id.
  abbrev pub OneEach : Db → Type 0
  OneEach db = (id : String) → count (has_id id) (executions db) ≤ 1

  appended :
      (id other : String) (input : SagaInput) (xs ys : List (String × SagaInput))
      → count (has_id id) xs ≡ 0
      → ys ≡ xs ++ (id, input) ∷ []
      → count (has_id other) xs ≤ 1
      → count (has_id other) ys ≤ 1
  appended id other input xs ys z e h =
      rw (e, count-append (has_id other) xs ((id, input) ∷ []))
        (elim (Bool-cases (id == other)) [
          | inl same ↦
              let none_yet : count (has_id other) xs ≡ 0 =
                subst (λ x. count (has_id x) xs ≡ 0) ((eq_iff id other).0 same) z in
              ground (arith, same, none_yet)
          | inr differs ↦ ground (arith, differs, h)
        ])

  Started-cases :
      (x : Started) → (x ≡ begun) ⊎ (x ≡ already_started) ⊎ ((text : String) × (x ≡ failed text))
  Started-cases begun = inl refl
  Started-cases already_started = inr (inl refl)
  Started-cases (failed text) = inr (inr (text, refl))

  -- Whatever a start answers, it has begun the execution, whose id was not used, or has done nothing.
  start_grows :
      (id : String) (input : SagaInput) (db : Db)
      → (executions (start ReusePolicy.reject_duplicate db id input).1 ≡ executions db)
        ⊎ ((count (has_id id) (executions db) ≡ 0)
            × (executions (start ReusePolicy.reject_duplicate db id input).1
                ≡ executions db ++ (id, input) ∷ []))
  start_grows id input db =
      elim (Started-cases (start ReusePolicy.reject_duplicate db id input).0) [
        | inl e ↦ inr (temporal.start_begun db id input e)
        | inr (inl e) ↦ inl (temporal.start_refused db id input e).1
        | inr (inr (text, e)) ↦ (temporal.start_failed db id input text e).2
      ]

  db-start_workflow :
      (meta : EnvelopeMeta) (payload : P) (db : Db)
      → (start_workflow meta payload db).1
        ≡ (start ReusePolicy.reject_duplicate db
            (workflow_id meta payload)
            (input_of meta payload)).1
  unfolding start_workflow
  db-start_workflow meta payload db = refl

  start_workflow-OneEach :
      (meta : EnvelopeMeta) (payload : P) (db : Db)
      → OneEach db
      → OneEach (start_workflow meta payload db).1
  start_workflow-OneEach meta payload db h other =
      rw (db-start_workflow meta payload db)
        (elim (start_grows (workflow_id meta payload) (input_of meta payload) db) [
          | inl same ↦ rw same (h other)
          | inr (none_yet, more) ↦
              appended (workflow_id meta payload) other (input_of meta payload) (executions db) _
                none_yet more (h other)
        ])

  handle-OneEach :
      (r : Result (Option (EnvelopeMeta × P))) (db : Db) → OneEach db → OneEach (handle r db).1
  handle-OneEach (throw e) db h = h
  handle-OneEach (ok none) db h = h
  handle-OneEach (ok (some (meta, payload))) db h =
      elim (Bool-cases (meta.event_type == "OrderPlaced")) [
        | inl e ↦ rw e (start_workflow-OneEach meta payload db h)
        | inr e ↦ rw e h
      ]

  deliver_all-OneEach :
      (ms : List (String × KafkaMessage)) (db : Db) → OneEach db → OneEach (deliver_all ms db)
  unfolding deliver_all each_message
  deliver_all-OneEach [] db h = h
  deliver_all-OneEach ((new_id, message) ∷ rest) db h =
      deliver_all-OneEach rest (each_message new_id message db).1
        (handle-OneEach (read_envelope decode number new_id message) db h)

  started :
      (meta : EnvelopeMeta) (payload : P) (db : Db)
      → (start_workflow meta payload db).0 ≡ ok tt
      → 0
        < count (has_id (workflow_id meta payload)) (executions (start_workflow meta payload db).1)
  unfolding start_workflow is_already_started
  started meta payload db h =
      let id = workflow_id meta payload in
      let input = input_of meta payload in
      elim (Started-cases (start ReusePolicy.reject_duplicate db id input).0) [
        | inl e ↦
            let more = (temporal.start_begun db id input e).1 in
            rw
              (
                db-start_workflow meta payload db,
                more,
                count-append (has_id id) (executions db) ((id, input) ∷ []),
                eq_refl id,
              )
              (omega arith)
        | inr (inl e) ↦
            let refused = temporal.start_refused db id input e in
            rw (db-start_workflow meta payload db, refused.1) refused.0
        | inr (inr (text, e)) ↦
            let other = temporal.start_failed db id input text e in
            cc (rw (start_workflow, e, other.0, other.1) at h)
      ]

  placed :
      (meta : EnvelopeMeta) (payload : P) (db : Db)
      → meta.event_type ≡ "OrderPlaced"
      → handle (ok (some (meta, payload))) db ≡ start_workflow meta payload db
  placed meta payload db e = rw (e, handle) refl

  -- The handling returned, or failed on an exception that does not say that the workflow was started.
  abbrev pub TakenOrFailed : Result (Unit {0}) → Type 0
  TakenOrFailed r =
      (r ≡ ok tt)
      ⊎ ((text : String) × (r ≡ throw (error text)) × (says "already started" text ≡ false))

  start_workflow-TakenOrFailed :
      (meta : EnvelopeMeta) (payload : P) (db : Db)
      → TakenOrFailed (start_workflow meta payload db).0
  unfolding start_workflow is_already_started says
  start_workflow-TakenOrFailed meta payload db =
      let id = workflow_id meta payload in
      let input = input_of meta payload in
      elim (Started-cases (start ReusePolicy.reject_duplicate db id input).0) [
        | inl e ↦ inl (ap answer e)
        | inr (inl e) ↦ inl (ap answer e)
        | inr (inr (text, e)) ↦
            let other = temporal.start_failed db id input text e in
            inr (text, ap answer e ∙ rw (other.0, other.1) refl, other.0)
      ]

  -- However often and in whatever order messages are delivered, and whatever starts fail or have their
  -- answers lost: once the handler of a message that places an order returns, there is exactly one
  -- execution under the id `<tenant>:<order>`, whatever the message's own id, and no other id has two,
  -- if no id had two at first. The message delivered once more is taken, or fails on an exception that
  -- does not say that the workflow was started.
  pub one_workflow_per_order :
      (ms : List (String × KafkaMessage)) (db : Db) (new_id : String) (message : KafkaMessage)
      (meta : EnvelopeMeta) (payload : P)
      → OneEach db
      → read_envelope decode number new_id message ≡ ok (some (meta, payload))
      → meta.event_type ≡ "OrderPlaced"
      → (each_message new_id message (deliver_all ms db)).0 ≡ ok tt
      → let after = (each_message new_id message (deliver_all ms db)).1 in
        OneEach after
        × (count (has_id (meta.tenant_id <> ":" <> (as_placed payload).order_id)) (executions after)
            ≡ 1)
        × TakenOrFailed (each_message new_id message after).0
  unfolding each_message scoped_id
  one_workflow_per_order ms db new_id message meta payload h read named returned =
      let before = deliver_all ms db in
      let handled : (d : Db) → each_message new_id message d ≡ start_workflow meta payload d =
        λ d. ap (λ r. handle r d) read ∙ placed meta payload d named in
      let after = (each_message new_id message before).1 in
      let one = start_workflow-OneEach meta payload before (deliver_all-OneEach ms db h) in
      (
        subst OneEach (ap (λ r. r.1) (sym (handled before))) one,
        rw (handled before) (
            omega (
              arith,
              one (workflow_id meta payload),
              started meta payload before (rw (handled before) at returned),
            )),
        subst TakenOrFailed (ap (λ r. r.0) (sym (handled after)))
            (start_workflow-TakenOrFailed meta payload after),
      )
