-- ===== src/Tests/Reads.antt =====
-- An order that is read twice, and an order that is delivered twice.
use flash_bite.Prelude.{
  ℕ, ◌+◌, ◌*◌, ◌<◌, String, ◌≡◌, refl, Bool, true, false, List, [], ◌∷◌, ◌++◌, any, count, Option,
  none, some, Result, ok, ◌==◌, ltb, eq_iff, arith, if◌then◌else◌,
}
use flash_bite.Contracts.{OrderView, OrderStatus, OrderPlacedPayload}
use flash_bite.Contracts.Keys.{scoped_id, tenant_key, join_colon}
use flash_bite.Stores.{KeyedStore, association_list, find_entry}
use flash_bite.Messaging.Headers.{EnvelopeMeta, KafkaMessage, Header, Headers, read_envelope}
use flash_bite.TenantContext.{AuthContext}
use flash_bite.ReadApi.Orders.{Cache, Codec, Call, gets, finds, sets, answers, advance, get_order}
use flash_bite.ReadApi.Orders.Freshness.{
  World, Flight, Reach, here, next, begins, goes_on, waits, writes, with_call, HeldLately, moments,
  get_order-HeldLately,
}
use flash_bite.SagaWorker.Starts.{
  Temporal, Started, SagaTimes, SagaInput, has_id, is_already_started,
}
use flash_bite.SagaWorker.Consumer.{
  OneEach, TakenOrFailed, each_message, deliver_all, one_workflow_per_order,
}

-- A cache as a list of what was set, with the time at which it goes.
pub record Entry : Type 0 where
  pub key : String
  pub view : OrderView
  pub until : ℕ

abbrev get_entry : ℕ → List Entry → String → Option OrderView
get_entry now [] j = none
get_entry now (e ∷ es) j =
    let rest = get_entry now es j in
    if e.key == j then if ltb now e.until then some e.view else none else rest

abbrev list_cache : Cache OrderView
list_cache = record {
  Db = List Entry;
  get = get_entry;
  set_ex = λ now k v seconds db. record { key = k; view = v; until = now + seconds * 1000 } ∷ db;
  get-set_ex = λ db now later k j v seconds h. refl;
}

abbrev same_view : Codec OrderView OrderView
same_view = record { json = λ v. v; parse = λ v. v; is_empty = λ v. false; parse-json = λ v. refl }

abbrev orders : KeyedStore String OrderView
orders = association_list String OrderView (λ a b. a == b) eq_iff

abbrev order : OrderStatus → ℕ → OrderView
order status version = record {
  tenant_id = "berlin";
  order_id = "order-1";
  customer_id = "ada";
  items = [];
  total_amount = 1200;
  status = status;
  version = version;
  updated_at = 0;
  cancel_reason = none;
}

abbrev ada : AuthContext
ada = record { tenant_id = "berlin"; role = "customer"; sub = "ada" }

abbrev at_first : World orders OrderView list_cache same_view
at_first = record {
  now = 0;
  collection = ("berlin:order-1", order OrderStatus.placed 1) ∷ [];
  cached = [];
  calls = λ n. none;
  past = [];
}

abbrev key : String
key = "tenant:{berlin}:order:order-1:view"

abbrev flight :
    Call orders OrderView list_cache same_view → Flight orders OrderView list_cache same_view
flight call = record { tenant_id = "berlin"; order_id = "order-1"; call = call; found_at = 0 }

abbrev with_flight :
    ℕ
    → Call orders OrderView list_cache same_view
    → World orders OrderView list_cache same_view
    → World orders OrderView list_cache same_view
with_flight n call w = record w {
  calls = with_call orders OrderView list_cache same_view n (flight call) w.calls;
}

-- It is read: the cache does not have it, and the document is found.
abbrev found_once : World orders OrderView list_cache same_view
found_once = with_flight 0 (sets key (order OrderStatus.placed 1)) (
    with_flight 0 (finds key "berlin:order-1") (with_flight 0 (gets key "berlin:order-1") at_first))

-- It is accepted, and only then, half a second after it was found, put into the cache.
abbrev accepted : World orders OrderView list_cache same_view
accepted = record found_once {
  collection = ("berlin:order-1", order OrderStatus.accepted 2) ∷ [];
  past = (0, at_first.collection) ∷ [];
}

abbrev half_a_second_later : World orders OrderView list_cache same_view
half_a_second_later = record accepted { now = 500; past = (0, accepted.collection) ∷ accepted.past }

abbrev cached_late : World orders OrderView list_cache same_view
cached_late =
    with_flight 0 (answers (some (order OrderStatus.placed 1))) (record half_a_second_later {
      cached = list_cache.set_ex 500 key (order OrderStatus.placed 1) 10 [];
    })

-- It is read again, more than ten seconds after it was accepted.
abbrev read_again : World orders OrderView list_cache same_view
read_again = record cached_late {
  now = 10400;
  calls =
      with_call orders OrderView list_cache same_view 1
        (record (flight (gets key "berlin:order-1")) { found_at = 10400 }) cached_late.calls;
  past = (500, accepted.collection) ∷ half_a_second_later.past;
}

reached : Reach orders OrderView list_cache same_view 1000 at_first read_again
unfolding get_order scoped_id tenant_key join_colon advance find_entry
reached =
    next
      (next
        (next
          (next
            (next
              (next
                (next (next here (begins 0 ada "order-1" (gets key "berlin:order-1") refl refl))
                  (goes_on 0 (flight (gets key "berlin:order-1")) refl tt))
                (goes_on 0 (flight (finds key "berlin:order-1")) refl tt))
              (writes (("berlin:order-1", order OrderStatus.accepted 2) ∷ [])))
            (waits 500))
          (goes_on 0 (flight (sets key (order OrderStatus.placed 1))) refl (omega arith)))
        (waits 9900))
      (begins 1 ada "order-1" (gets key "berlin:order-1") refl refl)

still_placed :
    (advance orders OrderView list_cache same_view 10400 read_again.collection read_again.cached
      (gets key "berlin:order-1")).0
    ≡ answers (some (order OrderStatus.placed 1))
unfolding advance
still_placed = refl

get_order-HeldLately_example :
    HeldLately orders OrderView list_cache same_view 1000 "berlin:order-1"
      (order OrderStatus.placed 1)
      10400
      (moments orders OrderView list_cache same_view read_again)
get_order-HeldLately_example =
    get_order-HeldLately orders OrderView list_cache same_view 1000 {u = at_first} {v = read_again}
      1 (record (flight (gets key "berlin:order-1")) { found_at = 10400 })
      (order OrderStatus.placed 1) (λ t i s later h le e. cc) (λ k. refl) reached refl tt tt
      still_placed

-- What is started: an execution, unless the id was used.
abbrev grown :
    Bool → String × SagaInput → List (String × SagaInput) → Started × List (String × SagaInput)
grown true e db = (Started.already_started, db)
grown false e db = (Started.begun, db ++ e ∷ [])

counted :
    (id : String) (db : List (String × SagaInput))
    → any (has_id id) db ≡ true
    → 0 < count (has_id id) db
counted id [] h = cc
counted id (e ∷ db) h = ground (arith, counted id db)

not_counted :
    (id : String) (db : List (String × SagaInput))
    → any (has_id id) db ≡ false
    → count (has_id id) db ≡ 0
not_counted id [] h = refl
not_counted id (e ∷ db) h = ground (arith, not_counted id db)

abbrev Executions : Type 0
Executions = List (String × SagaInput)

grown-begun :
    (b : Bool) (e : String × SagaInput) (db : Executions)
    → (grown b e db).0 ≡ Started.begun
    → (b ≡ false) × ((grown b e db).1 ≡ db ++ e ∷ [])
grown-begun true e db h = cc
grown-begun false e db h = (refl, refl)

grown-already_started :
    (b : Bool) (e : String × SagaInput) (db : Executions)
    → (grown b e db).0 ≡ Started.already_started
    → (b ≡ true) × ((grown b e db).1 ≡ db)
grown-already_started true e db h = (refl, refl)
grown-already_started false e db h = cc

never_failed {ℓ} :
    {A : Type ℓ} (b : Bool) (e : String × SagaInput) (db : Executions) (text : String)
    → (grown b e db).0 ≡ Started.failed text
    → A
never_failed true e db text h = cc
never_failed false e db text h = cc

-- A list of executions, which starts none twice, under any policy, and does not fail.
abbrev list_temporal : Temporal
list_temporal = record {
  Db = Executions;
  executions = λ db. db;
  start = λ policy db id input. grown (any (has_id id) db) (id, input) db;
  start_begun = λ db id input h.
      let done = grown-begun (any (has_id id) db) (id, input) db h in
      (not_counted id db done.0, done.1);
  start_refused = λ db id input h.
      let done = grown-already_started (any (has_id id) db) (id, input) db h in
      (counted id db done.0, done.1);
  start_failed = λ db id input text h. never_failed (any (has_id id) db) (id, input) db text h;
}

abbrev times : SagaTimes
times = record {
  sla_seconds = 300;
  confirm_seconds = 120;
  offer_timeout_seconds = 30;
  max_offers = 5;
  delivery_seconds = 900;
}

abbrev headers : Headers
headers Header.event_type = some "OrderPlaced"
headers Header.tenant_id = some "berlin"
headers Header.event_id = some "event-1"
headers Header.correlation_id = some "correlation-1"
headers _ = none

abbrev message : KafkaMessage
message = record { value = some "payload"; headers = headers }

abbrev placed_payload : OrderPlacedPayload
placed_payload = record {
  order_id = "order-1";
  customer_id = "ada";
  items = [];
  total_amount = 1200;
}

abbrev meta : EnvelopeMeta
meta = record {
  event_type = "OrderPlaced";
  tenant_id = "berlin";
  event_id = "event-1";
  version = 0;
  occurred_at = "";
  correlation_id = "correlation-1";
}

abbrev decode : String → Result OrderPlacedPayload
decode value = ok placed_payload

message_read : read_envelope decode (λ text. 0) "new" message ≡ ok (some (meta, placed_payload))
unfolding read_envelope
message_read = refl

abbrev as_placed : OrderPlacedPayload → OrderPlacedPayload
as_placed p = p

abbrev twice : List (String × KafkaMessage)
twice = ("new", message) ∷ ("new", message) ∷ []

handled :
    (each_message list_temporal times OrderPlacedPayload as_placed decode
      (λ text. 0)
      "new"
      message
      (deliver_all list_temporal times OrderPlacedPayload as_placed decode (λ text. 0) twice [])).0
    ≡ ok tt
unfolding each_message deliver_all scoped_id is_already_started
handled = refl

one_workflow_per_order_example :
    let after =
      (each_message list_temporal times OrderPlacedPayload as_placed decode
        (λ text. 0)
        "new"
        message
        (deliver_all list_temporal times OrderPlacedPayload as_placed decode
          (λ text. 0)
          twice
          [])).1 in
    OneEach list_temporal times OrderPlacedPayload as_placed decode (λ text. 0) after
    × (count (has_id "berlin:order-1") after ≡ 1)
    × TakenOrFailed list_temporal times OrderPlacedPayload as_placed decode
        (λ text. 0)
        (each_message list_temporal times OrderPlacedPayload as_placed decode
          (λ text. 0)
          "new"
          message
          after).0
one_workflow_per_order_example =
    one_workflow_per_order list_temporal times OrderPlacedPayload as_placed decode (λ text. 0) twice
      [] "new" message meta placed_payload (λ id. omega arith) message_read refl handled
