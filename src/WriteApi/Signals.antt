-- ===== src/WriteApi/Signals.antt =====
-- apps/write-api/src/orders: the requests of merchants, customers and drivers that signal a workflow
-- (accept.controller.ts, confirm-payment.controller.ts, dispatch.controller.ts). Temporal's client is a
-- parameter: `deliver` takes a workflow's id and a signal, and `no_workflow` is an error whose text
-- says that there is none.
use flash_bite.Prelude.{
  String, ◌<>◌, ◌≡◌, refl, Bool, true, false, Option, none, some, Result, ok, throw, Exn, conflict,
  not_found, error, inl, inr, Option-cases, ◌==◌, if◌then◌else◌,
}
use flash_bite.Contracts.{PaymentStatus}
use flash_bite.Contracts.Keys.{scoped_id}

pub data Signal : Type 0 where
  merchant_approval : Bool → Signal
  confirm_payment : Signal
  dispatch_accept dispatch_reject dispatch_pickup dispatch_deliver : String → Signal

pub data Delivery : Type 0 where
  delivered no_workflow : Delivery
  failed : Exn → Delivery

-- What the payments service answers to a GET: a status code, and the body's status.
pub data PaymentsAnswer : Type 0 where
  found : PaymentStatus → PaymentsAnswer
  missing : PaymentsAnswer
  not_ok : String → PaymentsAnswer

-- `PaymentsClient.getStatus`
unfoldable pub get_status : PaymentsAnswer → Result (Option PaymentStatus)
get_status (found status) = ok (some status)
get_status missing = ok none
get_status (not_ok code) = throw (error ("payments GET failed: " <> code))

abbrev status_word : Option PaymentStatus → String
status_word none = "none"
status_word (some PaymentStatus.authorized) = "AUTHORIZED"
status_word (some PaymentStatus.captured) = "CAPTURED"
status_word (some PaymentStatus.voided) = "VOIDED"
status_word (some PaymentStatus.declined) = "DECLINED"

abbrev respond {ℓ} : {W : Type ℓ} → String → String → Delivery × W → Result String × W
respond lost word (delivered, w) = (ok word, w)
respond lost word (no_workflow, w) = (throw (not_found lost), w)
respond lost word (failed e, w) = (throw e, w)

-- `SIGNALS`
unfoldable pub signal_of : String → String → Option Signal
signal_of action driver_id =
    if action == "accept"
    then some (dispatch_accept driver_id)
    else if action == "reject"
    then some (dispatch_reject driver_id)
    else if action == "pickup"
    then some (dispatch_pickup driver_id)
    else if action == "deliver"
    then some (dispatch_deliver driver_id)
    else none

module _ {W : Type 0} (deliver : String → Signal → W → Delivery × W) where
  -- AcceptController; `approved` is `true` for accept, `false` for decline, and `answer` what the
  -- payments service says of the order.
  unfoldable pub signal_approval :
      String → String → Bool → Result (Option PaymentStatus) → W → Result String × W
  signal_approval tenant_id order_id approved (throw e) w = (throw e, w)
  signal_approval tenant_id order_id approved (ok (some PaymentStatus.authorized)) w =
      respond ("No active order workflow for " <> order_id)
        (if approved then "accept" else "decline")
        (deliver (scoped_id tenant_id order_id) (merchant_approval approved) w)
  signal_approval tenant_id order_id approved (ok status) w = (
    throw (
        conflict (
          "Order "
          <> order_id
          <> " payment is not authorized (status: "
          <> status_word status
          <> ")")),
    w,
  )

  unfoldable pub signal_merchant : String → String → Bool → PaymentsAnswer → W → Result String × W
  unfolding get_status signal_approval
  signal_merchant tenant_id order_id approved answer =
      signal_approval tenant_id order_id approved (get_status answer)

  -- ConfirmPaymentController
  unfoldable pub confirm : String → String → W → Result String × W
  confirm tenant_id order_id w =
      respond ("No active order workflow for " <> order_id) "confirm-payment"
        (deliver (scoped_id tenant_id order_id) confirm_payment w)

  -- DispatchController, but for actions that name a property of every object, as "toString" does.
  unfoldable pub signal_dispatch : String → String → String → String → W → Result String × W
  unfolding signal_of
  signal_dispatch tenant_id order_id action driver_id w = elim (signal_of action driver_id) [
    | none ↦ (throw (not_found ("unknown dispatch action " <> action)), w)
    | some signal ↦
        respond ("No active dispatch for " <> order_id) action
          (deliver ("dispatch:" <> scoped_id tenant_id order_id) signal w)
  ]

-- The requests that signal, each with what it is made of
pub data SignalRequest : Type 0 where
  merchant : String → Bool → PaymentsAnswer → SignalRequest
  customer : String → SignalRequest
  driver : String → String → String → SignalRequest

-- whether an answer of the payments service says that the order's payment is held
abbrev pub is_held : PaymentsAnswer → Bool
is_held (found PaymentStatus.authorized) = true
is_held _ = false

abbrev pub signals : SignalRequest → Option (Bool × Signal)
signals (merchant order_id approved answer) =
    if is_held answer then some (false, merchant_approval approved) else none
signals (customer order_id) = some (false, confirm_payment)
signals (driver order_id action driver_id) = elim (signal_of action driver_id) [
  | none ↦ none
  | some signal ↦ some (true, signal)
]

abbrev pub order_of : SignalRequest → String
order_of (merchant order_id approved answer) = order_id
order_of (customer order_id) = order_id
order_of (driver order_id action driver_id) = order_id

module _ {W : Type 0} (deliver : String → Signal → W → Delivery × W) where
  unfoldable pub handle : String → SignalRequest → W → Result String × W
  unfolding signal_merchant confirm signal_dispatch
  handle tenant_id (merchant order_id approved answer) =
      signal_merchant deliver tenant_id order_id approved answer
  handle tenant_id (customer order_id) = confirm deliver tenant_id order_id
  handle tenant_id (driver order_id action driver_id) =
      signal_dispatch deliver tenant_id order_id action driver_id

  -- The workflow of the tenant's order, or that of its dispatch
  abbrev pub target : String → String → Bool → String
  target tenant_id order_id true = "dispatch:" <> scoped_id tenant_id order_id
  target tenant_id order_id false = scoped_id tenant_id order_id

  world-respond : (lost word : String) (r : Delivery × W) → (respond lost word r).1 ≡ r.1
  world-respond lost word (delivered, w) = refl
  world-respond lost word (no_workflow, w) = refl
  world-respond lost word (failed e, w) = refl

  -- What a request changes is what its one signal changes, which goes to the workflow of the caller's
  -- tenant; a merchant's goes only while the payment is held, and a driver's only for a known action.
  pub world-handle :
      (tenant_id : String) (q : SignalRequest) (w : W)
      → (handle tenant_id q w).1 ≡ (elim (signals q) [
        | none ↦ w
        | some (to_dispatch, signal) ↦
            (deliver (target tenant_id (order_of q) to_dispatch) signal w).1
      ])
  unfolding handle signal_merchant signal_approval get_status confirm signal_dispatch
  world-handle t (merchant o approved (found PaymentStatus.authorized)) w = world-respond _ _ _
  world-handle t (merchant o approved (found PaymentStatus.captured)) w = refl
  world-handle t (merchant o approved (found PaymentStatus.voided)) w = refl
  world-handle t (merchant o approved (found PaymentStatus.declined)) w = refl
  world-handle t (merchant o approved missing) w = refl
  world-handle t (merchant o approved (not_ok code)) w = refl
  world-handle t (customer o) w = world-respond _ _ _
  world-handle t (driver o action d) w = elim (Option-cases (signal_of action d)) [
    | inl e ↦ rw (e, signal_dispatch) refl
    | inr (signal, e) ↦ rw (e, signal_dispatch) (world-respond _ _ _)
  ]
