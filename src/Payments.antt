-- ===== src/Payments.antt =====
-- apps/payments/src: the rules, the service and the controller of payments. `findUnique` and the write
-- that follows it are one step here; Overlap has them apart.
pub mod History
pub mod Overlap
use flash_bite.Prelude.{
  ℕ, String, ◌<>◌, ◌≡◌, Bool, true, false, not, List, [], ◌∷◌, Option, none, some, Result, ok,
  throw, illegal_transition, not_found, conflict, Exn, leb, if◌then◌else◌,
}
use flash_bite.Contracts.{PaymentStatus}
use flash_bite.Stores.{KeyedStore}

-- `outcome`, the lowercase word of a response
pub data OutcomeWord : Type 0 where
  authorized declined captured voided : OutcomeWord

pub record PaymentOutcome : Type 0 where
  pub payment_id : String
  pub outcome : OutcomeWord

pub record Payment : Type 0 where
  pub id : String
  pub order_id : String
  pub amount : ℕ
  pub status : PaymentStatus
  pub authorized_at : Option ℕ
  pub captured_at : Option ℕ
  pub voided_at : Option ℕ

unfoldable pub decide_authorize : ℕ → ℕ → PaymentStatus
decide_authorize amount decline_threshold =
    if leb decline_threshold amount then PaymentStatus.declined else PaymentStatus.authorized

abbrev status_text : PaymentStatus → String
status_text PaymentStatus.authorized = "AUTHORIZED"
status_text PaymentStatus.captured = "CAPTURED"
status_text PaymentStatus.voided = "VOIDED"
status_text PaymentStatus.declined = "DECLINED"

-- `IllegalTransitionError`, with its message
abbrev illegal : PaymentStatus → String → Result PaymentStatus
illegal from op =
    throw (illegal_transition ("Cannot " <> op <> " a payment in status " <> status_text from))

unfoldable pub next_on_capture : PaymentStatus → Result PaymentStatus
next_on_capture PaymentStatus.captured = ok PaymentStatus.captured
next_on_capture PaymentStatus.authorized = ok PaymentStatus.captured
next_on_capture current = illegal current "capture"

unfoldable pub next_on_void : PaymentStatus → Result PaymentStatus
next_on_void PaymentStatus.voided = ok PaymentStatus.voided
next_on_void PaymentStatus.authorized = ok PaymentStatus.voided
next_on_void current = illegal current "void"

-- `status === DECLINED ? "declined" : "authorized"`
abbrev pub decision : PaymentStatus → OutcomeWord
decision PaymentStatus.declined = OutcomeWord.declined
decision _ = OutcomeWord.authorized

abbrev stamp : PaymentStatus → ℕ → Option ℕ
stamp PaymentStatus.authorized now = some now
stamp _ now = none

pub data StampField : Type 0 where
  captured_at voided_at : StampField

abbrev pub stamped : StampField → PaymentStatus → ℕ → Payment → Payment
stamped captured_at target now row = record row { status = target; captured_at = some now }
stamped voided_at target now row = record row { status = target; voided_at = some now }

abbrev pub same_status : PaymentStatus → PaymentStatus → Bool
same_status PaymentStatus.authorized PaymentStatus.authorized = true
same_status PaymentStatus.captured PaymentStatus.captured = true
same_status PaymentStatus.voided PaymentStatus.voided = true
same_status PaymentStatus.declined PaymentStatus.declined = true
same_status _ _ = false

-- The catch of `transition`: an illegal transition is a conflict.
abbrev pub as_conflict : Exn → Exn
as_conflict (illegal_transition message) = conflict message
as_conflict e = e

-- the `data` of `create`
abbrev pub created : String → ℕ → String → ℕ → PaymentStatus → Payment
created id now order_id amount status = record {
  id = id;
  order_id = order_id;
  amount = amount;
  status = status;
  authorized_at = stamp status now;
  captured_at = none;
  voided_at = none;
}

-- The table `payment`, by its unique key (tenantId, orderId). `id` and `now` are what the database's
-- default and `new Date()` give.
module _ (table : KeyedStore (String × String) Payment) where
  open table use {Db, find, put}

  unfoldable pub authorize : String → ℕ → String → String → ℕ → ℕ → Db → Result PaymentOutcome × Db
  unfolding decide_authorize
  authorize id now tenant_id order_id amount decline_threshold db =
      elim (find db (tenant_id, order_id)) [
        | some existing ↦
            (ok (record { payment_id = existing.id; outcome = decision existing.status }), db)
        | none ↦
            let status = decide_authorize amount decline_threshold in
            (
              ok (record { payment_id = id; outcome = decision status }),
              put db (tenant_id, order_id) (created id now order_id amount status),
            )
      ]

  -- `transition`, from the row that was found
  unfoldable pub move_row :
      (PaymentStatus → Result PaymentStatus)
      → StampField
      → OutcomeWord
      → ℕ
      → String × String
      → Payment
      → Db
      → Result PaymentOutcome × Db
  move_row next field outcome now key row db = elim (next row.status) [
    | throw e ↦ (throw (as_conflict e), db)
    | ok target ↦ (
      ok (record { payment_id = row.id; outcome = outcome }),
      if same_status row.status target then db else put db key (stamped field target now row),
    )
  ]

  unfoldable pub transition :
      (PaymentStatus → Result PaymentStatus)
      → StampField
      → OutcomeWord
      → ℕ
      → String
      → String
      → Db
      → Result PaymentOutcome × Db
  unfolding move_row
  transition next field outcome now tenant_id order_id db = elim (find db (tenant_id, order_id)) [
    | none ↦ (throw (not_found ("No payment for " <> tenant_id <> ":" <> order_id)), db)
    | some row ↦ move_row next field outcome now (tenant_id, order_id) row db
  ]

  unfoldable pub capture : ℕ → String → String → Db → Result PaymentOutcome × Db
  unfolding transition next_on_capture
  capture = transition next_on_capture captured_at OutcomeWord.captured

  unfoldable pub void : ℕ → String → String → Db → Result PaymentOutcome × Db
  unfolding transition next_on_void
  void = transition next_on_void voided_at OutcomeWord.voided

  -- `get`, and the controller's 404
  unfoldable pub get_payment : String → String → Db → Result (String × PaymentStatus × ℕ)
  get_payment tenant_id order_id db = elim (find db (tenant_id, order_id)) [
    | none ↦ throw (not_found ("No payment for " <> tenant_id <> ":" <> order_id))
    | some row ↦ ok (row.order_id, row.status, row.amount)
  ]
