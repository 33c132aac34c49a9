-- ===== src/Payments/Overlap.antt =====
-- apps/payments/src/payments.service.ts, where requests overlap: a request looks for its row, and what it
-- has decided to write comes to the database at any later time. `create` is refused when the unique key
-- is taken, and `update` sets its two fields of the row that is there then.
pub mod Kept
pub mod Runs
pub mod Atomic
use flash_bite.Prelude.{
  ℕ, zero, suc, String, ◌≡◌, refl, Bool, true, false, List, [], ◌∷◌, Option, none, some, Result, ok,
  throw, if◌then◌else◌, Option-cases, Result-cases, Bool-cases, inl, inr,
}
use flash_bite.Contracts.{PaymentStatus}
use flash_bite.Stores.{KeyedStore}
use flash_bite.Payments.{
  Payment, decide_authorize, created, next_on_capture, next_on_void, StampField, stamped,
  same_status,
}
use flash_bite.Payments.History.{Request, authorizes, captures, voids}

-- A write that is under way
pub data Pending : Type 0 where
  creates : String × String → Payment → Pending
  updates : String × String → StampField → PaymentStatus → ℕ → Pending

abbrev pub update_to :
    String × String → StampField → ℕ → PaymentStatus → Result PaymentStatus → Option Pending
update_to key field now from (throw e) = none
update_to key field now from (ok target) =
    if same_status from target then none else some (updates key field target now)

module _ (table : KeyedStore (String × String) Payment) where
  open table use {Db, find, put}

  abbrev pub transition_from :
      (PaymentStatus → Result PaymentStatus)
      → StampField
      → ℕ
      → String × String
      → Option Payment
      → Option Pending
  transition_from next field now key none = none
  transition_from next field now key (some row) =
      update_to key field now row.status (next row.status)

  abbrev pub create_if_none : String × String → Payment → Option Payment → Option Pending
  create_if_none key row none = some (creates key row)
  create_if_none key row (some existing) = none

  -- A request up to its write, if it comes to one
  unfoldable pub look : Request → Db → Option Pending
  unfolding next_on_capture next_on_void decide_authorize
  look (authorizes id now t o amount threshold) db =
      create_if_none (t, o) (created id now o amount (decide_authorize amount threshold))
        (find db (t, o))
  look (captures now t o) db =
      transition_from next_on_capture StampField.captured_at now (t, o) (find db (t, o))
  look (voids now t o) db =
      transition_from next_on_void StampField.voided_at now (t, o) (find db (t, o))

  abbrev pub written : Pending → Option Payment → Db → Db
  written (creates key row) none db = put db key row
  written (creates key row) (some existing) db = db
  written (updates key field target now) none db = db
  written (updates key field target now) (some row) db = put db key (stamped field target now row)

  abbrev pub key_of : Pending → String × String
  key_of (creates key row) = key
  key_of (updates key field target now) = key

  -- The write
  unfoldable pub commit : Pending → Db → Db
  commit p db = written p (find db (key_of p)) db

  pub record World : Type 0 where
    pub db : Db
    pub pending : List Pending

  -- A request looks; a write that is under way comes, or is lost.
  pub data Event : Type 0 where
    looks : Request → Event
    commits loses : ℕ → Event

  abbrev pub with_pending : Option Pending → List Pending → List Pending
  with_pending none ps = ps
  with_pending (some p) ps = p ∷ ps

  abbrev pub nth : ℕ → List Pending → Option Pending
  nth i [] = none
  nth zero (p ∷ ps) = some p
  nth (suc i) (p ∷ ps) = nth i ps

  abbrev pub drop_nth : ℕ → List Pending → List Pending
  drop_nth i [] = []
  drop_nth zero (p ∷ ps) = ps
  drop_nth (suc i) (p ∷ ps) = p ∷ drop_nth i ps

  abbrev pub commit_some : Option Pending → Db → Db
  commit_some none db = db
  commit_some (some p) db = commit p db

  unfoldable pub step : Event → World → World
  unfolding look commit
  step (looks q) w = record { db = w.db; pending = with_pending (look q w.db) w.pending }
  step (commits i) w = record {
    db = commit_some (nth i w.pending) w.db;
    pending = drop_nth i w.pending;
  }
  step (loses i) w = record { db = w.db; pending = drop_nth i w.pending }

  unfoldable pub step_all : List Event → World → World
  unfolding step
  step_all [] w = w
  step_all (e ∷ es) w = step_all es (step e w)
