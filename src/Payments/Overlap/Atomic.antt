-- ===== src/Payments/Overlap/Atomic.antt =====
-- A request of apps/payments/src/payments.service.ts that overlaps with none: its find, then its write.
use flash_bite.Prelude.{
  ℕ, String, ◌≡◌, refl, some, Result, Option-cases, Bool-cases, Result-cases, inl, inr,
}
use flash_bite.Contracts.{PaymentStatus}
use flash_bite.Stores.{KeyedStore}
use flash_bite.Payments.{
  Payment, OutcomeWord, created, decide_authorize, authorize, capture, void, transition, move_row,
  next_on_capture, next_on_void, StampField, same_status,
}
use flash_bite.Payments.History.{Request, authorizes, captures, voids, serve}
use flash_bite.Payments.Overlap.{
  look, commit, commit_some, transition_from, update_to, create_if_none,
}

module _ (table : KeyedStore (String × String) Payment) where
  open table use {Db, find, put}

  moved :
      (next : PaymentStatus → Result PaymentStatus) (field : StampField) (word : OutcomeWord)
      (now : ℕ) (key : String × String) (row : Payment) (db : Db)
      → find db key ≡ some row
      → (move_row table next field word now key row db).1
        ≡ commit_some table (update_to key field now row.status (next row.status)) db
  unfolding move_row commit
  moved next field word now key row db here = elim (Result-cases (next row.status)) [
    | inr (x, e) ↦ rw (move_row, e) refl
    | inl (target, e) ↦ elim (Bool-cases (same_status row.status target)) [
      | inl s ↦ rw (move_row, e, s) refl
      | inr s ↦ rw (move_row, e, s) (rw (commit, here) refl)
    ]
  ]

  transitioned :
      (next : PaymentStatus → Result PaymentStatus) (field : StampField) (word : OutcomeWord)
      (now : ℕ) (t o : String) (db : Db)
      → (transition table next field word now t o db).1
        ≡ commit_some table (transition_from table next field now (t, o) (find db (t, o))) db
  unfolding transition
  transitioned next field word now t o db = elim (Option-cases (find db (t, o))) [
    | inl e ↦ rw (transition, e) refl
    | inr (row, e) ↦ rw (transition, e) (moved next field word now (t, o) row db e)
  ]

  authorized_by :
      (id : String) (now : ℕ) (t o : String) (amount threshold : ℕ) (db : Db)
      → (authorize table id now t o amount threshold db).1
        ≡ commit_some table
            (create_if_none table
              (t, o)
              (created id now o amount (decide_authorize amount threshold))
              (find db (t, o)))
            db
  unfolding authorize commit
  authorized_by id now t o amount threshold db = elim (Option-cases (find db (t, o))) [
    | inl e ↦ rw (authorize, e) (rw (commit, e) refl)
    | inr (row, e) ↦ rw (authorize, e) refl
  ]

  -- A request whose write comes at once does what the service does when nothing overlaps.
  pub serve-commit :
      (q : Request) (db : Db) → serve table q db ≡ commit_some table (look table q db) db
  unfolding serve look capture void
  serve-commit (authorizes id now t o amount threshold) db =
      authorized_by id now t o amount threshold db
  serve-commit (captures now t o) db =
      transitioned next_on_capture StampField.captured_at OutcomeWord.captured now t o db
  serve-commit (voids now t o) db =
      transitioned next_on_void StampField.voided_at OutcomeWord.voided now t o db
