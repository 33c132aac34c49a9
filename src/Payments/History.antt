-- ===== src/Payments/History.antt =====
-- What any sequence of requests leaves of a payment (apps/payments/src/payments.service.ts).
use flash_bite.Prelude.{
  ℕ, String, ◌≡◌, refl, true, false, List, [], ◌∷◌, none, some, Result, ok, throw, arith, ◌⊎◌, inl,
  inr, Option-cases, Bool-cases, Result-cases, ap, ◌∙◌, Exn, subst, sym,
}
use flash_bite.Contracts.{PaymentStatus}
use flash_bite.Stores.{KeyedStore}
use flash_bite.Payments.{
  Payment, OutcomeWord, authorize, capture, void, decide_authorize, decision, created,
  next_on_capture, next_on_void, StampField, stamped, move_row, transition, same_status,
}

pub data Request : Type 0 where
  authorizes : String → ℕ → String → String → ℕ → ℕ → Request
  captures voids : ℕ → String → String → Request

-- The statuses of a payment that is not held any more, or never was.
abbrev pub IsSettled : PaymentStatus → Type 0
IsSettled PaymentStatus.authorized = ⊥
IsSettled _ = Unit

same_status_refl : (s : PaymentStatus) → same_status s s ≡ true
same_status_refl PaymentStatus.authorized = refl
same_status_refl PaymentStatus.captured = refl
same_status_refl PaymentStatus.voided = refl
same_status_refl PaymentStatus.declined = refl

-- The rules leave a settled status where it is, or refuse.
abbrev Stays : (PaymentStatus → Result PaymentStatus) → PaymentStatus → Type 0
Stays next s = (next s ≡ ok s) ⊎ ((x : Exn) × (next s ≡ throw x))

settled_capture : (s : PaymentStatus) → IsSettled s → Stays next_on_capture s
unfolding next_on_capture
settled_capture PaymentStatus.authorized h = absurd h
settled_capture PaymentStatus.captured h = inl refl
settled_capture PaymentStatus.voided h = inr (_, refl)
settled_capture PaymentStatus.declined h = inr (_, refl)

settled_void : (s : PaymentStatus) → IsSettled s → Stays next_on_void s
unfolding next_on_void
settled_void PaymentStatus.authorized h = absurd h
settled_void PaymentStatus.captured h = inr (_, refl)
settled_void PaymentStatus.voided h = inl refl
settled_void PaymentStatus.declined h = inr (_, refl)

module _ (table : KeyedStore (String × String) Payment) where
  open table use {Db, find, put, same}

  unfoldable pub serve : Request → Db → Db
  unfolding authorize capture void
  serve (authorizes id now t o amount threshold) db =
      (authorize table id now t o amount threshold db).1
  serve (captures now t o) db = (capture table now t o db).1
  serve (voids now t o) db = (void table now t o db).1

  pub serve_all : List Request → Db → Db
  serve_all [] db = db
  serve_all (q ∷ qs) db = serve_all qs (serve q db)

  -- the key that a request names
  abbrev pub key_of : Request → String × String
  key_of (authorizes id now t o amount threshold) = (t, o)
  key_of (captures now t o) = (t, o)
  key_of (voids now t o) = (t, o)

  module _ (next : PaymentStatus → Result PaymentStatus) (field : StampField)
      (outcome : OutcomeWord) (now : ℕ) where
    move_row_elsewhere :
        (key k : String × String) (row : Payment) (db : Db)
        → same key k ≡ false
        → find (move_row table next field outcome now key row db).1 k ≡ find db k
    unfolding move_row
    move_row_elsewhere key k row db miss = elim (Result-cases (next row.status)) [
      | inr (x, e) ↦ ground (arith, e)
      | inl (target, e) ↦
          ground (arith, e, miss, table.find-put db key k (stamped field target now row))
    ]

    transition_elsewhere :
        (t o : String) (k : String × String) (db : Db)
        → same (t, o) k ≡ false
        → find (transition table next field outcome now t o db).1 k ≡ find db k
    unfolding transition
    transition_elsewhere t o k db miss = elim (Option-cases (find db (t, o))) [
      | inl e ↦ rw (e, transition) refl
      | inr (row, e) ↦ rw (e, transition) (move_row_elsewhere (t, o) k row db miss)
    ]

    transition_settled :
        (t o : String) (p : Payment) (db : Db)
        → Stays next p.status
        → find db (t, o) ≡ some p
        → (transition table next field outcome now t o db).1 ≡ db
    unfolding transition
    transition_settled t o p db (inl stays) h = ground (arith, h, stays, same_status_refl p.status)
    transition_settled t o p db (inr (x, e)) h = ground (arith, h, e)

  authorize_elsewhere :
      (id : String) (now : ℕ) (t o : String) (amount threshold : ℕ) (k : String × String) (db : Db)
      → same (t, o) k ≡ false
      → find (authorize table id now t o amount threshold db).1 k ≡ find db k
  unfolding authorize
  authorize_elsewhere id now t o amount threshold k db miss = elim (Option-cases (find db (t, o))) [
    | inl e ↦ rw (e, authorize) (rw (table.find-put, miss) refl)
    | inr (row, e) ↦ rw (e, authorize) refl
  ]

  authorize_again :
      (id : String) (now : ℕ) (t o : String) (amount threshold : ℕ) (p : Payment) (db : Db)
      → find db (t, o) ≡ some p
      → (authorize table id now t o amount threshold db).1 ≡ db
  unfolding authorize
  authorize_again id now t o amount threshold p db h = ground (arith, h)

  -- A request touches the payment that it names and no other.
  pub serve_elsewhere :
      (q : Request) (k : String × String) (db : Db)
      → same (key_of q) k ≡ false
      → find (serve q db) k ≡ find db k
  unfolding serve capture void
  serve_elsewhere (authorizes id now t o amount threshold) k db miss =
      authorize_elsewhere id now t o amount threshold k db miss
  serve_elsewhere (captures now t o) k db miss =
      transition_elsewhere next_on_capture StampField.captured_at OutcomeWord.captured now t o k db
        miss
  serve_elsewhere (voids now t o) k db miss =
      transition_elsewhere next_on_void StampField.voided_at OutcomeWord.voided now t o k db miss

  serve_settled_here :
      (q : Request) (p : Payment) (db : Db)
      → IsSettled p.status
      → find db (key_of q) ≡ some p
      → serve q db ≡ db
  unfolding serve capture void
  serve_settled_here (authorizes id now t o amount threshold) p db settled h =
      authorize_again id now t o amount threshold p db h
  serve_settled_here (captures now t o) p db settled h =
      transition_settled next_on_capture StampField.captured_at OutcomeWord.captured now t o p db
        (settled_capture p.status settled) h
  serve_settled_here (voids now t o) p db settled h =
      transition_settled next_on_void StampField.voided_at OutcomeWord.voided now t o p db
        (settled_void p.status settled) h

  serve_settled :
      (q : Request) (k : String × String) (p : Payment) (db : Db)
      → IsSettled p.status
      → find db k ≡ some p
      → find (serve q db) k ≡ some p
  serve_settled q k p db settled h = elim (Bool-cases (same (key_of q) k)) [
    | inl hit ↦
        let e = (table.same_iff (key_of q) k).0 hit in
        ap (λ d. find d k) (serve_settled_here q p db settled (ap (find db) e ∙ h)) ∙ h
    | inr miss ↦ serve_elsewhere q k db miss ∙ h
  ]

  -- A payment that is captured, voided or declined keeps its row, stamps and all, whatever requests
  -- follow, for its own order or for others.
  pub settled_stays :
      (qs : List Request) (k : String × String) (p : Payment) (db : Db)
      → IsSettled p.status
      → find db k ≡ some p
      → find (serve_all qs db) k ≡ some p
  unfolding serve_all
  settled_stays [] k p db settled h = h
  settled_stays (q ∷ qs) k p db settled h =
      settled_stays qs k p (serve q db) settled (serve_settled q k p db settled h)

  decision_at :
      (id' : String) (now' : ℕ) (t o : String) (amount' threshold : ℕ) (p : Payment) (db : Db)
      → find db (t, o) ≡ some p
      → authorize table id' now' t o amount' threshold db
        ≡ (ok (record { payment_id = p.id; outcome = decision p.status }), db)
  unfolding authorize
  decision_at id' now' t o amount' threshold p db h = rw (h, authorize) refl

  first_authorize :
      (id : String) (now : ℕ) (t o : String) (amount threshold : ℕ) (db : Db)
      → find db (t, o) ≡ none
      → (p : Payment) × (authorize table id now t o amount threshold db
          ≡ (ok (record { payment_id = p.id; outcome = decision p.status }), put db (t, o) p))
        × (find (put db (t, o) p) (t, o) ≡ some p)
  unfolding authorize
  first_authorize id now t o amount threshold db h = (
    created id now o amount (decide_authorize amount threshold),
    rw (h, authorize) refl,
    rw (table.find-put, (table.same_iff (t, o) (t, o)).1 refl) refl,
  )

  -- A second authorization of an order that had no payment before the first, whatever its amount,
  -- writes nothing and answers as the first did.
  pub authorize-authorize :
      (id id' : String) (now now' : ℕ) (t o : String) (amount amount' threshold : ℕ) (db : Db)
      → find db (t, o) ≡ none
      → let first = authorize table id now t o amount threshold db in
        authorize table id' now' t o amount' threshold first.1 ≡ first
  authorize-authorize id id' now now' t o amount amount' threshold db h =
      let (p, e, seen) = first_authorize id now t o amount threshold db h in
      subst (λ r. authorize table id' now' t o amount' threshold r.1 ≡ r) (sym e)
        (decision_at id' now' t o amount' threshold p (put db (t, o) p) seen)
