-- ===== src/Payments/Overlap/Runs.antt =====
-- Requests that overlap (apps/payments/src/payments.service.ts), in whatever order their finds and their
-- writes come.
use flash_bite.Prelude.{
  ℕ, zero, suc, String, ◌≡◌, sym, subst, true, false, List, [], ◌∷◌, All, Option, none, some,
  Result, ok, arith, Option-cases, Bool-cases, Result-cases, inl, inr,
}
use flash_bite.Contracts.{PaymentStatus}
use flash_bite.Stores.{KeyedStore}
use flash_bite.Payments.{Payment, next_on_capture, next_on_void, StampField, same_status}
use flash_bite.Payments.History.{Request, authorizes, captures, voids}
use flash_bite.Payments.Overlap.{
  Pending, update_to, look, transition_from, World, Event, looks, commits, loses, with_pending, nth,
  drop_nth, commit_some, step, step_all,
}
use flash_bite.Payments.Overlap.Kept.{
  is_declined, is_goal, IsKept, IsKept-refl, IsKept-trans, IsSound, AllKept, AllKept-refl,
  commit-AllKept, IsSound-AllKept,
}

module _ (table : KeyedStore (String × String) Payment) where
  open table use {Db, find}

  Sound : World table → Type 0
  Sound w = All (IsSound table w.db) w.pending

  update-IsSound :
      (next : PaymentStatus → Result PaymentStatus) (field : StampField) (now : ℕ)
      (key : String × String) (db : Db) (row : Payment) (target : PaymentStatus)
      → find db key ≡ some row
      → next row.status ≡ ok target
      → is_goal target ≡ true
      → is_declined row.status ≡ false
      → All
          (IsSound table db)
          (with_pending table (update_to key field now row.status (ok target)) [])
  unfolding IsSound
  update-IsSound next field now key db row target here e goal live =
      elim (Bool-cases (same_status row.status target)) [
        | inl s ↦ rw s tt
        | inr s ↦ rw s ((goal, (row, here, live)), tt)
      ]

  capture_goal :
      (s t : PaymentStatus)
      → next_on_capture s ≡ ok t
      → (is_goal t ≡ true) × (is_declined s ≡ false)
  unfolding next_on_capture
  capture_goal PaymentStatus.authorized t e = ground (arith, e)
  capture_goal PaymentStatus.captured t e = ground (arith, e)
  capture_goal PaymentStatus.voided t e = ground (arith, e)
  capture_goal PaymentStatus.declined t e = ground (arith, e)

  void_goal :
      (s t : PaymentStatus) → next_on_void s ≡ ok t → (is_goal t ≡ true) × (is_declined s ≡ false)
  unfolding next_on_void
  void_goal PaymentStatus.authorized t e = ground (arith, e)
  void_goal PaymentStatus.captured t e = ground (arith, e)
  void_goal PaymentStatus.voided t e = ground (arith, e)
  void_goal PaymentStatus.declined t e = ground (arith, e)

  transition-Sound :
      (next : PaymentStatus → Result PaymentStatus) (field : StampField) (now : ℕ)
      (key : String × String) (db : Db)
      → ((s t : PaymentStatus) → next s ≡ ok t → (is_goal t ≡ true) × (is_declined s ≡ false))
      → All
          (IsSound table db)
          (with_pending table (transition_from table next field now key (find db key)) [])
  transition-Sound next field now key db goals = elim (Option-cases (find db key)) [
    | inl e ↦ rw e tt
    | inr (row, e) ↦ elim (Result-cases (next row.status)) [
      | inl (target, n) ↦
          let (goal, live) = goals row.status target n in
          subst
            (λ o.
              All (IsSound table db)
                (with_pending table (transition_from table next field now key o) []))
            (sym e)
            (subst
              (λ r.
                All (IsSound table db)
                  (with_pending table (update_to key field now row.status r) []))
              (sym n) (update-IsSound next field now key db row target e n goal live))
      | inr (x, n) ↦
          subst
            (λ o.
              All (IsSound table db)
                (with_pending table (transition_from table next field now key o) []))
            (sym e)
            (subst
              (λ r.
                All (IsSound table db)
                  (with_pending table (update_to key field now row.status r) []))
              (sym n) tt)
    ]
  ]

  look-Sound :
      (q : Request) (db : Db) → All (IsSound table db) (with_pending table (look table q db) [])
  unfolding look IsSound
  look-Sound (authorizes id now t o amount threshold) db = elim (Option-cases (find db (t, o))) [
    | inl e ↦ rw (look, e) (tt, tt)
    | inr (row, e) ↦ rw (look, e) tt
  ]
  look-Sound (captures now t o) db =
      transition-Sound next_on_capture StampField.captured_at now (t, o) db capture_goal
  look-Sound (voids now t o) db =
      transition-Sound next_on_void StampField.voided_at now (t, o) db void_goal

  onto :
      (db : Db) (o : Option Pending) (ps : List Pending)
      → All (IsSound table db) (with_pending table o [])
      → All (IsSound table db) ps
      → All (IsSound table db) (with_pending table o ps)
  onto db none ps a b = b
  onto db (some p) ps a b = (a.0, b)

  nth-Sound :
      (db : Db) (i : ℕ) (ps : List Pending)
      → All (IsSound table db) ps
      → AllKept table db (commit_some table (nth table i ps) db)
  nth-Sound db i [] h = AllKept-refl table db
  nth-Sound db zero (p ∷ ps) h = commit-AllKept table p db h.0
  nth-Sound db (suc i) (p ∷ ps) h = nth-Sound db i ps h.1

  drop_nth-Sound :
      (db : Db) (i : ℕ) (ps : List Pending)
      → All (IsSound table db) ps
      → All (IsSound table db) (drop_nth table i ps)
  drop_nth-Sound db i [] h = tt
  drop_nth-Sound db zero (p ∷ ps) h = h.1
  drop_nth-Sound db (suc i) (p ∷ ps) h = (h.0, drop_nth-Sound db i ps h.1)

  still-Sound :
      (db db' : Db) (ps : List Pending)
      → AllKept table db db'
      → All (IsSound table db) ps
      → All (IsSound table db') ps
  still-Sound db db' [] kept h = tt
  still-Sound db db' (p ∷ ps) kept h =
      (IsSound-AllKept table db db' p kept h.0, still-Sound db db' ps kept h.1)

  step-Sound : (e : Event table) (w : World table) → Sound w → Sound (step table e w)
  unfolding step Sound
  step-Sound (looks q) w h = onto w.db (look table q w.db) w.pending (look-Sound q w.db) h
  step-Sound (loses i) w h = drop_nth-Sound w.db i w.pending h
  step-Sound (commits i) w h =
      still-Sound w.db (commit_some table (nth table i w.pending) w.db) (drop_nth table i w.pending)
        (nth-Sound w.db i w.pending h) (drop_nth-Sound w.db i w.pending h)

  step-AllKept :
      (e : Event table) (w : World table) → Sound w → AllKept table w.db (step table e w).db
  unfolding step Sound
  step-AllKept (looks q) w h = AllKept-refl table w.db
  step-AllKept (loses i) w h = AllKept-refl table w.db
  step-AllKept (commits i) w h = nth-Sound w.db i w.pending h

  run-AllKept :
      (es : List (Event table)) (w : World table)
      → Sound w
      → AllKept table w.db (step_all table es w).db
  unfolding step_all AllKept
  run-AllKept [] w h k p here = (p, here, IsKept-refl p)
  run-AllKept (e ∷ es) w h k p here =
      let (q, there, a) = step-AllKept e w h k p here in
      let (r, last, b) = run-AllKept es (step table e w) (step-Sound e w h) k q there in
      (r, last, IsKept-trans p q r a b)

  -- However requests overlap, are answered late or get lost, from a start at which none is under way: a
  -- payment that is there stays there, with its id, its order and its amount; one that is declined
  -- stays as it is, and one that is held is as it was: no payment becomes held again.
  pub overlap-IsKept :
      (es : List (Event table)) (db : Db) (k : String × String) (p : Payment)
      → find db k ≡ some p
      → (p' : Payment) × (find (step_all table es (record { db = db; pending = [] })).db k
          ≡ some p')
        × IsKept p p'
  unfolding Sound AllKept
  overlap-IsKept es db k p here = run-AllKept es (record { db = db; pending = [] }) tt k p here
