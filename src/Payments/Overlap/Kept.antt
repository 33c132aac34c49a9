-- ===== src/Payments/Overlap/Kept.antt =====
-- What overlapping requests leave of a payment (apps/payments/src/payments.service.ts).
use flash_bite.Prelude.{
  ℕ, String, ◌≡◌, refl, ap, ◌∙◌, sym, subst, Bool, true, false, false≢true, Option, some, arith,
  Option-cases, Bool-cases, inl, inr,
}
use flash_bite.Contracts.{PaymentStatus}
use flash_bite.Stores.{KeyedStore}
use flash_bite.Payments.{Payment, StampField, stamped}
use flash_bite.Payments.Overlap.{Pending, creates, updates, commit}

abbrev pub is_declined : PaymentStatus → Bool
is_declined PaymentStatus.declined = true
is_declined _ = false

abbrev pub is_held : PaymentStatus → Bool
is_held PaymentStatus.authorized = true
is_held _ = false

-- Captured or voided
abbrev pub is_goal : PaymentStatus → Bool
is_goal PaymentStatus.captured = true
is_goal PaymentStatus.voided = true
is_goal _ = false

-- The row is of the same payment; one that is declined, and one that is still held, is as it was.
pub record IsKept (p p' : Payment) : Type 0 where
  pub same_id : p'.id ≡ p.id
  pub same_order : p'.order_id ≡ p.order_id
  pub same_amount : p'.amount ≡ p.amount
  pub declined_stays : is_declined p.status ≡ true → p' ≡ p
  pub held_stays : is_held p'.status ≡ true → p' ≡ p
  pub live_stays : is_declined p.status ≡ false → is_declined p'.status ≡ false

pub IsKept-refl : (p : Payment) → IsKept p p
IsKept-refl p = record {
  same_id = refl;
  same_order = refl;
  same_amount = refl;
  declined_stays = λ h. refl;
  held_stays = λ h. refl;
  live_stays = λ h. h;
}

pub IsKept-trans : (p q r : Payment) → IsKept p q → IsKept q r → IsKept p r
IsKept-trans p q r a b = record {
  same_id = b.same_id ∙ a.same_id;
  same_order = b.same_order ∙ a.same_order;
  same_amount = b.same_amount ∙ a.same_amount;
  declined_stays = λ h.
      let e = a.declined_stays h in b.declined_stays (ap (λ x. is_declined x.status) e ∙ h) ∙ e;
  held_stays =
      λ h. let e = b.held_stays h in e ∙ a.held_stays (sym (ap (λ x. is_held x.status) e) ∙ h);
  live_stays = λ h. b.live_stays (a.live_stays h);
}

goal_not_held : (s : PaymentStatus) → is_goal s ≡ true → is_held s ≡ true → ⊥
goal_not_held PaymentStatus.authorized g h = false≢true g
goal_not_held PaymentStatus.captured g h = false≢true h
goal_not_held PaymentStatus.voided g h = false≢true h
goal_not_held PaymentStatus.declined g h = false≢true h

goal_live : (s : PaymentStatus) → is_goal s ≡ true → is_declined s ≡ false
goal_live PaymentStatus.authorized g = refl
goal_live PaymentStatus.captured g = refl
goal_live PaymentStatus.voided g = refl
goal_live PaymentStatus.declined g = absurd (false≢true g)

stamped-IsKept :
    (field : StampField) (target : PaymentStatus) (now : ℕ) (row : Payment)
    → is_goal target ≡ true
    → is_declined row.status ≡ false
    → IsKept row (stamped field target now row)
stamped-IsKept StampField.captured_at target now row goal live = record {
  same_id = refl;
  same_order = refl;
  same_amount = refl;
  declined_stays = λ h. absurd (false≢true (sym live ∙ h));
  held_stays = λ h. absurd (goal_not_held target goal h);
  live_stays = λ h. goal_live target goal;
}
stamped-IsKept StampField.voided_at target now row goal live = record {
  same_id = refl;
  same_order = refl;
  same_amount = refl;
  declined_stays = λ h. absurd (false≢true (sym live ∙ h));
  held_stays = λ h. absurd (goal_not_held target goal h);
  live_stays = λ h. goal_live target goal;
}

module _ (table : KeyedStore (String × String) Payment) where
  open table use {Db, find, put, same}

  -- An update that is under way is of a payment that is there and was not declined, and sets it captured
  -- or voided.
  unfoldable pub IsSound : Db → Pending → Type 0
  IsSound db (creates key row) = Unit
  IsSound db (updates key field target now) =
      (is_goal target ≡ true)
      × ((row : Payment) × (find db key ≡ some row) × (is_declined row.status ≡ false))

  -- Every payment of `db` is kept in `db'`.
  unfoldable pub AllKept : Db → Db → Type 0
  AllKept db db' =
      (k : String × String) (p : Payment)
      → find db k ≡ some p
      → (p' : Payment) × (find db' k ≡ some p') × IsKept p p'

  pub AllKept-refl : (db : Db) → AllKept db db
  unfolding AllKept
  AllKept-refl db k p h = (p, h, IsKept-refl p)

  put-AllKept :
      (db : Db) (key : String × String) (row : Payment)
      → ((p : Payment) → find db key ≡ some p → IsKept p row)
      → AllKept db (put db key row)
  unfolding AllKept
  put-AllKept db key row keeps k p h = elim (Bool-cases (same key k)) [
    | inl hit ↦ (
      row,
      rw (table.find-put, hit) refl,
      keeps p (ap (find db) ((table.same_iff key k).0 hit) ∙ h),
    )
    | inr miss ↦ (p, rw (table.find-put, miss) h, IsKept-refl p)
  ]

  some_same : {p q : Payment} → ◌≡◌ {A = Option Payment} (some p) (some q) → p ≡ q
  some_same e = cc

  pub commit-AllKept : (p : Pending) (db : Db) → IsSound db p → AllKept db (commit table p db)
  unfolding commit IsSound
  commit-AllKept (creates key row) db sound = elim (Option-cases (find db key)) [
    | inl e ↦ rw (commit, e) (put-AllKept db key row (λ p h. ground (arith, e, h)))
    | inr (old, e) ↦ rw (commit, e) (AllKept-refl db)
  ]
  commit-AllKept (updates key field target now) db (goal, (row, here, live)) =
      rw (commit, here)
        (put-AllKept db key (stamped field target now row) (λ p h.
          subst (λ x. IsKept x (stamped field target now row)) (some_same (sym here ∙ h))
            (stamped-IsKept field target now row goal live)))

  pub IsSound-AllKept : (db db' : Db) (p : Pending) → AllKept db db' → IsSound db p → IsSound db' p
  unfolding IsSound AllKept
  IsSound-AllKept db db' (creates key row) kept sound = tt
  IsSound-AllKept db db' (updates key field target now) kept (goal, (row, here, live)) =
      let (row', here', k) = kept key row here in (goal, (row', here', k.live_stays live))
