-- ===== src/SagaWorker/DispatchWorkflow/Lawful.antt =====
-- The protocol of dispatch-workflow.ts where a round begins and where a wait is checked.
use flash_bite.Prelude.{
  ℕ, ◌+◌, ◌≤◌, String, ◌≡◌, refl, Bool, true, false, List, [], ◌∷◌, ◌++◌, arith, includes, length,
  append_assoc, append-nil, ◌||◌, ltb, inl, inr, Bool-cases, ◌∙◌, ap,
}
use flash_bite.Contracts.{no_drivers_available}
use flash_bite.SagaWorker.DispatchWorkflow.{
  Activity, Await, DispatchWorkflow, select_driver, mark_busy, record_picked_up, record_delivered,
  record_failed, replying, picking_up, delivering, begin_round, reply_to_offer, check,
}
use flash_bite.SagaWorker.DispatchWorkflow.Protocol.{offers, IsLast, out_of_rounds, IsLawful}

module _ (max : ℕ) where
  pub begin_round-IsLawful :
      (i : ℕ) (wf : DispatchWorkflow)
      → wf.issued ≡ offers [] wf.tried
      → i ≡ length wf.tried
      → length wf.tried ≤ max
      → IsLawful max (begin_round max i wf)
  unfolding begin_round
  begin_round-IsLawful i wf h n le = elim (Bool-cases (ltb i max)) [
    | inl more ↦ rw (more) (record {
      history = (select_driver wf.tried ∷ [], ap (λ l. l ++ select_driver wf.tried ∷ []) h, refl);
      rounds = (n, ground (arith, more));
      answered = tt;
      signalled = tt;
    })
    | inr done ↦ rw (done) (record {
      history = (
        record_failed no_drivers_available ∷ [],
        ap (λ l. l ++ record_failed no_drivers_available ∷ []) h,
        out_of_rounds refl refl,
      );
      rounds = le;
      answered = tt;
      signalled = tt;
    })
  ]

  reply_to_offer-IsLawful :
      (d : String) (wf : DispatchWorkflow)
      → IsLast d wf.tried
      → wf.issued ≡ offers [] wf.tried
      → wf.round + 1 ≡ length wf.tried
      → length wf.tried ≤ max
      → IsLawful max (reply_to_offer max d wf)
  unfolding reply_to_offer
  reply_to_offer-IsLawful d wf last h n le = elim (Bool-cases (includes d wf.accepted)) [
    | inl said_yes ↦ rw said_yes (record {
      history = (mark_busy d ∷ [], ap (λ l. l ++ mark_busy d ∷ []) h, (last, refl));
      rounds = le;
      answered = said_yes;
      signalled = tt;
    })
    | inr other ↦ rw other (begin_round-IsLawful (wf.round + 1) wf h n le)
  ]

  replying-IsLawful :
      (d : String) (wf : DispatchWorkflow)
      → IsLawful max wf
      → IsLast d wf.tried
      → wf.issued ≡ offers [] wf.tried
      → wf.round + 1 ≡ length wf.tried
      → length wf.tried ≤ max
      → IsLawful max (check max (replying d) wf)
  unfolding check
  replying-IsLawful d wf same last h n le =
      elim (Bool-cases (includes d wf.accepted || includes d wf.rejected)) [
        | inl answer ↦ rw answer (reply_to_offer-IsLawful d wf last h n le)
        | inr silence ↦ rw silence same
      ]

pub extend :
    (o : List Activity) {issued t t0 : List Activity} (x : Activity)
    → issued ≡ o ++ t
    → t ≡ t0
    → issued ++ x ∷ [] ≡ o ++ (t0 ++ x ∷ [])
extend o {t0 = t0} x e f = rw (e, f) (append_assoc o t0 (x ∷ []))

abbrev pub of_parts :
    List String
    → List String
    → Bool
    → Bool
    → List String
    → ℕ
    → Await
    → List Activity
    → DispatchWorkflow
of_parts a r p d t i at l = record {
  accepted = a;
  rejected = r;
  picked_up = p;
  delivered = d;
  tried = t;
  round = i;
  at = at;
  issued = l;
}

module _ (max : ℕ) (a r : List String) (t : List String) (i : ℕ) (l : List Activity) where
  picking_up-IsLawful :
      (p d : Bool) (c : String)
      → IsLawful max (of_parts a r p d t i (picking_up c) l)
      → IsLawful max (check max (picking_up c) (of_parts a r p d t i (picking_up c) l))
  unfolding check
  picking_up-IsLawful false d c s = s
  picking_up-IsLawful true d c s =
      let (_, e, (last, f)) = s.history in
      record {
        history = (_, extend (offers [] t) record_picked_up e f, (last, refl));
        rounds = s.rounds;
        answered = s.answered;
        signalled = refl;
      }

  delivering-IsLawful :
      (p d : Bool) (c : String)
      → IsLawful max (of_parts a r p d t i (delivering c) l)
      → IsLawful max (check max (delivering c) (of_parts a r p d t i (delivering c) l))
  unfolding check
  delivering-IsLawful p false c s = s
  delivering-IsLawful p true c s =
      let (_, e, (last, f)) = s.history in
      record {
        history = (_, extend (offers [] t) record_delivered e f, (last, refl));
        rounds = s.rounds;
        answered = s.answered;
        signalled = (s.signalled, refl);
      }

  pub check-IsLawful :
      (p d : Bool) (at : Await)
      → IsLawful max (of_parts a r p d t i at l)
      → IsLawful max (check max at (of_parts a r p d t i at l))
  unfolding check
  check-IsLawful p d (replying c) s =
      let (_, e, (last, f)) = s.history in
      replying-IsLawful max c (of_parts a r p d t i (replying c) l) s last
        (e ∙ rw (f, append-nil) refl) s.rounds.0 s.rounds.1
  check-IsLawful p d (picking_up c) s = picking_up-IsLawful p d c s
  check-IsLawful p d (delivering c) s = delivering-IsLawful p d c s
  check-IsLawful p d _ s = s
