-- ===== src/ReadApi/Streams/Followers.antt =====
-- What a driver's connection sends (apps/read-api/src/sse/driver-sse.controller.ts).
use flash_bite.Prelude.{
  String, ◌≡◌, refl, ap, Bool, false, ◌&&◌, ◌||◌, List, [], ◌∷◌, Option, none, some, includes, any,
  arith, ◌==◌, if◌then◌else◌, inl, inr, Bool-cases, Option-cases,
}
use flash_bite.Contracts.{DispatchView}
use flash_bite.ReadApi.Streams.{is_id, is_for_driver, accept_for_driver, stamped, driver_stream}

module _ (me : String) where
  -- A field of a view names the driver.
  abbrev names : Option String → Bool
  names none = false
  names (some driver_id) = driver_id == me

  -- The view is an assignment of the order to the driver.
  abbrev pub assigns : String → DispatchView → Bool
  assigns order_id u = names u.driver_id && order_id == u.order_id

  -- A view concerns the driver when it is offered or assigned to the driver, or when its order was
  -- assigned to the driver before.
  abbrev pub concerns : List DispatchView → DispatchView → Bool
  concerns before view =
      names view.offered_driver_id || names view.driver_id || any (assigns view.order_id) before

  -- The driver that a view is sent with: its own, or the one who is sent it.
  abbrev driver_or_me : Option String → String
  driver_or_me none = me
  driver_or_me (some driver_id) = if driver_id == "" then me else driver_id

  -- The view as the driver is sent it, field by field.
  abbrev pub as_sent : DispatchView → DispatchView
  as_sent view = record {
    tenant_id = view.tenant_id;
    order_id = view.order_id;
    status = view.status;
    driver_id = some (driver_or_me view.driver_id);
    offered_driver_id = view.offered_driver_id;
    reason = view.reason;
    version = view.version;
    updated_at = view.updated_at;
    offer_expires_at = view.offer_expires_at;
  }

  -- the views that concern the driver, with the views before each one known
  unfoldable pub relevant : List DispatchView → List DispatchView → List DispatchView
  relevant before [] = []
  relevant before (view ∷ views) =
      let rest = relevant (view ∷ before) views in
      if concerns before view then as_sent view ∷ rest else rest

  is_id-names : (o : Option String) → is_id o me ≡ names o
  is_id-names none = refl
  is_id-names (some d) = refl

  stamped-as_sent : (view : DispatchView) → stamped me view ≡ as_sent view
  unfolding stamped
  stamped-as_sent view = elim (Option-cases view.driver_id) [
    | inl e ↦ rw (e, stamped) refl
    | inr (d, e) ↦ elim (Bool-cases (d == "")) [
      | inl f ↦ rw (e, stamped, f) refl
      | inr f ↦ rw (e, stamped, f) (ap (λ o. record view { driver_id = o }) e)
    ]
  ]

  abbrev Owns : List String → List DispatchView → Type 0
  Owns owned before = (o : String) → includes o owned ≡ any (assigns o) before

  stream_relevant :
      (owned : List String) (before views : List DispatchView)
      → Owns owned before
      → driver_stream me owned views ≡ relevant before views
  unfolding driver_stream relevant accept_for_driver is_for_driver
  stream_relevant owned before [] h = refl
  stream_relevant owned before (view ∷ views) h =
      let mine_iff = is_id-names view.driver_id in
      let offered_iff = is_id-names view.offered_driver_id in
      let sent = stamped-as_sent view in
      elim (Bool-cases (is_id view.driver_id me)) [
        | inl mine ↦
            let ih =
              stream_relevant (view.order_id ∷ owned) (view ∷ before) views
                (λ o. rw (← mine_iff, mine) (ap (λ b. o == view.order_id || b) (h o))) in
            ground (arith, mine, mine_iff, offered_iff, sent, ih, h view.order_id)
        | inr others ↦
            let ih =
              stream_relevant owned (view ∷ before) views (λ o. rw (← mine_iff, others) (h o)) in
            ground (arith, others, mine_iff, offered_iff, sent, ih, h view.order_id)
      ]

  -- A connection sends, in their order, the views that are offered or assigned to its driver, and those
  -- of orders that were assigned to the driver before, each with its fields as they came, the driver
  -- being filled in where none is named, and sends no others.
  pub driver_stream-relevant :
      (views : List DispatchView) → driver_stream me [] views ≡ relevant [] views
  driver_stream-relevant views = stream_relevant [] [] views (λ o. refl)
