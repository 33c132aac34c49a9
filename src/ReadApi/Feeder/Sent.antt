-- ===== src/ReadApi/Feeder/Sent.antt =====
-- What the connections of the merchants are sent (apps/read-api/src/sse).
use flash_bite.Prelude.{
  ℕ, String, ◌≡◌, refl, sym, ap, ◌∙◌, false, List, [], ◌∷◌, ◌++◌, map, append_assoc, append-nil,
  Option, none, some, or_else, ◌==◌, eq_iff, eq_refl, if◌then◌else◌, inl, inr, Bool-cases,
  Option-cases,
}
use flash_bite.Contracts.{EventEnvelope, DispatchView, Topic}
use flash_bite.ReadApi.Streams.{
  OrderStreamEvent, DeliveryView, to_stream_event, to_dispatch_view, to_delivery_view,
}
use flash_bite.ReadApi.Feeder.{
  Follower, Subject, Subjects, Services, merchants, merchant_frames, next, subject_for, publish,
  feed,
}

module _ (V : Type 0) where
  -- What each subscription of a tenant's merchants has been given.
  unfoldable pub connections : Subjects V → String → List (List V)
  connections subjects tenant_id = merchants V (or_else (subjects tenant_id) [])

  -- The tenant's part of what is published.
  unfoldable pub published_to : String → List (String × V) → List V
  published_to tenant_id [] = []
  published_to tenant_id ((t, view) ∷ rest) =
      if t == tenant_id then view ∷ published_to tenant_id rest else published_to tenant_id rest

  unfoldable pub publish_all : List (String × V) → Subjects V → Subjects V
  unfolding publish
  publish_all [] subjects = subjects
  publish_all ((t, view) ∷ rest) subjects = publish_all rest (publish V t view subjects)

  send : List V → List (List V) → List (List V)
  send views logs = map (λ sent. sent ++ views) logs

  send-nil : (logs : List (List V)) → send [] logs ≡ logs
  unfolding send
  send-nil [] = refl
  send-nil (l ∷ logs) = rw (append-nil, send-nil logs) refl

  send-send :
      (view : V) (views : List V) (logs : List (List V))
      → send views (send (view ∷ []) logs) ≡ send (view ∷ views) logs
  unfolding send
  send-send view views [] = refl
  send-send view views (l ∷ logs) =
      rw (append_assoc l (view ∷ []) views, send-send view views logs) refl

  merchants-next :
      (view : V) (subject : Subject V)
      → merchants V (next V view subject) ≡ send (view ∷ []) (merchants V subject)
  unfolding send
  merchants-next view [] = refl
  merchants-next view ((Follower.merchant, given) ∷ rest) =
      ap (λ logs. (given ++ view ∷ []) ∷ logs) (merchants-next view rest)
  merchants-next view ((Follower.driver d, given) ∷ rest) = merchants-next view rest

  hit :
      (t : String) (view : V) (subjects : Subjects V)
      → connections (publish V t view subjects) t ≡ send (view ∷ []) (connections subjects t)
  unfolding connections publish subject_for send
  hit t view subjects = elim (Option-cases (subjects t)) [
    | inl e ↦ rw (connections, publish, e, eq_refl t) refl
    | inr (x, e) ↦ rw (connections, publish, e, eq_refl t) (merchants-next view x)
  ]

  miss :
      (t k : String) (view : V) (subjects : Subjects V)
      → (t == k) ≡ false
      → connections (publish V t view subjects) k ≡ connections subjects k
  unfolding connections publish subject_for
  miss t k view subjects h = elim (Option-cases (subjects t)) [
    | inl e ↦ rw (connections, publish, e, h) refl
    | inr (x, e) ↦ rw (connections, publish, e, h) refl
  ]

  pub connections-publish_all :
      (k : String) (pubs : List (String × V)) (subjects : Subjects V)
      → connections (publish_all pubs subjects) k
        ≡ map (λ sent. sent ++ published_to k pubs) (connections subjects k)
  unfolding publish_all published_to send
  connections-publish_all k [] subjects = sym (send-nil (connections subjects k))
  connections-publish_all k ((t, view) ∷ rest) subjects = elim (Bool-cases (t == k)) [
    | inl e ↦ rw e (
        connections-publish_all k rest (publish V t view subjects)
        ∙ rw ((eq_iff t k).0 e, hit k view subjects)
            (send-send view (published_to k rest) (connections subjects k)))
    | inr e ↦ rw e (
        connections-publish_all k rest (publish V t view subjects)
        ∙ rw (miss t k view subjects e) refl)
  ]

-- What of a dispatch a merchant may see: the fields that name no driver
abbrev pub without_driver : DispatchView → DeliveryView
without_driver v = record {
  tenant_id = v.tenant_id;
  order_id = v.order_id;
  status = v.status;
  reason = v.reason;
  version = v.version;
  updated_at = v.updated_at;
}

merchant_frames-append :
    (given views : List DispatchView)
    → merchant_frames (given ++ views) ≡ merchant_frames given ++ map without_driver views
unfolding merchant_frames to_delivery_view
merchant_frames-append [] [] = refl
merchant_frames-append [] (v ∷ views) =
    ap (λ fs. without_driver v ∷ fs) (merchant_frames-append [] views)
merchant_frames-append (v ∷ given) views =
    ap (λ fs. without_driver v ∷ fs) (merchant_frames-append given views)

frames_after :
    (views : List DispatchView) (logs : List (List DispatchView))
    → map merchant_frames (map (λ sent. sent ++ views) logs)
      ≡ map (λ sent. sent ++ map without_driver views) (map merchant_frames logs)
frames_after views [] = refl
frames_after views (l ∷ logs) = rw (merchant_frames-append l views, frames_after views logs) refl

-- What a run of messages asks the services to publish.
abbrev pub order_part : Topic → EventEnvelope → List (String × OrderStreamEvent)
order_part Topic.dispatch_events envelope = []
order_part Topic.order_events envelope = (envelope.tenant_id, to_stream_event envelope) ∷ []
order_part Topic.telemetry_streams envelope = (envelope.tenant_id, to_stream_event envelope) ∷ []

abbrev pub view_part : String → Option DispatchView → List (String × DispatchView)
view_part tenant_id none = []
view_part tenant_id (some view) = (tenant_id, view) ∷ []

abbrev pub dispatch_part : ℕ → Topic → EventEnvelope → List (String × DispatchView)
dispatch_part seconds Topic.dispatch_events envelope =
    view_part envelope.tenant_id (to_dispatch_view seconds envelope)
dispatch_part seconds Topic.order_events envelope = []
dispatch_part seconds Topic.telemetry_streams envelope = []

module _ (seconds : ℕ) where
  unfoldable pub feed_all : List (Topic × EventEnvelope) → Services → Services
  unfolding feed
  feed_all [] s = s
  feed_all ((topic, envelope) ∷ rest) s = feed_all rest (feed seconds topic envelope s)

  unfoldable pub order_events_of : List (Topic × EventEnvelope) → List (String × OrderStreamEvent)
  order_events_of [] = []
  order_events_of ((topic, envelope) ∷ rest) = order_part topic envelope ++ order_events_of rest

  unfoldable pub dispatch_views_of : List (Topic × EventEnvelope) → List (String × DispatchView)
  dispatch_views_of [] = []
  dispatch_views_of ((topic, envelope) ∷ rest) =
      dispatch_part seconds topic envelope ++ dispatch_views_of rest

  orders-feed_all :
      (messages : List (Topic × EventEnvelope)) (s : Services)
      → (feed_all messages s).orders
        ≡ publish_all OrderStreamEvent (order_events_of messages) s.orders
  unfolding feed_all order_events_of feed publish_all
  orders-feed_all [] s = refl
  orders-feed_all ((Topic.order_events, e) ∷ rest) s = orders-feed_all rest _
  orders-feed_all ((Topic.telemetry_streams, e) ∷ rest) s = orders-feed_all rest _
  orders-feed_all ((Topic.dispatch_events, e) ∷ rest) s = orders-feed_all rest _

  dispatches-feed_all :
      (messages : List (Topic × EventEnvelope)) (s : Services)
      → (feed_all messages s).dispatches
        ≡ publish_all DispatchView (dispatch_views_of messages) s.dispatches
  unfolding feed_all dispatch_views_of feed publish_all
  dispatches-feed_all [] s = refl
  dispatches-feed_all ((Topic.order_events, e) ∷ rest) s = dispatches-feed_all rest _
  dispatches-feed_all ((Topic.telemetry_streams, e) ∷ rest) s = dispatches-feed_all rest _
  dispatches-feed_all ((Topic.dispatch_events, e) ∷ rest) s =
      dispatches-feed_all rest (feed seconds Topic.dispatch_events e s)
      ∙ shown (to_dispatch_view seconds e) refl
    where
      shown :
          (o : Option DispatchView)
          → to_dispatch_view seconds e ≡ o
          → publish_all DispatchView
              (dispatch_views_of rest)
              (feed seconds Topic.dispatch_events e s).dispatches
            ≡ publish_all DispatchView
                (view_part e.tenant_id (to_dispatch_view seconds e) ++ dispatch_views_of rest)
                s.dispatches
      shown none h = rw (feed, h) refl
      shown (some view) h = rw (feed, h) refl

  -- What the connections of a tenant's merchants have sent of the dispatches.
  abbrev pub dispatch_frames : Services → String → List (List DeliveryView)
  dispatch_frames s tenant_id =
      map merchant_frames (connections DispatchView s.dispatches tenant_id)

  -- Whatever messages the feeder takes, each connection of a tenant's merchants has then sent, after
  -- what it had sent before, the tenant's part of the order events that the messages make, or of the
  -- dispatch views, of these the fields that name no driver only, in their order, and nothing of
  -- another tenant.
  pub connections-feed_all :
      (tenant_id : String) (messages : List (Topic × EventEnvelope)) (s : Services)
      → (connections OrderStreamEvent (feed_all messages s).orders tenant_id
          ≡ map
              (λ sent. sent ++ published_to OrderStreamEvent tenant_id (order_events_of messages))
              (connections OrderStreamEvent s.orders tenant_id))
        × (dispatch_frames (feed_all messages s) tenant_id
            ≡ map
                (λ sent.
                  sent
                  ++ map without_driver
                      (published_to DispatchView tenant_id (dispatch_views_of messages)))
                (dispatch_frames s tenant_id))
  connections-feed_all tenant_id messages s = (
    ap (λ x. connections OrderStreamEvent x tenant_id) (orders-feed_all messages s)
        ∙ connections-publish_all OrderStreamEvent tenant_id (order_events_of messages) s.orders,
    ap (map merchant_frames) (
          ap (λ x. connections DispatchView x tenant_id) (dispatches-feed_all messages s)
          ∙ connections-publish_all DispatchView tenant_id (dispatch_views_of messages)
              s.dispatches)
        ∙ frames_after (published_to DispatchView tenant_id (dispatch_views_of messages))
            (connections DispatchView s.dispatches tenant_id),
  )
