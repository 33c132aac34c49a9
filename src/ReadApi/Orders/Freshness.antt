-- ===== src/ReadApi/Orders/Freshness.antt =====
-- How old a cached order can be (orders-query.service.ts).
use flash_bite.Prelude.{
  ℕ, ◌+◌, ◌*◌, ◌≤◌, ◌<◌, String, ◌<>◌, nat_eq, if◌then◌else◌, ◌≡◌, refl, sym, ap, subst, ◌∙◌, false,
  List, ◌∷◌, Option, none, some, ok, ◌==◌, ltb, ltb→lt, eq_iff, inl, inr, arith, has_char,
  Bool-cases, Option-cases, ok-inj,
}
use flash_bite.Contracts.{OrderView}
use flash_bite.Contracts.Keys.{scoped_id}
use flash_bite.Contracts.Keys.Distinct.{order_key, order_key-inj}
use flash_bite.Stores.{KeyedStore}
use flash_bite.TenantContext.{AuthContext, get_auth_context}
use flash_bite.ReadApi.Queries.{current_tenant, current_scoped_id, scoped_key}
use flash_bite.ReadApi.Orders.{
  Cache, Codec, Call, gets, finds, sets, answers, cache_ttl_seconds, cached_text, get_order,
  on_cached, on_doc, advance,
}

some-inj {ℓ} : {A : Type ℓ} {a b : A} → ◌≡◌ {A = Option A} (some a) (some b) → a ≡ b
some-inj e = cc

gone {ℓ κ} : {A : Type ℓ} {B : Type κ} {a : A} → ◌≡◌ {A = Option A} (some a) none → B
gone e = cc

module _ (orders : KeyedStore String OrderView) (Text : Type 0) (cache : Cache Text)
    (codec : Codec OrderView Text) where
  -- A call that is under way, of a tenant's caller, and when its document was found
  pub record Flight : Type 0 where
    pub tenant_id : String
    pub order_id : String
    pub call : Call orders Text cache codec
    pub found_at : ℕ

  -- The collection and the cache at a time, the calls under way, and what the collection was at times
  -- before.
  pub record World : Type 0 where
    pub now : ℕ
    pub collection : orders.Db
    pub cached : cache.Db
    pub calls : ℕ → Option Flight
    pub past : List (ℕ × orders.Db)

  abbrev pub moments : World → List (ℕ × orders.Db)
  moments w = (w.now, w.collection) ∷ w.past

  abbrev pub with_call : ℕ → Flight → (ℕ → Option Flight) → ℕ → Option Flight
  with_call n f calls k = if nat_eq n k then some f else calls k

  abbrev begun : AuthContext → String → Call orders Text cache codec → ℕ → Flight
  begun auth order_id call now = record {
    tenant_id = auth.tenant_id;
    order_id = order_id;
    call = call;
    found_at = now;
  }

  abbrev found : ℕ → Flight → Call orders Text cache codec → ℕ
  found now f (finds key id) = now
  found now f _ = f.found_at

  abbrev advanced : World → Flight → Call orders Text cache codec × cache.Db
  advanced w f = advance orders Text cache codec w.now w.collection w.cached f.call

  abbrev pub moved : World → Flight → Flight
  moved w f = record f { call = (advanced w f).0; found_at = found w.now f f.call }

  module _ (delay : ℕ) where
    -- The entry is set at most `delay` milliseconds after the document was found.
    abbrev InTime : ℕ → ℕ → Call orders Text cache codec → Type 0
    InTime now found_at (sets key view) = now ≤ found_at + delay
    InTime now found_at _ = Unit

    -- The projection writes, time goes by, and calls begin and go on, in any order; tenants' ids have
    -- no closing brace.
    pub data Step (w : World) : World → Type 0 where
      writes : (db : orders.Db) → Step w (record w { collection = db; past = moments w })
      waits : (ms : ℕ) → Step w (record w { now = w.now + ms; past = moments w })
      begins :
          (n : ℕ) (auth : AuthContext) (order_id : String) (call : Call orders Text cache codec)
          → has_char b'}' auth.tenant_id ≡ false
          → get_order orders Text cache codec (some auth) order_id ≡ ok call
          → Step w (record w { calls = with_call n (begun auth order_id call w.now) w.calls })
      goes_on :
          (n : ℕ) (f : Flight)
          → w.calls n ≡ some f
          → InTime w.now f.found_at f.call
          → Step w (record w { cached = (advanced w f).1; calls = with_call n (moved w f) w.calls })

    pub data Reach (w : World) : World → Type 0 where
      here : Reach w w
      next : {u v : World} → Reach w u → Step u v → Reach w v

    -- The collection had the view under the id at the time.
    pub data Was (id : String) (view : OrderView) (at : ℕ) : List (ℕ × orders.Db) → Type 0 where
      was :
          (db : orders.Db) (ms : List (ℕ × orders.Db))
          → orders.find db id ≡ some view
          → Was id view at ((at, db) ∷ ms)
      earlier :
          (m : ℕ × orders.Db) (ms : List (ℕ × orders.Db))
          → Was id view at ms
          → Was id view at (m ∷ ms)

    -- It had it less than ten seconds, and the delay, before.
    abbrev pub HeldLately : String → OrderView → ℕ → List (ℕ × orders.Db) → Type 0
    HeldLately id view now ms = (at : ℕ) × Was id view at ms × (now < at + delay + 10000)

    -- Each entry of the cache stands for a view that the collection had lately, at any time at which
    -- the entry is still found.
    abbrev pub IsFresh : World → Type 0
    IsFresh w =
        (t i : String) (s : Text) (later : ℕ)
        → has_char b'}' t ≡ false
        → w.now ≤ later
        → cache.get later w.cached (order_key t i) ≡ some s
        → HeldLately (scoped_id t i) (codec.parse s) later (moments w)

    -- What a call under way knows: its keys, and, once the document was found, that it was there.
    abbrev Knows : World → String → String → ℕ → Call orders Text cache codec → Type 0
    Knows w t i at (gets key id) = (key ≡ order_key t i) × (id ≡ scoped_id t i)
    Knows w t i at (finds key id) = (key ≡ order_key t i) × (id ≡ scoped_id t i)
    Knows w t i at (sets key view) = (key ≡ order_key t i) × Was (scoped_id t i) view at (moments w)
    Knows w t i at (answers view) = Unit

    abbrev IsSound : World → Type 0
    IsSound w =
        (n : ℕ) (f : Flight)
        → w.calls n ≡ some f
        → (has_char b'}' f.tenant_id ≡ false) × Knows w f.tenant_id f.order_id f.found_at f.call

    Knows-later :
        (w : World) (m : ℕ × orders.Db) (t i : String) (at : ℕ)
        (call : Call orders Text cache codec)
        → Knows w t i at call
        → Knows (record w { now = m.0; collection = m.1; past = moments w }) t i at call
    Knows-later w m t i at (gets key id) h = h
    Knows-later w m t i at (finds key id) h = h
    Knows-later w m t i at (sets key view) h = (h.0, earlier m (moments w) h.1)
    Knows-later w m t i at (answers view) h = h

    set-IsFresh :
        (w : World) (a j key : String) (view : OrderView) (at : ℕ)
        → has_char b'}' a ≡ false
        → key ≡ order_key a j
        → Was (scoped_id a j) view at (moments w)
        → w.now ≤ at + delay
        → IsFresh w
        → IsFresh (record w {
          cached = cache.set_ex w.now key (codec.json view) cache_ttl_seconds w.cached;
        })
    set-IsFresh w a j key view at ha named held in_time fresh t i s later ht le hit =
        let law =
          cache.get-set_ex w.cached w.now later key (order_key t i) (codec.json view)
            cache_ttl_seconds le in
        elim (Bool-cases (key == order_key t i)) [
          | inr e ↦ fresh t i s later ht le (sym (law ∙ rw e refl) ∙ hit)
          | inl e ↦ elim (Bool-cases (ltb later (w.now + cache_ttl_seconds * 1000))) [
            | inr f ↦ gone (sym hit ∙ law ∙ rw (e, f) refl)
            | inl f ↦
                let same =
                  order_key-inj a t j i ha ht (sym named ∙ (eq_iff key (order_key t i)).0 e) in
                let text : s ≡ codec.json view = some-inj (sym hit ∙ law ∙ rw (e, f) refl) in
                let until = ltb→lt later (w.now + 10000) f in
                (
                  at,
                  rw (text, codec.parse-json view)
                      (subst (λ x. Was x view at (moments w))
                        (ap (λ x. scoped_id x j) same.0 ∙ ap (scoped_id t) same.1) held),
                  omega (arith, until, in_time),
                )
          ]
        ]

    advance-IsFresh :
        (w : World) (t i : String) (at : ℕ) (call : Call orders Text cache codec)
        → has_char b'}' t ≡ false
        → Knows w t i at call
        → InTime w.now at call
        → IsFresh w
        → IsFresh (record w {
          cached = (advance orders Text cache codec w.now w.collection w.cached call).1;
        })
    unfolding advance
    advance-IsFresh w t i at (gets key id) ht k in_time fresh = fresh
    advance-IsFresh w t i at (finds key id) ht k in_time fresh = fresh
    advance-IsFresh w t i at (sets key view) ht k in_time fresh =
        set-IsFresh w t i key view at ht k.0 k.1 in_time fresh
    advance-IsFresh w t i at (answers view) ht k in_time fresh = fresh

    on_cached-Knows :
        (w : World) (t i key id : String) (at : ℕ) (o : Option Text)
        → (key ≡ order_key t i) × (id ≡ scoped_id t i)
        → Knows w t i at (on_cached orders Text cache codec key id o)
    on_cached-Knows w t i key id at none k = k
    on_cached-Knows w t i key id at (some s) k = tt

    on_doc-Knows :
        (w : World) (t i key id : String) (o : Option OrderView)
        → (key ≡ order_key t i) × (id ≡ scoped_id t i)
        → orders.find w.collection id ≡ o
        → Knows w t i w.now (on_doc orders Text cache codec key o)
    on_doc-Knows w t i key id none k e = tt
    on_doc-Knows w t i key id (some view) k e =
        (k.0, was w.collection w.past (ap (orders.find w.collection) (sym k.1) ∙ e))

    advance-Knows :
        (w : World) (f : Flight) (call : Call orders Text cache codec)
        → Knows w f.tenant_id f.order_id f.found_at call
        → Knows w f.tenant_id f.order_id
            (found w.now f call)
            (advance orders Text cache codec w.now w.collection w.cached call).0
    unfolding advance
    advance-Knows w f (gets key id) k =
        on_cached-Knows w f.tenant_id f.order_id key id f.found_at
          (cached_text orders Text cache codec (cache.get w.now w.cached key)) k
    advance-Knows w f (finds key id) k =
        on_doc-Knows w f.tenant_id f.order_id key id (orders.find w.collection id) k refl
    advance-Knows w f (sets key view) k = tt
    advance-Knows w f (answers view) k = tt

    begun-Knows :
        (w : World) (auth : AuthContext) (order_id : String) (call : Call orders Text cache codec)
        → get_order orders Text cache codec (some auth) order_id ≡ ok call
        → Knows w auth.tenant_id order_id w.now call
    unfolding get_order scoped_key current_scoped_id current_tenant get_auth_context
    begun-Knows w auth order_id call h =
        subst (Knows w auth.tenant_id order_id w.now) (ok-inj h) (refl, refl)

    -- Whether the call is at its end
    abbrev pub Waiting : Call orders Text cache codec → Type 0
    Waiting (answers view) = ⊥
    Waiting _ = Unit

    with_call-IsSound :
        (w w' : World) (n : ℕ) (f : Flight)
        → ((t i : String) (at : ℕ) (call : Call orders Text cache codec)
            → Knows w t i at call
            → Knows w' t i at call)
        → (has_char b'}' f.tenant_id ≡ false) × Knows w f.tenant_id f.order_id f.found_at f.call
        → IsSound w
        → (k : ℕ) (g : Flight) → with_call n f w.calls k ≡ some g
        → (has_char b'}' g.tenant_id ≡ false) × Knows w' g.tenant_id g.order_id g.found_at g.call
    with_call-IsSound w w' n f keeps ok_f sound k g e = elim (Bool-cases (nat_eq n k)) [
      | inl hit ↦
          let same : f ≡ g = some-inj (rw hit at e) in
          let both =
            subst
              (λ x.
                (has_char b'}' x.tenant_id ≡ false)
                × Knows w x.tenant_id x.order_id x.found_at x.call)
              same ok_f in
          (both.0, keeps g.tenant_id g.order_id g.found_at g.call both.1)
      | inr miss ↦
          let both = sound k g (rw miss at e) in
          (both.0, keeps g.tenant_id g.order_id g.found_at g.call both.1)
    ]

    Knows-cached :
        (w : World) (cached : cache.Db) (calls : ℕ → Option Flight) (t i : String) (at : ℕ)
        (call : Call orders Text cache codec)
        → Knows w t i at call
        → Knows (record w { cached = cached; calls = calls }) t i at call
    Knows-cached w cached calls t i at (gets key id) h = h
    Knows-cached w cached calls t i at (finds key id) h = h
    Knows-cached w cached calls t i at (sets key view) h = h
    Knows-cached w cached calls t i at (answers view) h = h

    Step-IsFresh : {u v : World} → Step u v → IsFresh u → IsSound u → IsFresh v
    Step-IsFresh {u} (writes db) fresh sound t i s later ht le hit =
        let (at, held, lately) = fresh t i s later ht le hit in
        (at, earlier (u.now, db) (moments u) held, lately)
    Step-IsFresh {u} (waits ms) fresh sound t i s later ht le hit =
        let (at, held, lately) = fresh t i s later ht (omega (arith, le)) hit in
        (at, earlier (u.now + ms, u.collection) (moments u) held, lately)
    Step-IsFresh {u} (begins n auth order_id call ha e) fresh sound t i s later ht le hit =
        fresh t i s later ht le hit
    Step-IsFresh {u} (goes_on n f e in_time) fresh sound t i s later ht le hit =
        let known = sound n f e in
        advance-IsFresh u f.tenant_id f.order_id f.found_at f.call known.0 known.1 in_time fresh t i
          s later ht le hit

    Step-IsSound : {u v : World} → Step u v → IsSound u → IsSound v
    Step-IsSound {u} (writes db) sound n f e =
        let known = sound n f e in
        (known.0, Knows-later u (u.now, db) f.tenant_id f.order_id f.found_at f.call known.1)
    Step-IsSound {u} (waits ms) sound n f e =
        let known = sound n f e in
        (
          known.0,
          Knows-later u (u.now + ms, u.collection) f.tenant_id f.order_id f.found_at f.call known.1,
        )
    Step-IsSound {u} (begins n auth order_id call ha e) sound k g h =
        let new = begun auth order_id call u.now in
        with_call-IsSound u (record u { calls = with_call n new u.calls }) n new
          (Knows-cached u u.cached (with_call n new u.calls))
          (ha, begun-Knows u auth order_id call e) sound k g h
    Step-IsSound {u} (goes_on n f e in_time) sound k g h =
        let known = sound n f e in
        let calls = with_call n (moved u f) u.calls in
        with_call-IsSound u (record u { cached = (advanced u f).1; calls = calls }) n (moved u f)
          (Knows-cached u (advanced u f).1 calls) (known.0, advance-Knows u f f.call known.1) sound
          k g h

    Reach-both : {u v : World} → Reach u v → IsFresh u × IsSound u → IsFresh v × IsSound v
    Reach-both here h = h
    Reach-both (next r st) h =
        let before = Reach-both r h in (Step-IsFresh st before.0 before.1, Step-IsSound st before.1)

    cached_text-some :
        (o : Option Text) (s : Text) → cached_text orders Text cache codec o ≡ some s → o ≡ some s
    cached_text-some none s e = cc
    cached_text-some (some x) s e = ground (arith, e)

    answer-inj :
        {a b : OrderView}
        → ◌≡◌ {A = Call orders Text cache codec} (answers (some a)) (answers (some b))
        → a ≡ b
    answer-inj e = cc

    advance-HeldLately :
        (w : World) (t i : String) (at : ℕ) (view : OrderView) (call : Call orders Text cache codec)
        → has_char b'}' t ≡ false
        → Knows w t i at call
        → InTime w.now at call
        → Waiting call
        → IsFresh w
        → (advance orders Text cache codec w.now w.collection w.cached call).0 ≡ answers (some view)
        → HeldLately (scoped_id t i) view w.now (moments w)
    unfolding advance
    advance-HeldLately w t i at view (gets key id) ht k in_time open_yet fresh h =
        elim (Option-cases (cached_text orders Text cache codec (cache.get w.now w.cached key))) [
          | inl e ↦ cc (rw e at h)
          | inr (s, e) ↦
              subst (λ x. HeldLately (scoped_id t i) x w.now (moments w)) (answer-inj (rw e at h))
                (fresh t i s w.now ht (omega arith) (
                  ap (cache.get w.now w.cached) (sym k.0)
                  ∙ cached_text-some (cache.get w.now w.cached key) s e))
        ]
    advance-HeldLately w t i at view (finds key id) ht k in_time open_yet fresh h =
        elim (Option-cases (orders.find w.collection id)) [
          | inl e ↦ cc (rw e at h)
          | inr (v, e) ↦ cc (rw e at h)
        ]
    advance-HeldLately w t i at view (sets key v) ht k in_time open_yet fresh h = (
      at,
      subst (λ x. Was (scoped_id t i) x at (moments w)) (answer-inj h) k.1,
      omega (arith, in_time),
    )
    advance-HeldLately w t i at view (answers v) ht k in_time open_yet fresh h = absurd open_yet

    -- A call that answers with an order, from the cache or not, answers with one that the collection
    -- had under the id of the caller's tenant less than ten seconds before, and the time that a read
    -- may take between finding a document and setting its entry, whatever was written, and whichever
    -- calls went on, meanwhile: from a start at which no call was under way and the cache had only such
    -- entries. Tenants' ids have no closing brace.
    pub get_order-HeldLately :
        {u v : World} (n : ℕ) (f : Flight) (view : OrderView)
        → IsFresh u
        → ((k : ℕ) → u.calls k ≡ none)
        → Reach u v
        → v.calls n ≡ some f
        → InTime v.now f.found_at f.call
        → Waiting f.call
        → (advance orders Text cache codec v.now v.collection v.cached f.call).0
          ≡ answers (some view)
        → HeldLately (f.tenant_id <> ":" <> f.order_id) view v.now (moments v)
    unfolding scoped_id
    get_order-HeldLately {v} n f view fresh idle r under_way in_time open_yet h =
        let both = Reach-both r (fresh, λ k g e. gone (sym e ∙ idle k)) in
        let known = both.1 n f under_way in
        advance-HeldLately v f.tenant_id f.order_id f.found_at view f.call known.0 known.1 in_time
          open_yet both.0 h
