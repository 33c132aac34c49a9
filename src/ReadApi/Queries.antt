-- ===== src/ReadApi/Queries.antt =====
-- apps/read-api/src: the reads of dispatches (tenant-scope.ts, dispatch/dispatch-query.service.ts,
-- dispatch/dispatch.controller.ts). Mongo's finds are an interface, with what they are documented to give.
use flash_bite.Prelude.{
  String, ◌≡◌, refl, ap, Bool, true, false, ◌&&◌, List, All, Option, none, some, Result, ok, ◌>>=◌,
  ◌==◌, eq_iff, arith, inl, inr, ◌⊎◌,
}
use flash_bite.Contracts.{DispatchView, DispatchStatus}
use flash_bite.Contracts.Keys.{scoped_id, tenant_key, driver_geo_key}
use flash_bite.TenantContext.{AuthContext, get_auth_context}
use flash_bite.ReadApi.Streams.{DeliveryView, to_delivery_view, is_id}

pub record DispatchCollection : Type 1 where
  pub Db : Type 0
  pub find_by_id : Db → String → Option DispatchView
  pub find_one : Db → (DispatchView → Bool) → Option DispatchView
  pub find_many : Db → (DispatchView → Bool) → List DispatchView
  pub find_one_meets :
      (db : Db) (p : DispatchView → Bool) (v : DispatchView) → find_one db p ≡ some v → p v ≡ true
  pub find_many_meets : (db : Db) (p : DispatchView → Bool) → All (λ v. p v ≡ true) (find_many db p)

unfoldable pub current_tenant : Option AuthContext → Result String
unfolding get_auth_context
current_tenant auth = get_auth_context auth >>= λ ctx. ok ctx.tenant_id

unfoldable pub current_sub : Option AuthContext → Result String
unfolding get_auth_context
current_sub auth = get_auth_context auth >>= λ ctx. ok ctx.sub

-- `scopedId` of tenant-scope.ts
unfoldable pub current_scoped_id : Option AuthContext → String → Result String
unfolding current_tenant
current_scoped_id auth id = current_tenant auth >>= λ tenant_id. ok (scoped_id tenant_id id)

unfoldable pub scoped_key : Option AuthContext → List String → Result String
unfolding current_tenant tenant_key
scoped_key auth parts = current_tenant auth >>= λ tenant_id. ok (tenant_key tenant_id parts)

unfoldable pub scoped_geo_key : Option AuthContext → Result String
unfolding current_tenant driver_geo_key
scoped_geo_key auth = current_tenant auth >>= λ tenant_id. ok (driver_geo_key tenant_id)

-- the `$or` of `forDriver`
abbrev pub engages : String → DispatchStatus → DispatchView → Bool
engages driver_id DispatchStatus.offered v = is_id v.offered_driver_id driver_id
engages driver_id DispatchStatus.dispatched v = is_id v.driver_id driver_id
engages driver_id DispatchStatus.picked_up v = is_id v.driver_id driver_id
engages driver_id _ v = false

module _ (dispatches : DispatchCollection) where
  open dispatches use {Db, find_by_id, find_one, find_many}

  unfoldable pub by_order : String → String → Db → Option DispatchView
  unfolding scoped_id
  by_order tenant_id order_id db = find_by_id db (scoped_id tenant_id order_id)

  unfoldable pub all_for_tenant : String → Db → List DispatchView
  all_for_tenant tenant_id db = find_many db (λ v. v.tenant_id == tenant_id)

  unfoldable pub for_driver : String → String → Db → Option DispatchView
  for_driver tenant_id driver_id db =
      find_one db (λ v. v.tenant_id == tenant_id && engages driver_id v.status v)

  -- GET orders/:orderId/dispatch; `none` is `{ status: null }`
  unfoldable pub get_order_dispatch :
      Option AuthContext → String → Db → Result (Option DeliveryView)
  unfolding current_tenant by_order to_delivery_view
  get_order_dispatch auth order_id db = current_tenant auth >>= λ tenant_id.
      elim (by_order tenant_id order_id db) [
        | none ↦ ok none
        | some v ↦ ok (some (to_delivery_view v))
      ]

  -- GET driver/dispatch
  unfoldable pub get_driver_dispatch :
      Option AuthContext → String → Db → Result (Option DispatchView)
  unfolding current_tenant for_driver
  get_driver_dispatch auth driver_id db =
      current_tenant auth >>= λ tenant_id. ok (for_driver tenant_id driver_id db)

  -- A job that is running: the order is offered to the driver, or is the driver's and on its way.
  pub data Engaged (driver_id : String) (v : DispatchView) : Type 0 where
    has_offer :
        v.status ≡ DispatchStatus.offered
        → v.offered_driver_id ≡ some driver_id
        → Engaged driver_id v
    has_job :
        (v.status ≡ DispatchStatus.dispatched) ⊎ (v.status ≡ DispatchStatus.picked_up)
        → v.driver_id ≡ some driver_id
        → Engaged driver_id v

  is_id-some : (o : Option String) (id : String) → is_id o id ≡ true → o ≡ some id
  is_id-some none id h = ground (arith, h)
  is_id-some (some d) id h = ap some ((eq_iff d id).0 h)

  engaged :
      (driver_id : String) (v : DispatchView) (s : DispatchStatus)
      → v.status ≡ s
      → engages driver_id s v ≡ true
      → Engaged driver_id v
  engaged driver_id v DispatchStatus.offered e h =
      has_offer e (is_id-some v.offered_driver_id driver_id h)
  engaged driver_id v DispatchStatus.dispatched e h =
      has_job (inl e) (is_id-some v.driver_id driver_id h)
  engaged driver_id v DispatchStatus.picked_up e h =
      has_job (inr e) (is_id-some v.driver_id driver_id h)
  engaged driver_id v DispatchStatus.delivered e h = ground (arith, h)
  engaged driver_id v DispatchStatus.failed e h = ground (arith, h)

  both_hold : (p q : Bool) → (p && q) ≡ true → (p ≡ true) × (q ≡ true)
  both_hold true q h = (refl, h)
  both_hold false q h = ground (arith, h)

  -- What a driver is shown is a running job of that driver, in the tenant of the request's token.
  pub get_driver_dispatch-Engaged :
      (auth : AuthContext) (driver_id : String) (db : Db) (v : DispatchView)
      → get_driver_dispatch (some auth) driver_id db ≡ ok (some v)
      → (v.tenant_id ≡ auth.tenant_id) × Engaged driver_id v
  unfolding get_driver_dispatch current_tenant get_auth_context for_driver
  get_driver_dispatch-Engaged auth driver_id db v h =
      let meets = both_hold (v.tenant_id == auth.tenant_id) (engages driver_id v.status v) (
        dispatches.find_one_meets db
          (λ v. v.tenant_id == auth.tenant_id && engages driver_id v.status v) v
          (ground (arith, h))) in
      ((eq_iff v.tenant_id auth.tenant_id).0 meets.0, engaged driver_id v v.status refl meets.1)
