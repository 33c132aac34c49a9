-- ===== src/SagaWorker/Drivers.antt =====
-- apps/saga-worker/src/dispatch-activities.ts: whom an order is offered to, and the set of the drivers
-- who are busy. Redis is an interface with the laws of SADD, SREM and SISMEMBER; GEOSEARCH gives the
-- members within the radius, nearest first.
use flash_bite.Prelude.{
  String, ◌≡◌, ◌≢◌, refl, ap, subst, Bool, true, false, not, ◌&&◌, ◌||◌, List, [], ◌∷◌, ◌++◌,
  Option, none, some, All, includes, ◌==◌, eq_refl, arith, if◌then◌else◌, inl, inr, Bool-cases,
}
use flash_bite.Contracts.{TenantView}
use flash_bite.Contracts.Keys.{driver_geo_key, driver_online_key, driver_busy_key}

pub record Redis : Type 1 where
  pub Db : Type 0
  pub geosearch : Db → String → String → String → List String
  pub sismember : Db → String → String → Bool
  pub sadd : Db → String → String → Db
  pub srem : Db → String → String → Db
  pub sismember-sadd :
      (db : Db) (k m k' m' : String)
      → sismember (sadd db k m) k' m' ≡ ((k == k' && m == m') || sismember db k' m')
  pub sismember-srem :
      (db : Db) (k m k' m' : String)
      → sismember (srem db k m) k' m' ≡ (not (k == k' && m == m') && sismember db k' m')

-- The loop over the rows of the search.
unfoldable pub first_available :
    (String → Bool) → (String → Bool) → List String → List String → Option String
first_available online busy exclude [] = none
first_available online busy exclude (d ∷ rows) =
    let rest = first_available online busy exclude rows in
    if includes d exclude
    then rest
    else if not (online d)
    then rest
    else if busy d
    then rest
    else some d

module _ (redis : Redis) where
  open redis use {Db, geosearch, sismember, sadd, srem}

  -- `center` is what the tenant catalog has of the tenant.
  unfoldable pub select_nearest_available_driver :
      Option TenantView → String → List String → Db → Option String
  unfolding first_available driver_geo_key driver_online_key driver_busy_key
  select_nearest_available_driver none tenant_id exclude db = none
  select_nearest_available_driver (some center) tenant_id exclude db =
      first_available (sismember db (driver_online_key tenant_id))
        (sismember db (driver_busy_key tenant_id)) exclude
        (geosearch db (driver_geo_key tenant_id) center.lng center.lat)

  unfoldable pub mark_busy : String → String → Db → Db
  unfolding driver_busy_key
  mark_busy tenant_id driver_id db = sadd db (driver_busy_key tenant_id) driver_id

  unfoldable pub clear_busy : String → String → Db → Db
  unfolding driver_busy_key
  clear_busy tenant_id driver_id db = srem db (driver_busy_key tenant_id) driver_id

  -- A driver who can be offered the order.
  abbrev pub is_available : String → List String → Db → String → Bool
  is_available tenant_id exclude db d =
      not (includes d exclude)
      && sismember db (driver_online_key tenant_id) d
      && not (sismember db (driver_busy_key tenant_id) d)

-- `o` is the first element that meets `p`, or `none` when none does.
abbrev pub IsFirst : (String → Bool) → List String → Option String → Type 0
IsFirst p rows none = All (λ d. p d ≡ false) rows
IsFirst p rows (some d) =
    (p d ≡ true)
    × ((before : List String) × (after : List String) × (rows ≡ before ++ d ∷ after)
        × All (λ e. p e ≡ false) before)

later :
    (p : String → Bool) (d : String) (rows : List String) (o : Option String)
    → p d ≡ false
    → IsFirst p rows o
    → IsFirst p (d ∷ rows) o
later p d rows none e h = (e, h)
later p d rows (some x) e (h, (before, after, eq, b)) =
    (h, (d ∷ before, after, ap (λ r. d ∷ r) eq, (e, b)))

first_available_lem :
    (online busy : String → Bool) (exclude rows : List String)
    → IsFirst
        (λ d. not (includes d exclude) && online d && not (busy d))
        rows
        (first_available online busy exclude rows)
unfolding first_available
first_available_lem online busy exclude [] = tt
first_available_lem online busy exclude (d ∷ rows) =
    let p : String → Bool = λ d. not (includes d exclude) && online d && not (busy d) in
    let rest = first_available_lem online busy exclude rows in
    elim (Bool-cases (includes d exclude)) [
      | inl e ↦ rw e (later p d rows _ (rw e refl) rest)
      | inr e ↦ elim (Bool-cases (online d)) [
        | inr f ↦ rw (e, f) (later p d rows _ (rw (e, f) refl) rest)
        | inl f ↦ elim (Bool-cases (busy d)) [
          | inl g ↦ rw (e, f, g) (later p d rows _ (rw (e, f, g) refl) rest)
          | inr g ↦ rw (e, f, g) (rw (e, f, g) refl, ([], rows, refl, tt))
        ]
      ]
    ]

module _ (redis : Redis) (center : TenantView) (tenant_id : String) where
  open redis use {Db, geosearch}

  -- The driver that is selected is the nearest of those found who is online, not busy and not
  -- excluded; none is selected when there is no such driver.
  pub select_nearest :
      (exclude : List String) (db : Db)
      → IsFirst
          (is_available redis tenant_id exclude db)
          (geosearch db (driver_geo_key tenant_id) center.lng center.lat)
          (select_nearest_available_driver redis (some center) tenant_id exclude db)
  unfolding select_nearest_available_driver
  select_nearest exclude db = first_available_lem _ _ exclude _

  -- A driver who has been marked busy is not selected.
  pub busy_not_selected :
      (exclude : List String) (d : String) (db : Db)
      → select_nearest_available_driver redis
          (some center)
          tenant_id
          exclude
          (mark_busy redis tenant_id d db)
        ≢ some d
  unfolding mark_busy
  busy_not_selected exclude d db h =
      let first =
        subst
          (IsFirst (is_available redis tenant_id exclude (mark_busy redis tenant_id d db)) (
            geosearch (mark_busy redis tenant_id d db) (driver_geo_key tenant_id) center.lng
              center.lat))
          h (select_nearest exclude (mark_busy redis tenant_id d db)) in
      ground (
        arith,
        first.0,
        redis.sismember-sadd db (driver_busy_key tenant_id) d (driver_busy_key tenant_id) d,
        eq_refl d,
        eq_refl (driver_busy_key tenant_id),
      )
