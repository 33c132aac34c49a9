-- ===== src/Tests/Access.antt =====
-- A user's requests and sessions, a driver's stream and a browser's state, with the theorems applied.
use mathlib.Core.List.{Memᴰ}
use flash_bite.Prelude.{
  ℕ, ◌≤◌, String, ◌≡◌, refl, sym, subst, Bool, true, not, ◌||◌, List, [], ◌∷◌, ◌++◌, map, filter,
  find, any, All, includes, Option, none, some, Result, ok, throw, error, forbidden, ◌==◌, eq_iff,
  arith, if◌then◌else◌, inl, inr, Bool-cases,
}
use flash_bite.Contracts.{
  TenantView, DispatchView, DispatchStatus, OrderView, OrderStatus, EventEnvelope, driver_offered,
}
use flash_bite.Shared.TenantCatalog.{Catalog, active_tenant}
use flash_bite.TenantContext.{
  AuthContext, token_of, authenticate, roles_guard, tenant_guard, get_auth_context,
}
use flash_bite.TenantContext.Admission.{Cleared, admitted, tenant_guard_outage}
use flash_bite.Identity.RefreshTokens.{
  RefreshToken, RefreshTable, TokenStatus, RefreshConfig, Draw, RotateResult, RefusalReason, rotate,
  prune, issue, graced,
}
use flash_bite.Identity.RefreshTokens.Families.{active_in}
use flash_bite.Identity.RefreshTokens.Sessions.{
  login, refresh, here, next, at_most_one_active, reuse_revokes_family,
}
use flash_bite.ReadApi.Streams.{driver_stream}
use flash_bite.ReadApi.Streams.Followers.{relevant, driver_stream-relevant}
use flash_bite.WebShared.Dispatches.{DispatchMap, Has, Keyed, reduce_all, reduce_all_newest}

abbrev berlin : TenantView
berlin = record {
  slug = "berlin";
  display_name = "Berlin";
  lng = "13.4";
  lat = "52.5";
  status = "active";
  brand_color = none;
}

abbrev merchant : AuthContext
merchant = record { tenant_id = "berlin"; role = "merchant"; sub = "m-1" }

abbrev cached : Catalog
cached = record { cache = some (berlin ∷ []); loaded_at = 1000 }

abbrev verifier : String → Result AuthContext
verifier token = if token == "signed" then ok merchant else throw (error "bad signature")

admitted_example :
    ((token : String) × (token_of (some "Bearer signed") ≡ some token)
      × (verifier token ≡ ok merchant))
    × (includes "merchant" ("merchant" ∷ "operator" ∷ []) ≡ true)
    × Cleared 5000 2000 (ok []) merchant cached
unfolding authenticate roles_guard get_auth_context tenant_guard
admitted_example =
    admitted 5000 2000 (ok []) verifier (some "Bearer signed") "merchant" ("operator" ∷ []) merchant
      cached refl refl refl

tenant_guard_outage_example :
    tenant_guard 5000 9000 (throw (error "database down")) (some merchant) cached ≡ (
      if active_tenant (find (λ t. t.slug == "berlin") (berlin ∷ []))
          then ok true
          else throw (forbidden "Unknown or inactive tenant"),
      cached,
    )
tenant_guard_outage_example =
    tenant_guard_outage 5000 9000 (error "database down") merchant cached refl

-- Rows, oldest first
pub find_in :
    (p : RefreshToken → Bool) (rs : List RefreshToken) (r : RefreshToken)
    → find p rs ≡ some r
    → Memᴰ r rs × (p r ≡ true)
find_in p [] r e = ground (arith, e)
find_in p (x ∷ rs) r e = elim (Bool-cases (p x)) [
  | inl h ↦
      let same : x ≡ r = ground (arith, rw h at e) in
      (Memᴰ.head (sym same), subst (λ y. p y ≡ true) same h)
  | inr h ↦ let rest = find_in p rs r (rw h at e) in (Memᴰ.tail rest.0, rest.1)
]

abbrev pub taken_by : RefreshToken → List RefreshToken → Bool
taken_by r rs = any (λ x. x.id == r.id || x.token_hash == r.token_hash) rs

pub created :
    (taken : Bool) (new rs : List RefreshToken)
    → (if taken then none else some new) ≡ some rs
    → rs ≡ new
created taken new rs e = ground (arith, e)

pub hash_is :
    (h : String) (rs : List RefreshToken) (r : RefreshToken)
    → find (λ x. x.token_hash == h) rs ≡ some r
    → Memᴰ r rs × (r.token_hash ≡ h)
hash_is h rs r e =
    let found = find_in (λ x. x.token_hash == h) rs r e in
    (found.0, (eq_iff r.token_hash h).0 found.1)

abbrev pub table : RefreshTable
table = record {
  Db = List RefreshToken;
  rows = λ db. db;
  create = λ db r. if taken_by r db then none else some (db ++ r ∷ []);
  update_many = λ db p f. map (λ r. if p r then f r else r) db;
  delete_many = λ db p. filter (λ r. not (p r)) db;
  find_unique = λ db h. find (λ x. x.token_hash == h) db;
  find_first = λ db p. find p db;
  rows-create = λ db db' r e. created (taken_by r db) (db ++ r ∷ []) db' e;
  rows-update_many = λ db p f. refl;
  rows-delete_many = λ db p. refl;
  find_unique_in = λ db h r e. hash_is h db r e;
  find_first_in = λ db p r e. find_in p db r e;
}

abbrev pub digest : String → String
digest raw = raw

abbrev pub config : RefreshConfig
config = record { jwt_refresh_ttl = 86400; refresh_reuse_grace_ms = 10000 }

abbrev pub first_draw : Draw
first_draw = record { raw = "raw-1"; id = "token-1"; now = 1000 }

abbrev pub second_draw : Draw
second_draw = record { raw = "raw-2"; id = "token-2"; now = 2000 }

abbrev third_draw : Draw
third_draw = record { raw = "raw-3"; id = "token-3"; now = 60000 }

abbrev logged_in : List RefreshToken
logged_in = (issue table digest config first_draw "family-1" "user-1" "berlin" []).1

abbrev refreshed : List RefreshToken
refreshed = (rotate table digest config second_draw "raw-1" logged_in).1

at_most_one_active_example : active_in table digest config "family-1" refreshed ≤ 1
at_most_one_active_example = at_most_one_active table digest config [] refreshed "family-1" refl (
    next (next here (login first_draw "family-1" "user-1" "berlin" refl refl))
      (refresh second_draw "raw-1" refl))

abbrev used_token : RefreshToken
used_token = record {
  id = "token-1";
  family_id = "family-1";
  user_id = "user-1";
  tenant_id = "berlin";
  token_hash = "raw-1";
  status = TokenStatus.rotated;
  created_at = 1000;
  expires_at = 86401000;
  rotated_at = some 2000;
  revoked_at = none;
}

-- The token that was rotated is presented again, a minute later.
reuse_revokes_family_example :
    let after = rotate table digest config third_draw "raw-1" (used_token ∷ []) in
    (after.0 ≡ ok (RotateResult.refused RefusalReason.reuse))
    × (active_in table digest config "family-1" after.1 ≡ 0)
unfolding prune graced
reuse_revokes_family_example =
    reuse_revokes_family table digest config third_draw "raw-1" used_token (used_token ∷ []) refl
      refl refl

abbrev view : DispatchStatus → ℕ → Option String → Option String → DispatchView
view status version driver_id offered_driver_id = record {
  tenant_id = "berlin";
  order_id = "order-1";
  status = status;
  driver_id = driver_id;
  offered_driver_id = offered_driver_id;
  reason = none;
  version = version;
  updated_at = 1000;
  offer_expires_at = none;
}

-- An offer to the driver, an assignment, and a pickup, which names no driver.
abbrev job : List DispatchView
job =
    view DispatchStatus.offered 1 none (some "driver-1")
    ∷ view DispatchStatus.dispatched 2 (some "driver-1") none
    ∷ view DispatchStatus.picked_up 3 none none
    ∷ []

driver_stream-relevant_example : driver_stream "driver-1" [] job ≡ relevant "driver-1" [] job
driver_stream-relevant_example = driver_stream-relevant "driver-1" job

abbrev offered_event : EventEnvelope
offered_event = record {
  tenant_id = "berlin";
  event_id = "event-1";
  version = 1;
  occurred_at = 1000;
  correlation_id = "correlation";
  event = driver_offered (record { order_id = "order-1"; driver_id = "driver-1" });
}

abbrev no_views : DispatchMap
no_views o = none

none-Keyed : Keyed no_views
none-Keyed o w e = ground (arith, e)

reduce_all_newest_example : All (λ v. Has (reduce_all job no_views) v.order_id v.version) job
reduce_all_newest_example = reduce_all_newest job no_views none-Keyed

abbrev order : String → ℕ → OrderView
order tenant_id total_amount = record {
  tenant_id = tenant_id;
  order_id = "order-1";
  customer_id = "customer-1";
  items = [];
  total_amount = total_amount;
  status = OrderStatus.placed;
  version = 1;
  updated_at = 1000;
  cancel_reason = none;
}

abbrev two_cities : List OrderView
two_cities = order "berlin" 900 ∷ order "tokyo" 400 ∷ order "berlin" 100 ∷ []
