-- ===== src/ReadApi/Orders.antt =====
-- apps/read-api/src/orders: the reads of orders (orders-query.service.ts, orders-query.controller.ts,
-- merchant-orders.controller.ts, payments-client.ts). Mongo's collection is a store by `_id`, Redis an
-- interface with the law of SET with EX, and the JSON texts of `json` and `parse` are the language's.
pub mod Freshness
use flash_bite.Prelude.{
  ℕ, ◌+◌, ◌*◌, ◌≤◌, String, ◌≡◌, Bool, true, false, ◌&&◌, List, [], ◌∷◌, Option, none, some, Result,
  ok, throw, error, not_found, ◌>>=◌, ◌==◌, ◌<>◌, ltb, leb, nat_eq, if◌then◌else◌,
}
use flash_bite.Contracts.{OrderView, PaymentStatus}
use flash_bite.Contracts.Keys.{scoped_id, tenant_key}
use flash_bite.Stores.{KeyedStore}
use flash_bite.TenantContext.{AuthContext}
use flash_bite.ReadApi.Queries.{current_tenant, current_scoped_id, scoped_key}

-- Redis, at a time in milliseconds: what is set with a time to live is found until that is over.
pub record Cache (Text : Type 0) : Type 1 where
  pub Db : Type 0
  pub get : ℕ → Db → String → Option Text
  pub set_ex : ℕ → String → Text → ℕ → Db → Db
  pub get-set_ex :
      (db : Db) (now later : ℕ) (k j : String) (v : Text) (seconds : ℕ)
      → now ≤ later
      → get later (set_ex now k v seconds db) j ≡ (
          if k == j
          then (if ltb later (now + seconds * 1000) then some v else none)
          else get later db j)

pub record Codec (A Text : Type 0) : Type 0 where
  pub json : A → Text
  pub parse : Text → A
  pub is_empty : Text → Bool
  pub parse-json : (a : A) → parse (json a) ≡ a

-- `CACHE_TTL_SECONDS`
abbrev pub cache_ttl_seconds : ℕ
cache_ttl_seconds = 10

module _ (orders : KeyedStore String OrderView) (Text : Type 0) (cache : Cache Text)
    (codec : Codec OrderView Text) where
  -- `if (cached)`: an empty text is none.
  abbrev pub cached_text : Option Text → Option Text
  cached_text none = none
  cached_text (some s) = if codec.is_empty s then none else some s

  -- Where a call of `getOrder` is: at one of its three awaits, or at its end. `redis.get`, `findOne`
  -- and `redis.set` are moments of their own, between which others may write.
  pub data Call : Type 0 where
    gets finds : String → String → Call
    sets : String → OrderView → Call
    answers : Option OrderView → Call

  -- The call up to its first await; both keys are made of the tenant of the request's token.
  unfoldable pub get_order : Option AuthContext → String → Result Call
  unfolding scoped_key current_scoped_id
  get_order auth order_id = elim (scoped_key auth ("order" ∷ order_id ∷ "view" ∷ [])) [
    | throw e ↦ throw e
    | ok key ↦ elim (current_scoped_id auth order_id) [
      | throw e ↦ throw e
      | ok id ↦ ok (gets key id)
    ]
  ]

  abbrev pub on_cached : String → String → Option Text → Call
  on_cached key id none = finds key id
  on_cached key id (some s) = answers (some (codec.parse s))

  abbrev pub on_doc : String → Option OrderView → Call
  on_doc key none = answers none
  on_doc key (some view) = sets key view

  -- What the awaited operation does at its moment, and the call up to its next await
  unfoldable pub advance : ℕ → orders.Db → cache.Db → Call → Call × cache.Db
  advance now db cached (gets key id) =
      (on_cached key id (cached_text (cache.get now cached key)), cached)
  advance now db cached (finds key id) = (on_doc key (orders.find db id), cached)
  advance now db cached (sets key view) =
      (answers (some view), cache.set_ex now key (codec.json view) cache_ttl_seconds cached)
  advance now db cached (answers view) = (answers view, cached)

-- GET orders/:orderId, once the call is at its end
unfoldable pub get_orders : String → Result (Option OrderView) → Result OrderView
get_orders order_id (throw e) = throw e
get_orders order_id (ok none) = throw (not_found ("Order " <> order_id <> " not found"))
get_orders order_id (ok (some view)) = ok view

-- GET merchant/orders; `find_newest` gives the documents that a filter picks, the newest first, up to
-- the limit.
unfoldable pub list_recent_orders :
    {Db : Type 0}
    → (Db → (OrderView → Bool) → ℕ → List OrderView)
    → Option AuthContext
    → Db
    → Result (List OrderView)
unfolding current_tenant
list_recent_orders find_newest auth db =
    current_tenant auth >>= λ tenant_id. ok (find_newest db (λ v. v.tenant_id == tenant_id) 100)

-- What the payments service answers: a status code and a payment.
pub record PaymentResponse : Type 0 where
  pub code : ℕ
  pub status : PaymentStatus

-- `getPayment` of payments-client.ts; the message goes on with the code
unfoldable pub get_payment :
    (String → String → Result PaymentResponse) → String → String → Result (Option PaymentStatus)
get_payment fetch tenant_id order_id = elim (fetch tenant_id order_id) [
  | throw e ↦ throw e
  | ok res ↦
      if nat_eq res.code 404
      then ok none
      else if leb 200 res.code && ltb res.code 300
      then ok (some res.status)
      else throw (error "payments GET failed")
]

-- GET orders/:orderId/payment; `none` is `{ status: null }`
unfoldable pub get_order_payment :
    (String → String → Result PaymentResponse)
    → Option AuthContext
    → String
    → Result (Option PaymentStatus)
unfolding current_tenant get_payment
get_order_payment fetch auth order_id =
    current_tenant auth >>= λ tenant_id. get_payment fetch tenant_id order_id
