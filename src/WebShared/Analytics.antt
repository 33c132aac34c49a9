-- ===== src/WebShared/Analytics.antt =====
-- packages/web-shared/src/orders/analytics.ts: the figures of the admin's dashboard.
use flash_bite.Prelude.{
  ℕ, suc, ◌+◌, String, ◌≡◌, refl, Bool, true, false, All, not, ◌&&◌, List, [], ◌∷◌, ◌++◌, map,
  filter, includes, length, ◌==◌, eq_refl, eq_iff, arith, if◌then◌else◌, inl, inr, Bool-cases, ap,
  ◌∙◌,
}
use flash_bite.Contracts.{OrderView, OrderStatus}

abbrev pub has_status : OrderStatus → OrderView → Bool
has_status OrderStatus.placed o = elim o.status [ OrderStatus.placed ↦ true | _ ↦ false ]
has_status OrderStatus.accepted o = elim o.status [ OrderStatus.accepted ↦ true | _ ↦ false ]
has_status OrderStatus.cancelled o = elim o.status [ OrderStatus.cancelled ↦ true | _ ↦ false ]

unfoldable pub live : OrderView → Bool
live o = not (has_status OrderStatus.cancelled o)

-- `[...new Set(texts)]`: each text where it first stands. `seen` are those that stand before.
unfoldable pub distinct : List String → List String → List String
distinct seen [] = []
distinct seen (t ∷ ts) =
    let rest = distinct (t ∷ seen) ts in if includes t seen then distinct seen ts else t ∷ rest

unfoldable pub tenants_of : List OrderView → List String
unfolding distinct
tenants_of orders = distinct [] (map (λ o. o.tenant_id) orders)

-- `reduce((s, o) => s + o.totalAmount, 0)`
abbrev pub sum_amounts : List OrderView → ℕ
sum_amounts [] = 0
sum_amounts (o ∷ orders) = o.total_amount + sum_amounts orders

unfoldable pub aggregate_gmv : List OrderView → ℕ
unfolding live
aggregate_gmv orders = sum_amounts (filter live orders)

pub record TenantGmv : Type 0 where
  pub tenant : String
  pub gmv : ℕ

unfoldable pub gmv_by_tenant : List OrderView → List TenantGmv
unfolding tenants_of live
gmv_by_tenant orders =
    map
      (λ tenant. record {
        tenant = tenant;
        gmv = sum_amounts (filter (λ o. o.tenant_id == tenant && live o) orders);
      })
      (tenants_of orders)

pub record TenantStatusCounts : Type 0 where
  pub tenant : String
  pub placed : ℕ
  pub accepted : ℕ
  pub cancelled : ℕ

unfoldable pub status_breakdown : List OrderView → List TenantStatusCounts
unfolding tenants_of
status_breakdown orders =
    map
      (λ tenant.
        let rows = filter (λ o. o.tenant_id == tenant) orders in
        record {
          tenant = tenant;
          placed = length (filter (has_status OrderStatus.placed) rows);
          accepted = length (filter (has_status OrderStatus.accepted) rows);
          cancelled = length (filter (has_status OrderStatus.cancelled) rows);
        })
      (tenants_of orders)

unfoldable pub replace_tenant_orders : List OrderView → String → List OrderView → List OrderView
replace_tenant_orders all tenant incoming =
    filter (λ o. not (o.tenant_id == tenant)) all ++ incoming

abbrev pub sum_gmv : List TenantGmv → ℕ
sum_gmv [] = 0
sum_gmv (g ∷ gs) = g.gmv + sum_gmv gs

abbrev occurrences : String → List String → ℕ
occurrences s [] = 0
occurrences s (t ∷ ts) = let n = occurrences s ts in if s == t then suc n else n

abbrev once : Bool → Bool → ℕ
once true _ = 0
once false true = 1
once false false = 0

occurrences-distinct :
    (s : String) (seen ts : List String)
    → occurrences s (distinct seen ts) ≡ once (includes s seen) (includes s ts)
unfolding distinct
occurrences-distinct s seen [] = ground arith
occurrences-distinct s seen (t ∷ ts) = elim (Bool-cases (s == t)) [
  | inl e ↦ ground (
    arith,
    e,
    occurrences-distinct s seen ts,
    occurrences-distinct s (t ∷ seen) ts,
    ap (λ x. includes x seen) ((eq_iff s t).0 e),
  )
  | inr e ↦ ground (arith, e, occurrences-distinct s seen ts, occurrences-distinct s (t ∷ seen) ts)
]

-- what the orders of one tenant come to
abbrev gmv_of : List OrderView → String → ℕ
gmv_of orders tenant = sum_amounts (filter (λ o. o.tenant_id == tenant && live o) orders)

abbrev total : List OrderView → List String → ℕ
total orders [] = 0
total orders (t ∷ ts) = gmv_of orders t + total orders ts

abbrev amount_of : OrderView → ℕ
amount_of o = if live o then o.total_amount else 0

total-other :
    (o : OrderView) (orders : List OrderView) (ts : List String)
    → occurrences o.tenant_id ts ≡ 0
    → total (o ∷ orders) ts ≡ total orders ts
total-other o orders [] h = refl
total-other o orders (t ∷ ts) h = elim (Bool-cases (o.tenant_id == t)) [
  | inl e ↦ ground (arith, e, h)
  | inr e ↦ ground (arith, e, h, total-other o orders ts)
]

total-own :
    (o : OrderView) (orders : List OrderView) (ts : List String)
    → occurrences o.tenant_id ts ≡ 1
    → total (o ∷ orders) ts ≡ amount_of o + total orders ts
total-own o orders [] h = ground (arith, h)
total-own o orders (t ∷ ts) h = elim (Bool-cases (o.tenant_id == t)) [
  | inl e ↦ ground (arith, e, h, total-other o orders ts)
  | inr e ↦ ground (arith, e, h, total-own o orders ts)
]

each_once :
    (orders : List OrderView) (ts : List String)
    → All (λ o. occurrences o.tenant_id ts ≡ 1) orders
    → total orders ts ≡ sum_amounts (filter live orders)
each_once [] [] h = refl
each_once [] (t ∷ ts) h = omega (arith, each_once [] ts tt)
each_once (o ∷ orders) ts h = ground (arith, total-own o orders ts h.0, each_once orders ts h.1)

names_once :
    (orders : List OrderView) (ts : List String)
    → ((o : OrderView)
        → includes o.tenant_id (map (λ o. o.tenant_id) orders) ≡ true
        → includes o.tenant_id ts ≡ true)
    → All (λ o. occurrences o.tenant_id (distinct [] ts) ≡ 1) orders
names_once [] ts h = tt
names_once (o ∷ orders) ts h = (
  rw (occurrences-distinct o.tenant_id [] ts, h o (rw (eq_refl o.tenant_id) refl)) refl,
  names_once orders ts (λ p e. h p (ground (arith, e))),
)

sum-total :
    (orders : List OrderView) (ts : List String)
    → sum_gmv (map (λ tenant. record { tenant = tenant; gmv = gmv_of orders tenant }) ts)
      ≡ total orders ts
sum-total orders [] = refl
sum-total orders (t ∷ ts) = ap (λ n. gmv_of orders t + n) (sum-total orders ts)

-- The amounts that the dashboard shows by tenant add up to the total that it shows.
pub sum-gmv_by_tenant :
    (orders : List OrderView) → sum_gmv (gmv_by_tenant orders) ≡ aggregate_gmv orders
unfolding gmv_by_tenant aggregate_gmv tenants_of
sum-gmv_by_tenant orders =
    sum-total orders (tenants_of orders)
    ∙ each_once orders (tenants_of orders)
        (names_once orders (map (λ o. o.tenant_id) orders) (λ o e. e))
