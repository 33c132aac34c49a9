-- ===== src/WebShared/Rankings.antt =====
-- packages/web-shared/src/orders/analytics.ts: what the dashboard ranks and draws over time. A `Map` is
-- its entries in the order of their first setting; `sort_skus` and `sort_buckets` are the language's
-- sorts under the comparisons that the code gives, and `hour` is `updatedAt.slice(0, 13)`.
use flash_bite.Prelude.{
  ℕ, zero, suc, ◌+◌, String, ◌≡◌, refl, List, [], ◌∷◌, filter, length, ◌==◌, if◌then◌else◌, arith,
  Bool-cases, inl, inr, ◌∙◌,
}
use flash_bite.Contracts.{OrderView, OrderItem, OrderStatus}
use flash_bite.Outbox.{take}
use flash_bite.WebShared.Analytics.{live, has_status, sum_amounts, aggregate_gmv}

-- `totals.set(key, (totals.get(key) ?? 0) + n)`
unfoldable pub add_to : String → ℕ → List (String × ℕ) → List (String × ℕ)
add_to key n [] = (key, n) ∷ []
add_to key n ((k, total) ∷ totals) =
    let rest = add_to key n totals in
    if k == key then (k, total + n) ∷ totals else (k, total) ∷ rest

unfoldable pub add_items : List OrderItem → List (String × ℕ) → List (String × ℕ)
unfolding add_to
add_items [] totals = totals
add_items (it ∷ items) totals = add_items items (add_to it.sku it.qty totals)

unfoldable pub sku_totals : List OrderView → List (String × ℕ) → List (String × ℕ)
unfolding add_items
sku_totals [] totals = totals
sku_totals (o ∷ orders) totals = sku_totals orders (add_items o.items totals)

unfoldable pub top_skus :
    (List (String × ℕ) → List (String × ℕ)) → ℕ → List OrderView → List (String × ℕ)
unfolding sku_totals live
top_skus sort_skus limit orders = take limit (sort_skus (sku_totals (filter live orders) []))

unfoldable pub bucket_totals : (ℕ → String) → List OrderView → List (String × ℕ) → List (String × ℕ)
unfolding add_to
bucket_totals hour [] totals = totals
bucket_totals hour (o ∷ orders) totals =
    bucket_totals hour orders (add_to (hour o.updated_at) o.total_amount totals)

unfoldable pub gmv_over_time :
    (ℕ → String) → (List (String × ℕ) → List (String × ℕ)) → List OrderView → List (String × ℕ)
unfolding bucket_totals live
gmv_over_time hour sort_buckets orders = sort_buckets (bucket_totals hour (filter live orders) [])

-- The rate as its numerator and its denominator, of which the code divides; 0 over 1 for no orders
pub record OrderCounts : Type 0 where
  pub total : ℕ
  pub cancelled : ℕ
  pub cancel_rate : ℕ × ℕ

abbrev rate : ℕ → ℕ → ℕ × ℕ
rate cancelled zero = (0, 1)
rate cancelled (suc n) = (cancelled, suc n)

unfoldable pub order_counts : List OrderView → OrderCounts
order_counts orders =
    let cancelled = length (filter (has_status OrderStatus.cancelled) orders) in
    record {
      total = length orders;
      cancelled = cancelled;
      cancel_rate = rate cancelled (length orders);
    }

abbrev pub sum_totals : List (String × ℕ) → ℕ
sum_totals [] = 0
sum_totals ((k, n) ∷ totals) = n + sum_totals totals

sum-add_to :
    (key : String) (n : ℕ) (totals : List (String × ℕ))
    → sum_totals (add_to key n totals) ≡ n + sum_totals totals
unfolding add_to
sum-add_to key n [] = refl
sum-add_to key n ((k, total) ∷ totals) = elim (Bool-cases (k == key)) [
  | inl e ↦ rw e (omega arith)
  | inr e ↦ rw e (ground (arith, sum-add_to key n totals))
]

sum-bucket_totals :
    (hour : ℕ → String) (orders : List OrderView) (totals : List (String × ℕ))
    → sum_totals (bucket_totals hour orders totals) ≡ sum_totals totals + sum_amounts orders
unfolding bucket_totals
sum-bucket_totals hour [] totals = omega arith
sum-bucket_totals hour (o ∷ orders) totals = ground (
  arith,
  sum-bucket_totals hour orders (add_to (hour o.updated_at) o.total_amount totals),
  sum-add_to (hour o.updated_at) o.total_amount totals,
)

-- The series over time adds up to the total, if its sort keeps the sum.
pub sum-gmv_over_time :
    (hour : ℕ → String) (sort_buckets : List (String × ℕ) → List (String × ℕ))
    (orders : List OrderView)
    → ((totals : List (String × ℕ)) → sum_totals (sort_buckets totals) ≡ sum_totals totals)
    → sum_totals (gmv_over_time hour sort_buckets orders) ≡ aggregate_gmv orders
unfolding gmv_over_time aggregate_gmv
sum-gmv_over_time hour sort_buckets orders keeps =
    keeps (bucket_totals hour (filter live orders) [])
    ∙ sum-bucket_totals hour (filter live orders) []
    ∙ omega arith
