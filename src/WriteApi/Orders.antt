-- ===== src/WriteApi/Orders.antt =====
-- apps/write-api/src/orders: the request that places an order (create-order.dto.ts, orders.service.ts).
pub mod Runs
use flash_bite.Prelude.{
  ℕ, String, Bool, true, false, not, ◌&&◌, List, [], ◌∷◌, Option, none, some, Result, ok, throw,
  concurrency, bad_request, leb, if◌then◌else◌,
}
use flash_bite.Contracts.{AggregateType, OrderItem, OrderPlacedPayload, EventEnvelope, order_placed}
use flash_bite.Shared.EventDb.{EventDb}
use flash_bite.Shared.OrderAggregate.{fold_order, initial_order_state, place}
use flash_bite.Shared.AggregateStore.{
  Fresh, AppendArgs, load_aggregate, append_with_expected_version,
}

-- `@IsInt() @Min(1) qty`; the other minima are 0, and hold of every natural number.
abbrev is_valid_item : OrderItem → Bool
is_valid_item item = leb 1 item.qty

abbrev pub all_items : List OrderItem → Bool
all_items [] = true
all_items (item ∷ items) = is_valid_item item && all_items items

-- `@ArrayNotEmpty() @ValidateNested({ each: true })`
unfoldable pub is_valid_order : OrderPlacedPayload → Bool
is_valid_order dto = elim dto.items [
  | [] ↦ false
  | item ∷ items ↦ is_valid_item item && all_items items
]

-- A lost race for the first write is no error: the order is there.
abbrev pub placed {ℓ} : {Db : Type ℓ} → String → Result EventEnvelope × Db → Result String × Db
placed order_id (ok _, db) = (ok order_id, db)
placed order_id (throw (concurrency _ _), db) = (ok order_id, db)
placed order_id (throw e, db) = (throw e, db)

module _ (pg : EventDb) where
  open pg use {Db}

  -- `OrdersService.placeOrder`, for the tenant of the request's token
  unfoldable pub place_order : Fresh → String → OrderPlacedPayload → Db → Result String × Db
  place_order env tenant_id dto db =
      let loaded = load_aggregate pg db tenant_id dto.order_id fold_order initial_order_state in
      elim (place loaded.state dto) [
        | none ↦ (ok dto.order_id, db)
        | some payload ↦ placed dto.order_id (
            append_with_expected_version pg env
              (record {
                tenant_id = tenant_id;
                aggregate_type = AggregateType.order;
                aggregate_id = dto.order_id;
                expected_version = loaded.version;
                event = order_placed payload;
                topic = none;
                correlation_id = none;
              })
              db)
      ]

  -- `OrdersController.place`, behind its validation
  unfoldable pub post_order : Fresh → String → OrderPlacedPayload → Db → Result String × Db
  unfolding is_valid_order place_order
  post_order env tenant_id dto db =
      if is_valid_order dto
      then place_order env tenant_id dto db
      else (throw (bad_request "validation"), db)
