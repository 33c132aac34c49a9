-- ===== src/Contracts/Keys.antt =====
-- packages/contracts/src/index.ts: the builders of keys, each of which names a tenant.
pub mod Distinct
use flash_bite.Prelude.{String, ◌<>◌, List, [], ◌∷◌}

-- `parts.join(":")`
unfoldable pub join_colon : List String → String
join_colon [] = ""
join_colon (p ∷ []) = p
join_colon (p ∷ q ∷ ps) = p <> ":" <> join_colon (q ∷ ps)

unfoldable pub tenant_key : String → List String → String
unfolding join_colon
tenant_key tenant_id parts = join_colon (("tenant:{" <> tenant_id <> "}") ∷ parts)

unfoldable pub driver_geo_key : String → String
unfolding tenant_key
driver_geo_key tenant_id = tenant_key tenant_id ("drivers" ∷ "geo" ∷ [])

unfoldable pub driver_online_key : String → String
unfolding tenant_key
driver_online_key tenant_id = tenant_key tenant_id ("drivers" ∷ "online" ∷ [])

unfoldable pub driver_busy_key : String → String
unfolding tenant_key
driver_busy_key tenant_id = tenant_key tenant_id ("drivers" ∷ "busy" ∷ [])

unfoldable pub dispatch_aggregate_id : String → String
dispatch_aggregate_id order_id = "dispatch:" <> order_id

-- "<tenant>:<id>": the read model's `_id`, the outbox's partition key, the workflow's id
unfoldable pub scoped_id : String → String → String
scoped_id tenant_id id = tenant_id <> ":" <> id
