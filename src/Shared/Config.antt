-- ===== src/Shared/Config.antt =====
-- packages/shared/src/config.ts: the configuration, from the variables of the environment. `number` is
-- the language's `Number`, of texts of natural numbers.
use flash_bite.Prelude.{
  ℕ, String, Bool, List, [], ◌∷◌, map, Option, none, some, or_else, Result, ok, throw, error, split,
  ◌==◌, if◌then◌else◌,
}

abbrev pub Env : Type 0
Env = String → Option String

pub record RedisNode : Type 0 where
  pub host : String
  pub port : Option ℕ

pub record AppConfig : Type 0 where
  pub database_url : String
  pub app_database_url : String
  pub kafka_brokers : List String
  pub schema_registry_url : String
  pub payments_url : String
  pub default_tenant_id : String
  pub mongo_uri : String
  pub redis_cluster_nodes : List RedisNode
  pub temporal_address : String
  pub saga_sla_seconds : ℕ
  pub payment_confirm_timeout_seconds : ℕ
  pub jwt_issuer : String
  pub jwt_audience : String
  pub jwt_access_ttl : ℕ
  pub jwt_refresh_ttl : ℕ
  pub refresh_reuse_grace_ms : ℕ
  pub rt_cookie_name : String
  pub rt_cookie_secure : Bool
  pub rt_cookie_path : String
  pub signing_key_kek : Option String
  pub jwt_jwks_url : String
  pub dispatch_offer_timeout_seconds : ℕ
  pub dispatch_max_offers : ℕ
  pub dispatch_delivery_timeout_seconds : ℕ
  pub tenant_catalog_ttl_ms : ℕ

abbrev pub default_redis_nodes : String
default_redis_nodes =
    "127.0.0.1:7100,127.0.0.1:7101,127.0.0.1:7102,127.0.0.1:7103,127.0.0.1:7104,127.0.0.1:7105"

-- `!url`: there is none, or an empty one.
abbrev required : String → Option String → Result String
required message none = throw (error message)
required message (some url) = if url == "" then throw (error message) else ok url

unfoldable pub require_app_database_url : Env → Result String
require_app_database_url env =
    required
      "APP_DATABASE_URL is required so write-api/saga-worker connect as the restricted flashbite_app role for Postgres RLS. Set it in .env (see .env.example). Refusing to start: falling back to the superuser DATABASE_URL would silently disable tenant isolation."
      (env "APP_DATABASE_URL")

module _ (number : String → ℕ) where
  -- `const [host, port] = hp.split(":")`; a port that is not there is `none`.
  abbrev pub node_of : List String → RedisNode
  node_of [] = record { host = ""; port = none }
  node_of (host ∷ []) = record { host = host; port = none }
  node_of (host ∷ port ∷ _) = record { host = host; port = some (number port) }

  abbrev number_or : Option String → ℕ → ℕ
  number_or none n = n
  number_or (some s) n = number s

  abbrev pub config_of : Env → String → AppConfig
  config_of env database_url = record {
    database_url = database_url;
    app_database_url = or_else (env "APP_DATABASE_URL") database_url;
    kafka_brokers = split b',' (or_else (env "KAFKA_BROKERS") "localhost:9092");
    schema_registry_url = or_else (env "SCHEMA_REGISTRY_URL") "http://localhost:18081";
    payments_url = or_else (env "PAYMENTS_URL") "http://localhost:3004";
    default_tenant_id = or_else (env "DEFAULT_TENANT_ID") "berlin";
    mongo_uri = or_else (env "MONGO_URI") "mongodb://localhost:27017/flashbite_read";
    redis_cluster_nodes =
        map (λ hp. node_of (split b':' hp))
          (split b',' (or_else (env "REDIS_CLUSTER_NODES") default_redis_nodes));
    temporal_address = or_else (env "TEMPORAL_ADDRESS") "localhost:7233";
    saga_sla_seconds = number_or (env "SAGA_SLA_SECONDS") 300;
    payment_confirm_timeout_seconds = number_or (env "PAYMENT_CONFIRM_TIMEOUT_SECONDS") 120;
    jwt_issuer = or_else (env "JWT_ISSUER") "flashbite-identity";
    jwt_audience = or_else (env "JWT_AUDIENCE") "flashbite";
    jwt_access_ttl = number_or (env "JWT_ACCESS_TTL") 900;
    jwt_refresh_ttl = number_or (env "JWT_REFRESH_TTL") 2592000;
    refresh_reuse_grace_ms = number_or (env "REFRESH_REUSE_GRACE_MS") 10000;
    rt_cookie_name = or_else (env "RT_COOKIE_NAME") "fb_rt";
    rt_cookie_secure = or_else (env "RT_COOKIE_SECURE") "false" == "true";
    rt_cookie_path = or_else (env "RT_COOKIE_PATH") "/api/identity/auth";
    signing_key_kek = env "SIGNING_KEY_KEK";
    jwt_jwks_url = or_else (env "JWT_JWKS_URL") "http://localhost:3003/.well-known/jwks.json";
    dispatch_offer_timeout_seconds = number_or (env "DISPATCH_OFFER_TIMEOUT_SECONDS") 30;
    dispatch_max_offers = number_or (env "DISPATCH_MAX_OFFERS") 5;
    dispatch_delivery_timeout_seconds = number_or (env "DISPATCH_DELIVERY_TIMEOUT_SECONDS") 900;
    tenant_catalog_ttl_ms = number_or (env "TENANT_CATALOG_TTL_MS") 60000;
  }

  unfoldable pub load_config : Env → Result AppConfig
  unfolding split
  load_config env = elim (required "DATABASE_URL is required" (env "DATABASE_URL")) [
    | throw e ↦ throw e
    | ok database_url ↦ ok (config_of env database_url)
  ]
