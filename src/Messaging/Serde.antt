-- ===== src/Messaging/Serde.antt =====
-- packages/messaging/src/serde.ts and register.ts: payloads as Avro, by the ids of their schemas. The
-- registry is an interface: what it encodes, if it does, it decodes again, the id being in the bytes.
use flash_bite.Prelude.{
  ℕ, String, ◌≡◌, refl, ◌<>◌, Bool, List, [], ◌∷◌, Option, none, some, Result, ok, throw, error,
  arith, ◌>>=◌, ◌==◌, if◌then◌else◌,
}

pub record Registry (Payload : Type 0) : Type 1 where
  pub Db : Type 0
  pub get_latest_schema_id : Db → String → Result ℕ
  pub register : Db → String → String → Result ℕ × Db
  pub encode : ℕ → Payload → Result String
  pub decode : String → Result Payload
  pub decode-encode :
      (id : ℕ) (p : Payload) (value : String) → encode id p ≡ ok value → decode value ≡ ok p

-- `idCache`, a `Map`
abbrev pub IdCache : Type 0
IdCache = String → Option ℕ

abbrev pub reset_id_cache : IdCache
reset_id_cache subject = none

pub bind_ok :
    {A B : Type 0} (r : Result A) (f : A → Result B) (b : B)
    → (r >>= f) ≡ ok b
    → (a : A) × (r ≡ ok a) × (f a ≡ ok b)
bind_ok (ok a) f b h = (a, refl, h)
bind_ok (throw e) f b h = ground (arith, h)

module _ (Payload : Type 0) (registry : Registry Payload) where
  open registry use {Db, get_latest_schema_id, register, encode, decode}

  abbrev remember : String → IdCache → Result ℕ → Result ℕ × IdCache
  remember subject cache (throw e) = (throw e, cache)
  remember subject cache (ok id) = (ok id, λ s. if subject == s then some id else cache s)

  unfoldable pub resolve_schema_id : Db → String → IdCache → Result ℕ × IdCache
  resolve_schema_id db subject cache = elim (cache subject) [
    | some hit ↦ (ok hit, cache)
    | none ↦ remember subject cache (get_latest_schema_id db subject)
  ]

  unfoldable pub encode_payload : Db → String → Payload → IdCache → Result String × IdCache
  unfolding resolve_schema_id
  encode_payload db subject payload cache =
      let resolved = resolve_schema_id db subject cache in
      (resolved.0 >>= λ id. encode id payload, resolved.1)

  unfoldable pub decode_payload : String → Result Payload
  decode_payload value = decode value

  -- `setCompatibility`; `put` sends the request and gives whether the answer is one of success, and
  -- what comes after the colon of the message otherwise.
  unfoldable pub set_compatibility :
      (String → String → String → Bool × String) → String → String → String → Result (Unit {0})
  set_compatibility put host subject level =
      let res = put host subject level in
      if res.0
      then ok tt
      else throw (error ("set compatibility " <> subject <> "=" <> level <> " failed: " <> res.1))

  abbrev pub registered : Result ℕ × Db → (Db → Result (Unit {0}) × Db) → Result (Unit {0}) × Db
  registered (throw e, db) go = (throw e, db)
  registered (ok id, db) go = go db

  -- `registerAllSchemas`, of the subjects with their schemas
  unfoldable pub register_all_schemas :
      (String → String → String → Bool × String)
      → String
      → List (String × String)
      → Db
      → Result (Unit {0}) × Db
  unfolding set_compatibility
  register_all_schemas put host [] db = (ok tt, db)
  register_all_schemas put host ((subject, schema) ∷ rest) db =
      elim (set_compatibility put host subject "BACKWARD") [
        | throw e ↦ (throw e, db)
        | ok _ ↦ registered (register db subject schema) (register_all_schemas put host rest)
      ]

  -- What is encoded, by a cached id or not, is decoded to what it was.
  pub decode_payload-encode_payload :
      (db : Db) (subject : String) (payload : Payload) (cache : IdCache) (value : String)
      → (encode_payload db subject payload cache).0 ≡ ok value
      → decode_payload value ≡ ok payload
  unfolding encode_payload decode_payload
  decode_payload-encode_payload db subject payload cache value h =
      let (id, _, e) =
        bind_ok (resolve_schema_id db subject cache).0 (λ id. encode id payload) value h in
      registry.decode-encode id payload value e
