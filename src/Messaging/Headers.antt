-- ===== src/Messaging/Headers.antt =====
-- packages/messaging/src/headers.ts and consume.ts. `text_of` and `number` are the language's `String` and
-- `Number`; a payload is what the schema registry, a parameter, decodes.
use flash_bite.Prelude.{
  ℕ, String, ◌≡◌, ◌≢◌, refl, false, List, [], ◌∷◌, filter, Option, none, some, Result, ok, throw,
  error, or_else, ◌==◌, ◌>>=◌, ◌<>◌, if◌then◌else◌, eq_iff, arith, inl, inr, Bool-cases,
  Option-cases, subst, ap, Exn,
}

-- `EnvelopeMeta`, the time as its ISO text
pub record EnvelopeMeta : Type 0 where
  pub event_type : String
  pub tenant_id : String
  pub event_id : String
  pub version : ℕ
  pub occurred_at : String
  pub correlation_id : String

pub data Header : Type 0 where
  event_type tenant_id event_id version occurred_at correlation_id : Header

-- `IHeaders`, the values as texts
abbrev pub Headers : Type 0
Headers = Header → Option String

unfoldable pub build_headers : (ℕ → String) → EnvelopeMeta → Headers
build_headers text_of meta event_type = some meta.event_type
build_headers text_of meta tenant_id = some meta.tenant_id
build_headers text_of meta event_id = some meta.event_id
build_headers text_of meta version = some (text_of meta.version)
build_headers text_of meta occurred_at = some meta.occurred_at
build_headers text_of meta correlation_id = some meta.correlation_id

abbrev pub required_headers : List Header
required_headers = event_type ∷ tenant_id ∷ event_id ∷ []

-- `s(k)`
abbrev pub header_text : Headers → Header → String
header_text headers k = or_else (headers k) ""

abbrev header_name : Header → String
header_name event_type = "eventType"
header_name tenant_id = "tenantId"
header_name event_id = "eventId"
header_name version = "version"
header_name occurred_at = "occurredAt"
header_name correlation_id = "correlationId"

-- `missing.join(", ")`
pub join_names : List Header → String
join_names [] = ""
join_names (k ∷ []) = header_name k
join_names (k ∷ l ∷ ks) = header_name k <> ", " <> join_names (l ∷ ks)

-- `a || b`, of texts
abbrev or_text : String → String → String
or_text a b = if a == "" then b else a

abbrev read_meta : (String → ℕ) → String → Headers → EnvelopeMeta
read_meta number new_id headers = record {
  event_type = header_text headers event_type;
  tenant_id = header_text headers tenant_id;
  event_id = header_text headers event_id;
  version = if header_text headers version == "" then 0 else number (header_text headers version);
  occurred_at = header_text headers occurred_at;
  correlation_id = or_text (header_text headers correlation_id) new_id;
}

abbrev answer : List Header → EnvelopeMeta → Result EnvelopeMeta
answer [] meta = ok meta
answer (k ∷ ks) meta =
    throw (error ("Kafka message missing required envelope header(s): " <> join_names (k ∷ ks)))

-- `new_id` is `randomUUID()`.
unfoldable pub parse_headers : (String → ℕ) → String → Headers → Result EnvelopeMeta
parse_headers number new_id headers =
    answer (filter (λ k. header_text headers k == "") required_headers)
      (read_meta number new_id headers)

pub record KafkaMessage : Type 0 where
  pub value : Option String
  pub headers : Headers

abbrev with_payload {ℓ} :
    {P : Type ℓ} → EnvelopeMeta → Result P → Result (Option (EnvelopeMeta × P))
with_payload meta (ok payload) = ok (some (meta, payload))
with_payload meta (throw e) = throw e

-- `readEnvelope`; `decode` is that of the registry. A message without a value is no event.
unfoldable pub read_envelope {ℓ} :
    {P : Type ℓ}
    → (String → Result P)
    → (String → ℕ)
    → String
    → KafkaMessage
    → Result (Option (EnvelopeMeta × P))
unfolding parse_headers
read_envelope decode number new_id message = elim message.value [
  | none ↦ ok none
  | some value ↦
      parse_headers number new_id message.headers >>= λ meta. with_payload meta (decode value)
]

-- The header is there, and not empty.
abbrev pub IsGiven : Headers → Header → String → Type 0
IsGiven headers k s = (headers k ≡ some s) × (s ≢ "")

given :
    (headers : Headers) (k : Header)
    → (header_text headers k == "") ≡ false
    → IsGiven headers k (header_text headers k)
given headers k h = elim (Option-cases (headers k)) [
  | inl e ↦ ground (arith, rw e at h)
  | inr (s, e) ↦ rw e (refl, λ empty. ground (arith, (eq_iff s "").1 empty, rw e at h))
]

-- What is read names the event's type, its tenant and its id, each as its header has it.
abbrev pub IsWhole : Headers → EnvelopeMeta → Type 0
IsWhole headers meta =
    IsGiven headers event_type meta.event_type
    × IsGiven headers tenant_id meta.tenant_id
    × IsGiven headers event_id meta.event_id

module _ (number : String → ℕ) (new_id : String) (headers : Headers) where
  read-IsWhole :
      (header_text headers event_type == "") ≡ false
      → (header_text headers tenant_id == "") ≡ false
      → (header_text headers event_id == "") ≡ false
      → IsWhole headers (read_meta number new_id headers)
  read-IsWhole e t i =
      (given headers event_type e, given headers tenant_id t, given headers event_id i)

  -- A message whose headers are read, and not refused, says of what type its event is, whose it is,
  -- and which: no tenant and no type is ever made up.
  pub parse_headers-IsWhole :
      (meta : EnvelopeMeta) → parse_headers number new_id headers ≡ ok meta → IsWhole headers meta
  unfolding parse_headers
  parse_headers-IsWhole meta h = elim (Bool-cases (header_text headers event_type == "")) [
    | inl e ↦ ground (arith, h, e)
    | inr e ↦ elim (Bool-cases (header_text headers tenant_id == "")) [
      | inl t ↦ ground (arith, h, e, t)
      | inr t ↦ elim (Bool-cases (header_text headers event_id == "")) [
        | inl i ↦ ground (arith, h, e, t, i)
        | inr i ↦ subst (IsWhole headers) (same (rw (e, t, i) at h)) (read-IsWhole e t i)
      ]
    ]
  ]
    where
      same : {a b : EnvelopeMeta} → ◌≡◌ {A = Result EnvelopeMeta} (ok a) (ok b) → a ≡ b
      same e = ground (arith, e)

module _ (text_of : ℕ → String) (number : String → ℕ) (new_id : String) where
  read_version :
      (n : ℕ)
      → text_of n ≢ ""
      → number (text_of n) ≡ n
      → (if text_of n == "" then 0 else number (text_of n)) ≡ n
  read_version n full back = elim (Bool-cases (text_of n == "")) [
    | inl e ↦ absurd (full ((eq_iff (text_of n) "").0 e))
    | inr e ↦ rw e back
  ]

  not_empty : (s : String) → s ≢ "" → (s == "") ≡ false
  not_empty s h = elim (Bool-cases (s == "")) [ inl e ↦ absurd (h ((eq_iff s "").0 e)) | inr e ↦ e ]

  -- The metadata that is sent in headers is what is read from them, if it names its type, tenant,
  -- event and correlation and its version is read back from its text.
  pub parse_headers-build_headers :
      (meta : EnvelopeMeta)
      → text_of meta.version ≢ ""
      → number (text_of meta.version) ≡ meta.version
      → meta.event_type ≢ ""
      → meta.tenant_id ≢ ""
      → meta.event_id ≢ ""
      → meta.correlation_id ≢ ""
      → parse_headers number new_id (build_headers text_of meta) ≡ ok meta
  unfolding parse_headers build_headers
  parse_headers-build_headers meta full back e t i c =
      rw
        (
          not_empty _ e,
          not_empty _ t,
          not_empty _ i,
          not_empty _ c,
          read_version meta.version full back,
        )
        refl

module _ (number : String → ℕ) (headers : Headers) where
  -- Headers are refused, or name one event of one tenant, whatever fresh id is at hand.
  pub data Parsing (new_id new_id' : String) : Type 0 where
    fails :
        (e : Exn)
        → parse_headers number new_id headers ≡ throw e
        → parse_headers number new_id' headers ≡ throw e
        → Parsing new_id new_id'
    names :
        (a b : EnvelopeMeta)
        → parse_headers number new_id headers ≡ ok a
        → parse_headers number new_id' headers ≡ ok b
        → a.tenant_id ≡ b.tenant_id
        → a.event_id ≡ b.event_id
        → Parsing new_id new_id'

  headers_twice_by :
      (new_id new_id' : String) (missing : List Header)
      → filter (λ k. header_text headers k == "") required_headers ≡ missing
      → Parsing new_id new_id'
  unfolding parse_headers
  headers_twice_by new_id new_id' [] e =
      names (read_meta number new_id headers) (read_meta number new_id' headers)
        (ap (λ l. answer l (read_meta number new_id headers)) e)
        (ap (λ l. answer l (read_meta number new_id' headers)) e) refl refl
  headers_twice_by new_id new_id' (k ∷ ks) e =
      fails _ (ap (λ l. answer l (read_meta number new_id headers)) e)
        (ap (λ l. answer l (read_meta number new_id' headers)) e)

  pub headers_twice : (new_id new_id' : String) → Parsing new_id new_id'
  headers_twice new_id new_id' = headers_twice_by new_id new_id' _ refl
