-- ===== src/Identity/Login/Admitted.antt =====
-- An access token on its way: signed by token.service.ts, verified by token-verifier.ts against the keys
-- that key.service.ts shows, and read by auth.middleware.ts (packages/tenant-context/src).
use mathlib.Core.List.{Memᴰ}
use Prim.Native.String.{slice, len}
use text.Mathlib.TextPositions.{starts_with-append, slice-append_right, len-append}
use flash_bite.Prelude.{
  ℕ, ◌+◌, ◌<◌, String, ◌≡◌, ◌≢◌, refl, ap, ◌∙◌, Bool, true, false, List, Option, some, Result, ok,
  ◌==◌, ◌<>◌, eq_iff, arith,
}
use flash_bite.TenantContext.{AuthContext, Claims, token_of, authenticate, verify}
use flash_bite.Identity.KeyCipher.{Gcm}
use flash_bite.Identity.SigningKeys.{
  SigningKey, KeyTable, is_current, Drawn, PublicJwk, KeyService, rotate,
}
use flash_bite.Identity.SigningKeys.Published.{rotate-IsShown}
use flash_bite.Identity.Login.{User, Jwt, TokenConfig, sign, jwt_of}

abbrev pub claims_of : Jwt → Claims
claims_of jwt = record { tenant_id = some jwt.tenant_id; role = some jwt.role; sub = some jwt.sub }

-- What both services use of `jose`: a token that was signed is verified until it expires, by a document
-- that shows the public half of the key under the token's `kid`.
pub record Jose (Key : Type 0) : Type 1 where
  pub sign_jwt : Key → Jwt → Result String
  pub jwt_verify : List PublicJwk → ℕ → String → String → String → Result Claims
  pub Halves : Key → String → Type 0
  pub sign_jwt_given : (key : Key) (jwt : Jwt) → sign_jwt key jwt ≢ ok ""
  pub jwt_verify-sign_jwt :
      (key : Key) (members token : String) (jwt : Jwt) (shown : List PublicJwk) (now : ℕ)
      → Halves key members
      → Memᴰ (record { kid = jwt.kid; members = members }) shown
      → sign_jwt key jwt ≡ ok token
      → now < jwt.exp
      → jwt_verify shown now jwt.issuer jwt.audience token ≡ ok (claims_of jwt)

-- The header of a bearer token.
abbrev pub bearer : String → Option String
bearer token = some ("Bearer " <> token)

rest_of_header : (token : String) → slice ("Bearer " <> token) 7 (len ("Bearer " <> token)) ≡ token
rest_of_header token = rw (len-append "Bearer " token) (slice-append_right "Bearer " token)

token_of-bearer : (token : String) → token ≢ "" → token_of (bearer token) ≡ some token
token_of-bearer token given =
    rw (starts_with-append "Bearer " token, rest_of_header token, not_empty) refl
  where
    not_empty : (token == "") ≡ false
    not_empty = ground (arith, eq_iff token "")

module _ {Key : Type 0} (jose : Jose Key) (cfg : TokenConfig) (keys : KeyService Key) (iat : ℕ)
    (user : User) (token : String) where
  -- What the guards and the handlers know of the sender.
  abbrev pub speaker : AuthContext
  speaker = record { tenant_id = user.tenant_id; role = user.role; sub = user.id }

  -- A service that verifies by the document `shown`.
  abbrev pub middleware : List PublicJwk → ℕ → Option String → Result AuthContext
  middleware shown now =
      authenticate (verify (jose.jwt_verify shown now) cfg.jwt_issuer cfg.jwt_audience)

  sign-authenticate :
      (members : String) (shown : List PublicJwk) (now : ℕ)
      → sign Key jose.sign_jwt cfg keys iat user ≡ ok token
      → jose.Halves keys.current_key members
      → Memᴰ (record { kid = keys.current_kid; members = members }) shown
      → now < iat + cfg.jwt_access_ttl
      → middleware shown now (bearer token) ≡ ok speaker
  unfolding authenticate verify sign
  sign-authenticate members shown now signed halves stands fresh =
      let jwt = jwt_of Key jose.sign_jwt cfg keys iat user in
      rw
        (
          authenticate,
          token_of-bearer token (λ e. jose.sign_jwt_given keys.current_key jwt (signed ∙ ap ok e)),
          verify,
          jose.jwt_verify-sign_jwt keys.current_key members token jwt shown now halves stands signed
              fresh,
        )
        refl

  module _ (table : KeyTable) (gcm : Gcm) (import_jwk : String → Result Key) (kek : Option String)
      (production : Bool) (drawn : Drawn) (iv : gcm.Bytes) (ivs : String → gcm.Bytes)
      (db : table.Db) (r : SigningKey) (rotated : KeyService Key) where
    -- A rotation of the signing keys does not end the sessions: an access token that was signed with
    -- the key that was current before passes the middleware of a service that sees the keys shown
    -- after, until it expires, and stands there for the user's id, tenant and role.
    pub rotation_keeps_tokens :
        (now : ℕ)
        → sign Key jose.sign_jwt cfg keys iat user ≡ ok token
        → jose.Halves keys.current_key r.public_jwk
        → keys.current_kid ≡ r.kid
        → Memᴰ r (table.rows db)
        → is_current r ≡ true
        → (rotate table gcm Key import_jwk kek production drawn iv ivs db).0 ≡ ok rotated
        → now < iat + cfg.jwt_access_ttl
        → middleware rotated.public_jwks now (bearer token) ≡ ok speaker
    rotation_keeps_tokens now signed halves same stands current done fresh =
        let shown =
          rotate-IsShown table gcm Key import_jwk kek production drawn iv ivs db r rotated stands
            current done in
        sign-authenticate r.public_jwk rotated.public_jwks now signed halves (rw same shown.2) fresh
