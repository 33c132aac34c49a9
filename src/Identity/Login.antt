-- ===== src/Identity/Login.antt =====
-- apps/identity/src/auth: who is given which access token (auth.service.ts, token.service.ts), and the
-- endpoints (auth.controller.ts). Signing a JWT, Argon2 and the lookups of users are parameters.
pub mod Admitted
pub mod Granted
use flash_bite.Prelude.{
  ℕ, ◌+◌, String, ◌≡◌, Bool, true, false, Option, none, some, or_else, Result, ok, throw,
  unauthorized, ◌>>=◌, ◌==◌, ◌&&◌, if◌then◌else◌,
}
use flash_bite.Identity.Cookies.{
  CookieOpts, build_set_cookie, clear_set_cookie, cookie_name, parse_cookie,
}
use flash_bite.Identity.RefreshTokens.{
  RefreshTable, RefreshConfig, Draw, RotateResult, issue, rotate, revoke,
}
use flash_bite.Identity.SigningKeys.{KeyService}

pub record User : Type 0 where
  pub id : String
  pub tenant_id : String
  pub role : String
  pub password_hash : String

pub record TokenConfig : Type 0 where
  pub jwt_issuer : String
  pub jwt_audience : String
  pub jwt_access_ttl : ℕ

-- What `SignJWT` is given: the header's `kid`, and the claims. `iat` is in seconds.
pub record Jwt : Type 0 where
  pub kid : String
  pub tenant_id : String
  pub role : String
  pub sub : String
  pub issuer : String
  pub audience : String
  pub iat : ℕ
  pub exp : ℕ

pub record LoginResult : Type 0 where
  pub access_token : String
  pub expires_in : ℕ

pub record AuthIssue : Type 0 where
  pub access : LoginResult
  pub raw : String

abbrev pub dummy_hash : String
dummy_hash =
    "$argon2id$v=19$m=65536,t=3,p=4$0000000000000000$0000000000000000000000000000000000000000000"

module _ (Key : Type 0) (sign_jwt : Key → Jwt → Result String) (token_cfg : TokenConfig)
    (keys : KeyService Key) where
  abbrev pub jwt_of : ℕ → User → Jwt
  jwt_of iat user = record {
    kid = keys.current_kid;
    tenant_id = user.tenant_id;
    role = user.role;
    sub = user.id;
    issuer = token_cfg.jwt_issuer;
    audience = token_cfg.jwt_audience;
    iat = iat;
    exp = iat + token_cfg.jwt_access_ttl;
  }

  -- TokenService.sign
  unfoldable pub sign : ℕ → User → Result String
  sign iat user = sign_jwt keys.current_key (jwt_of iat user)

  unfoldable pub access : ℕ → User → Result LoginResult
  unfolding sign
  access iat user = sign iat user >>= λ token.
      ok (record { access_token = token; expires_in = token_cfg.jwt_access_ttl })

  module _ (table : RefreshTable) (hash : String → String) (cfg : RefreshConfig) where
    open table use {Db}

    -- `argon2.verify`, an exception being a failure
    abbrev pub verified : (String → String → Result Bool) → Option User → String → Bool
    verified argon user password =
        elim (argon (elim user [ none ↦ dummy_hash | some u ↦ u.password_hash ]) password) [
          | ok matches ↦ matches
          | throw _ ↦ false
        ]

    abbrev pub with_refresh : LoginResult → Result (String × ℕ) × Db → Result AuthIssue × Db
    with_refresh access (ok (raw, _), db) = (ok (record { access = access; raw = raw }), db)
    with_refresh access (throw e, db) = (throw e, db)

    -- The user was found by the email; `family_id` is the new family's id.
    abbrev pub grant : ℕ → Draw → String → User → Db → Result AuthIssue × Db
    grant iat draw family_id user db = elim (access iat user) [
      | throw e ↦ (throw e, db)
      | ok granted ↦
          with_refresh granted (issue table hash cfg draw family_id user.id user.tenant_id db)
    ]

    unfoldable pub login :
        (String → Option User)
        → (String → String → Result Bool)
        → ℕ
        → Draw
        → String
        → String
        → String
        → Db
        → Result AuthIssue × Db
    unfolding access issue
    login find_by_email argon iat draw family_id email password db =
        let matches = verified argon (find_by_email email) password in
        elim (find_by_email email) [
          | none ↦ (throw (unauthorized "Invalid email or password"), db)
          | some user ↦
              if matches
              then grant iat draw family_id user db
              else (throw (unauthorized "Invalid email or password"), db)
        ]

    -- After the rotation: the role and the tenant are those that the user has now.
    abbrev pub renew : (String → Option User) → ℕ → Result RotateResult × Db → Result AuthIssue × Db
    renew find_by_id iat (throw e, db) = (throw e, db)
    renew find_by_id iat (ok (RotateResult.refused _), db) =
        (throw (unauthorized "Invalid refresh token"), db)
    renew find_by_id iat (ok (RotateResult.renewed raw _ user_id), db) = elim (find_by_id user_id) [
      | none ↦ (throw (unauthorized "Invalid refresh token"), db)
      | some user ↦ elim (access iat user) [
        | throw e ↦ (throw e, db)
        | ok granted ↦ (ok (record { access = granted; raw = raw }), db)
      ]
    ]

    unfoldable pub refresh : (String → Option User) → ℕ → Draw → String → Db → Result AuthIssue × Db
    unfolding access rotate
    refresh find_by_id iat draw raw db = renew find_by_id iat (rotate table hash cfg draw raw db)

    unfoldable pub logout : ℕ → String → Db → Db
    unfolding revoke
    logout now raw db = revoke table hash cfg now raw db

-- What the request's headers have, and what the controller answers: a body or an exception, with the
-- `Set-Cookie` header that it has set.
pub record AuthRequest : Type 0 where
  pub cookie : Option String
  pub app : Option String

pub record Reply (A : Type 0) : Type 0 where
  pub body : Result A
  pub set_cookie : Option String

-- The language's functions on texts that the controller uses
pub record TextTools : Type 0 where
  pub lower : String → String
  pub encode_uri : String → String
  pub decode_uri : String → Result String
  pub text_of : ℕ → String

pub record CookieConfig : Type 0 where
  pub rt_cookie_name : String
  pub rt_cookie : CookieOpts

module _ (tools : TextTools) (cfg : CookieConfig) where
  abbrev pub name_of : AuthRequest → String
  name_of req = cookie_name tools.lower cfg.rt_cookie_name req.app

  unfoldable pub set_rt : String → String → String
  unfolding build_set_cookie
  set_rt name raw = build_set_cookie tools.encode_uri tools.text_of name raw cfg.rt_cookie

  unfoldable pub clear_rt : String → String
  unfolding clear_set_cookie
  clear_rt name = clear_set_cookie name cfg.rt_cookie.path

  abbrev pub reply_to_login : String → Result AuthIssue → Reply LoginResult
  reply_to_login name (ok issued) = record {
    body = ok issued.access;
    set_cookie = some (set_rt name issued.raw);
  }
  reply_to_login name (throw e) = record { body = throw e; set_cookie = none }

  abbrev pub reply_to_refresh : String → Result AuthIssue → Reply LoginResult
  reply_to_refresh name (ok issued) = record {
    body = ok issued.access;
    set_cookie = some (set_rt name issued.raw);
  }
  reply_to_refresh name (throw e) = record { body = throw e; set_cookie = some (clear_rt name) }

  abbrev pub no_token : Option String → Bool
  no_token none = true
  no_token (some raw) = raw == ""

  -- POST auth/login and auth/refresh, over what the service does; an unreadable cookie throws before
  -- any is set.
  unfoldable pub post_login :
      {Db : Type 0} → (Db → Result AuthIssue × Db) → AuthRequest → Db → Reply LoginResult × Db
  unfolding cookie_name set_rt
  post_login service req db = let done = service db in (reply_to_login (name_of req) done.0, done.1)

  unfoldable pub post_refresh :
      {Db : Type 0}
      → (String → Db → Result AuthIssue × Db)
      → AuthRequest
      → Db
      → Reply LoginResult × Db
  unfolding cookie_name set_rt clear_rt parse_cookie
  post_refresh service req db = elim (parse_cookie tools.decode_uri req.cookie (name_of req)) [
    | throw e ↦ (record { body = throw e; set_cookie = none }, db)
    | ok found ↦
        let done = service (or_else found "") db in
        if no_token found
        then (
          record {
            body = throw (unauthorized "No refresh token");
            set_cookie = some (clear_rt (name_of req));
          },
          db,
        )
        else (reply_to_refresh (name_of req) done.0, done.1)
  ]

  unfoldable pub post_logout :
      {Db : Type 0} → (String → Db → Db) → AuthRequest → Db → Reply (Unit {0}) × Db
  unfolding cookie_name clear_rt parse_cookie
  post_logout service req db = elim (parse_cookie tools.decode_uri req.cookie (name_of req)) [
    | throw e ↦ (record { body = throw e; set_cookie = none }, db)
    | ok found ↦
        let cleared : Reply (Unit {0}) = record {
          body = ok tt;
          set_cookie = some (clear_rt (name_of req));
        } in
        if no_token found then (cleared, db) else (cleared, service (or_else found "") db)
  ]
