-- ===== src/Identity/Login/Granted.antt =====
-- To whom auth.service.ts gives access tokens, and what auth.controller.ts does to the cookie.
use flash_bite.Prelude.{
  ℕ, ◌+◌, String, ◌≡◌, ◌≢◌, refl, Bool, true, false, Option, some, Result, ok, throw, Exn,
  unauthorized, inl, inr, arith, Option-cases, Result-cases, Bool-cases, ok-inj, subst,
}
use flash_bite.Identity.RefreshTokens.{
  RefreshTable, RefreshConfig, Draw, RotateResult, issue, rotate,
}
use flash_bite.Identity.RefreshTokens.Renewals.{TakenOver}
use flash_bite.Identity.SigningKeys.{KeyService}
use flash_bite.Identity.Login.{
  User, Jwt, TokenConfig, LoginResult, AuthIssue, sign, access, verified, with_refresh, grant,
  login,
}

module _ (Key : Type 0) (sign_jwt : Key → Jwt → Result String) (token_cfg : TokenConfig)
    (keys : KeyService Key) (table : RefreshTable) (hash : String → String) (cfg : RefreshConfig)
    (iat : ℕ) (draw : Draw) (db : table.Db) where
  -- An access token that speaks for the user: it is signed with the current key, it names the user's
  -- id, tenant and role and no others, and it is good for the time that the answer says.
  abbrev pub SpeaksFor : User → AuthIssue → Type 0
  SpeaksFor user issued =
      (sign_jwt keys.current_key (record {
        kid = keys.current_kid;
        tenant_id = user.tenant_id;
        role = user.role;
        sub = user.id;
        issuer = token_cfg.jwt_issuer;
        audience = token_cfg.jwt_audience;
        iat = iat;
        exp = iat + issued.access.expires_in;
      })
        ≡ ok issued.access.access_token)
      × (issued.access.expires_in ≡ token_cfg.jwt_access_ttl)

  access-SpeaksFor :
      (user : User) (granted : LoginResult) (raw : String)
      → access Key sign_jwt token_cfg keys iat user ≡ ok granted
      → SpeaksFor user (record { access = granted; raw = raw })
  unfolding access sign
  access-SpeaksFor user granted raw h =
      elim (Result-cases (sign Key sign_jwt token_cfg keys iat user)) [
        | inr (x, e) ↦ cc (rw (e, access) at h)
        | inl (t, e) ↦
            subst (λ g. SpeaksFor user (record { access = g; raw = raw }))
              (ok-inj (rw (e, access) at h)) (e, refl)
      ]

  refreshed :
      (granted : LoginResult) (r : Result (String × ℕ) × table.Db) (issued : AuthIssue)
      → (with_refresh Key sign_jwt token_cfg keys table hash cfg granted r).0 ≡ ok issued
      → granted ≡ issued.access
  refreshed granted (ok _, db) issued h = ground (arith, h)
  refreshed granted (throw e, db) issued h = ground (arith, h)

  module _ (find_by_email : String → Option User) (argon : String → String → Result Bool)
      (family_id email password : String) where
    -- Who may log in: the email is a user's, and the password is that user's.
    abbrev pub KnowsPassword : User → Type 0
    KnowsPassword user =
        (find_by_email email ≡ some user) × (argon user.password_hash password ≡ ok true)

    abbrev logged_in : Result AuthIssue × table.Db
    logged_in =
        login Key sign_jwt token_cfg keys table hash cfg find_by_email argon iat draw family_id
          email password db

    granted-SpeaksFor :
        (user : User) (issued : AuthIssue)
        → (grant Key sign_jwt token_cfg keys table hash cfg iat draw family_id user db).0
          ≡ ok issued
        → SpeaksFor user issued
    granted-SpeaksFor user issued h =
        elim (Result-cases (access Key sign_jwt token_cfg keys iat user)) [
          | inr (x, e) ↦ cc (rw (grant, e) at h)
          | inl (granted, e) ↦
              let same =
                refreshed granted (issue table hash cfg draw family_id user.id user.tenant_id db)
                  issued (rw (grant, e) at h) in
              subst (λ g. SpeaksFor user (record { access = g; raw = issued.raw })) same
                (access-SpeaksFor user granted issued.raw e)
        ]

    passes :
        (user : User) (b : Bool)
        → find_by_email email ≡ some user
        → argon user.password_hash password ≡ ok b
        → b ≡ true
        → logged_in ≡ grant Key sign_jwt token_cfg keys table hash cfg iat draw family_id user db
    unfolding login
    passes user b e f g = rw (e, login, verified, e, f, g) refl

    refuses :
        (user : User) (b : Bool)
        → find_by_email email ≡ some user
        → argon user.password_hash password ≡ ok b
        → b ≡ false
        → logged_in ≡ (throw (unauthorized "Invalid email or password"), db)
    unfolding login
    refuses user b e f g = rw (e, login, verified, e, f, g) refl

    refuses_lost :
        (user : User) (x : Exn)
        → find_by_email email ≡ some user
        → argon user.password_hash password ≡ throw x
        → logged_in ≡ (throw (unauthorized "Invalid email or password"), db)
    unfolding login
    refuses_lost user x e f = rw (e, login, verified, e, f) refl

    -- Where nobody has the email, or the password is not the user's, the login is refused, in the same
    -- words, and writes nothing.
    pub login_refused :
        ((user : User)
          → find_by_email email ≡ some user
          → argon user.password_hash password ≢ ok true)
        → logged_in ≡ (throw (unauthorized "Invalid email or password"), db)
    unfolding login
    login_refused h = elim (Option-cases (find_by_email email)) [
      | inl e ↦ rw (e, login) refl
      | inr (user, e) ↦ elim (Result-cases (argon user.password_hash password)) [
        | inr (x, f) ↦ refuses_lost user x e f
        | inl (b, f) ↦ elim (Bool-cases b) [
          | inr g ↦ refuses user b e f g
          | inl g ↦ absurd (h user e (rw g at f))
        ]
      ]
    ]

    -- A login that answers is that of a user whose password was given, and its access token speaks for
    -- this user.
    pub login-KnowsPassword :
        (issued : AuthIssue)
        → logged_in.0 ≡ ok issued
        → (user : User) × KnowsPassword user × SpeaksFor user issued
    unfolding login
    login-KnowsPassword issued h = elim (Option-cases (find_by_email email)) [
      | inl e ↦ cc (rw (e, login) at h)
      | inr (user, e) ↦ elim (Result-cases (argon user.password_hash password)) [
        | inr (x, f) ↦ cc (rw (refuses_lost user x e f) at h)
        | inl (b, f) ↦ elim (Bool-cases b) [
          | inr g ↦ cc (rw (refuses user b e f g) at h)
          | inl g ↦
              (user, (e, rw g at f), granted-SpeaksFor user issued (rw (passes user b e f g) at h))
        ]
      ]
    ]

  module _ (find_by_id : String → Option User) (raw : String) where
    abbrev rotated : Result RotateResult × table.Db
    rotated = rotate table hash cfg draw raw db

    -- What a refresh that answers is based on: a row was taken over from, of a user who is still there.
    pub record Renewed (issued : AuthIssue) : Type 0 where
      pub user : User
      pub user_id : String
      pub expires_at : ℕ
      pub renewed : rotated.0 ≡ ok (RotateResult.renewed issued.raw expires_at user_id)
      pub taken : TakenOver table hash cfg draw raw issued.raw user_id db
      pub stays : find_by_id user_id ≡ some user
      pub speaks : SpeaksFor user issued
