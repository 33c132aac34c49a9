-- ===== src/Identity/SigningKeys.antt =====
-- apps/identity/src/auth/key.service.ts: the keys that access tokens are signed with. `generateKeyPair`,
-- `importJWK` and what Prisma does for the table `signing_keys` are parameters; a JWK is its JSON text.
pub mod Published
pub mod Rotation
use mathlib.Core.List.{Memᴰ}
use flash_bite.Prelude.{
  ℕ, String, ◌≡◌, Bool, true, false, not, ◌&&◌, ◌||◌, List, [], ◌∷◌, ◌++◌, map, filter, All, Option,
  none, some, Result, ok, throw, error, ◌>>=◌, ◌==◌, if◌then◌else◌,
}
use flash_bite.Identity.KeyCipher.{Gcm, is_sealed, seal_private_jwk, open_private_jwk}

pub data KeyStatus : Type 0 where
  current previous retired : KeyStatus

pub record SigningKey : Type 0 where
  pub kid : String
  pub public_jwk : String
  pub private_jwk : String
  pub status : KeyStatus
  pub created_at : ℕ

-- The table, through Prisma. `create` is refused when the `kid` is taken; `find_first` gives a row
-- that the condition picks, if there is one, and `find_many` all of them, the newest first.
pub record KeyTable : Type 1 where
  pub Db : Type 0
  pub rows : Db → List SigningKey
  pub create : Db → SigningKey → Option Db
  pub update_many : Db → (SigningKey → Bool) → (SigningKey → SigningKey) → Db
  pub find_first : Db → (SigningKey → Bool) → Option SigningKey
  pub find_many : Db → (SigningKey → Bool) → List SigningKey
  pub rows-create :
      (db db' : Db) (r : SigningKey) → create db r ≡ some db' → rows db' ≡ rows db ++ r ∷ []
  pub rows-update_many :
      (db : Db) (p : SigningKey → Bool) (f : SigningKey → SigningKey)
      → rows (update_many db p f) ≡ map (λ r. if p r then f r else r) (rows db)
  pub find_first_in :
      (db : Db) (p : SigningKey → Bool) (r : SigningKey)
      → find_first db p ≡ some r
      → Memᴰ r (rows db) × (p r ≡ true)
  pub find_first_none :
      (db : Db) (p : SigningKey → Bool) → find_first db p ≡ none → All (λ r. p r ≡ false) (rows db)
  pub find_many_all :
      (db : Db) (p : SigningKey → Bool) (r : SigningKey)
      → Memᴰ r (rows db)
      → p r ≡ true
      → Memᴰ r (find_many db p)

abbrev pub is_current : SigningKey → Bool
is_current r = elim r.status [ KeyStatus.current ↦ true | _ ↦ false ]

abbrev pub is_previous : SigningKey → Bool
is_previous r = elim r.status [ KeyStatus.previous ↦ true | _ ↦ false ]

-- `status: { in: ["current", "previous"] }`
abbrev pub is_published : SigningKey → Bool
is_published r = is_current r || is_previous r

-- An entry of the JWKS document, `alg` and `use` being constants
pub record PublicJwk : Type 0 where
  pub kid : String
  pub members : String

abbrev pub entry_of : SigningKey → PublicJwk
entry_of r = record { kid = r.kid; members = r.public_jwk }

pub record KeyService (Key : Type 0) : Type 0 where
  pub current_kid : String
  pub current_key : Key
  pub public_jwks : List PublicJwk

-- What a call draws: a key pair, with the thumbprint of its public key, and the time.
pub record Drawn : Type 0 where
  pub kid : String
  pub public_jwk : String
  pub private_jwk : String
  pub now : ℕ

abbrev pub set_private : String → SigningKey → SigningKey
set_private private_jwk r = record r { private_jwk = private_jwk }

abbrev pub set_status : KeyStatus → SigningKey → SigningKey
set_status status r = record r { status = status }

-- `!this.kek`
abbrev pub no_kek : Option String → Bool
no_kek none = true
no_kek (some kek) = kek == ""

module _ (table : KeyTable) (gcm : Gcm) (Key : Type 0) (import_jwk : String → Result Key)
    (kek : Option String) where
  open table use {Db, create, update_many, find_first, find_many}

  -- `this.kek ? sealPrivateJwk(privJwk, this.kek) : privJwk`
  unfoldable pub stored_form : gcm.Bytes → String → Result String
  unfolding seal_private_jwk
  stored_form iv private_jwk = elim kek [
    | none ↦ ok private_jwk
    | some k ↦ if k == "" then ok private_jwk else seal_private_jwk gcm iv private_jwk k
  ]

  abbrev pub new_key : Drawn → String → SigningKey
  new_key drawn stored = record {
    kid = drawn.kid;
    public_jwk = drawn.public_jwk;
    private_jwk = stored;
    status = KeyStatus.current;
    created_at = drawn.now;
  }

  unfoldable pub generate : Drawn → gcm.Bytes → Db → Result SigningKey × Db
  unfolding stored_form
  generate drawn iv db = elim (stored_form iv drawn.private_jwk) [
    | throw e ↦ (throw e, db)
    | ok stored ↦ elim (create db (new_key drawn stored)) [
      | none ↦ (throw (error "unique constraint"), db)
      | some db' ↦ (ok (new_key drawn stored), db')
    ]
  ]

  -- `found ?? (await this.generate())`
  unfoldable pub current_or_generate : Drawn → gcm.Bytes → Db → Result SigningKey × Db
  unfolding generate
  current_or_generate drawn iv db = elim (find_first db is_current) [
    | some r ↦ (ok r, db)
    | none ↦ generate drawn iv db
  ]

  -- `ivs` has the nonce of each row that is sealed.
  unfoldable pub reseal :
      String → (String → gcm.Bytes) → List SigningKey → Db → Result (Unit {0}) × Db
  unfolding seal_private_jwk
  reseal k ivs [] db = (ok tt, db)
  reseal k ivs (r ∷ rs) db = elim (is_sealed r.private_jwk) [
    | true ↦ reseal k ivs rs db
    | false ↦ elim (seal_private_jwk gcm (ivs r.kid) r.private_jwk k) [
      | throw e ↦ (throw e, db)
      | ok s ↦ reseal k ivs rs (update_many db (λ q. q.kid == r.kid) (set_private s))
    ]
  ]

  unfoldable pub migrate_legacy_plaintext :
      (String → gcm.Bytes) → List SigningKey → Db → Result (Unit {0}) × Db
  unfolding reseal
  migrate_legacy_plaintext ivs rows db = elim kek [
    | none ↦ (ok tt, db)
    | some k ↦ if k == "" then (ok tt, db) else reseal k ivs rows db
  ]

  -- What `load` does once it has the current key; a service whose load throws is not used.
  unfoldable pub load_from : (String → gcm.Bytes) → SigningKey → Db → Result (KeyService Key) × Db
  unfolding open_private_jwk migrate_legacy_plaintext
  load_from ivs r db =
      let rows = find_many db is_published in
      elim (open_private_jwk gcm r.private_jwk kek >>= import_jwk) [
        | throw e ↦ (throw e, db)
        | ok key ↦
            let migrated = migrate_legacy_plaintext ivs rows db in
            (
              migrated.0 >>= λ _. ok (record {
                current_kid = r.kid;
                current_key = key;
                public_jwks = map entry_of rows;
              }),
              migrated.1,
            )
      ]

  -- `production` is `NODE_ENV === "production"`.
  unfoldable pub load :
      Bool → Drawn → gcm.Bytes → (String → gcm.Bytes) → Db → Result (KeyService Key) × Db
  unfolding current_or_generate load_from
  load production drawn iv ivs db =
      if no_kek kek && production
      then (
        throw
            (error "SIGNING_KEY_KEK is required in production to encrypt the signing key at rest"),
        db,
      )
      else let found = current_or_generate drawn iv db in
        elim found.0 [ throw e ↦ (throw e, found.1) | ok r ↦ load_from ivs r found.1 ]

  unfoldable pub retire_previous : Db → Db
  retire_previous db = update_many db is_previous (set_status KeyStatus.retired)

  unfoldable pub demote_current : Db → Db
  demote_current db = update_many db is_current (set_status KeyStatus.previous)

  -- `load` finds the key that was just generated, and draws no other.
  unfoldable pub rotate :
      Bool → Drawn → gcm.Bytes → (String → gcm.Bytes) → Db → Result (KeyService Key) × Db
  unfolding retire_previous demote_current generate load
  rotate production drawn iv ivs db =
      let made = generate drawn iv (demote_current (retire_previous db)) in
      elim made.0 [ throw e ↦ (throw e, made.1) | ok _ ↦ load production drawn iv ivs made.1 ]
