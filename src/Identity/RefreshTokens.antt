-- ===== src/Identity/RefreshTokens.antt =====
-- apps/identity/src/auth/refresh-token.service.ts: refresh tokens that are rotated at each use.
pub mod Families
pub mod Renewals
pub mod Sessions
use mathlib.Core.List.{Memᴰ}
use flash_bite.Prelude.{
  ℕ, ◌+◌, ◌*◌, String, ◌≡◌, Bool, true, false, ◌&&◌, List, [], ◌∷◌, ◌++◌, map, filter, find, All,
  Option, none, some, not, Result, ok, throw, error, ◌==◌, ltb, leb, if◌then◌else◌,
}

pub data TokenStatus : Type 0 where
  active rotated revoked : TokenStatus

pub record RefreshToken : Type 0 where
  pub id : String
  pub family_id : String
  pub user_id : String
  pub tenant_id : String
  pub token_hash : String
  pub status : TokenStatus
  pub created_at : ℕ
  pub expires_at : ℕ
  pub rotated_at : Option ℕ
  pub revoked_at : Option ℕ

-- The table `refresh_token`, through Prisma. `create` is refused when a unique value is taken;
-- `find_first` gives one of the rows that the condition picks, if there is one.
pub record RefreshTable : Type 1 where
  pub Db : Type 0
  pub rows : Db → List RefreshToken
  pub create : Db → RefreshToken → Option Db
  pub update_many : Db → (RefreshToken → Bool) → (RefreshToken → RefreshToken) → Db
  pub delete_many : Db → (RefreshToken → Bool) → Db
  pub find_unique : Db → String → Option RefreshToken
  pub find_first : Db → (RefreshToken → Bool) → Option RefreshToken
  pub rows-create :
      (db db' : Db) (r : RefreshToken) → create db r ≡ some db' → rows db' ≡ rows db ++ r ∷ []
  pub rows-update_many :
      (db : Db) (p : RefreshToken → Bool) (f : RefreshToken → RefreshToken)
      → rows (update_many db p f) ≡ map (λ r. if p r then f r else r) (rows db)
  pub rows-delete_many :
      (db : Db) (p : RefreshToken → Bool)
      → rows (delete_many db p) ≡ filter (λ r. not (p r)) (rows db)
  pub find_unique_in :
      (db : Db) (h : String) (r : RefreshToken)
      → find_unique db h ≡ some r
      → Memᴰ r (rows db) × (r.token_hash ≡ h)
  pub find_first_in :
      (db : Db) (p : RefreshToken → Bool) (r : RefreshToken)
      → find_first db p ≡ some r
      → Memᴰ r (rows db) × (p r ≡ true)

pub data RefusalReason : Type 0 where
  reuse invalid : RefusalReason

pub data RotateResult : Type 0 where
  renewed : String → ℕ → String → RotateResult
  refused : RefusalReason → RotateResult

pub record RefreshConfig : Type 0 where
  pub jwt_refresh_ttl : ℕ
  pub refresh_reuse_grace_ms : ℕ

-- What a call takes from its environment: `newRaw()`, the id of a new row, and the clock, which is
-- read once.
pub record Draw : Type 0 where
  pub raw : String
  pub id : String
  pub now : ℕ

abbrev pub is_active : RefreshToken → Bool
is_active r = elim r.status [ TokenStatus.active ↦ true | _ ↦ false ]

abbrev pub is_rotated : RefreshToken → Bool
is_rotated r = elim r.status [ TokenStatus.rotated ↦ true | _ ↦ false ]

abbrev pub mark_rotated : ℕ → RefreshToken → RefreshToken
mark_rotated now r = record r { status = TokenStatus.rotated; rotated_at = some now }

abbrev pub mark_revoked : ℕ → RefreshToken → RefreshToken
mark_revoked now r = record r { status = TokenStatus.revoked; revoked_at = some now }

abbrev pub in_family : String → RefreshToken → Bool
in_family family_id r = r.family_id == family_id

-- `Date.now() - rotatedAt < refreshReuseGraceMs`, without the subtraction
abbrev pub within_grace : RefreshConfig → ℕ → Option ℕ → Bool
within_grace cfg now none = false
within_grace cfg now (some rotated_at) = ltb now (rotated_at + cfg.refresh_reuse_grace_ms)

unfoldable pub graced : RefreshConfig → ℕ → RefreshToken → Bool
graced cfg now row = is_rotated row && within_grace cfg now row.rotated_at

-- the `where` of the family's current active token
abbrev pub successor_of : Draw → RefreshToken → RefreshToken → Bool
successor_of draw row r = in_family row.family_id r && is_active r && leb draw.now r.expires_at

module _ (table : RefreshTable) (hash : String → String) (cfg : RefreshConfig) where
  open table use {Db, rows, create, update_many, delete_many, find_unique, find_first}

  abbrev pub expiry : Draw → ℕ
  expiry draw = draw.now + cfg.jwt_refresh_ttl * 1000

  abbrev pub new_token : Draw → String → String → String → RefreshToken
  new_token draw family_id user_id tenant_id = record {
    id = draw.id;
    family_id = family_id;
    user_id = user_id;
    tenant_id = tenant_id;
    token_hash = hash draw.raw;
    status = TokenStatus.active;
    created_at = draw.now;
    expires_at = expiry draw;
    rotated_at = none;
    revoked_at = none;
  }

  unfoldable pub issue : Draw → String → String → String → Db → Result (String × ℕ) × Db
  issue draw family_id user_id tenant_id db =
      elim (create db (new_token draw family_id user_id tenant_id)) [
        | none ↦ (throw (error "unique constraint"), db)
        | some db' ↦ (ok (draw.raw, expiry draw), db')
      ]

  unfoldable pub prune : ℕ → Db → Db
  prune now db = delete_many db (λ r. ltb r.expires_at now)

  -- The transaction of `rotateRow`: both writes, or neither.
  unfoldable pub rotate_row : Draw → RefreshToken → Db → Result RotateResult × Db
  rotate_row draw row db =
      elim (create (update_many db (λ r. r.id == row.id) (mark_rotated draw.now))
        (new_token draw row.family_id row.user_id row.tenant_id)) [
          | none ↦ (throw (error "unique constraint"), db)
          | some db' ↦ (ok (RotateResult.renewed draw.raw (expiry draw) row.user_id), db')
        ]

  unfoldable pub revoke_family : ℕ → String → Db → Result RotateResult × Db
  revoke_family now family_id db = (
    ok (RotateResult.refused RefusalReason.reuse),
    update_many db (in_family family_id) (mark_revoked now),
  )

  -- A token that is not active: within the grace it stands for its family's active successor.
  unfoldable pub reused : Draw → RefreshToken → Db → Result RotateResult × Db
  unfolding rotate_row revoke_family graced
  reused draw row db =
      let successor = find_first db (successor_of draw row) in
      if graced cfg draw.now row
      then elim successor [
        | some next ↦ rotate_row draw next db
        | none ↦ revoke_family draw.now row.family_id db
      ]
      else revoke_family draw.now row.family_id db

  unfoldable pub rotate_found : Draw → RefreshToken → Db → Result RotateResult × Db
  unfolding rotate_row reused
  rotate_found draw row db =
      if is_active row
      then if ltb row.expires_at draw.now
        then (ok (RotateResult.refused RefusalReason.invalid), db)
        else rotate_row draw row db
      else reused draw row db

  unfoldable pub rotate : Draw → String → Db → Result RotateResult × Db
  unfolding prune rotate_found
  rotate draw raw db =
      let pruned = prune draw.now db in
      elim (find_unique pruned (hash raw)) [
        | none ↦ (ok (RotateResult.refused RefusalReason.invalid), pruned)
        | some row ↦ rotate_found draw row pruned
      ]

  unfoldable pub revoke : ℕ → String → Db → Db
  revoke now raw db = update_many db (λ r. r.token_hash == hash raw) (mark_revoked now)
