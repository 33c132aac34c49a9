-- ===== src/Identity/RefreshTokens/Renewals.antt =====
-- Which row a renewal takes over from (apps/identity/src/auth/refresh-token.service.ts).
use mathlib.Core.List.{Memᴰ}
use flash_bite.Prelude.{
  ℕ, ◌+◌, ◌<◌, String, ◌≡◌, refl, true, ◌&&◌, some, ok, ltb, ◌==◌, eq_iff, ltb→lt, arith, ◌⊎◌, inl,
  inr, Bool-cases, Option-cases,
}
use flash_bite.Identity.RefreshTokens.{
  TokenStatus, RefreshToken, RefreshTable, RotateResult, RefreshConfig, Draw, is_active, is_rotated,
  mark_rotated, within_grace, graced, successor_of, prune, new_token, rotate_row, revoke_family,
  reused, rotate_found, rotate,
}

-- The token was rotated, less than the grace before.
pub data RotatedLately (cfg : RefreshConfig) (now : ℕ) (row : RefreshToken) : Type 0 where
  rotated_lately :
      (at : ℕ)
      → row.status ≡ TokenStatus.rotated
      → row.rotated_at ≡ some at
      → now < at + cfg.refresh_reuse_grace_ms
      → RotatedLately cfg now row

status_active :
    (s : TokenStatus) (r : RefreshToken)
    → r.status ≡ s
    → is_active r ≡ true
    → s ≡ TokenStatus.active
status_active TokenStatus.active r e h = refl
status_active TokenStatus.rotated r e h = cc (rw e at h)
status_active TokenStatus.revoked r e h = cc (rw e at h)

status_rotated :
    (s : TokenStatus) (r : RefreshToken)
    → r.status ≡ s
    → is_rotated r ≡ true
    → s ≡ TokenStatus.rotated
status_rotated TokenStatus.active r e h = cc (rw e at h)
status_rotated TokenStatus.rotated r e h = refl
status_rotated TokenStatus.revoked r e h = cc (rw e at h)

graced-RotatedLately :
    (cfg : RefreshConfig) (now : ℕ) (row : RefreshToken)
    → graced cfg now row ≡ true
    → RotatedLately cfg now row
unfolding graced
graced-RotatedLately cfg now row h = elim (Option-cases row.rotated_at) [
  | inl e ↦ ground (arith, rw e at h)
  | inr (at, e) ↦
      let k : (is_rotated row && within_grace cfg now (some at)) ≡ true = rw e at h in
      rotated_lately at (status_rotated row.status row refl (ground (arith, k))) e
        (ltb→lt now (at + cfg.refresh_reuse_grace_ms) (ground (arith, k)))
]

module _ (table : RefreshTable) (hash : String → String) (cfg : RefreshConfig) (draw : Draw) where
  open table use {Db, rows, create, update_many, find_unique}

  -- What a renewal is based on: the token that was presented is in the table, which has no expired
  -- tokens any more, and `used` is the row that was taken over from. It is active, it is of the same
  -- family, and it is the presented token itself unless that one was rotated lately.
  pub record TakenOver (raw fresh user_id : String) (db : Db) : Type 0 where
    pub row : RefreshToken
    pub used : RefreshToken
    pub row_is_there : Memᴰ row (rows (prune table hash cfg draw.now db))
    pub row_is_presented : row.token_hash ≡ hash raw
    pub used_is_there : Memᴰ used (rows (prune table hash cfg draw.now db))
    pub used_is_active : used.status ≡ TokenStatus.active
    pub same_family : used.family_id ≡ row.family_id
    pub itself_or_lately : (used ≡ row) ⊎ RotatedLately cfg draw.now row
    pub new_raw : fresh ≡ draw.raw
    pub same_user : used.user_id ≡ user_id

  rotate_row_lem :
      (used : RefreshToken) (db : Db) (fresh user_id : String) (at : ℕ)
      → (rotate_row table hash cfg draw used db).0 ≡ ok (RotateResult.renewed fresh at user_id)
      → (fresh ≡ draw.raw) × (used.user_id ≡ user_id)
  unfolding rotate_row
  rotate_row_lem used db fresh user_id at h =
      elim (Option-cases (
        create (update_many db (λ r. r.id == used.id) (mark_rotated draw.now))
          (new_token table hash cfg draw used.family_id used.user_id used.tenant_id))) [
            | inl e ↦ cc (rw (e, rotate_row) at h)
            | inr (db', e) ↦ ground (arith, rw (e, rotate_row) at h)
          ]

  module _ (raw : String) (db : Db) (row : RefreshToken)
      (found : Memᴰ row (rows (prune table hash cfg draw.now db)))
      (hashed : row.token_hash ≡ hash raw) (fresh user_id : String) (at : ℕ) where
    abbrev pruned : Db
    pruned = prune table hash cfg draw.now db

    reused-TakenOver :
        (reused table hash cfg draw row pruned).0 ≡ ok (RotateResult.renewed fresh at user_id)
        → TakenOver raw fresh user_id db
    unfolding reused revoke_family
    reused-TakenOver h = elim (Bool-cases (graced cfg draw.now row)) [
      | inr late ↦ cc (rw (late, reused) at h)
      | inl early ↦ elim (Option-cases (table.find_first pruned (successor_of draw row))) [
        | inl e ↦ cc (rw (early, e, reused) at h)
        | inr (next, e) ↦
            let picked = table.find_first_in pruned (successor_of draw row) next e in
            let taken = rotate_row_lem next pruned fresh user_id at (rw (early, e, reused) at h) in
            record {
              row = row;
              used = next;
              row_is_there = found;
              row_is_presented = hashed;
              used_is_there = picked.0;
              used_is_active = status_active next.status next refl (ground (arith, picked.1));
              same_family = (eq_iff next.family_id row.family_id).0 (ground (arith, picked.1));
              itself_or_lately = inr (graced-RotatedLately cfg draw.now row early);
              new_raw = taken.0;
              same_user = taken.1;
            }
      ]
    ]

    rotate_found-TakenOver :
        (rotate_found table hash cfg draw row pruned).0 ≡ ok (RotateResult.renewed fresh at user_id)
        → TakenOver raw fresh user_id db
    unfolding rotate_found
    rotate_found-TakenOver h = elim (Bool-cases (is_active row)) [
      | inr dead ↦ reused-TakenOver (rw (dead, rotate_found) at h)
      | inl act ↦ elim (Bool-cases (ltb row.expires_at draw.now)) [
        | inl old ↦ cc (rw (act, old, rotate_found) at h)
        | inr new ↦
            let taken =
              rotate_row_lem row pruned fresh user_id at (rw (act, new, rotate_found) at h) in
            record {
              row = row;
              used = row;
              row_is_there = found;
              row_is_presented = hashed;
              used_is_there = found;
              used_is_active = status_active row.status row refl act;
              same_family = refl;
              itself_or_lately = inl refl;
              new_raw = taken.0;
              same_user = taken.1;
            }
      ]
    ]

  pub rotate-TakenOver :
      (raw : String) (db : Db) (fresh user_id : String) (at : ℕ)
      → (rotate table hash cfg draw raw db).0 ≡ ok (RotateResult.renewed fresh at user_id)
      → TakenOver raw fresh user_id db
  unfolding rotate
  rotate-TakenOver raw db fresh user_id at h =
      let pruned = prune table hash cfg draw.now db in
      elim (Option-cases (find_unique pruned (hash raw))) [
        | inl e ↦ cc (rw (e, rotate) at h)
        | inr (row, e) ↦
            let there = table.find_unique_in pruned (hash raw) row e in
            rotate_found-TakenOver raw db row there.0 there.1 fresh user_id at (rw (e, rotate) at h)
      ]
