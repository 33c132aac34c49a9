-- ===== src/Identity/RefreshTokens/Sessions.antt =====
-- What logins, rotations and logouts make of the table of refresh tokens.
use native.Mathlib.Nat.{le_trans}
use flash_bite.Prelude.{
  ℕ, ◌≤◌, String, ◌≡◌, refl, ap, ◌∙◌, true, false, [], ◌∷◌, some, ok, ◌==◌, eq_iff, arith, inl, inr,
  Bool-cases, Option-cases, if◌then◌else◌,
}
use flash_bite.Identity.RefreshTokens.{
  RefreshToken, RefreshTable, RefusalReason, RotateResult, RefreshConfig, Draw, is_active,
  mark_revoked, in_family, graced, new_token, issue, prune, revoke_family, reused, rotate_found,
  rotate, revoke,
}
use flash_bite.Identity.RefreshTokens.Families.{
  count, active_of, active_in, count-append, count-map-none, revoked_family, revoked-NoMore,
  rotate_no_more,
}

module _ (table : RefreshTable) (hash : String → String) (cfg : RefreshConfig) where
  open table use {Db, rows, create, update_many, find_unique}

  -- A login takes a family that no token is in.
  pub data Step (db db' : Db) : Type 0 where
    login :
        (draw : Draw) (family_id user_id tenant_id : String)
        → active_in table hash cfg family_id db ≡ 0
        → db' ≡ (issue table hash cfg draw family_id user_id tenant_id db).1
        → Step db db'
    refresh :
        (draw : Draw) (raw : String) → db' ≡ (rotate table hash cfg draw raw db).1 → Step db db'
    logout : (now : ℕ) (raw : String) → db' ≡ revoke table hash cfg now raw db → Step db db'

  pub data Reach (db : Db) : Db → Type 0 where
    here : Reach db db
    next : {db₁ db₂ : Db} → Reach db db₁ → Step db₁ db₂ → Reach db db₂

  abbrev AtMostOne : Db → Type 0
  AtMostOne db = (fam : String) → active_in table hash cfg fam db ≤ 1

  issued_AtMostOne :
      (draw : Draw) (family_id user_id tenant_id : String) (db : Db)
      → active_in table hash cfg family_id db ≡ 0
      → AtMostOne db
      → AtMostOne (issue table hash cfg draw family_id user_id tenant_id db).1
  unfolding issue
  issued_AtMostOne draw family_id user_id tenant_id db fresh h fam =
      let new = new_token table hash cfg draw family_id user_id tenant_id in
      elim (Option-cases (create db new)) [
        | inl e ↦ rw (e, issue) (h fam)
        | inr (db', e) ↦
            let total =
              ap (count (active_of fam)) (table.rows-create db db' new e)
              ∙ count-append (active_of fam) (rows db) (new ∷ []) in
            rw (e, issue)
              (elim (Bool-cases (family_id == fam)) [
                | inl same ↦ ground (arith, total, same, fresh_at fam same)
                | inr other ↦ ground (arith, total, other, h fam)
              ])
      ]
    where
      fresh_at : (fam : String) → (family_id == fam) ≡ true → count (active_of fam) (rows db) ≡ 0
      fresh_at fam same = rw⁻¹ ((eq_iff family_id fam).0 same) fresh

  logged_out :
      (now : ℕ) (raw : String) (db : Db) (fam : String)
      → active_in table hash cfg fam db ≤ 1
      → active_in table hash cfg fam (revoke table hash cfg now raw db) ≤ 1
  unfolding revoke
  logged_out now raw db fam h =
      le_trans (revoked-NoMore table hash cfg now (λ r. r.token_hash == hash raw) db fam) h

  Step-AtMostOne : {db db' : Db} → Step db db' → AtMostOne db → AtMostOne db'
  Step-AtMostOne {db = db} (login draw f u t fresh e) h fam =
      rw e (issued_AtMostOne draw f u t db fresh h fam)
  Step-AtMostOne {db = db} (refresh draw raw e) h fam =
      rw e (le_trans (rotate_no_more table hash cfg draw raw db fam) (h fam))
  Step-AtMostOne {db = db} (logout now raw e) h fam = rw e (logged_out now raw db fam (h fam))

  -- Whatever sequence of logins, refreshes and logouts, in any order and at any times: from an empty
  -- table, no family ever has two tokens that are active. One that was rotated is not active any more;
  -- within its grace it stands for the family's active one.
  pub at_most_one_active :
      (db db' : Db) (fam : String)
      → rows db ≡ []
      → Reach db db'
      → active_in table hash cfg fam db' ≤ 1
  at_most_one_active db db' fam empty here = rw empty (omega arith)
  at_most_one_active db db' fam empty (next {db₁ = db₁} r s) =
      Step-AtMostOne s (λ f. at_most_one_active db db₁ f empty r) fam

  revoked_none :
      (now : ℕ) (fam : String) (db : Db)
      → active_in table hash cfg fam (revoke_family table hash cfg now fam db).1 ≡ 0
  unfolding revoke_family
  revoked_none now fam db = rw (table.rows-update_many db (in_family fam) (mark_revoked now)) (
      count-map-none (active_of fam) (λ r. if in_family fam r then mark_revoked now r else r)
        (revoked_family fam now) (rows db))

  -- A token that is not active any more, presented after its grace, is refused as reused, and no
  -- token of its family is active afterwards.
  pub reuse_revokes_family :
      (draw : Draw) (raw : String) (row : RefreshToken) (db : Db)
      → find_unique (prune table hash cfg draw.now db) (hash raw) ≡ some row
      → is_active row ≡ false
      → graced cfg draw.now row ≡ false
      → let after = rotate table hash cfg draw raw db in
        (after.0 ≡ ok (RotateResult.refused RefusalReason.reuse))
        × (active_in table hash cfg row.family_id after.1 ≡ 0)
  unfolding rotate rotate_found reused revoke_family
  reuse_revokes_family draw raw row db e dead late =
      rw (e, dead, late, rotate, rotate_found, reused)
        (refl, revoked_none draw.now row.family_id (prune table hash cfg draw.now db))
