-- ===== src/Identity/RefreshTokens/Families.antt =====
-- The families of refresh tokens: how many of a family are active.
use mathlib.Core.List.{Memᴰ}
use native.Mathlib.Nat.{le_trans}
use flash_bite.Prelude.{
  ℕ, suc, ◌+◌, ◌≤◌, String, ◌≡◌, refl, ap, ◌∙◌, subst, Bool, true, false, ◌&&◌, List, [], ◌∷◌, ◌++◌,
  map, filter, some, not, ◌==◌, eq_refl, ltb, arith, if◌then◌else◌, inl, inr, Bool-cases,
  Option-cases,
}
use flash_bite.Identity.RefreshTokens.{
  RefreshToken, RefreshTable, RefreshConfig, Draw, is_active, mark_rotated, mark_revoked, in_family,
  graced, new_token, successor_of, prune, rotate_row, revoke_family, reused, rotate_found, rotate,
}

abbrev pub count : (RefreshToken → Bool) → List RefreshToken → ℕ
count p [] = 0
count p (r ∷ rs) = let n = count p rs in if p r then suc n else n

abbrev pub active_of : String → RefreshToken → Bool
active_of family_id r = in_family family_id r && is_active r

module _ (p : RefreshToken → Bool) where
  pub count-append : (xs ys : List RefreshToken) → count p (xs ++ ys) ≡ count p xs + count p ys
  count-append [] ys = omega arith
  count-append (x ∷ xs) ys = ground (arith, count-append xs ys)

  count-filter :
      (q : RefreshToken → Bool) (rs : List RefreshToken) → count p (filter q rs) ≤ count p rs
  count-filter q [] = omega arith
  count-filter q (r ∷ rs) = ground (arith, count-filter q rs)

  module _ (f : RefreshToken → RefreshToken) where
    count-map :
        ((r : RefreshToken) → p (f r) ≡ true → p r ≡ true)
        → (rs : List RefreshToken) → count p (map f rs) ≤ count p rs
    count-map h [] = omega arith
    count-map h (r ∷ rs) = elim (Bool-cases (p (f r))) [
      | inl e ↦ ground (arith, count-map h rs, h r e)
      | inr e ↦ ground (arith, count-map h rs, e)
    ]

    count-map-fewer :
        ((r : RefreshToken) → p (f r) ≡ true → p r ≡ true)
        → (row : RefreshToken) (rs : List RefreshToken) → Memᴰ row rs
        → p row ≡ true
        → p (f row) ≡ false
        → count p (map f rs) + 1 ≤ count p rs
    count-map-fewer h row [] m e e' = elim m [ ]
    count-map-fewer h row (r ∷ rs) (Memᴰ.head i) e e' =
        ground
          (arith, count-map h rs, subst (λ x. p x ≡ true) i e, subst (λ x. p (f x) ≡ false) i e')
    count-map-fewer h row (r ∷ rs) (Memᴰ.tail m) e e' = elim (Bool-cases (p (f r))) [
      | inl k ↦ ground (arith, count-map-fewer h row rs m e e', h r k, k)
      | inr k ↦ ground (arith, count-map-fewer h row rs m e e', k)
    ]

    pub count-map-none :
        ((r : RefreshToken) → p (f r) ≡ false) → (rs : List RefreshToken) → count p (map f rs) ≡ 0
    count-map-none h [] = refl
    count-map-none h (r ∷ rs) = rw (h r) (count-map-none h rs)

abbrev rotates : ℕ → RefreshToken → RefreshToken → RefreshToken
rotates now row r = if r.id == row.id then mark_rotated now r else r

active_of-rotates :
    (fam : String) (now : ℕ) (row r : RefreshToken)
    → active_of fam (rotates now row r) ≡ true
    → active_of fam r ≡ true
active_of-rotates fam now row r h = ground (arith, h)

active_of-rotates_self :
    (fam : String) (now : ℕ) (row : RefreshToken) → active_of fam (rotates now row row) ≡ false
active_of-rotates_self fam now row = ground (arith, eq_refl row.id)

active_of-revoked :
    (fam : String) (now : ℕ) (p : RefreshToken → Bool) (r : RefreshToken)
    → active_of fam (if p r then mark_revoked now r else r) ≡ true
    → active_of fam r ≡ true
active_of-revoked fam now p r h = ground (arith, h)

pub revoked_family :
    (fam : String) (now : ℕ) (r : RefreshToken)
    → active_of fam (if in_family fam r then mark_revoked now r else r) ≡ false
revoked_family fam now r = ground arith

module _ (table : RefreshTable) (hash : String → String) (cfg : RefreshConfig) where
  open table use {Db, rows, create, update_many, find_unique}

  abbrev pub active_in : String → Db → ℕ
  active_in fam db = count (active_of fam) (rows db)

  -- No family has more active tokens after than before.
  abbrev pub NoMore : Db → Db → Type 0
  NoMore db db' = (fam : String) → active_in fam db' ≤ active_in fam db

  pruned-NoMore : (now : ℕ) (db : Db) → NoMore db (prune table hash cfg now db)
  unfolding prune
  pruned-NoMore now db fam =
      rw (table.rows-delete_many db (λ r. ltb r.expires_at now))
        (count-filter (active_of fam) (λ r. not (ltb r.expires_at now)) (rows db))

  pub revoked-NoMore :
      (now : ℕ) (p : RefreshToken → Bool) (db : Db)
      → NoMore db (update_many db p (mark_revoked now))
  revoked-NoMore now p db fam = rw (table.rows-update_many db p (mark_revoked now)) (
      count-map (active_of fam) (λ r. if p r then mark_revoked now r else r)
        (active_of-revoked fam now p) (rows db))

  swapped-NoMore :
      (draw : Draw) (row : RefreshToken) (db db' : Db)
      → Memᴰ row (rows db)
      → is_active row ≡ true
      → create
          (update_many db (λ r. r.id == row.id) (mark_rotated draw.now))
          (new_token table hash cfg draw row.family_id row.user_id row.tenant_id)
        ≡ some db'
      → NoMore db db'
  swapped-NoMore draw row db db' m act e fam =
      let new = new_token table hash cfg draw row.family_id row.user_id row.tenant_id in
      let f = rotates draw.now row in
      let written : rows db' ≡ map f (rows db) ++ new ∷ [] =
        table.rows-create _ db' new e
        ∙ ap (λ rs. rs ++ new ∷ [])
            (table.rows-update_many db (λ r. r.id == row.id) (mark_rotated draw.now)) in
      let total =
        ap (count (active_of fam)) written
        ∙ count-append (active_of fam) (map f (rows db)) (new ∷ []) in
      elim (Bool-cases (row.family_id == fam)) [
        | inl same ↦ ground (
          arith,
          total,
          same,
          act,
          count-map-fewer (active_of fam) f (active_of-rotates fam draw.now row) row (rows db) m
              (rw (same, act) refl) (active_of-rotates_self fam draw.now row),
        )
        | inr other ↦ ground (
          arith,
          total,
          other,
          count-map (active_of fam) f (active_of-rotates fam draw.now row) (rows db),
        )
      ]

  rotate_row-NoMore :
      (draw : Draw) (row : RefreshToken) (db : Db)
      → Memᴰ row (rows db)
      → is_active row ≡ true
      → NoMore db (rotate_row table hash cfg draw row db).1
  unfolding rotate_row
  rotate_row-NoMore draw row db m act fam =
      elim (Option-cases (
        create (update_many db (λ r. r.id == row.id) (mark_rotated draw.now))
          (new_token table hash cfg draw row.family_id row.user_id row.tenant_id))) [
            | inl e ↦ rw (e, rotate_row) (omega arith)
            | inr (db', e) ↦ rw (e, rotate_row) (swapped-NoMore draw row db db' m act e fam)
          ]

  revoke_family-NoMore :
      (now : ℕ) (key : String) (db : Db) → NoMore db (revoke_family table hash cfg now key db).1
  unfolding revoke_family
  revoke_family-NoMore now key db fam = revoked-NoMore now (in_family key) db fam

  reused-NoMore :
      (draw : Draw) (row : RefreshToken) (db : Db) → NoMore db (reused table hash cfg draw row db).1
  unfolding reused
  reused-NoMore draw row db fam = elim (Bool-cases (graced cfg draw.now row)) [
    | inr late ↦ rw (late, reused) (revoke_family-NoMore draw.now row.family_id db fam)
    | inl early ↦ elim (Option-cases (table.find_first db (successor_of draw row))) [
      | inl e ↦ rw (early, e, reused) (revoke_family-NoMore draw.now row.family_id db fam)
      | inr (next, e) ↦
          let found = table.find_first_in db (successor_of draw row) next e in
          rw (early, e, reused)
            (rotate_row-NoMore draw next db found.0 (ground (arith, found.1)) fam)
    ]
  ]

  rotate_found-NoMore :
      (draw : Draw) (row : RefreshToken) (db : Db)
      → Memᴰ row (rows db)
      → NoMore db (rotate_found table hash cfg draw row db).1
  unfolding rotate_found
  rotate_found-NoMore draw row db m fam = elim (Bool-cases (is_active row)) [
    | inr dead ↦ rw (dead, rotate_found) (reused-NoMore draw row db fam)
    | inl act ↦ elim (Bool-cases (ltb row.expires_at draw.now)) [
      | inl old ↦ rw (act, old, rotate_found) (omega arith)
      | inr new ↦ rw (act, new, rotate_found) (rotate_row-NoMore draw row db m act fam)
    ]
  ]

  -- However a token is presented, no family has more active tokens after the rotation than before.
  pub rotate_no_more :
      (draw : Draw) (raw : String) (db : Db) (fam : String)
      → active_in fam (rotate table hash cfg draw raw db).1 ≤ active_in fam db
  unfolding rotate
  rotate_no_more draw raw db fam =
      let pruned = prune table hash cfg draw.now db in
      let fewer = pruned-NoMore draw.now db fam in
      elim (Option-cases (find_unique pruned (hash raw))) [
        | inl e ↦ rw (e, rotate) fewer
        | inr (row, e) ↦
            let found = table.find_unique_in pruned (hash raw) row e in
            rw (e, rotate) (le_trans (rotate_found-NoMore draw row pruned found.0 fam) fewer)
      ]
