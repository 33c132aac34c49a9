-- ===== src/Identity/SigningKeys/Rotation.antt =====
-- What loading and rotating do to the table of keys (key.service.ts), also when they are cut short.
use flash_bite.Prelude.{
  ◌+◌, ◌≤◌, String, ◌≡◌, refl, ap, ◌∙◌, Bool, false, ◌&&◌, List, [], ◌∷◌, map, count, count-append,
  All, Option, some, Result, ◌>>=◌, ◌==◌, arith, inl, inr, if◌then◌else◌, Bool-cases, Option-cases,
  Result-cases,
}
use flash_bite.Identity.KeyCipher.{Gcm, is_sealed, seal_private_jwk, open_private_jwk}
use flash_bite.Identity.SigningKeys.{
  SigningKey, KeyStatus, KeyTable, is_current, is_previous, is_published, set_status, set_private,
  Drawn, new_key, stored_form, generate, current_or_generate, reseal, migrate_legacy_plaintext,
  load_from, load, retire_previous, demote_current, rotate, no_kek,
}

-- At most one key signs, and at most one more is kept for the tokens that it signed.
pub record AtMostOneEach (rows : List SigningKey) : Type 0 where
  pub one_current : count is_current rows ≤ 1
  pub one_previous : count is_previous rows ≤ 1

abbrev pub retire : SigningKey → SigningKey
retire r = if is_previous r then set_status KeyStatus.retired r else r

abbrev pub demote : SigningKey → SigningKey
demote r = if is_current r then set_status KeyStatus.previous r else r

retired_currents :
    (rows : List SigningKey) → count is_current (map retire rows) ≡ count is_current rows
retired_currents [] = refl
retired_currents (r ∷ rows) = ground (arith, retired_currents rows)

retired_previouses : (rows : List SigningKey) → count is_previous (map retire rows) ≡ 0
retired_previouses [] = refl
retired_previouses (r ∷ rows) = ground (arith, retired_previouses rows)

demoted_currents : (rows : List SigningKey) → count is_current (map demote rows) ≡ 0
demoted_currents [] = refl
demoted_currents (r ∷ rows) = ground (arith, demoted_currents rows)

demoted_previouses :
    (rows : List SigningKey)
    → count is_previous (map demote rows) ≡ count is_current rows + count is_previous rows
demoted_previouses [] = refl
demoted_previouses (r ∷ rows) = ground (arith, demoted_previouses rows)

-- Writing private keys changes no status.
rewritten :
    (p : SigningKey → Bool) (s : String) (rows : List SigningKey)
    → (count is_current (map (λ r. if p r then set_private s r else r) rows)
        ≡ count is_current rows)
      × (count is_previous (map (λ r. if p r then set_private s r else r) rows)
          ≡ count is_previous rows)
rewritten p s [] = (refl, refl)
rewritten p s (r ∷ rows) = ground (arith, rewritten p s rows)

count-none :
    (p : SigningKey → Bool) (rows : List SigningKey)
    → All (λ r. p r ≡ false) rows
    → count p rows ≡ 0
count-none p [] h = refl
count-none p (r ∷ rows) h = ground (arith, count-none p rows h.1)

module _ (table : KeyTable) (gcm : Gcm) (Key : Type 0) (import_jwk : String → Result Key)
    (kek : Option String) where
  open table use {Db, rows, update_many}

  abbrev SameKeys : Db → Db → Type 0
  SameKeys db db' =
      (count is_current (rows db') ≡ count is_current (rows db))
      × (count is_previous (rows db') ≡ count is_previous (rows db))

  reseal-SameKeys :
      (k : String) (ivs : String → gcm.Bytes) (rs : List SigningKey) (db : Db)
      → SameKeys db (reseal table gcm Key import_jwk kek k ivs rs db).1
  unfolding reseal
  reseal-SameKeys k ivs [] db = (refl, refl)
  reseal-SameKeys k ivs (r ∷ rs) db = elim (Bool-cases (is_sealed r.private_jwk)) [
    | inl e ↦ rw (e, reseal) (reseal-SameKeys k ivs rs db)
    | inr e ↦ elim (Result-cases (seal_private_jwk gcm (ivs r.kid) r.private_jwk k)) [
      | inr (x, f) ↦ rw (e, f, reseal) (refl, refl)
      | inl (s, f) ↦
          let written = update_many db (λ q. q.kid == r.kid) (set_private s) in
          let same = rewritten (λ q. q.kid == r.kid) s (rows db) in
          let rest = reseal-SameKeys k ivs rs written in
          let updated = table.rows-update_many db (λ q. q.kid == r.kid) (set_private s) in
          rw (e, f, reseal)
            (
              rest.0 ∙ ap (count is_current) updated ∙ same.0,
              rest.1 ∙ ap (count is_previous) updated ∙ same.1,
            )
    ]
  ]

  migrated-SameKeys :
      (ivs : String → gcm.Bytes) (rs : List SigningKey) (db : Db)
      → SameKeys db (migrate_legacy_plaintext table gcm Key import_jwk kek ivs rs db).1
  unfolding migrate_legacy_plaintext
  migrated-SameKeys ivs rs db = elim (Option-cases kek) [
    | inl e ↦ rw (e, migrate_legacy_plaintext) (refl, refl)
    | inr (k, e) ↦ elim (Bool-cases (k == "")) [
      | inl f ↦ rw (e, f, migrate_legacy_plaintext) (refl, refl)
      | inr f ↦ ground (arith, reseal-SameKeys k ivs rs db)
    ]
  ]

  load_from-SameKeys :
      (ivs : String → gcm.Bytes) (r : SigningKey) (db : Db)
      → SameKeys db (load_from table gcm Key import_jwk kek ivs r db).1
  unfolding load_from migrate_legacy_plaintext
  load_from-SameKeys ivs r db =
      elim (Result-cases (open_private_jwk gcm r.private_jwk kek >>= import_jwk)) [
        | inr (x, e) ↦ rw (e, load_from) (refl, refl)
        | inl (key, e) ↦
            rw (e, load_from) (migrated-SameKeys ivs (table.find_many db is_published) db)
      ]

  create-AtMostOneEach :
      (r : SigningKey) (db db' : Db)
      → r.status ≡ KeyStatus.current
      → table.create db r ≡ some db'
      → count is_current (rows db) ≡ 0
      → count is_previous (rows db) ≤ 1
      → AtMostOneEach (rows db')
  create-AtMostOneEach r db db' st e none_current p = rw (table.rows-create db db' r e) (
      ground (
        arith,
        count-append is_current (rows db) (r ∷ []),
        count-append is_previous (rows db) (r ∷ []),
      ))

  generate-AtMostOneEach :
      (drawn : Drawn) (iv : gcm.Bytes) (db : Db)
      → count is_current (rows db) ≡ 0
      → count is_previous (rows db) ≤ 1
      → AtMostOneEach (rows (generate table gcm Key import_jwk kek drawn iv db).1)
  unfolding generate
  generate-AtMostOneEach drawn iv db c p =
      elim (Result-cases (stored_form table gcm Key import_jwk kek iv drawn.private_jwk)) [
        | inr (x, e) ↦ rw (e, generate) (omega arith)
        | inl (stored, e) ↦
            let made = new_key table gcm Key import_jwk kek drawn stored in
            elim (Option-cases (table.create db made)) [
              | inl f ↦ rw (e, f, generate) (omega arith)
              | inr (db', f) ↦ rw (e, f, generate) (create-AtMostOneEach made db db' refl f c p)
            ]
      ]

  found-AtMostOneEach :
      (drawn : Drawn) (iv : gcm.Bytes) (db : Db)
      → AtMostOneEach (rows db)
      → AtMostOneEach (rows (current_or_generate table gcm Key import_jwk kek drawn iv db).1)
  unfolding current_or_generate
  found-AtMostOneEach drawn iv db h = elim (Option-cases (table.find_first db is_current)) [
    | inr (r, f) ↦ rw (f, current_or_generate) h
    | inl f ↦
        rw (f, current_or_generate)
          (generate-AtMostOneEach drawn iv db
            (count-none is_current (rows db) (table.find_first_none db is_current f))
            h.one_previous)
  ]

  SameKeys-AtMostOneEach :
      {db db' : Db} → SameKeys db db' → AtMostOneEach (rows db) → AtMostOneEach (rows db')
  SameKeys-AtMostOneEach same h = ground (arith, same, h)

  load-AtMostOneEach :
      (production : Bool) (drawn : Drawn) (iv : gcm.Bytes) (ivs : String → gcm.Bytes) (db : Db)
      → AtMostOneEach (rows db)
      → AtMostOneEach (rows (load table gcm Key import_jwk kek production drawn iv ivs db).1)
  unfolding load
  load-AtMostOneEach production drawn iv ivs db h =
      let found = current_or_generate table gcm Key import_jwk kek drawn iv db in
      elim (Bool-cases (no_kek kek && production)) [
        | inl e ↦ rw (e, load) h
        | inr e ↦ elim (Result-cases found.0) [
          | inr (x, g) ↦ rw (e, load, g) (found-AtMostOneEach drawn iv db h)
          | inl (r, g) ↦
              rw (e, load, g)
                (SameKeys-AtMostOneEach (load_from-SameKeys ivs r found.1)
                  (found-AtMostOneEach drawn iv db h))
        ]
      ]

  demoted :
      (db : Db)
      → (count is_current (rows (demote_current table gcm Key import_jwk kek db)) ≡ 0)
        × (count is_previous (rows (demote_current table gcm Key import_jwk kek db))
            ≡ count is_current (rows db) + count is_previous (rows db))
  unfolding demote_current
  demoted db =
      rw (table.rows-update_many db is_current (set_status KeyStatus.previous))
        (demoted_currents (rows db), demoted_previouses (rows db))

  retired :
      (db : Db)
      → (count is_current (rows (retire_previous table gcm Key import_jwk kek db))
          ≡ count is_current (rows db))
        × (count is_previous (rows (retire_previous table gcm Key import_jwk kek db)) ≡ 0)
  unfolding retire_previous
  retired db =
      rw (table.rows-update_many db is_previous (set_status KeyStatus.retired))
        (retired_currents (rows db), retired_previouses (rows db))

  between-AtMostOneEach :
      (db : Db)
      → AtMostOneEach (rows db)
      → AtMostOneEach (
          rows (
            demote_current table gcm Key import_jwk kek
              (retire_previous table gcm Key import_jwk kek db)))
  between-AtMostOneEach db h =
      ground (arith, retired db, demoted (retire_previous table gcm Key import_jwk kek db))

  rotate-AtMostOneEach :
      (production : Bool) (drawn : Drawn) (iv : gcm.Bytes) (ivs : String → gcm.Bytes) (db : Db)
      → AtMostOneEach (rows db)
      → AtMostOneEach (rows (rotate table gcm Key import_jwk kek production drawn iv ivs db).1)
  unfolding rotate
  rotate-AtMostOneEach production drawn iv ivs db h =
      let between =
        demote_current table gcm Key import_jwk kek
          (retire_previous table gcm Key import_jwk kek db) in
      let made = generate table gcm Key import_jwk kek drawn iv between in
      let kept : AtMostOneEach (rows made.1) =
        generate-AtMostOneEach drawn iv between
          (demoted (retire_previous table gcm Key import_jwk kek db)).0
          (between-AtMostOneEach db h).one_previous in
      elim (Result-cases made.0) [
        | inr (x, e) ↦ rw (e, rotate) kept
        | inl (r, e) ↦ rw (e, rotate) (load-AtMostOneEach production drawn iv ivs made.1 kept)
      ]

  -- What happens to the table: a service starts, keys are rotated, or a rotation stops after its
  -- first or its second write.
  pub data Happening : Type 0 where
    starts rotates : Bool → Drawn → gcm.Bytes → (String → gcm.Bytes) → Happening
    stops_after_retiring stops_after_demoting : Happening

  unfoldable pub happen : Happening → Db → Db
  unfolding load rotate retire_previous demote_current
  happen (starts production drawn iv ivs) db =
      (load table gcm Key import_jwk kek production drawn iv ivs db).1
  happen (rotates production drawn iv ivs) db =
      (rotate table gcm Key import_jwk kek production drawn iv ivs db).1
  happen stops_after_retiring db = retire_previous table gcm Key import_jwk kek db
  happen stops_after_demoting db =
      demote_current table gcm Key import_jwk kek (retire_previous table gcm Key import_jwk kek db)

  unfoldable pub happen_all : List Happening → Db → Db
  unfolding happen
  happen_all [] db = db
  happen_all (h ∷ hs) db = happen_all hs (happen h db)

  happen-AtMostOneEach :
      (h : Happening) (db : Db) → AtMostOneEach (rows db) → AtMostOneEach (rows (happen h db))
  unfolding happen
  happen-AtMostOneEach (starts production drawn iv ivs) db h =
      load-AtMostOneEach production drawn iv ivs db h
  happen-AtMostOneEach (rotates production drawn iv ivs) db h =
      rotate-AtMostOneEach production drawn iv ivs db h
  happen-AtMostOneEach stops_after_retiring db h = ground (arith, retired db)
  happen-AtMostOneEach stops_after_demoting db h = between-AtMostOneEach db h

  -- Whatever sequence of starts, rotations and rotations that stop half-way one instance goes through:
  -- one key at most is current and one at most is kept as the previous, if so it was at first.
  pub happen_all-AtMostOneEach :
      (hs : List Happening) (db : Db)
      → AtMostOneEach (rows db)
      → AtMostOneEach (rows (happen_all hs db))
  unfolding happen_all
  happen_all-AtMostOneEach [] db h = h
  happen_all-AtMostOneEach (x ∷ hs) db h =
      happen_all-AtMostOneEach hs (happen x db) (happen-AtMostOneEach x db h)
