-- ===== src/Identity/SigningKeys/Published.antt =====
-- Which keys the JWKS document of a service has after a rotation (key.service.ts).
use mathlib.Core.List.Memᴰ
use mathlib.Core.List.{Memᴰ}
use flash_bite.Prelude.{
  String, ◌≡◌, refl, Bool, true, false, ◌&&◌, List, [], ◌∷◌, ◌++◌, map, subst, All, Option, some,
  Result, ok, ◌>>=◌, arith, inl, inr, Bool-cases, Option-cases, Result-cases, ok-inj,
}
use flash_bite.Identity.KeyCipher.{Gcm, open_private_jwk}
use flash_bite.Identity.SigningKeys.{
  SigningKey, KeyStatus, KeyTable, is_current, is_previous, is_published, set_status, Drawn,
  new_key, stored_form, generate, current_or_generate, migrate_legacy_plaintext, load_from, load,
  retire_previous, demote_current, rotate, no_kek, entry_of, KeyService,
}
use flash_bite.Identity.SigningKeys.Rotation.{demote, retire}

-- A key of the table that is current once the rows that were have been demoted is the one added.
added :
    (c r : SigningKey) (rows : List SigningKey)
    → Memᴰ c (map demote rows ++ r ∷ [])
    → is_current c ≡ true
    → c ≡ r
added c r [] m h = Memᴰ.eq_of_singleton m
added c r (x ∷ rows) m h = elim (Memᴰ.cases_cons m) [
  | inl e ↦ ground (arith, e, h)
  | inr rest ↦ added c r rows rest h
]

none_at :
    (p : SigningKey → Bool) {r : SigningKey} {rows : List SigningKey}
    → All (λ q. p q ≡ false) rows
    → Memᴰ r rows
    → p r ≡ false
none_at p h (Memᴰ.head e) = rw e h.0
none_at p h (Memᴰ.tail m) = none_at p h.1 m

false_true {ℓ} : {A : Type ℓ} → ◌≡◌ {A = Bool} true false → A
false_true e = cc

module _ (table : KeyTable) (gcm : Gcm) (Key : Type 0) (import_jwk : String → Result Key)
    (kek : Option String) where
  open table use {Db, rows, update_many}

  -- What a service that loaded with the key `r` signs with and shows.
  pub record Serves (r : SigningKey) (db : Db) (service : KeyService Key) : Type 0 where
    pub signs : service.current_kid ≡ r.kid
    pub shows : service.public_jwks ≡ map entry_of (table.find_many db is_published)

  load_from-Serves :
      (ivs : String → gcm.Bytes) (r : SigningKey) (db : Db) (service : KeyService Key)
      → (load_from table gcm Key import_jwk kek ivs r db).0 ≡ ok service
      → Serves r db service
  unfolding load_from
  load_from-Serves ivs r db service h =
      let shown = table.find_many db is_published in
      elim (Result-cases (open_private_jwk gcm r.private_jwk kek >>= import_jwk)) [
        | inr (x, e) ↦ cc (rw (e, load_from) at h)
        | inl (key, e) ↦
            elim (Result-cases
              (migrate_legacy_plaintext table gcm Key import_jwk kek ivs shown db).0) [
                | inr (x, f) ↦ cc (rw (e, load_from, f) at h)
                | inl (_, f) ↦
                    subst (Serves r db) (ok-inj (rw (e, load_from, f) at h))
                      (record { signs = refl; shows = refl })
              ]
      ]

  found :
      (drawn : Drawn) (iv : gcm.Bytes) (db : Db) (r : SigningKey)
      → table.find_first db is_current ≡ some r
      → current_or_generate table gcm Key import_jwk kek drawn iv db ≡ (ok r, db)
  unfolding current_or_generate
  found drawn iv db r f = rw (f, current_or_generate) refl

  load-Serves :
      (production : Bool) (drawn : Drawn) (iv : gcm.Bytes) (ivs : String → gcm.Bytes) (db : Db)
      (r : SigningKey) (service : KeyService Key)
      → table.find_first db is_current ≡ some r
      → (load table gcm Key import_jwk kek production drawn iv ivs db).0 ≡ ok service
      → Serves r db service
  unfolding load
  load-Serves production drawn iv ivs db r service f h =
      elim (Bool-cases (no_kek kek && production)) [
        | inl e ↦ cc (rw (e, load) at h)
        | inr e ↦
            load_from-Serves ivs r db service
              (rw (found drawn iv db r f) at (rw (e, load, found drawn iv db r f) at h))
      ]

  retire-kept :
      (r : SigningKey) (db : Db)
      → Memᴰ r (rows db)
      → is_current r ≡ true
      → Memᴰ r (rows (retire_previous table gcm Key import_jwk kek db))
  unfolding retire_previous
  retire-kept r db m h =
      rw (table.rows-update_many db is_previous (set_status KeyStatus.retired))
        (Memᴰ.cast same (Memᴰ.map retire m))
    where
      same : r ≡ retire r
      same = ground (arith, h)

  demote-kept :
      (r : SigningKey) (db : Db)
      → Memᴰ r (rows db)
      → is_current r ≡ true
      → Memᴰ
          (set_status KeyStatus.previous r)
          (rows (demote_current table gcm Key import_jwk kek db))
  unfolding demote_current
  demote-kept r db m h =
      rw (table.rows-update_many db is_current (set_status KeyStatus.previous))
        (Memᴰ.cast same (Memᴰ.map demote m))
    where
      same : set_status KeyStatus.previous r ≡ demote r
      same = ground (arith, h)

  -- After the two updates of a rotation, `generate` adds the key that is drawn, as the current one.
  module _ (production : Bool) (drawn : Drawn) (iv : gcm.Bytes) (ivs : String → gcm.Bytes) (db : Db)
      (r : SigningKey) (service : KeyService Key) (stands : Memᴰ r (rows db))
      (signing : is_current r ≡ true) where
    abbrev between : Db
    between =
        demote_current table gcm Key import_jwk kek
          (retire_previous table gcm Key import_jwk kek db)

    -- A key whose entry is shown under its `kid`.
    abbrev pub IsShown : String → String → KeyService Key → Type 0
    IsShown kid members service = Memᴰ (record { kid = kid; members = members }) service.public_jwks

    abbrev made : String → SigningKey
    made s = new_key table gcm Key import_jwk kek drawn s

    module _ (s : String) (db' : Db) (created : table.create between (made s) ≡ some db') where
      in_table :
          rows db'
          ≡ map demote (rows (retire_previous table gcm Key import_jwk kek db)) ++ made s ∷ []
      unfolding demote_current
      in_table =
          rw
            (
              table.rows-create between db' (made s) created,
              table.rows-update_many (retire_previous table gcm Key import_jwk kek db) is_current
                  (set_status KeyStatus.previous),
            )
            refl

      made_stands : Memᴰ (made s) (rows db')
      made_stands = rw in_table (Memᴰ.append_right _ (Memᴰ.head refl))

      previous_stands : Memᴰ (set_status KeyStatus.previous r) (rows db')
      previous_stands = rw (table.rows-create between db' (made s) created) (
          Memᴰ.append_left (made s ∷ []) (
            demote-kept r (retire_previous table gcm Key import_jwk kek db)
              (retire-kept r db stands signing) signing))

      made_is_first : (c : SigningKey) → table.find_first db' is_current ≡ some c → c ≡ made s
      made_is_first c e =
          let f = table.find_first_in db' is_current c e in
          added c (made s) (rows (retire_previous table gcm Key import_jwk kek db))
            (rw in_table at f.0) f.1

      shown :
          (q : SigningKey)
          → Memᴰ q (rows db')
          → is_published q ≡ true
          → Serves (made s) db' service
          → IsShown q.kid q.public_jwk service
      shown q m p serves =
          rw serves.shows (Memᴰ.map entry_of (table.find_many_all db' is_published q m p))

      loaded :
          (load table gcm Key import_jwk kek production drawn iv ivs db').0 ≡ ok service
          → (service.current_kid ≡ drawn.kid)
            × IsShown drawn.kid drawn.public_jwk service
            × IsShown r.kid r.public_jwk service
      loaded h = elim (Option-cases (table.find_first db' is_current)) [
        | inl e ↦
            false_true (none_at is_current (table.find_first_none db' is_current e) made_stands)
        | inr (c, e) ↦
            let serves =
              subst (λ c. Serves c db' service) (made_is_first c e)
                (load-Serves production drawn iv ivs db' c service e h) in
            (
              serves.signs,
              shown (made s) made_stands refl serves,
              shown (set_status KeyStatus.previous r) previous_stands refl serves,
            )
      ]

    generated :
        (q : SigningKey)
        → (generate table gcm Key import_jwk kek drawn iv between).0 ≡ ok q
        → (s : String) × (db' : Db) × (table.create between (made s) ≡ some db')
          × ((generate table gcm Key import_jwk kek drawn iv between).1 ≡ db')
    unfolding generate
    generated q h =
        elim (Result-cases (stored_form table gcm Key import_jwk kek iv drawn.private_jwk)) [
          | inr (x, e) ↦ cc (rw (e, generate) at h)
          | inl (s, e) ↦ elim (Option-cases (table.create between (made s))) [
            | inl f ↦ cc (rw (e, f, generate) at h)
            | inr (db', f) ↦ (s, db', f, rw (e, f, generate) refl)
          ]
        ]

    -- A key that is current when a rotation begins stays in the document of a service that the rotation
    -- leaves, so that the tokens it signed are still verified; that service signs with the key that
    -- was drawn, which the document has too.
    pub rotate-IsShown :
        (rotate table gcm Key import_jwk kek production drawn iv ivs db).0 ≡ ok service
        → (service.current_kid ≡ drawn.kid)
          × IsShown drawn.kid drawn.public_jwk service
          × IsShown r.kid r.public_jwk service
    unfolding rotate
    rotate-IsShown h =
        elim (Result-cases (generate table gcm Key import_jwk kek drawn iv between).0) [
          | inr (x, e) ↦ cc (rw (e, rotate) at h)
          | inl (q, e) ↦
              let (s, db', f, g) = generated q e in
              loaded s db' f (
                subst
                  (λ d.
                    (load table gcm Key import_jwk kek production drawn iv ivs d).0 ≡ ok service)
                  g (rw (e, rotate) at h))
        ]
