-- ===== src/Tests/Keys.antt =====
-- Keys, cookies and logins: concrete tables, a cipher that hides nothing, and the theorems applied.
use mathlib.Core.List.{Memᴰ}
use Prim.Native.Char.{Char, code, char}
use text.Mathlib.TextEquality.{Char-path}
use text.Mathlib.TextLemmas.{cons≢nil}
use flash_bite.Prelude.{
  ℕ, suc, String, ◌≡◌, ◌≢◌, refl, ap, subst, Bool, true, false, ◌&&◌, List, [], ◌∷◌, ◌++◌, map,
  filter, find, any, All, none, some, Result, ok, throw, error, ◌==◌, ◌<>◌, nat_eq, has_char,
  eq_iff, arith, inl, inr, Bool-cases, ok-inj, if◌then◌else◌,
}
use flash_bite.Identity.KeyCipher.{
  Gcm, seal_private_jwk, open_private_jwk, is_sealed, decode_kek, open_private_jwk-seal_private_jwk,
}
use flash_bite.Identity.SigningKeys.{SigningKey, KeyStatus, KeyTable, Drawn, KeyService, rotate}
use flash_bite.Identity.Login.{Jwt, TokenConfig, User, sign}
use flash_bite.Identity.Login.Admitted.{Jose, bearer, middleware, speaker, rotation_keeps_tokens}
use flash_bite.Identity.SigningKeys.Rotation.{
  AtMostOneEach, Happening, starts, rotates, stops_after_demoting, happen_all,
  happen_all-AtMostOneEach,
}

-- A table as a list
find_in :
    (p : SigningKey → Bool) (rows : List SigningKey) (r : SigningKey)
    → find p rows ≡ some r
    → Memᴰ r rows × (p r ≡ true)
find_in p [] r e = cc
find_in p (x ∷ rows) r e = elim (Bool-cases (p x)) [
  | inl h ↦ (Memᴰ.head (ground (arith, e, h)), ground (arith, e, h))
  | inr h ↦ let rest = find_in p rows r (rw h at e) in (Memᴰ.tail rest.0, rest.1)
]

find_none :
    (p : SigningKey → Bool) (rows : List SigningKey)
    → find p rows ≡ none
    → All (λ r. p r ≡ false) rows
find_none p [] e = tt
find_none p (x ∷ rows) e = elim (Bool-cases (p x)) [
  | inl h ↦ ground (arith, e, h)
  | inr h ↦ (h, find_none p rows (rw h at e))
]

filter_all :
    (p : SigningKey → Bool) (rows : List SigningKey) (r : SigningKey)
    → Memᴰ r rows
    → p r ≡ true
    → Memᴰ r (filter p rows)
filter_all p [] r m h = elim m [ ]
filter_all p (x ∷ rows) r (Memᴰ.head e) h =
    let hit : p x ≡ true = subst (λ y. p y ≡ true) e h in rw hit (Memᴰ.head e)
filter_all p (x ∷ rows) r (Memᴰ.tail m) h = elim (Bool-cases (p x)) [
  | inl f ↦ rw f (Memᴰ.tail (filter_all p rows r m h))
  | inr f ↦ rw f (filter_all p rows r m h)
]

created : (b : Bool) (xs ys : List SigningKey) → (if b then none else some xs) ≡ some ys → ys ≡ xs
created true xs ys e = cc
created false xs ys e = ground (arith, e)

abbrev key_table : KeyTable
key_table = record {
  Db = List SigningKey;
  rows = λ db. db;
  create = λ db r. if any (λ q. q.kid == r.kid) db then none else some (db ++ r ∷ []);
  update_many = λ db p f. map (λ r. if p r then f r else r) db;
  find_first = λ db p. find p db;
  find_many = λ db p. filter p db;
  rows-create = λ db db' r e. created (any (λ q. q.kid == r.kid) db) (db ++ r ∷ []) db' e;
  rows-update_many = λ db p f. refl;
  find_first_in = λ db p r e. find_in p db r e;
  find_first_none = λ db p e. find_none p db e;
  find_many_all = λ db p r m h. filter_all p db r m h;
}

-- Two characters for each, the first of which tells a colon.
abbrev colon : Char
colon = char b':' tt

abbrev encoded : String → String
encoded String.[] = ""
encoded (String.◌∷◌ c s) =
    let rest = encoded s in
    if nat_eq (code c) b':'
    then String.◌∷◌ (char b'x' tt) (String.◌∷◌ (char b'_' tt) rest)
    else String.◌∷◌ (char b'y' tt) (String.◌∷◌ c rest)

abbrev decoded : String → String
decoded String.[] = ""
decoded (String.◌∷◌ t String.[]) = ""
decoded (String.◌∷◌ t (String.◌∷◌ c s)) =
    let rest = decoded s in String.◌∷◌ (if nat_eq (code t) b'x' then colon else c) rest

decoded-encoded : (s : String) → decoded (encoded s) ≡ s
decoded-encoded String.[] = refl
decoded-encoded (String.◌∷◌ c s) = elim (Bool-cases (nat_eq (code c) b':')) [
  | inl h ↦
      rw (h, decoded-encoded s) (ap (λ d. String.◌∷◌ d s) (Char-path colon c (ground (arith, h))))
  | inr h ↦ rw (h, decoded-encoded s) refl
]

encoded_plain : (s : String) → has_char b':' (encoded s) ≡ false
encoded_plain String.[] = refl
encoded_plain (String.◌∷◌ c s) = ground (arith, encoded_plain s)

abbrev chars : String → ℕ
chars String.[] = 0
chars (String.◌∷◌ c s) = suc (chars s)

encoded_empty : (s : String) → encoded s ≡ "" → chars s ≡ 0
encoded_empty String.[] e = refl
encoded_empty (String.◌∷◌ c s) e = elim (Bool-cases (nat_eq (code c) b':')) [
  | inl h ↦ absurd (cons≢nil (rw h at e))
  | inr h ↦ absurd (cons≢nil (rw h at e))
]

chars_empty : (s : String) → chars s ≡ 0 → s ≡ ""
chars_empty String.[] e = refl
chars_empty (String.◌∷◌ c s) e = absurd (omega (arith, e))

abbrev plain_gcm : Gcm
plain_gcm = record {
  Bytes = String;
  size = chars;
  decode64 = decoded;
  encode64 = encoded;
  encrypt = λ kek iv s. s;
  auth_tag = λ kek iv s. "0123456789abcdef";
  decrypt = λ kek iv ct tag. ok ct;
  decode64-encode64 = decoded-encoded;
  encode64_no_colon = encoded_plain;
  encode64_empty = encoded_empty;
  size-encrypt = λ kek iv s e. chars_empty s e;
  size-auth_tag = λ kek iv s. refl;
  decrypt-encrypt = λ kek iv s. refl;
}

-- 32 bytes, in 64 characters
abbrev kek : String
kek = "yayayayayayayayayayayayayayayayayayayayayayayayayayayayayayayaya"

abbrev iv : String
iv = "nonce-12-abc"

abbrev pub private_key : String
private_key = "{\"kty\":\"RSA\"}"

abbrev sealed_key : String
sealed_key =
    "gcm.v1:" <> encoded iv <> ":" <> encoded private_key <> ":" <> encoded "0123456789abcdef"

open_private_jwk-seal_private_jwk_example :
    (is_sealed sealed_key ≡ true)
    × (open_private_jwk plain_gcm sealed_key (some kek) ≡ ok private_key)
unfolding seal_private_jwk decode_kek
open_private_jwk-seal_private_jwk_example =
    open_private_jwk-seal_private_jwk plain_gcm iv private_key kek sealed_key refl (λ e. cons≢nil e)
      (λ e. cons≢nil e) refl

abbrev drawn : String → ℕ → Drawn
drawn kid now = record {
  kid = kid;
  public_jwk = "public " <> kid;
  private_jwk = private_key;
  now = now;
}

abbrev import_jwk : String → Result String
import_jwk jwk = ok jwk

abbrev nonces : String → String
nonces kid = iv

abbrev a_day : List (Happening key_table plain_gcm String import_jwk (some kek))
a_day =
    starts true (drawn "key-1" 1) iv nonces
    ∷ rotates true (drawn "key-2" 2) iv nonces
    ∷ stops_after_demoting
    ∷ starts true (drawn "key-3" 3) iv nonces
    ∷ []

happen_all-AtMostOneEach_example :
    AtMostOneEach (happen_all key_table plain_gcm String import_jwk (some kek) a_day [])
happen_all-AtMostOneEach_example =
    happen_all-AtMostOneEach key_table plain_gcm String import_jwk (some kek) a_day [] (omega arith)

-- Tokens that are signed for one customer only
abbrev pub is_ada : Jwt → Bool
is_ada jwt = jwt.tenant_id == "berlin" && (jwt.role == "customer" && jwt.sub == "ada")

abbrev pub signed : Bool → Result String
signed true = ok "token of ada"
signed false = throw (error "unknown")

pub all_three : (p q r : Bool) → (p && (q && r)) ≡ true → (p ≡ true) × (q ≡ true) × (r ≡ true)
all_three true q r h = ground (arith, h)
all_three false q r h = ground (arith, h)

pub only_if_ada : (b : Bool) (t : String) → signed b ≡ ok t → b ≡ true
only_if_ada true t e = refl
only_if_ada false t e = cc

pub signed_given : (b : Bool) → signed b ≢ ok ""
signed_given true e = cons≢nil (ok-inj e)
signed_given false e = cc

abbrev pub toy_jose : Jose String
toy_jose = record {
  sign_jwt = λ key jwt. signed (is_ada jwt);
  jwt_verify = λ shown now issuer audience token.
      ok (record { tenant_id = some "berlin"; role = some "customer"; sub = some "ada" });
  Halves = λ key members. Unit {0};
  sign_jwt_given = λ key jwt. signed_given (is_ada jwt);
  jwt_verify-sign_jwt = λ key members token jwt shown now halves m e fresh.
      let three =
        all_three (jwt.tenant_id == "berlin") (jwt.role == "customer") (jwt.sub == "ada")
          (only_if_ada (is_ada jwt) token e) in
      rw
        (
          (eq_iff jwt.tenant_id "berlin").0 three.0,
          (eq_iff jwt.role "customer").0 three.1,
          (eq_iff jwt.sub "ada").0 three.2,
        )
        refl;
}

abbrev pub token_config : TokenConfig
token_config = record {
  jwt_issuer = "flashbite-identity";
  jwt_audience = "flashbite";
  jwt_access_ttl = 900;
}

abbrev pub ada : User
ada = record { id = "ada"; tenant_id = "berlin"; role = "customer"; password_hash = "hash" }

abbrev first_key : SigningKey
first_key = record {
  kid = "key-1";
  public_jwk = "public key-1";
  private_jwk = private_key;
  status = KeyStatus.current;
  created_at = 1;
}

abbrev pub before : KeyService String
before = record { current_kid = "key-1"; current_key = private_key; public_jwks = [] }

abbrev after : KeyService String
after = record {
  current_kid = "key-2";
  current_key = private_key;
  public_jwks =
      record { kid = "key-1"; members = "public key-1" }
      ∷ record { kid = "key-2"; members = "public key-2" }
      ∷ [];
}

signed_for_ada : sign String toy_jose.sign_jwt token_config before 0 ada ≡ ok "token of ada"
unfolding sign
signed_for_ada = refl

rotated_to :
    (rotate key_table plain_gcm String import_jwk
      (some kek)
      true
      (drawn "key-2" 2)
      iv
      nonces
      (first_key ∷ [])).0
    ≡ ok after
unfolding rotate
rotated_to = refl

rotation_keeps_tokens_example :
    middleware toy_jose token_config before 0 ada "token of ada" after.public_jwks 10
      (bearer "token of ada")
    ≡ ok (speaker toy_jose token_config before 0 ada "token of ada")
rotation_keeps_tokens_example =
    rotation_keeps_tokens toy_jose token_config before 0 ada "token of ada" key_table plain_gcm
      import_jwk (some kek) true (drawn "key-2" 2) iv nonces (first_key ∷ []) first_key after 10
      signed_for_ada tt refl (Memᴰ.head refl) refl rotated_to (omega arith)
