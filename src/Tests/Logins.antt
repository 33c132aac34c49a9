-- ===== src/Tests/Logins.antt =====
-- Logins, refreshes and cookies.
use Prim.Native.Char.{Char, code, char}
use text.Mathlib.TextEquality.{Char-path}
use flash_bite.Prelude.{
  ℕ, String, ◌≡◌, refl, Bool, true, List, [], ◌∷◌, Option, none, some, Result, ok, ◌==◌, nat_eq,
  arith, inl, inr, Bool-cases, ap, if◌then◌else◌,
}
use flash_bite.Identity.RefreshTokens.{RefreshToken, issue}
use flash_bite.Identity.Login.{User, AuthIssue, login}
use flash_bite.Identity.Login.Granted.{KnowsPassword, SpeaksFor, login-KnowsPassword}
use flash_bite.Identity.Cookies.Jar.{
  all_chars, is_value_char, cookie_header, parse_cookie-encode_uri,
}
use flash_bite.Identity.Cookies.{parse_cookie}
use flash_bite.Tests.Access.{table, digest, config, first_draw}
use flash_bite.Tests.Keys.{toy_jose, token_config, ada, before}

abbrev by_email : String → Option User
by_email email = if email == "ada@berlin.test" then some ada else none

abbrev by_id : String → Option User
by_id id = if id == "ada" then some ada else none

abbrev argon : String → String → Result Bool
argon hash password = ok (password == "devpassword")

abbrev issued : String → AuthIssue
issued raw = record {
  access = record { access_token = "token of ada"; expires_in = 900 };
  raw = raw;
}

logged_in :
    (login String toy_jose.sign_jwt token_config before table digest config by_email argon 0
      first_draw "family-1" "ada@berlin.test" "devpassword" []).0
    ≡ ok (issued "raw-1")
unfolding login
logged_in = refl

login-KnowsPassword_example :
    (user : User) × KnowsPassword String toy_jose.sign_jwt token_config before table digest config 0
      first_draw [] by_email argon "family-1" "ada@berlin.test" "devpassword" user
    × SpeaksFor String toy_jose.sign_jwt token_config before table digest config 0 first_draw []
        user
        (issued "raw-1")
login-KnowsPassword_example =
    login-KnowsPassword String toy_jose.sign_jwt token_config before table digest config 0
      first_draw [] by_email argon "family-1" "ada@berlin.test" "devpassword" (issued "raw-1")
      logged_in

abbrev tokens : List RefreshToken
tokens = (issue table digest config first_draw "family-1" "ada" "berlin" []).1

-- A toy of `encodeURIComponent`: two characters for each.
abbrev pair : Char → Char → String → String
pair t c s = String.◌∷◌ t (String.◌∷◌ c s)

abbrev x : Char
x = char b'x' tt

abbrev encode : String → String
encode String.[] = ""
encode (String.◌∷◌ c s) =
    let rest = encode s in
    if nat_eq (code c) b' '
    then pair x (char b'a' tt) rest
    else if nat_eq (code c) b'\t'
    then pair x (char b'b' tt) rest
    else if nat_eq (code c) b';'
    then pair x (char b'c' tt) rest
    else pair (char b'y' tt) c rest

abbrev named : ℕ → Char
named c =
    if nat_eq c b'a' then char b' ' tt else if nat_eq c b'b' then char b'\t' tt else char b';' tt

abbrev decode : String → String
decode String.[] = ""
decode (String.◌∷◌ t String.[]) = ""
decode (String.◌∷◌ t (String.◌∷◌ c s)) =
    let rest = decode s in String.◌∷◌ (if nat_eq (code t) b'x' then named (code c) else c) rest

decode-encode : (s : String) → decode (encode s) ≡ s
decode-encode String.[] = refl
decode-encode (String.◌∷◌ c s) = elim (Bool-cases (nat_eq (code c) b' ')) [
  | inl h ↦
      rw (h, decode-encode s)
        (ap (λ d. String.◌∷◌ d s) (Char-path (char b' ' tt) c (ground (arith, h))))
  | inr h ↦ elim (Bool-cases (nat_eq (code c) b'\t')) [
    | inl k ↦
        rw (h, k, decode-encode s)
          (ap (λ d. String.◌∷◌ d s) (Char-path (char b'\t' tt) c (ground (arith, k))))
    | inr k ↦ elim (Bool-cases (nat_eq (code c) b';')) [
      | inl l ↦
          rw (h, k, l, decode-encode s)
            (ap (λ d. String.◌∷◌ d s) (Char-path (char b';' tt) c (ground (arith, l))))
      | inr l ↦ rw (h, k, l, decode-encode s) refl
    ]
  ]
]

encode_plain : (s : String) → all_chars is_value_char (encode s) ≡ true
encode_plain String.[] = refl
encode_plain (String.◌∷◌ c s) = ground (arith, encode_plain s)

parse_cookie-encode_uri_example :
    parse_cookie
      (λ s. ok (decode s))
      (some (cookie_header (("theme", "dark") ∷ ("fb_rt", encode "raw-1; x") ∷ [])))
      "fb_rt"
    ≡ ok (some "raw-1; x")
parse_cookie-encode_uri_example =
    parse_cookie-encode_uri encode (λ s. ok (decode s)) (λ s. ap ok (decode-encode s)) encode_plain
      "fb_rt" "raw-1; x" (("theme", "dark") ∷ []) [] refl ((refl, refl), tt) tt (refl, tt)
