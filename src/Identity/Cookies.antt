-- ===== src/Identity/Cookies.antt =====
-- apps/identity/src/auth/cookie.ts, and the cookie's name of auth.controller.ts. `encode_uri` and
-- `decode_uri` are `encodeURIComponent` and `decodeURIComponent`; a header that is not there is
-- `none`.
pub mod Jar
use Prim.Native.Char.{Char, code}
use Prim.Native.String
use Prim.Native.String.{slice}
use text.Mathlib.TextLemmas.{cons-append, nil-append, append_assoc as text_assoc}
use flash_bite.Prelude.{
  ℕ, ◌+◌, String, ◌≡◌, ◌≢◌, refl, sym, ap, ◌∙◌, Bool, true, false, not, ◌&&◌, ◌||◌, List, [], ◌∷◌,
  All, Option, none, some, or_else, Result, ok, throw, ◌==◌, ◌<>◌, nat_eq, leb, if◌then◌else◌,
  eq_iff, eq_refl, arith, has_char, split, split-none, split-append, inl, inr, Bool-cases,
}

-- White space of `trim`, as far as it can stand in a header: tabs and spaces
abbrev pub is_space : ℕ → Bool
is_space c = nat_eq c b' ' || nat_eq c b'\t'

unfoldable pub trim_start : String → String
trim_start String.[] = ""
trim_start (String.◌∷◌ c s) =
    let rest = trim_start s in if is_space (code c) then rest else String.◌∷◌ c s

-- A character stays at the end if something stays behind it, or it is no space itself.
abbrev pub kept : Char → String → String
kept c String.[] = if is_space (code c) then "" else String.◌∷◌ c ""
kept c (String.◌∷◌ d s) = String.◌∷◌ c (String.◌∷◌ d s)

unfoldable pub trim_end : String → String
trim_end String.[] = ""
trim_end (String.◌∷◌ c s) = kept c (trim_end s)

unfoldable pub trim : String → String
unfolding trim_start trim_end
trim s = trim_end (trim_start s)

abbrev pub before : Char → Option (String × String) → Option (String × String)
before c none = none
before c (some (k, v)) = some (String.◌∷◌ c k, v)

-- What stands before and after the first `=`; `none` is the -1 of `indexOf`.
unfoldable pub cut : String → Option (String × String)
cut String.[] = none
cut (String.◌∷◌ c s) =
    let rest = cut s in if nat_eq (code c) b'=' then some ("", s) else before c rest

abbrev pub take_value : (String → Result String) → String → Result (Option String)
take_value decode_uri v = elim (decode_uri (trim v)) [ ok s ↦ ok (some s) | throw e ↦ throw e ]

unfoldable pub find_cookie :
    (String → Result String) → String → List String → Result (Option String)
unfolding cut trim
find_cookie decode_uri name [] = ok none
find_cookie decode_uri name (part ∷ parts) =
    let rest = find_cookie decode_uri name parts in
    elim (cut part) [
      | none ↦ rest
      | some (k, v) ↦ if trim k == name then take_value decode_uri v else rest
    ]

-- An empty header is none.
unfoldable pub parse_cookie :
    (String → Result String) → Option String → String → Result (Option String)
unfolding find_cookie split
parse_cookie decode_uri none name = ok none
parse_cookie decode_uri (some header) name =
    if header == "" then ok none else find_cookie decode_uri name (split b';' header)

pub record CookieOpts : Type 0 where
  pub max_age_seconds : ℕ
  pub secure : Bool
  pub path : String

-- `text_of` prints a number.
unfoldable pub build_set_cookie :
    (String → String) → (ℕ → String) → String → String → CookieOpts → String
build_set_cookie encode_uri text_of name value opts =
    name
    <> "="
    <> encode_uri value
    <> "; Max-Age="
    <> text_of opts.max_age_seconds
    <> "; Path="
    <> opts.path
    <> "; HttpOnly; SameSite=Strict"
    <> (if opts.secure then "; Secure" else "")

unfoldable pub clear_set_cookie : String → String → String
clear_set_cookie name path = name <> "=; Max-Age=0; Path=" <> path <> "; HttpOnly; SameSite=Strict"

abbrev pub in_range : ℕ → ℕ → ℕ → Bool
in_range lo hi c = leb lo c && leb c hi

-- `[a-z0-9-]`
abbrev pub is_name_char : ℕ → Bool
is_name_char c = in_range b'a' b'z' c || (in_range b'0' b'9' c || nat_eq c b'-')

-- `.replace(/[^a-z0-9-]/g, "")`
unfoldable pub only_name_chars : String → String
only_name_chars String.[] = ""
only_name_chars (String.◌∷◌ c s) =
    let rest = only_name_chars s in if is_name_char (code c) then String.◌∷◌ c rest else rest

-- `.slice(0, n)`, of a text of single code units
unfoldable pub first_chars : ℕ → String → String
first_chars Prim.Native.Nat.zero s = ""
first_chars (Prim.Native.Nat.suc n) String.[] = ""
first_chars (Prim.Native.Nat.suc n) (String.◌∷◌ c s) = String.◌∷◌ c (first_chars n s)

-- `cookieName`; `header` is the first `x-fb-app`, and `lower` is `toLowerCase`.
unfoldable pub cookie_name : (String → String) → String → Option String → String
unfolding only_name_chars first_chars
cookie_name lower base header =
    let app = first_chars 24 (only_name_chars (lower (or_else header ""))) in
    if app == "" then base else base <> "_" <> app
