-- ===== src/Identity/Cookies/Jar.antt =====
-- What is read from the header that a browser sends of its cookies (cookie.ts), and the characters of a
-- cookie's name (auth.controller.ts).
use Prim.Native.Char.{Char, code, char}
use Prim.Native.Nat.{zero, suc}
use text.Mathlib.TextLemmas.{cons-append, nil-append, append_assoc as text_assoc}
use flash_bite.Prelude.{
  ℕ, String, ◌≡◌, ◌≢◌, refl, sym, ap, ◌∙◌, Bool, true, false, not, ◌&&◌, ◌||◌, List, [], ◌∷◌, ◌++◌,
  All, All-append, Option, none, some, or_else, Result, ok, ◌==◌, ◌<>◌, nat_eq, if◌then◌else◌,
  eq_iff, eq_refl, arith, has_char, split, split-none, split-first, cons_of_append, has_char-append,
  inl, inr, Bool-cases,
}
use flash_bite.Identity.Cookies.{
  is_space, trim_start, kept, trim_end, trim, cut, take_value, find_cookie, parse_cookie,
  is_name_char, only_name_chars, first_chars, cookie_name,
}

abbrev pub all_chars : (ℕ → Bool) → String → Bool
all_chars p String.[] = true
all_chars p (String.◌∷◌ c s) = p (code c) && all_chars p s

-- What may stand in a cookie's value, and in its name as well.
abbrev pub is_value_char : ℕ → Bool
is_value_char c = not (is_space c || nat_eq c b';')

abbrev pub is_token_char : ℕ → Bool
is_token_char c = is_value_char c && not (nat_eq c b'=')

later_chars : (p q : Bool) → (p && q) ≡ true → q ≡ true
later_chars true q h = h
later_chars false q h = ground (arith, h)

no_semicolon : (s : String) → all_chars is_value_char s ≡ true → has_char b';' s ≡ false
no_semicolon String.[] h = refl
no_semicolon (String.◌∷◌ c s) h = ground (arith, no_semicolon s)

value_of_token : (s : String) → all_chars is_token_char s ≡ true → all_chars is_value_char s ≡ true
value_of_token String.[] h = refl
value_of_token (String.◌∷◌ c s) h = ground (arith, value_of_token s)

trim_start_value : (s : String) → all_chars is_value_char s ≡ true → trim_start s ≡ s
unfolding trim_start
trim_start_value String.[] h = refl
trim_start_value (String.◌∷◌ c s) h = ground arith

trim_end_value : (s : String) → all_chars is_value_char s ≡ true → trim_end s ≡ s
unfolding trim_end
trim_end_value String.[] h = refl
trim_end_value (String.◌∷◌ c String.[]) h = ground arith
trim_end_value (String.◌∷◌ c (String.◌∷◌ d s)) h =
    ap (kept c) (trim_end_value (String.◌∷◌ d s) (later_chars _ _ h))

trim_value : (s : String) → all_chars is_value_char s ≡ true → trim s ≡ s
unfolding trim
trim_value s h = rw (trim_start_value s h) (trim_end_value s h)

trim_token : (s : String) → all_chars is_token_char s ≡ true → trim s ≡ s
trim_token s h = trim_value s (value_of_token s h)

abbrev equals : Char
equals = char b'=' tt

abbrev blank : Char
blank = char b' ' tt

abbrev semicolon : Char
semicolon = char b';' tt

cut_pair : (k v : String) → all_chars is_token_char k ≡ true → cut (k <> "=" <> v) ≡ some (k, v)
unfolding cut
cut_pair String.[] v h = rw (nil-append ("=" <> v), cons_of_append equals v) (ground arith)
cut_pair (String.◌∷◌ c k) v h =
    rw (cons-append c k ("=" <> v), cut)
      (ground (arith, cut_pair k v (later_chars (is_token_char (code c)) _ h)))

-- The header that a browser sends of its cookies
unfoldable pub cookie_header : List (String × String) → String
cookie_header [] = ""
cookie_header ((k, v) ∷ []) = k <> "=" <> v
cookie_header ((k, v) ∷ p ∷ jar) = (k <> "=" <> v) <> ";" <> " " <> cookie_header (p ∷ jar)

abbrev pub IsCookie : String × String → Type 0
IsCookie (k, v) = (all_chars is_token_char k ≡ true) × (all_chars is_value_char v ≡ true)

unfoldable pub find_pair : String → List (String × String) → Option String
find_pair name [] = none
find_pair name ((k, v) ∷ jar) = if k == name then some v else find_pair name jar

-- What is read of one piece, which may follow a space.
abbrev answer_of : (String → Result String) → Option String → Result (Option String)
answer_of decode_uri none = ok none
answer_of decode_uri (some v) = take_value decode_uri v

-- "" or the space behind a semicolon
data Lead : String → Type 0 where
  nothing : (s : String) → s ≡ "" → Lead s
  space : (s : String) → s ≡ " " → Lead s

after_blank : (k : String) → all_chars is_token_char k ≡ true → trim (String.◌∷◌ blank k) ≡ k
unfolding trim trim_start
after_blank k h = trim_token k h

lead_key :
    (lead k v : String)
    → Lead lead
    → all_chars is_token_char k ≡ true
    → (k' : String) × (cut (lead <> k <> "=" <> v) ≡ some (k', v)) × (trim k' ≡ k)
unfolding cut
lead_key lead k v (nothing _ e) h =
    rw (e, nil-append (k <> "=" <> v)) (k, cut_pair k v h, trim_token k h)
lead_key lead k v (space _ e) h =
    rw (e, cons_of_append blank (k <> "=" <> v))
      (String.◌∷◌ blank k, rw (cut, cut_pair k v h) refl, after_blank k h)

lead_plain : (lead : String) → Lead lead → has_char b';' lead ≡ false
lead_plain lead (nothing _ e) = rw e refl
lead_plain lead (space _ e) = rw e refl

no_semicolon_in :
    (lead k v : String)
    → Lead lead
    → IsCookie (k, v)
    → has_char b';' (lead <> k <> "=" <> v) ≡ false
no_semicolon_in lead k v l h =
    rw
      (
        has_char-append b';' lead (k <> "=" <> v),
        has_char-append b';' k ("=" <> v),
        has_char-append b';' "=" v,
        lead_plain lead l,
        no_semicolon k (value_of_token k h.0),
        no_semicolon v h.1,
      )
      refl

-- One piece of the header.
find_cookie_piece :
    (decode_uri : String → Result String) (name lead k v : String) (parts : List String)
    → Lead lead
    → IsCookie (k, v)
    → find_cookie decode_uri name ((lead <> k <> "=" <> v) ∷ parts)
      ≡ (if k == name then take_value decode_uri v else find_cookie decode_uri name parts)
unfolding find_cookie
find_cookie_piece decode_uri name lead k v parts l h =
    let (k', c, t) = lead_key lead k v l h.0 in rw (find_cookie, c, t) refl

chosen :
    (decode_uri : String → Result String) (b : Bool) (v : String) (o : Option String)
    → (if b then take_value decode_uri v else answer_of decode_uri o)
      ≡ answer_of decode_uri (if b then some v else o)
chosen decode_uri true v o = refl
chosen decode_uri false v o = refl

find_cookie-cookie_header :
    (decode_uri : String → Result String) (name lead : String) (jar : List (String × String))
    → Lead lead
    → All IsCookie jar
    → jar ≢ []
    → find_cookie decode_uri name (split b';' (lead <> cookie_header jar))
      ≡ answer_of decode_uri (find_pair name jar)
unfolding find_cookie cookie_header find_pair
find_cookie-cookie_header decode_uri name lead [] l h ne = absurd (ne refl)
find_cookie-cookie_header decode_uri name lead ((k, v) ∷ []) l h ne =
    ap (find_cookie decode_uri name)
      (split-none b';' (lead <> k <> "=" <> v) (no_semicolon_in lead k v l h.0))
    ∙ find_cookie_piece decode_uri name lead k v [] l h.0
    ∙ chosen decode_uri (k == name) v none
find_cookie-cookie_header decode_uri name lead ((k, v) ∷ p ∷ jar) l h ne =
    ap (λ t. find_cookie decode_uri name (split b';' t))
      (sym (text_assoc lead (k <> "=" <> v) (";" <> " " <> cookie_header (p ∷ jar))))
    ∙ ap (find_cookie decode_uri name) (
        split-first semicolon (lead <> k <> "=" <> v) (" " <> cookie_header (p ∷ jar))
          (no_semicolon_in lead k v l h.0))
    ∙ find_cookie_piece decode_uri name lead k v (split b';' (" " <> cookie_header (p ∷ jar))) l h.0
    ∙ ap (λ r. if k == name then take_value decode_uri v else r)
        (find_cookie-cookie_header decode_uri name " " (p ∷ jar) (space " " refl) h.1 (λ e. cc))
    ∙ chosen decode_uri (k == name) v (find_pair name (p ∷ jar))

no_cookie :
    (decode_uri : String → Result String) (name : String)
    → find_cookie decode_uri name (split b';' "") ≡ ok none
unfolding find_cookie split cut
no_cookie decode_uri name = refl

take_value_back :
    (decode_uri : String → Result String) (v raw : String)
    → all_chars is_value_char v ≡ true
    → decode_uri v ≡ ok raw
    → take_value decode_uri v ≡ ok (some raw)
take_value_back decode_uri v raw plain back = rw (take_value, trim_value v plain, back) refl

parse_cookie-cookie_header :
    (decode_uri : String → Result String) (name : String) (jar : List (String × String))
    → All IsCookie jar
    → jar ≢ []
    → parse_cookie decode_uri (some (cookie_header jar)) name
      ≡ answer_of decode_uri (find_pair name jar)
unfolding parse_cookie
parse_cookie-cookie_header decode_uri name jar h ne =
    let header = cookie_header jar in
    let read =
      ap (λ t. find_cookie decode_uri name (split b';' t)) (sym (nil-append header))
      ∙ find_cookie-cookie_header decode_uri name "" jar (nothing "" refl) h ne in
    elim (Bool-cases (header == "")) [
      | inr e ↦ rw (e, parse_cookie) read
      | inl e ↦
          rw (e, parse_cookie)
            (sym (no_cookie decode_uri name) ∙ rw ((eq_iff header "").0 e) at read)
    ]

find_pair-append :
    (name v : String) (earlier later : List (String × String))
    → All (λ p. (p.0 == name) ≡ false) earlier
    → find_pair name (earlier ++ (name, v) ∷ later) ≡ some v
unfolding find_pair
find_pair-append name v [] later h = rw (eq_refl name) refl
find_pair-append name v ((k, w) ∷ earlier) later h =
    rw (h.0, find_pair-append name v earlier later h.1) refl

-- The value that was set under a name is read back from the header in which a browser sends its
-- cookies, whatever others it sends, if none of that name stands before.
pub parse_cookie-encode_uri :
    (encode_uri : String → String) (decode_uri : String → Result String)
    → ((s : String) → decode_uri (encode_uri s) ≡ ok s)
    → ((s : String) → all_chars is_value_char (encode_uri s) ≡ true)
    → (name raw : String) (earlier later : List (String × String))
    → all_chars is_token_char name ≡ true
    → All IsCookie earlier
    → All IsCookie later
    → All (λ p. (p.0 == name) ≡ false) earlier
    → parse_cookie decode_uri
        (some (cookie_header (earlier ++ (name, encode_uri raw) ∷ later)))
        name
      ≡ ok (some raw)
parse_cookie-encode_uri encode_uri decode_uri back plain name raw earlier later n hb ha other =
    parse_cookie-cookie_header decode_uri name (earlier ++ (name, encode_uri raw) ∷ later)
      (All-append IsCookie earlier ((name, encode_uri raw) ∷ later) hb ((n, plain raw), ha))
      (not_nil earlier)
    ∙ rw (find_pair-append name (encode_uri raw) earlier later other)
        (take_value_back decode_uri (encode_uri raw) raw (plain raw) (back raw))
  where
    not_nil : (xs : List (String × String)) → (xs ++ (name, encode_uri raw) ∷ later) ≢ []
    not_nil [] e = cc
    not_nil (x ∷ xs) e = cc

-- What a name of `cookieName` is made of, if the configured one is made of these too.
abbrev pub is_plain_char : ℕ → Bool
is_plain_char c = is_name_char c || nat_eq c b'_'

all_chars-append :
    (p : ℕ → Bool) (s t : String)
    → all_chars p s ≡ true
    → all_chars p t ≡ true
    → all_chars p (s <> t) ≡ true
all_chars-append p String.[] t hs ht = rw (nil-append t) ht
all_chars-append p (String.◌∷◌ c s) t hs ht =
    rw (cons-append c s t) (ground (arith, all_chars-append p s t))

only_name_chars-plain : (s : String) → all_chars is_plain_char (only_name_chars s) ≡ true
unfolding only_name_chars
only_name_chars-plain String.[] = refl
only_name_chars-plain (String.◌∷◌ c s) = ground (arith, only_name_chars-plain s)

first_chars-plain :
    (n : ℕ) (s : String)
    → all_chars is_plain_char s ≡ true
    → all_chars is_plain_char (first_chars n s) ≡ true
unfolding first_chars
first_chars-plain zero s h = refl
first_chars-plain (suc n) String.[] h = refl
first_chars-plain (suc n) (String.◌∷◌ c s) h = ground (arith, first_chars-plain n s)

plain-token : (s : String) → all_chars is_plain_char s ≡ true → all_chars is_token_char s ≡ true
plain-token String.[] h = refl
plain-token (String.◌∷◌ c s) h = ground (arith, plain-token s)

-- Whatever an app calls itself in its header, the cookie's name is one that can stand in a header of
-- cookies: it brings in no semicolon, equals sign or space, if the configured name is made of small
-- letters, digits, dashes and underscores.
pub cookie_name-token :
    (lower : String → String) (base : String) (header : Option String)
    → all_chars is_plain_char base ≡ true
    → all_chars is_token_char (cookie_name lower base header) ≡ true
unfolding cookie_name
cookie_name-token lower base header h =
    let app = first_chars 24 (only_name_chars (lower (or_else header ""))) in
    elim (Bool-cases (app == "")) [
      | inl e ↦ rw (e, cookie_name) (plain-token base h)
      | inr e ↦
          rw (e, cookie_name)
            (plain-token (base <> "_" <> app) (
              all_chars-append is_plain_char base ("_" <> app) h (
                all_chars-append is_plain_char "_" app refl (
                  first_chars-plain 24 (only_name_chars (lower (or_else header "")))
                    (only_name_chars-plain (lower (or_else header "")))))))
    ]
