-- ===== src/Identity/KeyCipher.antt =====
-- apps/identity/src/auth/key-cipher.ts: the envelope around a private key that is stored. AES-256-GCM
-- and base64 are Node's, a parameter; the key's and the nonce's lengths are in bytes.
use Prim.Native.Char.{Char, char}
use text.Mathlib.Text.{starts_with}
use text.Mathlib.TextPositions.{starts_with_of_prefix}
use text.Mathlib.TextLemmas.{prefix-append, append_assoc as text_assoc}
use flash_bite.Prelude.{
  ℕ, String, ◌≡◌, ◌≢◌, refl, ap, ◌∙◌, Bool, true, false, ◌||◌, List, [], ◌∷◌, Option, none, some,
  Result, ok, throw, error, ◌==◌, ◌>>=◌, ◌<>◌, nat_eq, if◌then◌else◌, eq_iff, arith, has_char,
  split, split-none, split-first, inl, inr, Bool-cases, Result-cases, ok-inj,
}

-- What the code calls of `node:crypto` and of `Buffer`. Base64 has no colon, and what is sealed is
-- read back under the same key and nonce.
pub record Gcm : Type 1 where
  pub Bytes : Type 0
  pub size : Bytes → ℕ
  pub decode64 : String → Bytes
  pub encode64 : Bytes → String
  pub encrypt : Bytes → Bytes → String → Bytes
  pub auth_tag : Bytes → Bytes → String → Bytes
  pub decrypt : Bytes → Bytes → Bytes → Bytes → Result String
  pub decode64-encode64 : (b : Bytes) → decode64 (encode64 b) ≡ b
  pub encode64_no_colon : (b : Bytes) → has_char b':' (encode64 b) ≡ false
  pub encode64_empty : (b : Bytes) → encode64 b ≡ "" → size b ≡ 0
  pub size-encrypt : (kek iv : Bytes) (s : String) → size (encrypt kek iv s) ≡ 0 → s ≡ ""
  pub size-auth_tag : (kek iv : Bytes) (s : String) → size (auth_tag kek iv s) ≡ 16
  pub decrypt-encrypt :
      (kek iv : Bytes) (s : String) → decrypt kek iv (encrypt kek iv s) (auth_tag kek iv s) ≡ ok s

-- `PREFIX`
abbrev pub prefix : String
prefix = "gcm.v1:"

abbrev pub is_sealed : String → Bool
is_sealed stored = starts_with stored prefix

module _ (gcm : Gcm) where
  open gcm use {Bytes, size, decode64, encode64, encrypt, auth_tag, decrypt}

  -- The message goes on with the length that was found.
  unfoldable pub decode_kek : String → Result Bytes
  decode_kek kek_base64 =
      if nat_eq (size (decode64 kek_base64)) 32
      then ok (decode64 kek_base64)
      else throw (error "SIGNING_KEY_KEK must be 32 bytes base64-encoded")

  abbrev pub envelope : Bytes → Bytes → String → String
  envelope kek iv plaintext =
      prefix
      <> encode64 iv
      <> ":"
      <> encode64 (encrypt kek iv plaintext)
      <> ":"
      <> encode64 (auth_tag kek iv plaintext)

  -- `iv` is `randomBytes(IV_BYTES)`.
  unfoldable pub seal_private_jwk : Bytes → String → String → Result String
  unfolding decode_kek
  seal_private_jwk iv plaintext kek_base64 =
      decode_kek kek_base64 >>= λ kek. ok (envelope kek iv plaintext)

  -- A part that is empty counts as missing.
  abbrev pub open_parts : String → List String → Result String
  open_parts kek_base64 (_ ∷ iv ∷ ct ∷ tag ∷ _) =
      if iv == "" || (ct == "" || tag == "")
      then throw (error "Malformed sealed signing key")
      else decode_kek kek_base64 >>= λ kek. decrypt kek (decode64 iv) (decode64 ct) (decode64 tag)
  open_parts kek_base64 _ = throw (error "Malformed sealed signing key")

  abbrev pub open_sealed : Option String → String → Result String
  open_sealed none stored =
      throw (error "SIGNING_KEY_KEK is required to decrypt the stored signing key")
  open_sealed (some kek_base64) stored =
      if kek_base64 == ""
      then throw (error "SIGNING_KEY_KEK is required to decrypt the stored signing key")
      else open_parts kek_base64 (split b':' stored)

  unfoldable pub open_private_jwk : String → Option String → Result String
  unfolding decode_kek split
  open_private_jwk stored kek_base64 =
      if is_sealed stored then open_sealed kek_base64 stored else ok stored

abbrev colon : Char
colon = char b':' tt

-- A text up to its first colon.
split_colon :
    (s t : String) → has_char b':' s ≡ false → split b':' (s <> ":" <> t) ≡ s ∷ split b':' t
split_colon s t h = split-first colon s t h

module _ (gcm : Gcm) (kek iv : gcm.Bytes) (plaintext : String) where
  open gcm use {Bytes, size, encode64, encrypt, auth_tag, encode64_no_colon, encode64_empty}

  envelope_parts :
      split b':' (envelope gcm kek iv plaintext)
      ≡ "gcm.v1"
        ∷ encode64 iv
        ∷ encode64 (encrypt kek iv plaintext)
        ∷ encode64 (auth_tag kek iv plaintext)
        ∷ []
  envelope_parts =
      ap (split b':') (text_assoc "gcm.v1" ":" _)
      ∙ split_colon "gcm.v1" _ refl
      ∙ ap (◌∷◌ "gcm.v1") (
          split_colon (encode64 iv) _ (encode64_no_colon iv)
          ∙ ap (◌∷◌ (encode64 iv)) (
              split_colon (encode64 (encrypt kek iv plaintext)) _ (encode64_no_colon _)
              ∙ ap (◌∷◌ (encode64 (encrypt kek iv plaintext)))
                  (split-none b':' (encode64 (auth_tag kek iv plaintext)) (encode64_no_colon _))))

  envelope_sealed : is_sealed (envelope gcm kek iv plaintext) ≡ true
  envelope_sealed = starts_with_of_prefix prefix _ (prefix-append prefix _)

  part_given : (b : Bytes) → size b ≢ 0 → (encode64 b == "") ≡ false
  part_given b h = elim (Bool-cases (encode64 b == "")) [
    | inl e ↦ absurd (h (encode64_empty b ((eq_iff (encode64 b) "").0 e)))
    | inr e ↦ e
  ]

  open_envelope :
      (kek_base64 : String)
      → size iv ≡ 12
      → plaintext ≢ ""
      → decode_kek gcm kek_base64 ≡ ok kek
      → open_parts gcm kek_base64 (split b':' (envelope gcm kek iv plaintext)) ≡ ok plaintext
  open_envelope kek_base64 iv_size given good =
      rw
        (
          envelope_parts,
          part_given iv (λ e. omega (arith, e, iv_size)),
          part_given (encrypt kek iv plaintext) (λ e. given (gcm.size-encrypt kek iv plaintext e)),
          part_given (auth_tag kek iv plaintext)
              (λ e. omega (arith, e, gcm.size-auth_tag kek iv plaintext)),
          good,
          gcm.decode64-encode64 iv,
          gcm.decode64-encode64 (encrypt kek iv plaintext),
          gcm.decode64-encode64 (auth_tag kek iv plaintext),
        )
        (gcm.decrypt-encrypt kek iv plaintext)

-- A private key that is sealed, under a key of 32 bytes and a nonce of 12, is opened again to what it
-- was, unless it is empty.
pub open_private_jwk-seal_private_jwk :
    (gcm : Gcm) (iv : gcm.Bytes) (plaintext kek_base64 stored : String)
    → gcm.size iv ≡ 12
    → plaintext ≢ ""
    → kek_base64 ≢ ""
    → seal_private_jwk gcm iv plaintext kek_base64 ≡ ok stored
    → (is_sealed stored ≡ true) × (open_private_jwk gcm stored (some kek_base64) ≡ ok plaintext)
unfolding seal_private_jwk open_private_jwk
open_private_jwk-seal_private_jwk gcm iv plaintext kek_base64 stored iv_size given kek_given h =
    elim (Result-cases (decode_kek gcm kek_base64)) [
      | inr (x, e) ↦ ground (arith, rw e at h)
      | inl (kek, e) ↦
          let sealed : envelope gcm kek iv plaintext ≡ stored = ok-inj (rw e at h) in
          rw (← sealed) (
            envelope_sealed gcm kek iv plaintext,
            rw (envelope_sealed gcm kek iv plaintext, kek_not_empty)
                (open_envelope gcm kek iv plaintext kek_base64 iv_size given e),
          )
    ]
  where
    kek_not_empty : (kek_base64 == "") ≡ false
    kek_not_empty = ground (arith, eq_iff kek_base64 "")
