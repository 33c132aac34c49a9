-- ===== src/Contracts/Keys/Distinct.antt =====
-- Keys of two tenants, or of two orders, are not the same (packages/contracts/src/index.ts).
use Prim.Native.Char.{Char, char}
use text.Mathlib.TextLemmas.{append_assoc as text_assoc, append_cancel_left, append_cancel_right}
use flash_bite.Prelude.{
  String, ◌≡◌, refl, sym, ap, subst, ◌∙◌, false, List, [], ◌∷◌, ◌<>◌, has_char, has_char-append,
  split, split-first,
}
use flash_bite.Contracts.Keys.{join_colon, tenant_key}

-- The cache's key of an order
abbrev pub order_key : String → String → String
order_key tenant_id order_id = tenant_key tenant_id ("order" ∷ order_id ∷ "view" ∷ [])

abbrev after_tenant : String → String
after_tenant order_id = ":" <> "order" <> ":" <> order_id <> ":" <> "view"

abbrev brace : Char
brace = char b'}' tt

order_key_form : (t i : String) → order_key t i ≡ ("tenant:{" <> t) <> "}" <> after_tenant i
unfolding tenant_key join_colon
order_key_form t i =
    text_assoc "tenant:{" (t <> "}") (after_tenant i)
    ∙ ap (λ s. "tenant:{" <> s) (text_assoc t "}" (after_tenant i))
    ∙ sym (text_assoc "tenant:{" t ("}" <> after_tenant i))

opening : (t : String) → has_char b'}' t ≡ false → has_char b'}' ("tenant:{" <> t) ≡ false
opening t h = rw (has_char-append b'}' "tenant:{" t, h) refl

same_head : {x y : String} {xs ys : List String} → ◌≡◌ {A = List String} (x ∷ xs) (y ∷ ys) → x ≡ y
same_head e = cc

tenant_of_key :
    (t a i j : String)
    → has_char b'}' t ≡ false
    → has_char b'}' a ≡ false
    → order_key t i ≡ order_key a j
    → t ≡ a
tenant_of_key t a i j ht ha e = append_cancel_left "tenant:{" t a (
    same_head (
      sym (split-first brace ("tenant:{" <> t) (after_tenant i) (opening t ht))
      ∙ ap (split b'}') (sym (order_key_form t i) ∙ e ∙ order_key_form a j)
      ∙ split-first brace ("tenant:{" <> a) (after_tenant j) (opening a ha)))

order_of_key : (t i j : String) → order_key t i ≡ order_key t j → i ≡ j
order_of_key t i j e = append_cancel_right i j (":" <> "view") (
    append_cancel_left ":" _ _ (
      append_cancel_left "order" _ _ (
        append_cancel_left ":" _ _ (
          append_cancel_left "}" _ _ (
            append_cancel_left ("tenant:{" <> t) _ _
              (sym (order_key_form t i) ∙ e ∙ order_key_form t j))))))

-- Two tenants, or two orders, never share a key, unless a tenant's id has a closing brace.
pub order_key-inj :
    (t a i j : String)
    → has_char b'}' t ≡ false
    → has_char b'}' a ≡ false
    → order_key t i ≡ order_key a j
    → (t ≡ a) × (i ≡ j)
order_key-inj t a i j ht ha e =
    let same = tenant_of_key t a i j ht ha e in
    (same, order_of_key t i j (subst (λ b. order_key t i ≡ order_key b j) (sym same) e))
