-- ===== src/WebShared/Cart.antt =====
-- packages/web-shared/src/store/cart-store.ts: the cart. A quantity that is set is a natural number, and 0
-- stands for `qty <= 0`.
use flash_bite.Prelude.{
  ℕ, ◌+◌, ◌*◌, ◌≤◌, String, ◌≡◌, refl, Bool, true, false, false≢true, not, ◌||◌, List, [], ◌∷◌,
  ◌++◌, map, filter, any, ◌==◌, eq_iff, arith, leb, if◌then◌else◌, inl, inr, Bool-cases, sym,
}

pub record CartLine : Type 0 where
  pub sku : String
  pub name : String
  pub price_cents : ℕ
  pub qty : ℕ

-- `AddInput`
pub record CartItem : Type 0 where
  pub sku : String
  pub name : String
  pub price_cents : ℕ

abbrev pub in_cart : String → List CartLine → Bool
in_cart sku = any (λ l. l.sku == sku)

abbrev new_line : CartItem → CartLine
new_line item = record { sku = item.sku; name = item.name; price_cents = item.price_cents; qty = 1 }

unfoldable pub add : CartItem → List CartLine → List CartLine
add item items =
    if in_cart item.sku items
    then map (λ l. if l.sku == item.sku then record l { qty = l.qty + 1 } else l) items
    else items ++ new_line item ∷ []

abbrev pub without : String → List CartLine → List CartLine
without sku = filter (λ l. not (l.sku == sku))

unfoldable pub set_qty : String → ℕ → List CartLine → List CartLine
set_qty sku qty items =
    if leb qty 0
    then without sku items
    else map (λ l. if l.sku == sku then record l { qty = qty } else l) items

unfoldable pub remove : String → List CartLine → List CartLine
remove sku items = without sku items

unfoldable pub count : List CartLine → ℕ
count [] = 0
count (l ∷ items) = l.qty + count items

unfoldable pub total_cents : List CartLine → ℕ
total_cents [] = 0
total_cents (l ∷ items) = l.price_cents * l.qty + total_cents items

-- One line for each sku, and no line that is empty
abbrev pub IsCart : List CartLine → Type 0
IsCart [] = Unit {0}
IsCart (l ∷ items) = (1 ≤ l.qty) × (in_cart l.sku items ≡ false) × IsCart items

pub data Action : Type 0 where
  adds : CartItem → Action
  sets : String → ℕ → Action
  removes : String → Action
  clears : Action

abbrev pub act : Action → List CartLine → List CartLine
act (adds item) items = add item items
act (sets sku qty) items = set_qty sku qty items
act (removes sku) items = remove sku items
act clears items = []

module _ (sku : String) (change : CartLine → CartLine)
    (same : (l : CartLine) → (change l).sku ≡ l.sku) where
  abbrev changed : CartLine → CartLine
  changed l = if l.sku == sku then change l else l

  changed_sku : (l : CartLine) → (changed l).sku ≡ l.sku
  changed_sku l = elim (Bool-cases (l.sku == sku)) [ inl e ↦ rw e (same l) | inr e ↦ rw e refl ]

  in_cart-changed :
      (k : String) (items : List CartLine) → in_cart k (map changed items) ≡ in_cart k items
  in_cart-changed k [] = refl
  in_cart-changed k (l ∷ items) = rw (changed_sku l, in_cart-changed k items) refl

  changed-IsCart :
      ((l : CartLine) → 1 ≤ l.qty → 1 ≤ (change l).qty)
      → (items : List CartLine) → IsCart items
      → IsCart (map changed items)
  changed-IsCart some_left [] h = tt
  changed-IsCart some_left (l ∷ items) h = (
    elim (Bool-cases (l.sku == sku)) [ inl e ↦ rw e (some_left l h.0) | inr e ↦ rw e h.0 ],
    rw (changed_sku l, in_cart-changed l.sku items) h.1,
    changed-IsCart some_left items h.2,
  )

in_cart-without :
    (k sku : String) (items : List CartLine)
    → in_cart k items ≡ false
    → in_cart k (without sku items) ≡ false
in_cart-without k sku [] h = refl
in_cart-without k sku (l ∷ items) h = ground (arith, h, in_cart-without k sku items)

without-IsCart : (sku : String) (items : List CartLine) → IsCart items → IsCart (without sku items)
without-IsCart sku [] h = tt
without-IsCart sku (l ∷ items) h = elim (Bool-cases (l.sku == sku)) [
  | inl e ↦ rw e (without-IsCart sku items h.2)
  | inr e ↦ rw e (h.0, in_cart-without l.sku sku items h.1, without-IsCart sku items h.2)
]

in_cart_append :
    (k : String) (new : CartLine) (items : List CartLine)
    → in_cart k (items ++ new ∷ []) ≡ (in_cart k items || new.sku == k)
in_cart_append k new [] = ground arith
in_cart_append k new (l ∷ items) = ground (arith, in_cart_append k new items)

not_same :
    (new l : CartLine) (items : List CartLine)
    → in_cart new.sku (l ∷ items) ≡ false
    → (new.sku == l.sku) ≡ false
not_same new l items h = elim (Bool-cases (new.sku == l.sku)) [
  | inr e ↦ e
  | inl e ↦ ground (arith, h, (eq_iff l.sku new.sku).1 (sym ((eq_iff new.sku l.sku).0 e)))
]

appended_IsCart :
    (new : CartLine) (items : List CartLine)
    → 1 ≤ new.qty
    → in_cart new.sku items ≡ false
    → IsCart items
    → IsCart (items ++ new ∷ [])
appended_IsCart new [] q h c = (q, refl, tt)
appended_IsCart new (l ∷ items) q h c =
    let other : (new.sku == l.sku) ≡ false = not_same new l items h in
    (
      c.0,
      rw (in_cart_append l.sku new items) (ground (arith, c.1, other)),
      appended_IsCart new items q (ground (arith, h)) c.2,
    )

add-IsCart : (item : CartItem) (items : List CartLine) → IsCart items → IsCart (add item items)
unfolding add
add-IsCart item items c = elim (Bool-cases (in_cart item.sku items)) [
  | inl e ↦ rw e (
      changed-IsCart item.sku (λ l. record l { qty = l.qty + 1 }) (λ l. refl)
        (λ l h. omega (arith, h)) items c)
  | inr e ↦ rw e (appended_IsCart (new_line item) items (omega arith) e c)
]

set_qty-IsCart :
    (sku : String) (qty : ℕ) (items : List CartLine) → IsCart items → IsCart (set_qty sku qty items)
unfolding set_qty
set_qty-IsCart sku qty items c = elim (Bool-cases (leb qty 0)) [
  | inl e ↦ rw e (without-IsCart sku items c)
  | inr e ↦ rw e (
      changed-IsCart sku (λ l. record l { qty = qty }) (λ l. refl) (λ l h. ground (arith, e)) items
        c)
]

act-IsCart : (a : Action) (items : List CartLine) → IsCart items → IsCart (act a items)
unfolding remove
act-IsCart (adds item) items c = add-IsCart item items c
act-IsCart (sets sku qty) items c = set_qty-IsCart sku qty items c
act-IsCart (removes sku) items c = without-IsCart sku items c
act-IsCart clears items c = tt

abbrev pub act_all : List Action → List CartLine → List CartLine
act_all [] items = items
act_all (a ∷ acts) items = act_all acts (act a items)

kept_IsCart :
    (acts : List Action) (items : List CartLine) → IsCart items → IsCart (act_all acts items)
kept_IsCart [] items c = c
kept_IsCart (a ∷ acts) items c = kept_IsCart acts (act a items) (act-IsCart a items c)

-- Whatever is done to an empty cart, it has one line for each sku at most, and no line without a
-- piece.
pub act_all-IsCart : (acts : List Action) → IsCart (act_all acts [])
act_all-IsCart acts = kept_IsCart acts [] tt

abbrev one_more : String → CartLine → CartLine
one_more sku l = if l.sku == sku then record l { qty = l.qty + 1 } else l

count_elsewhere :
    (sku : String) (items : List CartLine)
    → in_cart sku items ≡ false
    → count (map (one_more sku) items) ≡ count items
unfolding count
count_elsewhere sku [] h = refl
count_elsewhere sku (l ∷ items) h = ground (arith, h, count_elsewhere sku items)

count-one_more :
    (sku : String) (items : List CartLine)
    → IsCart items
    → in_cart sku items ≡ true
    → count (map (one_more sku) items) ≡ count items + 1
unfolding count
count-one_more sku [] c h = absurd (false≢true h)
count-one_more sku (l ∷ items) c h = elim (Bool-cases (l.sku == sku)) [
  | inl e ↦ ground (arith, e, count_elsewhere sku items (rw ((eq_iff l.sku sku).0 e) at c.1))
  | inr e ↦ ground (arith, e, h, count-one_more sku items c.2)
]

count_append :
    (items : List CartLine) (l : CartLine) → count (items ++ l ∷ []) ≡ count items + l.qty
unfolding count
count_append [] l = omega arith
count_append (k ∷ items) l = omega (arith, count_append items l)

-- Adding an item to a cart, with one line for each sku, adds one piece to its count, whether the cart
-- has a line of that sku or not.
pub count-add :
    (item : CartItem) (items : List CartLine)
    → IsCart items
    → count (add item items) ≡ count items + 1
unfolding add
count-add item items c = elim (Bool-cases (in_cart item.sku items)) [
  | inl e ↦ rw e (count-one_more item.sku items c e)
  | inr e ↦ rw e (count_append items (new_line item))
]
