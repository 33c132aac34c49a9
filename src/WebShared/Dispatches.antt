-- ===== src/WebShared/Dispatches.antt =====
-- packages/web-shared/src/dispatch: the dispatch views that a browser keeps, which arrive by a snapshot and
-- by a stream, in any order.
use native.Mathlib.Nat.{le_trans}
use flash_bite.Prelude.{
  ℕ, ◌≤◌, String, ◌≡◌, refl, not, List, [], ◌∷◌, Option, none, some, All, ◌==◌, eq_refl, eq_iff,
  arith, leb, if◌then◌else◌, inl, inr, Bool-cases, Option-cases, ◌∙◌, ap, sym,
}
use flash_bite.Contracts.{DispatchView}

unfoldable pub reduce_dispatch : Option DispatchView → DispatchView → DispatchView
reduce_dispatch none next = next
reduce_dispatch (some prev) next =
    if not (prev.order_id == next.order_id)
    then next
    else if leb prev.version next.version
    then next
    else prev

-- `Record<string, DispatchView>`
abbrev pub DispatchMap : Type 0
DispatchMap = String → Option DispatchView

unfoldable pub reduce_dispatch_map : DispatchMap → DispatchView → DispatchMap
unfolding reduce_dispatch
reduce_dispatch_map prev next order_id =
    if order_id == next.order_id
    then some (reduce_dispatch (prev next.order_id) next)
    else prev order_id

-- `list.reduce(reduceDispatchMap, prev)`
unfoldable pub reduce_all : List DispatchView → DispatchMap → DispatchMap
unfolding reduce_dispatch_map
reduce_all [] m = m
reduce_all (v ∷ vs) m = reduce_all vs (reduce_dispatch_map m v)

-- The map has a view of the order, of that version or a newer one.
abbrev pub Has : DispatchMap → String → ℕ → Type 0
Has m o n = (w : DispatchView) × (m o ≡ some w) × (w.order_id ≡ o) × (n ≤ w.version)

abbrev pub Keyed : DispatchMap → Type 0
Keyed m = (o : String) (w : DispatchView) → m o ≡ some w → w.order_id ≡ o

module _ (prev : Option DispatchView) (next : DispatchView) where
  reduced_order :
      ((w : DispatchView) → prev ≡ some w → w.order_id ≡ next.order_id)
      → (reduce_dispatch prev next).order_id ≡ next.order_id
  unfolding reduce_dispatch
  reduced_order h = elim (Option-cases prev) [
    | inl e ↦ rw e refl
    | inr (w, e) ↦ ground (arith, e, h w e)
  ]

  reduced_newer : next.version ≤ (reduce_dispatch prev next).version
  unfolding reduce_dispatch
  reduced_newer = elim (Option-cases prev) [
    | inl e ↦ ground (arith, e)
    | inr (w, e) ↦ ground (arith, e)
  ]

  reduced_kept :
      (w : DispatchView)
      → prev ≡ some w
      → w.order_id ≡ next.order_id
      → w.version ≤ (reduce_dispatch prev next).version
  unfolding reduce_dispatch
  reduced_kept w e h = ground (arith, e, (eq_iff w.order_id next.order_id).1 h)

module _ (m : DispatchMap) (k : Keyed m) (next : DispatchView) where
  Keyed-reduce : Keyed (reduce_dispatch_map m next)
  unfolding reduce_dispatch_map
  Keyed-reduce o w e = elim (Bool-cases (o == next.order_id)) [
    | inl hit ↦
        let here = reduced_order (m next.order_id) next (λ v h. k next.order_id v h) in
        ground (arith, here, e, hit, (eq_iff o next.order_id).0 hit)
    | inr miss ↦ k o w (rw miss at e)
  ]

  Has-next : Has (reduce_dispatch_map m next) next.order_id next.version
  unfolding reduce_dispatch_map
  Has-next = (
    reduce_dispatch (m next.order_id) next,
    rw (eq_refl next.order_id) refl,
    reduced_order (m next.order_id) next (λ v h. k next.order_id v h),
    reduced_newer (m next.order_id) next,
  )

  Has-kept : (o : String) (n : ℕ) → Has m o n → Has (reduce_dispatch_map m next) o n
  unfolding reduce_dispatch_map
  Has-kept o n (w, e, h, le) = elim (Bool-cases (o == next.order_id)) [
    | inr miss ↦ (w, rw miss e, h, le)
    | inl hit ↦
        let at = (eq_iff o next.order_id).0 hit in
        (
          reduce_dispatch (m next.order_id) next,
          rw hit refl,
          reduced_order (m next.order_id) next (λ v g. k next.order_id v g) ∙ sym at,
          le_trans le (reduced_kept (m next.order_id) next w (ap m (sym at) ∙ e) (h ∙ at)),
        )
  ]

Has-reduce_all :
    (vs : List DispatchView) (m : DispatchMap) (o : String) (n : ℕ)
    → Keyed m
    → Has m o n
    → Has (reduce_all vs m) o n
unfolding reduce_all
Has-reduce_all [] m o n k h = h
Has-reduce_all (v ∷ vs) m o n k h =
    Has-reduce_all vs (reduce_dispatch_map m v) o n (Keyed-reduce m k v) (Has-kept m k v o n h)

-- In whatever order views come, from the snapshot or from the stream, a map whose views stand under
-- their orders then has a view of each one's order, and none that came is newer.
pub reduce_all_newest :
    (vs : List DispatchView) (m : DispatchMap)
    → Keyed m
    → All (λ v. Has (reduce_all vs m) v.order_id v.version) vs
unfolding reduce_all
reduce_all_newest [] m k = tt
reduce_all_newest (v ∷ vs) m k = (
  Has-reduce_all vs (reduce_dispatch_map m v) v.order_id v.version (Keyed-reduce m k v)
      (Has-next m k v),
  reduce_all_newest vs (reduce_dispatch_map m v) (Keyed-reduce m k v),
)
