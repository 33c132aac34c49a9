-- ===== src/Shared/AggregateStore/Streams.antt =====
-- Streams of events whose versions run 1, 2, 3, …; see aggregate-store.ts.
use flash_bite.Prelude.{ℕ, ◌+◌, ◌≡◌, refl, ◌&&◌, List, [], ◌∷◌, ◌++◌, length, arith, ltb, leb}
use flash_bite.Contracts.{Event}
use flash_bite.Shared.EventDb.{EventRow, insert_by_version, version_taken}
use flash_bite.Shared.AggregateStore.{LoadedAggregate, replay}

-- The versions are k + 1, k + 2, and so on.
abbrev pub IsContiguous : ℕ → List EventRow → Type 0
IsContiguous k [] = Unit {0}
IsContiguous k (r ∷ rs) = (r.version ≡ k + 1) × IsContiguous (k + 1) rs

pub version_taken-IsContiguous :
    (v k : ℕ) (rs : List EventRow)
    → IsContiguous k rs
    → version_taken v rs ≡ (ltb k v && leb v (k + length rs))
version_taken-IsContiguous v k [] h = ground arith
version_taken-IsContiguous v k (r ∷ rs) h =
    ground (arith, version_taken-IsContiguous v (k + 1) rs h.1)

pub insert_by_version-IsContiguous :
    (row : EventRow) (k : ℕ) (rs : List EventRow)
    → IsContiguous k rs
    → row.version ≡ k + length rs + 1
    → insert_by_version row rs ≡ rs ++ row ∷ []
insert_by_version-IsContiguous row k [] h e = refl
insert_by_version-IsContiguous row k (r ∷ rs) h e =
    ground (arith, insert_by_version-IsContiguous row (k + 1) rs h.1 (omega arith))

pub IsContiguous-append :
    (row : EventRow) (k : ℕ) (rs : List EventRow)
    → IsContiguous k rs
    → row.version ≡ k + length rs + 1
    → IsContiguous k (rs ++ row ∷ [])
IsContiguous-append row k [] h e = (omega arith, tt)
IsContiguous-append row k (r ∷ rs) h e = (h.0, IsContiguous-append row (k + 1) rs h.1 (omega arith))

module _ {ℓ} {S : Type ℓ} (fold : S → Event → S) where
  pub version-replay :
      (loaded : LoadedAggregate S) (rs : List EventRow)
      → IsContiguous loaded.version rs
      → (replay fold loaded rs).version ≡ loaded.version + length rs
  unfolding replay
  version-replay loaded [] h = omega arith
  version-replay loaded (r ∷ rs) h =
      let next : LoadedAggregate S = record {
        state = fold loaded.state r.event;
        version = r.version;
      } in
      let here : IsContiguous r.version rs = rw h.0 h.1 in
      omega (arith, version-replay next rs here)

  pub replay-append :
      (loaded : LoadedAggregate S) (rs : List EventRow) (row : EventRow)
      → replay fold loaded (rs ++ row ∷ [])
        ≡ record { state = fold (replay fold loaded rs).state row.event; version = row.version }
  unfolding replay
  replay-append loaded [] row = refl
  replay-append loaded (r ∷ rs) row =
      replay-append (record { state = fold loaded.state r.event; version = r.version }) rs row
