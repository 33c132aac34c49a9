-- ===== src/Shared/AggregateStore/Legal.antt =====
-- Streams whose events the commands of an aggregate allow, one after the other.
use flash_bite.Prelude.{◌≡◌, refl, List, [], ◌∷◌, ◌++◌}
use flash_bite.Contracts.{Event}
use flash_bite.Shared.EventDb.{EventRow}
use flash_bite.Shared.AggregateStore.{LoadedAggregate, replay}

-- Each event of the stream is one that `Allowed` permits in the state that the events before it lead
-- to.
abbrev pub IsLegal {ℓ} :
    {S : Type ℓ} → (S → Event → S) → (S → Event → Type 0) → S → List EventRow → Type 0
IsLegal fold Allowed s [] = Unit
IsLegal fold Allowed s (r ∷ rs) = Allowed s r.event × IsLegal fold Allowed (fold s r.event) rs

abbrev pub state_after {ℓ} : {S : Type ℓ} → (S → Event → S) → S → List EventRow → S
state_after fold s [] = s
state_after fold s (r ∷ rs) = state_after fold (fold s r.event) rs

module _ {ℓ} {S : Type ℓ} (fold : S → Event → S) (Allowed : S → Event → Type 0) where
  pub IsLegal-append :
      (s : S) (rs : List EventRow) (row : EventRow)
      → IsLegal fold Allowed s rs
      → Allowed (state_after fold s rs) row.event
      → IsLegal fold Allowed s (rs ++ row ∷ [])
  IsLegal-append s [] row h a = (a, tt)
  IsLegal-append s (r ∷ rs) row h a = (h.0, IsLegal-append (fold s r.event) rs row h.1 a)

  pub state-replay :
      (loaded : LoadedAggregate S) (rs : List EventRow)
      → (replay fold loaded rs).state ≡ state_after fold loaded.state rs
  unfolding replay
  state-replay loaded [] = refl
  state-replay loaded (r ∷ rs) =
      state-replay (record { state = fold loaded.state r.event; version = r.version }) rs
