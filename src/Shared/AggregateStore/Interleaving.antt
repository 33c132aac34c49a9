-- ===== src/Shared/AggregateStore/Interleaving.antt =====
-- Commands on one stream whose loads and appends through aggregate-store.ts interleave freely, with
-- any other traffic on the database.
use mathlib.Core.List.{Memᴰ}
use native.Mathlib.Decide.{dec_lt}
use mathlib.Core.Path.{subst₂}
use native.Mathlib.Nat.{le_of_eq}
use flash_bite.Prelude.{
  ℕ, ◌+◌, ◌≤◌, String, ◌≡◌, sym, false, List, [], ◌∷◌, ◌++◌, length, throw, Exn, arith, All, ◌==◌,
  eq_refl, inl, inr, ap, subst, ◌&&◌, length-append,
}
use flash_bite.Contracts.{Event}
use flash_bite.Shared.EventDb.{EventDb, EventRow}
use flash_bite.Shared.AggregateStore.{
  Fresh, AppendArgs, LoadedAggregate, event_row, replay, load_aggregate,
  append_with_expected_version,
}
use flash_bite.Shared.AggregateStore.Streams.{IsContiguous, IsContiguous-append}
use flash_bite.Shared.AggregateStore.Appending.{
  envelope_of, stream, append_stale, version-load_aggregate,
}
use flash_bite.Shared.AggregateStore.Legal.{IsLegal, state_after, IsLegal-append, state-replay}
use flash_bite.Shared.AggregateStore.Races.{append_elsewhere, after_append, append_atomic}

-- A command that has loaded the aggregate and not appended yet: the version that it read, and the
-- event that it decided for.
pub record Pending : Type 0 where
  pub version : ℕ
  pub event : Event

module _ (pg : EventDb) where
  open pg use {Db, rows}

  pub record World : Type 0 where
    pub db : Db
    pub pending : List Pending

  module _ {ℓ} {S : Type ℓ} (fold : S → Event → S) (initial : S) (Allowed : S → Event → Type 0)
      (t a : String) where
    abbrev load_from : Db → LoadedAggregate S
    load_from db = load_aggregate pg db t a fold initial

    -- One writer loads the stream and decides for an event; one that has loaded appends, now or
    -- much later; or an append goes to another stream.
    pub data Step (w w' : World) : Type ℓ where
      load :
          (e : Event)
          → Allowed (load_from w.db).state e
          → w' ≡ record w {
            pending = record { version = (load_from w.db).version; event = e } ∷ w.pending;
          }
          → Step w w'
      commit :
          (env : Fresh) (args : AppendArgs) (p : Pending)
          → Memᴰ p w.pending
          → args.tenant_id ≡ t
          → args.aggregate_id ≡ a
          → args.expected_version ≡ p.version
          → args.event ≡ p.event
          → w' ≡ record w { db = after_append pg env args w.db }
          → Step w w'
      elsewhere :
          (env : Fresh) (args : AppendArgs)
          → (args.tenant_id == t && args.aggregate_id == a) ≡ false
          → w' ≡ record w { db = after_append pg env args w.db }
          → Step w w'

    pub data Reach (w : World) : World → Type ℓ where
      here : Reach w w
      next : {u v : World} → Reach w u → Step u v → Reach w v

    -- A pending event is allowed, unless its writer has been overtaken.
    abbrev Sound : List EventRow → Pending → Type 0
    Sound rs p =
        (p.version ≤ length rs)
        × (p.version ≡ length rs → Allowed (state_after fold initial rs) p.event)

    pub record Inv (rs : List EventRow) (ps : List Pending) : Type 0 where
      pub contiguous : IsContiguous 0 rs
      pub legal : IsLegal fold Allowed initial rs
      pub sound : All (Sound rs) ps

    All-Memᴰ :
        (rs : List EventRow) {p : Pending} (ps : List Pending)
        → All (Sound rs) ps
        → Memᴰ p ps
        → Sound rs p
    All-Memᴰ rs [] h m = elim m [ ]
    All-Memᴰ rs (q ∷ ps) h (Memᴰ.head e) = subst (Sound rs) (sym e) h.0
    All-Memᴰ rs (q ∷ ps) h (Memᴰ.tail m) = All-Memᴰ rs ps h.1 m

    -- one more event overtakes every writer that has loaded
    overtaken :
        (rs : List EventRow) (row : EventRow) (ps : List Pending)
        → All (Sound rs) ps
        → All (Sound (rs ++ row ∷ [])) ps
    overtaken rs row [] h = tt
    overtaken rs row (p ∷ ps) h =
        let longer : length (rs ++ row ∷ []) ≡ length rs + 1 = length-append rs (row ∷ []) in
        let le : p.version ≤ length rs = h.0.0 in
        ((omega arith, λ e. absurd (omega arith)), overtaken rs row ps h.1)

    Inv-append :
        (rs : List EventRow) (row : EventRow) (ps : List Pending)
        → Inv rs ps
        → row.version ≡ length rs + 1
        → Allowed (state_after fold initial rs) row.event
        → Inv (rs ++ row ∷ []) ps
    Inv-append rs row ps i v allowed = record {
      contiguous = IsContiguous-append row 0 rs i.contiguous (omega arith);
      legal = IsLegal-append fold Allowed initial rs row i.legal allowed;
      sound = overtaken rs row ps i.sound;
    }

    loaded_here :
        (db : Db) (e : Event)
        → Allowed (load_from db).state e
        → Allowed (replay fold (record { state = initial; version = 0 }) (rows db t a)).state e
    unfolding load_aggregate
    loaded_here db e h = rw (eq_refl t) at h

    Inv-load :
        (db : Db) (ps : List Pending) (e : Event)
        → Inv (rows db t a) ps
        → Allowed (load_from db).state e
        → Inv (rows db t a) (record { version = (load_from db).version; event = e } ∷ ps)
    unfolding load_aggregate
    Inv-load db ps e i allowed =
        let v = version-load_aggregate pg fold initial t a db i.contiguous in
        record {
          contiguous = i.contiguous;
          legal = i.legal;
          sound = (
            (
              le_of_eq v,
              λ _.
                  rw
                    (← state-replay fold Allowed (record { state = initial; version = 0 })
                      (rows db t a))
                    (loaded_here db e allowed),
            ),
            i.sound,
          );
        }

    commit_here :
        (env : Fresh) (args : AppendArgs) (p : Pending) (db : Db) (ps : List Pending)
        → Inv (rows db args.tenant_id args.aggregate_id) ps
        → Sound (rows db args.tenant_id args.aggregate_id) p
        → args.expected_version ≡ p.version
        → args.event ≡ p.event
        → Inv (rows (after_append pg env args db) args.tenant_id args.aggregate_id) ps
    commit_here env args p db ps i s ev ee =
        elim (dec_lt args.expected_version (length (stream pg db args))) [
          | yes lt ↦ unchanged (append_stale pg env args db i.contiguous lt)
          | no ge ↦ elim (append_atomic pg env args db i.contiguous (omega (arith, s.0))) [
            | inl (x, h) ↦ unchanged h
            | inr done ↦ rw done.appended (
                Inv-append (rows db args.tenant_id args.aggregate_id)
                  (event_row env.inserted_at args (envelope_of env args)) ps i (omega (arith, s.0))
                  (rw ee (s.1 (omega (arith, s.0)))))
          ]
        ]
      where
        unchanged :
            {x : Exn}
            → append_with_expected_version pg env args db ≡ (throw x, db)
            → Inv (rows (after_append pg env args db) args.tenant_id args.aggregate_id) ps
        unchanged h =
            subst (λ d. Inv (rows d args.tenant_id args.aggregate_id) ps) (sym (ap (λ r. r.1) h)) i

    Step-Inv :
        (w w' : World) → Step w w' → Inv (rows w.db t a) w.pending → Inv (rows w'.db t a) w'.pending
    Step-Inv w w' (load e allowed eq) i = rw eq (Inv-load w.db w.pending e i allowed)
    Step-Inv w w' (commit env args p m et ea ev ee eq) i =
        let s = All-Memᴰ (rows w.db t a) w.pending i.sound m in
        rw eq (
          subst₂
            (λ t' a'.
              Inv (rows w.db t' a') w.pending
              → Sound (rows w.db t' a') p
              → Inv (rows (after_append pg env args w.db) t' a') w.pending)
            et ea (λ j k. commit_here env args p w.db w.pending j k ev ee) i s)
    Step-Inv w w' (elsewhere env args ne eq) i =
        rw eq (rw (append_elsewhere pg env args t a w.db ne) i)

    Reach-Inv :
        (w w' : World)
        → Inv (rows w.db t a) w.pending
        → Reach w w'
        → Inv (rows w'.db t a) w'.pending
    Reach-Inv w w' i here = i
    Reach-Inv w w' i (next {u = u} r s) = Step-Inv u w' s (Reach-Inv w u i r)

    -- However loads, appends and other traffic interleave, from a stream that is empty and with no
    -- writer under way: the versions run 1, 2, 3, … and each event is one that its command allows
    -- in the state that the events before it lead to.
    pub interleaving_safe :
        (w w' : World)
        → rows w.db t a ≡ []
        → w.pending ≡ []
        → Reach w w'
        → IsContiguous 0 (rows w'.db t a) × IsLegal fold Allowed initial (rows w'.db t a)
    interleaving_safe w w' empty idle r =
        let start : Inv (rows w.db t a) w.pending =
          rw (empty, idle) (record { contiguous = tt; legal = tt; sound = tt }) in
        let i = Reach-Inv w w' start r in (i.contiguous, i.legal)
