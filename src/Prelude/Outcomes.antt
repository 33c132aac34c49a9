-- ===== src/Prelude/Outcomes.antt =====
-- What a call of the program returns or throws.
use Prim.Native.Nat.{ℕ}
use Prim.Native.String.{String}
use mathlib.Core.Path.{◌≡◌, refl}
use mathlib.Core.Logic.{◌⊎◌, inl, inr}

-- The classes of errors that the code throws, with their messages: its own, the HTTP exceptions of
-- its controllers and guards, and `error` for a plain `Error` and for what a library throws. A
-- `ConcurrencyError` has the aggregate and the version that its message names.
pub data Exn : Type 0 where
  concurrency : String → ℕ → Exn
  invalid_transition illegal_transition auth_context : String → Exn
  bad_request not_found conflict unauthorized forbidden service_unavailable error : String → Exn

pub data Result {ℓ} (A : Type ℓ) : Type ℓ where
  ok : A → Result A
  throw : Exn → Result A

infixl 5 ◌>>=◌ ◌>>◌
abbrev pub ◌>>=◌ {ℓ κ} : {A : Type ℓ} {B : Type κ} → Result A → (A → Result B) → Result B
ok a >>= f = f a
throw e >>= f = throw e

abbrev pub ◌>>◌ {ℓ} : {B : Type ℓ} → Result (Unit {0}) → Result B → Result B
m >> k = m >>= λ _. k

pub Result-cases {ℓ} :
    {A : Type ℓ} (r : Result A) → ((a : A) × (r ≡ ok a)) ⊎ ((x : Exn) × (r ≡ throw x))
Result-cases (ok a) = inl (a, refl)
Result-cases (throw x) = inr (x, refl)

pub ok-inj {ℓ} : {A : Type ℓ} {a b : A} → ◌≡◌ {A = Result A} (ok a) (ok b) → a ≡ b
ok-inj e = cc
