-- ===== src/Prelude/Texts.antt =====
-- Texts taken apart: `split` by one character, and what it gives of texts that were joined by it.
use Prim.Native.Char.{Char, code}
use Prim.Native.Nat.{ℕ}
use Prim.Native.String.{String}
use mathlib.Core.Path.{◌≡◌, refl, ap, ◌∙◌}
use mathlib.Core.Bool.{Bool, false, ◌||◌}
use mathlib.Core.List.{List, [], ◌∷◌}
use native.Mathlib.Omega.{arith}
use text.Mathlib.TextLemmas.{nil-append, cons-append}
use flash_bite.Prelude.Tests.{if◌then◌else◌, nat_eq, ◌<>◌}

-- `s.includes(c)`
abbrev pub has_char : ℕ → String → Bool
has_char c String.[] = false
has_char c (String.◌∷◌ x s) = nat_eq (code x) c || has_char c s

abbrev pub onto_first : Char → List String → List String
onto_first x [] = []
onto_first x (s ∷ ss) = String.◌∷◌ x s ∷ ss

-- `s.split(c)`: the pieces between the separators, one at least
unfoldable pub split : ℕ → String → List String
split c String.[] = "" ∷ []
split c (String.◌∷◌ x s) =
    let rest = split c s in if nat_eq (code x) c then "" ∷ rest else onto_first x rest

pub split-none : (c : ℕ) (s : String) → has_char c s ≡ false → split c s ≡ s ∷ []
unfolding split
split-none c String.[] h = refl
split-none c (String.◌∷◌ x s) h = ground (arith, split-none c s)

-- A piece without the separator comes off whole.
pub split-append :
    (x : Char) (s t : String)
    → has_char (code x) s ≡ false
    → split (code x) (s <> String.◌∷◌ x t) ≡ s ∷ split (code x) t
unfolding split
split-append x String.[] t h = rw (nil-append (String.◌∷◌ x t)) (ground arith)
split-append x (String.◌∷◌ y s) t h =
    rw (cons-append y s (String.◌∷◌ x t)) (ground (arith, split-append x s t))

-- A text of one character, and what follows it.
pub cons_of_append : (x : Char) (s : String) → String.◌∷◌ x "" <> s ≡ String.◌∷◌ x s
cons_of_append x s = cons-append x "" s ∙ ap (String.◌∷◌ x) (nil-append s)

pub has_char-append : (c : ℕ) (s t : String) → has_char c (s <> t) ≡ (has_char c s || has_char c t)
has_char-append c String.[] t = rw (nil-append t) refl
has_char-append c (String.◌∷◌ x s) t =
    rw (cons-append x s t) (ground (arith, has_char-append c s t))

-- A text up to the first separator, which is one character.
pub split-first :
    (x : Char) (s t : String)
    → has_char (code x) s ≡ false
    → split (code x) (s <> String.◌∷◌ x "" <> t) ≡ s ∷ split (code x) t
split-first x s t h = rw (cons_of_append x t) (split-append x s t h)
