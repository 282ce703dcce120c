-- ===== src/Prelude/Maps.antt =====
-- Maps from numbers, as association lists: a hash map, or an ordered map whose keys only grow.
use Prim.Native.Nat.{ℕ}
use mathlib.Core.Path.{◌≡◌, refl}
use mathlib.Core.Bool.{Bool, true, false}
use mathlib.Core.List.{List, [], ◌∷◌}
use mathlib.Core.Option.{Option, none, some}
use native.Mathlib.Omega.{arith}
use ihs_wl_server.Prelude.Tests.{◌==◌, if◌then◌else◌, ==_iff}

abbrev pub is_some {ℓ} : {A : Type ℓ} → Option A → Bool
is_some none = false
is_some (some a) = true

abbrev pub option_map {ℓ} : {A : Type ℓ} → (A → A) → Option A → Option A
option_map f none = none
option_map f (some a) = some (f a)

module _ {ℓ} {A : Type ℓ} where
  -- `get`.
  abbrev pub lookup : ℕ → List (ℕ × A) → Option A
  lookup k [] = none
  lookup k ((j, a) ∷ m) = if j == k then some a else lookup k m

  -- `insert`: in place of the old value, or as the last.
  abbrev pub insert : ℕ → A → List (ℕ × A) → List (ℕ × A)
  insert k a [] = (k, a) ∷ []
  insert k a ((j, b) ∷ m) = if j == k then (j, a) ∷ m else (j, b) ∷ insert k a m

  -- A write through `get_mut`.
  abbrev pub modify : ℕ → (A → A) → List (ℕ × A) → List (ℕ × A)
  modify k f [] = []
  modify k f ((j, b) ∷ m) = if j == k then (j, f b) ∷ m else (j, b) ∷ modify k f m

  -- `remove`.
  abbrev pub erase : ℕ → List (ℕ × A) → List (ℕ × A)
  erase k [] = []
  erase k ((j, b) ∷ m) = if j == k then erase k m else (j, b) ∷ erase k m

module _ {ℓ} {A : Type ℓ} where
  pub lookup-insert :
      (j k : ℕ) (a : A) (m : List (ℕ × A))
      → lookup j (insert k a m) ≡ (if k == j then some a else lookup j m)
  lookup-insert j k a [] = refl
  lookup-insert j k a ((i, b) ∷ m) = ground (arith, lookup-insert j k a m, ==_iff i k, ==_iff i j)

  pub lookup-modify :
      (j k : ℕ) (f : A → A) (m : List (ℕ × A))
      → lookup j (modify k f m) ≡ (if k == j then option_map f (lookup j m) else lookup j m)
  lookup-modify j k f [] = ground arith
  lookup-modify j k f ((i, b) ∷ m) = ground (arith, lookup-modify j k f m, ==_iff i k, ==_iff i j)

  pub lookup-erase :
      (j k : ℕ) (m : List (ℕ × A)) → lookup j (erase k m) ≡ (if k == j then none else lookup j m)
  lookup-erase j k [] = ground arith
  lookup-erase j k ((i, b) ∷ m) = ground (arith, lookup-erase j k m, ==_iff i k, ==_iff i j)
