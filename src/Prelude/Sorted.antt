-- ===== src/Prelude/Sorted.antt =====
-- Maps whose keys ascend: an ordered map whose new keys are larger than all before.
use Prim.Native.Nat.{ℕ, suc, ◌<◌, ◌≤◌}
use mathlib.Core.Path.{◌≡◌, refl}
use mathlib.Core.List.{List, [], ◌∷◌}
use mathlib.Core.Option.{none}
use native.Mathlib.Omega.{arith}
use ihs_wl_server.Prelude.Maps.{lookup, insert, modify, erase}

-- The keys ascend, above `low` and up to `high`.
abbrev pub IsSorted {ℓ} : {A : Type ℓ} → ℕ → ℕ → List (ℕ × A) → Type 0
IsSorted low high [] = low ≤ high
IsSorted low high ((k, a) ∷ m) = (low < k) × IsSorted k high m

module _ {ℓ} {A : Type ℓ} where
  pub IsSorted-le : (low high : ℕ) (m : List (ℕ × A)) → IsSorted low high m → low ≤ high
  IsSorted-le low high [] h = h
  IsSorted-le low high ((k, a) ∷ m) h = omega (arith, h.0, IsSorted-le k high m h.1)

  pub IsSorted-lower :
      (low mid high : ℕ) (m : List (ℕ × A)) → low ≤ mid → IsSorted mid high m → IsSorted low high m
  IsSorted-lower low mid high [] le h = omega arith
  IsSorted-lower low mid high ((k, a) ∷ m) le h = (omega (arith, h.0), h.1)

  pub IsSorted-modify :
      (low high k : ℕ) (f : A → A) (m : List (ℕ × A))
      → IsSorted low high m
      → IsSorted low high (modify k f m)
  IsSorted-modify low high k f [] h = h
  IsSorted-modify low high k f ((j, a) ∷ m) h = ground (arith, IsSorted-modify j high k f m h.1)

  pub IsSorted-erase :
      (low high k : ℕ) (m : List (ℕ × A)) → IsSorted low high m → IsSorted low high (erase k m)
  IsSorted-erase low high k [] h = h
  IsSorted-erase low high k ((j, a) ∷ m) h = ground (
    arith,
    IsSorted-lower low j high (erase k m) (omega (arith, h.0)) (IsSorted-erase j high k m h.1),
    IsSorted-erase j high k m h.1,
  )

  pub IsSorted-insert :
      (low high : ℕ) (a : A) (m : List (ℕ × A))
      → IsSorted low high m
      → IsSorted low (suc high) (insert (suc high) a m)
  IsSorted-insert low high a [] h = (omega (arith, h), omega arith)
  IsSorted-insert low high a ((j, b) ∷ m) h =
      ground (arith, IsSorted-insert j high a m h.1, IsSorted-le j high m h.1)

  -- Nothing stands below the range.
  pub lookup-below :
      (low high k : ℕ) (m : List (ℕ × A)) → IsSorted low high m → k ≤ low → lookup k m ≡ none
  lookup-below low high k [] h le = refl
  lookup-below low high k ((j, b) ∷ m) h le = ground (arith, lookup-below j high k m h.1)

  -- Nor above it.
  pub lookup-above :
      (low high k : ℕ) (m : List (ℕ × A)) → IsSorted low high m → high < k → lookup k m ≡ none
  lookup-above low high k [] h lt = refl
  lookup-above low high k ((j, b) ∷ m) h lt =
      ground (arith, lookup-above j high k m h.1, IsSorted-le j high m h.1)
