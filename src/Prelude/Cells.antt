-- ===== src/Prelude/Cells.antt =====
-- A C array, or a mapped file: `size` cells. An access outside them is a fault.
use Prim.Native.Nat.{ℕ, zero, suc, ◌+◌, ◌<◌, ◌≤◌}
use mathlib.Core.Path.{◌≡◌, refl, ap, ap₂}
use mathlib.Core.Option.{Option, none, some}
use mathlib.Core.List.{List, [], ◌∷◌, ◌++◌}
use native.Mathlib.Omega.{arith}
use store.Prelude.Tests.{ltb, ◌==◌, if◌then◌else◌}

pub record Arr {ℓ} (A : Type ℓ) : Type ℓ where
  pub size : ℕ
  pub cell : ℕ → A

module _ {ℓ} {A : Type ℓ} where
  abbrev pub update : (ℕ → A) → ℕ → A → ℕ → A
  update f i v j = if j == i then v else f j

  abbrev pub load : Arr A → ℕ → Option A
  load a i = if ltb i a.size then some (a.cell i) else none

  abbrev pub save : Arr A → ℕ → A → Option (Arr A)
  save a i v = if ltb i a.size then some (record a { cell = update a.cell i v }) else none

  -- The `n` cells from index `i` on.
  abbrev pub slice : (ℕ → A) → ℕ → ℕ → List A
  slice f i zero = []
  slice f i (suc n) = f i ∷ slice f (suc i) n

  pub load_lem : (a : Arr A) (i : ℕ) → i < a.size → load a i ≡ some (a.cell i)
  load_lem a i h = ground arith

  pub save_lem :
      (a : Arr A) (i : ℕ) (v : A)
      → i < a.size
      → save a i v ≡ some (record a { cell = update a.cell i v })
  save_lem a i v h = ground arith

  -- A slice does not see a write below it or above it.
  pub slice-update_below :
      (f : ℕ → A) (i k n : ℕ) (v : A) → i < k → slice (update f i v) k n ≡ slice f k n
  slice-update_below f i k zero v h = refl
  slice-update_below f i k (suc n) v h =
      ap₂ ◌∷◌ (ground arith) (slice-update_below f i (suc k) n v (omega arith))

  pub slice-update_above :
      (f : ℕ → A) (i k n : ℕ) (v : A) → k + n ≤ i → slice (update f i v) k n ≡ slice f k n
  slice-update_above f i k zero v h = refl
  slice-update_above f i k (suc n) v h =
      ap₂ ◌∷◌ (ground arith) (slice-update_above f i (suc k) n v (omega arith))

  pub slice-snoc : (f : ℕ → A) (k n : ℕ) → slice f k (suc n) ≡ slice f k n ++ f (k + n) ∷ []
  slice-snoc f k zero = ap (λ (j : ℕ). f j ∷ []) (omega arith)
  slice-snoc f k (suc n) =
      let e : suc k + n ≡ k + suc n = omega arith in
      ap (λ xs. f k ∷ xs) (rw e at (slice-snoc f (suc k) n))
