-- ===== src/Prelude/Slices.antt =====
-- Copies between arrays, and the lists that stand in them.
use Prim.Native.Nat.{ℕ, zero, suc, ◌+◌, ◌-◌, ◌<◌, ◌≤◌}
use mathlib.Core.Path.{◌≡◌, refl, ap, ap₂, ◌∙◌}
use mathlib.Core.Bool.{Bool, true, false, ◌&&◌}
use mathlib.Core.Option.{Option, none, some}
use mathlib.Core.List.{List, [], ◌∷◌, ◌++◌}
use native.Mathlib.Omega.{arith}
use store.Prelude.Tests.{ltb, leb, if◌then◌else◌, Bool-cases}
use mathlib.Core.Logic.{inl, inr}
use store.Prelude.Lists.{length, keep, take, get_elem?}
use store.Prelude.Cells.{Arr, slice}

module _ {ℓ} {A : Type ℓ} where
  -- The cells that `realloc` adds hold what they held before, which nothing is known of.
  abbrev pub realloc : Arr A → ℕ → Arr A
  realloc a n = record a { size = n }

  abbrev pub copied : (ℕ → A) → ℕ → (ℕ → A) → ℕ → ℕ → A
  copied f off g n j = if ltb j off then f j else if ltb j (off + n) then g (j - off) else f j

  -- `memcpy(&a[off], b, n)`, a fault where it leaves an array.
  abbrev pub memcpy : Arr A → ℕ → Arr A → ℕ → Option (Arr A)
  memcpy a off b n =
      if leb (off + n) a.size && leb n b.size
      then some (record a { cell = copied a.cell off b.cell n })
      else none

  pub length-slice : (f : ℕ → A) (i n : ℕ) → length (slice f i n) ≡ n
  length-slice f i zero = refl
  length-slice f i (suc n) = omega (arith, length-slice f (suc i) n)

  pub slice-ext :
      (f g : ℕ → A) (i k n : ℕ)
      → ((j : ℕ) → j < n → g (k + j) ≡ f (i + j))
      → slice g k n ≡ slice f i n
  slice-ext f g i k zero h = refl
  slice-ext f g i k (suc n) h =
      ap₂ ◌∷◌ (ap g {y = k + 0} (omega arith) ∙ h 0 (omega arith) ∙ ap f (omega arith)) (
        slice-ext f g (suc i) (suc k) n (λ j l.
          ap g {y = k + suc j} (omega arith) ∙ h (suc j) (omega arith) ∙ ap f (omega arith)))

  pub slice-append : (f : ℕ → A) (i m n : ℕ) → slice f i (m + n) ≡ slice f i m ++ slice f (i + m) n
  slice-append f i zero n =
      ap (slice f i) {y = n} (omega arith) ∙ ap (λ j. slice f j n) {y = i + 0} (omega arith)
  slice-append f i (suc m) n =
      ap (slice f i) {y = suc (m + n)} (omega arith)
      ∙ ap (λ xs. f i ∷ xs)
          (slice-append f (suc i) m n
            ∙ ap (λ j. slice f (suc i) m ++ slice f j n) {y = i + suc m} (omega arith))

  pub slice-copied :
      (f g : ℕ → A) (off n : ℕ)
      → slice (copied f off g n) 0 (off + n) ≡ slice f 0 off ++ slice g 0 n
  slice-copied f g off n =
      slice-append (copied f off g n) 0 off n
      ∙ ap₂ ◌++◌ (slice-ext f (copied f off g n) 0 0 off (λ j l. ground arith))
          (slice-ext g (copied f off g n) 0 (0 + off) n (λ j l. copied_inside j l))
    where
      copied_inside : (j : ℕ) → j < n → copied f off g n (0 + off + j) ≡ g (0 + j)
      copied_inside j l =
          let low : ltb (0 + off + j) off ≡ false = ground arith in
          let high : ltb (0 + off + j) (off + n) ≡ true = ground arith in
          rw (low, high) (ap g (omega arith))

  pub keep-append : (p : A → Bool) (xs ys : List A) → keep p (xs ++ ys) ≡ keep p xs ++ keep p ys
  keep-append p [] ys = refl
  keep-append p (x ∷ xs) ys = elim (Bool-cases (p x)) [
    | inl e ↦ rw e (ap (λ zs. x ∷ zs) (keep-append p xs ys))
    | inr e ↦ rw e (keep-append p xs ys)
  ]

  -- A shorter part of an array is the start of the longer one.
  pub take-slice : (f : ℕ → A) (i m n : ℕ) → m ≤ n → take m (slice f i n) ≡ slice f i m
  take-slice f i zero n h = refl
  take-slice f i (suc m) zero h = absurd (omega arith)
  take-slice f i (suc m) (suc n) h = ap (λ xs. f i ∷ xs) (take-slice f (suc i) m n (omega arith))

  pub take-ge : (n : ℕ) (xs : List A) → length xs ≤ n → take n xs ≡ xs
  take-ge zero [] h = refl
  take-ge (suc n) [] h = refl
  take-ge zero (x ∷ xs) h = absurd (omega arith)
  take-ge (suc n) (x ∷ xs) h = ap (λ ys. x ∷ ys) (take-ge n xs (omega arith))

  -- What stands at an index of a slice, of a list that ends before it, and of two lists.
  pub get_elem?-slice :
      (f : ℕ → A) (i n j : ℕ) → j < n → get_elem? (slice f i n) j ≡ some (f (i + j))
  get_elem?-slice f i zero j h = absurd (omega arith)
  get_elem?-slice f i (suc n) zero h = ap (λ k. some (f k)) {x = i} (omega arith)
  get_elem?-slice f i (suc n) (suc j) h =
      get_elem?-slice f (suc i) n j (omega arith)
      ∙ ap (λ k. some (f k)) {x = suc i + j} (omega arith)

  pub get_elem?-ge : (xs : List A) (j : ℕ) → length xs ≤ j → get_elem? xs j ≡ none
  get_elem?-ge [] j h = refl
  get_elem?-ge (x ∷ xs) zero h = absurd (omega arith)
  get_elem?-ge (x ∷ xs) (suc j) h = get_elem?-ge xs j (omega arith)

  pub get_elem?-append_left :
      (xs ys : List A) (j : ℕ) → j < length xs → get_elem? (xs ++ ys) j ≡ get_elem? xs j
  get_elem?-append_left [] ys j h = absurd (omega arith)
  get_elem?-append_left (x ∷ xs) ys zero h = refl
  get_elem?-append_left (x ∷ xs) ys (suc j) h = get_elem?-append_left xs ys j (omega arith)

  pub get_elem?-append_right :
      (xs ys : List A) (j : ℕ)
      → length xs ≤ j
      → get_elem? (xs ++ ys) j ≡ get_elem? ys (j - length xs)
  get_elem?-append_right [] ys j h = ap (get_elem? ys) {x = j} (omega arith)
  get_elem?-append_right (x ∷ xs) ys zero h = absurd (omega arith)
  get_elem?-append_right (x ∷ xs) ys (suc j) h =
      get_elem?-append_right xs ys j (omega arith)
      ∙ ap (get_elem? ys) {x = j - length xs} (omega arith)
