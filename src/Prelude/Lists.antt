-- ===== src/Prelude/Lists.antt =====
-- Lists measured by native numbers, and predicates on lists that compute to tuples.
use Prim.Native.Nat.{ℕ, zero, suc, ◌+◌, ◌≤◌}
use mathlib.Core.Path.{◌≡◌, refl, subst}
use mathlib.Core.Logic.{◌≢◌, ◌⊎◌, inl, inr}
use mathlib.Core.List.{List, [], ◌∷◌, ◌++◌}
use mathlib.Core.Option.{Option, none, some}
use mathlib.Core.Bool.{Bool, true, false}
use native.Mathlib.Omega.{arith}
use store.Prelude.Tests.{if◌then◌else◌, ◌==◌}

module _ {ℓ} {A : Type ℓ} where
  abbrev pub length : List A → ℕ
  length [] = 0
  length (x ∷ xs) = suc (length xs)

  abbrev pub get_elem? : List A → ℕ → Option A
  get_elem? [] i = none
  get_elem? (x ∷ xs) zero = some x
  get_elem? (x ∷ xs) (suc i) = get_elem? xs i

  abbrev pub take : ℕ → List A → List A
  take zero xs = []
  take (suc n) [] = []
  take (suc n) (x ∷ xs) = x ∷ take n xs

  abbrev pub drop : ℕ → List A → List A
  drop zero xs = xs
  drop (suc n) [] = []
  drop (suc n) (x ∷ xs) = drop n xs

  -- The items that a Boolean test keeps.
  abbrev pub keep : (A → Bool) → List A → List A
  keep p [] = []
  keep p (x ∷ xs) = if p x then x ∷ keep p xs else keep p xs

  abbrev pub count : (A → Bool) → List A → ℕ
  count p [] = 0
  count p (x ∷ xs) = (if p x then 1 else 0) + count p xs

  pub length-append : (xs ys : List A) → length (xs ++ ys) ≡ length xs + length ys
  length-append [] ys = omega arith
  length-append (x ∷ xs) ys = omega (arith, length-append xs ys)

module _ {ℓ κ} {A : Type ℓ} where
  abbrev pub All : (A → Type κ) → List A → Type κ
  All P [] = Unit
  All P (x ∷ xs) = P x × All P xs

  pub All-append : (P : A → Type κ) (xs ys : List A) → All P xs → All P ys → All P (xs ++ ys)
  All-append P [] ys hx hy = hy
  All-append P (x ∷ xs) ys hx hy = (hx.0, All-append P xs ys hx.1 hy)

  pub All-append_inv : (P : A → Type κ) (xs ys : List A) → All P (xs ++ ys) → All P xs × All P ys
  All-append_inv P [] ys h = (tt, h)
  All-append_inv P (x ∷ xs) ys h = let (a, b) = All-append_inv P xs ys h.1 in ((h.0, a), b)

  pub All-imp : (P Q : A → Type κ) → ((x : A) → P x → Q x) → (xs : List A) → All P xs → All Q xs
  All-imp P Q f [] h = tt
  All-imp P Q f (x ∷ xs) h = (f x h.0, All-imp P Q f xs h.1)

-- `x` does not stand in the list; no item stands in both lists; no item stands twice.
abbrev pub Fresh : ℕ → List ℕ → Type 0
Fresh x = All (λ y. y ≢ x)

abbrev pub Apart : List ℕ → List ℕ → Type 0
Apart xs ys = All (λ x. Fresh x ys) xs

abbrev pub Distinct : List ℕ → Type 0
Distinct [] = Unit
Distinct (x ∷ xs) = Fresh x xs × Distinct xs

-- Whether a number stands in a list.
abbrev pub elem : ℕ → List ℕ → Bool
elem x [] = false
elem x (y ∷ ys) = if y == x then true else elem x ys

pub elem-append :
    (x : ℕ) (xs ys : List ℕ) → elem x (xs ++ ys) ≡ (if elem x xs then true else elem x ys)
elem-append x [] ys = refl
elem-append x (z ∷ xs) ys = ground (arith, elem-append x xs ys)

pub Fresh-of_elem : (x : ℕ) (xs : List ℕ) → elem x xs ≡ false → Fresh x xs
Fresh-of_elem x [] h = tt
Fresh-of_elem x (y ∷ ys) h = (ground arith, Fresh-of_elem x ys (ground arith))

pub Fresh-elem : (x : ℕ) (xs : List ℕ) → Fresh x xs → elem x xs ≡ false
Fresh-elem x [] h = refl
Fresh-elem x (y ∷ ys) h = ground (arith, Fresh-elem x ys h.1)

-- A fresh end keeps a list without repeats.
pub Distinct-snoc : (x : ℕ) (xs : List ℕ) → Fresh x xs → Distinct xs → Distinct (xs ++ x ∷ [])
Distinct-snoc x [] f d = (tt, tt)
Distinct-snoc x (y ∷ ys) f d = (
  All-append (λ z. z ≢ y) ys (x ∷ []) d.0 ((λ e. f.0 (ground arith)), tt),
  Distinct-snoc x ys f.1 d.1,
)

pub Distinct-append :
    (xs ys : List ℕ) → Distinct xs → Distinct ys → Apart xs ys → Distinct (xs ++ ys)
Distinct-append [] ys d e a = e
Distinct-append (x ∷ xs) ys d e a =
    (All-append (λ z. z ≢ x) xs ys d.0 a.0, Distinct-append xs ys d.1 e a.1)

pub Apart-nil : (xs : List ℕ) → Apart xs []
Apart-nil [] = tt
Apart-nil (x ∷ xs) = (tt, Apart-nil xs)

-- `Apart` from a longer list, by parts.
pub Apart-cons : (y : ℕ) (xs ys : List ℕ) → Fresh y xs → Apart xs ys → Apart xs (y ∷ ys)
Apart-cons y [] ys f h = tt
Apart-cons y (x ∷ xs) ys f h = (((λ e. f.0 (ground arith)), h.0), Apart-cons y xs ys f.1 h.1)

pub Apart-cons_inv : (y : ℕ) (xs ys : List ℕ) → Apart xs (y ∷ ys) → Fresh y xs × Apart xs ys
Apart-cons_inv y [] ys h = (tt, tt)
Apart-cons_inv y (x ∷ xs) ys h =
    let (f, a) = Apart-cons_inv y xs ys h.1 in (((λ e. h.0.0 (ground arith)), f), (h.0.1, a))

module _ {ℓ} {A : Type ℓ} where
  pub drop-ge : (n : ℕ) (xs : List A) → length xs ≤ n → drop n xs ≡ []
  drop-ge zero [] h = refl
  drop-ge (suc n) [] h = refl
  drop-ge zero (x ∷ xs) h = absurd (omega arith)
  drop-ge (suc n) (x ∷ xs) h = drop-ge n xs (omega arith)

  -- An index is past the end, or at an item that stands first in what is left.
  pub drop_cases :
      (n : ℕ) (xs : List A)
      → ((get_elem? xs n ≡ none) × (drop n xs ≡ []))
        ⊎ ((x : A) × (get_elem? xs n ≡ some x) × (drop n xs ≡ x ∷ drop (suc n) xs))
  drop_cases zero [] = inl (refl, refl)
  drop_cases (suc n) [] = inl (refl, refl)
  drop_cases zero (x ∷ xs) = inr (x, refl, refl)
  drop_cases (suc n) (x ∷ xs) = drop_cases n xs

module _ {ℓ κ} {A : Type ℓ} where
  pub All-get_elem? :
      (P : A → Type κ) (xs : List A) (n : ℕ) (x : A) → All P xs → get_elem? xs n ≡ some x → P x
  All-get_elem? P [] n x a e = cc
  All-get_elem? P (y ∷ ys) zero x a e = subst P (cc) a.0
  All-get_elem? P (y ∷ ys) (suc n) x a e = All-get_elem? P ys n x a.1 e

pub Apart-one : (y : ℕ) (xs : List ℕ) → Fresh y xs → Apart xs (y ∷ [])
Apart-one y xs f = Apart-cons y xs [] f (Apart-nil xs)

pub Apart-append : (xs ys zs : List ℕ) → Apart xs ys → Apart xs zs → Apart xs (ys ++ zs)
Apart-append [] ys zs h k = tt
Apart-append (x ∷ xs) ys zs h k =
    (All-append (λ y. y ≢ x) ys zs h.0 k.0, Apart-append xs ys zs h.1 k.1)
