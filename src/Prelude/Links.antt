-- ===== src/Prelude/Links.antt =====
-- Chains of indices through an array whose cells name the next one, 0 at the end.
use Prim.Native.Nat.{ℕ, ◌<◌, ◌≤◌}
use mathlib.Core.Path.{◌≡◌, refl, ap₂, ◌∙◌, sym, ap, subst}
use mathlib.Core.List.{List, [], ◌∷◌}
use native.Mathlib.Omega.{arith}
use store.Prelude.Lists.{All, Fresh-of_elem, Distinct, elem, length}
use store.Prelude.Tests.{◌==◌, ==→eq, Bool-cases}
use mathlib.Core.Bool.{true}
use mathlib.Core.Logic.{inl, inr}

-- From `b` the links lead through `is`, all in `[lo, hi)`, to 0.
abbrev pub Linked : (ℕ → ℕ) → ℕ → ℕ → ℕ → List ℕ → Type 0
Linked next lo hi b [] = b ≡ 0
Linked next lo hi b (i ∷ is) = (b ≡ i) × (lo ≤ i) × (i < hi) × Linked next lo hi (next i) is

-- A chain is kept by changes outside it, and by a larger range.
pub Linked-ext :
    (f g : ℕ → ℕ) (lo hi b : ℕ) (is : List ℕ)
    → All (λ i. g i ≡ f i) is
    → Linked f lo hi b is
    → Linked g lo hi b is
Linked-ext f g lo hi b [] e h = h
Linked-ext f g lo hi b (i ∷ is) e h =
    (h.0, h.1, h.2, Linked-ext f g lo hi (g i) is e.1 (rw e.0 h.3))

pub Linked-mono :
    (f : ℕ → ℕ) (lo hi hi' b : ℕ) (is : List ℕ)
    → hi ≤ hi'
    → Linked f lo hi b is
    → Linked f lo hi' b is
Linked-mono f lo hi hi' b [] m h = h
Linked-mono f lo hi hi' b (i ∷ is) m h =
    (h.0, h.1, omega arith, Linked-mono f lo hi hi' (f i) is m h.3)

-- The links decide the chain.
pub Linked-unique :
    (f : ℕ → ℕ) (lo hi b : ℕ) (is js : List ℕ)
    → 0 < lo
    → Linked f lo hi b is
    → Linked f lo hi b js
    → is ≡ js
Linked-unique f lo hi b [] [] p h k = refl
Linked-unique f lo hi b [] (j ∷ js) p h k = absurd (omega arith)
Linked-unique f lo hi b (i ∷ is) [] p h k = absurd (omega arith)
Linked-unique f lo hi b (i ∷ is) (j ∷ js) p h k =
    let e : i ≡ j = sym h.0 ∙ k.0 in ap₂ ◌∷◌ e (Linked-unique f lo hi (f i) is js p h.3 (rw e k.3))

-- Every index of a chain lies in the range.
pub Linked-lt :
    (f : ℕ → ℕ) (lo hi b : ℕ) (is : List ℕ)
    → Linked f lo hi b is
    → All (λ i. (lo ≤ i) × (i < hi)) is
Linked-lt f lo hi b [] h = tt
Linked-lt f lo hi b (i ∷ is) h = ((h.1, h.2), Linked-lt f lo hi (f i) is h.3)

-- From an index of a chain the links lead through a part of it.
Linked-suffix :
    (f : ℕ → ℕ) (lo hi b i : ℕ) (is : List ℕ)
    → elem i is ≡ true
    → Linked f lo hi b is
    → (js : List ℕ) × Linked f lo hi i (i ∷ js) × (length js < length is)
Linked-suffix f lo hi b i [] e h = cc
Linked-suffix f lo hi b i (k ∷ is) e h = elim (Bool-cases (k == i)) [
  | inl p ↦
      let q : k ≡ i = ==→eq k i p in
      (is, subst (λ x. Linked f lo hi x (x ∷ is)) q (refl, h.1, h.2, h.3), omega arith)
  | inr p ↦
      let (js, l, s) = Linked-suffix f lo hi (f k) i is (rw p at e) h.3 in (js, l, omega arith)
]

-- A chain that ends has no index twice.
pub Linked-Distinct :
    (f : ℕ → ℕ) (lo hi b : ℕ) (is : List ℕ) → 0 < lo → Linked f lo hi b is → Distinct is
Linked-Distinct f lo hi b [] p h = tt
Linked-Distinct f lo hi b (i ∷ is) p h = (
  elim (Bool-cases (elem i is)) [
    | inl e ↦
        let (js, l, s) = Linked-suffix f lo hi (f i) i is e h.3 in
        let same =
          ap length (Linked-unique f lo hi i (i ∷ js) (i ∷ is) p l (refl, h.1, h.2, h.3)) in
        absurd (omega (arith, same))
    | inr e ↦ Fresh-of_elem i is e
  ],
  Linked-Distinct f lo hi (f i) is p h.3,
)
