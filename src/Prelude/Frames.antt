-- ===== src/Prelude/Frames.antt =====
-- What a call leaves alone in an array of linked cells.
use Prim.Native.Nat.{ℕ, ◌<◌, ◌≤◌}
use mathlib.Core.Path.{◌≡◌, ap, ◌∙◌}
use mathlib.Core.List.{List, [], ◌∷◌}
use native.Mathlib.Omega.{arith}
use store.Prelude.Lists.{All, Fresh, Apart}
use store.Prelude.Links.{Linked, Linked-ext, Linked-mono}

-- The first `n` cells of `f` stand in `g`, which has `n'`, unchanged but for those in `touched`.
pub record Untouched {ℓ} {A : Type ℓ} (touched : List ℕ) (n n' : ℕ) (f g : ℕ → A) : Type ℓ where
  pub longer : n ≤ n'
  pub same : (j : ℕ) → j < n → Fresh j touched → g j ≡ f j

module _ {ℓ} {A : Type ℓ} {f g h : ℕ → A} {n m l : ℕ} where
  pub Untouched-trans :
      (xs : List ℕ) → Untouched xs n m f g → Untouched xs m l g h → Untouched xs n l f h
  Untouched-trans xs a b = record {
    longer = omega (arith, a.longer, b.longer);
    same = λ j k u. b.same j (omega (arith, a.longer)) u ∙ a.same j k u;
  }

module _ {ℓ} {A : Type ℓ} {f g : ℕ → A} {n m : ℕ} where
  -- More cells may be said to be touched.
  pub Untouched-sub :
      (xs ys : List ℕ)
      → ((j : ℕ) → Fresh j ys → Fresh j xs)
      → Untouched xs n m f g
      → Untouched ys n m f g
  Untouched-sub xs ys s a = record { longer = a.longer; same = λ j k u. a.same j k (s j u) }

  -- A chain apart from the cells touched is still there.
  pub Linked-Untouched :
      (cont : A → ℕ) (lo b : ℕ) (xs ids : List ℕ)
      → Untouched xs n m f g
      → Apart ids xs
      → Linked (λ i. cont (f i)) lo n b ids
      → Linked (λ i. cont (g i)) lo m b ids
  Linked-Untouched cont lo b xs ids a p c =
      Linked-mono (λ i. cont (g i)) lo n m b ids a.longer
        (Linked-ext (λ i. cont (f i)) (λ i. cont (g i)) lo n b ids (same_conts b ids p c) c)
    where
      same_conts :
          (b : ℕ) (ids : List ℕ)
          → Apart ids xs
          → Linked (λ i. cont (f i)) lo n b ids
          → All (λ i. cont (g i) ≡ cont (f i)) ids
      same_conts b [] p c = tt
      same_conts b (i ∷ ids) p c = (ap cont (a.same i c.2 p.0), same_conts (cont (f i)) ids p.1 c.3)
