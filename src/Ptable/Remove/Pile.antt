-- ===== src/Ptable/Remove/Pile.antt =====
-- What a removal leaves in the chain, and the order in which it piles the rows on the free list.
use store.Prelude.{
  ℕ, ◌≡◌, ◌≢◌, refl, ap, List, [], ◌∷◌, Bool, true, false, All, Fresh, Apart, keep, if◌then◌else◌,
  negate, Bool-cases, inl, inr, ◌==◌, ◌&&◌, ◌||◌,
}
use store.Rid.{null}

-- Whether a pair fits a pattern, in which the null is a wildcard.
abbrev pub matches : ℕ → ℕ → ℕ × ℕ → Bool
matches p0 p1 q = (p0 == null || q.0 == p0) && (p1 == null || q.1 == p1)

module _ (sel : ℕ → Bool) where
  -- The free list after the rows that are selected have been freed, the first one first.
  pub pile : List ℕ → List ℕ → List ℕ
  pile [] fs = fs
  pile (i ∷ ids) fs = pile ids (if sel i then i ∷ fs else fs)

  pub left : List ℕ → List ℕ
  left ids = keep (λ i. negate (sel i)) ids

  pub pile-All : (P : ℕ → Type 0) (ids fs : List ℕ) → All P ids → All P fs → All P (pile ids fs)
  unfolding pile
  pile-All P [] fs h k = k
  pile-All P (i ∷ ids) fs h k =
      pile-All P ids (if sel i then i ∷ fs else fs) h.1
        (elim (Bool-cases (sel i)) [ inl e ↦ rw e (h.0, k) | inr e ↦ rw e k ])

  pub left-All : (P : ℕ → Type 0) (ids : List ℕ) → All P ids → All P (left ids)
  unfolding left
  left-All P [] h = tt
  left-All P (i ∷ ids) h = elim (Bool-cases (sel i)) [
    | inl e ↦ rw e (left-All P ids h.1)
    | inr e ↦ rw e (h.0, left-All P ids h.1)
  ]

  pub Apart-pile : (cs ids fs : List ℕ) → Apart cs ids → Apart cs fs → Apart cs (pile ids fs)
  Apart-pile [] ids fs h k = tt
  Apart-pile (c ∷ cs) ids fs h k =
      (pile-All (λ y. y ≢ c) ids fs h.0 k.0, Apart-pile cs ids fs h.1 k.1)

  pub left_cons : (i : ℕ) (ids : List ℕ) → sel i ≡ false → left (i ∷ ids) ≡ i ∷ left ids
  unfolding left
  left_cons i ids e = rw e refl

  pub left_skip : (i : ℕ) (ids : List ℕ) → sel i ≡ true → left (i ∷ ids) ≡ left ids
  unfolding left
  left_skip i ids e = rw e refl

  pub pile_cons :
      (i : ℕ) (ids fs : List ℕ) → pile (i ∷ ids) fs ≡ pile ids (if sel i then i ∷ fs else fs)
  unfolding pile
  pile_cons i ids fs = refl

  pub pile_nil : (fs : List ℕ) → pile [] fs ≡ fs
  unfolding pile
  pile_nil fs = refl

  pub left_nil : left [] ≡ []
  unfolding left
  left_nil = refl

  -- What is left is not selected, and so has not been freed.
  left-unselected : (ids : List ℕ) → All (λ i. sel i ≡ false) (left ids)
  unfolding left
  left-unselected [] = tt
  left-unselected (i ∷ ids) = elim (Bool-cases (sel i)) [
    | inl e ↦ rw e (left-unselected ids)
    | inr e ↦ rw e (e, left-unselected ids)
  ]

  pile-unselected : (x : ℕ) (ids fs : List ℕ) → sel x ≡ false → Fresh x fs → Fresh x (pile ids fs)
  unfolding pile
  pile-unselected x [] fs e f = f
  pile-unselected x (i ∷ ids) fs e f =
      pile-unselected x ids (if sel i then i ∷ fs else fs) e
        (elim (Bool-cases (sel i)) [ inl t ↦ rw t ((λ p. cc (ap sel p)), f) | inr t ↦ rw t f ])

  Apart-unselected :
      (xs ids fs : List ℕ) → All (λ i. sel i ≡ false) xs → Apart xs fs → Apart xs (pile ids fs)
  Apart-unselected [] ids fs u a = tt
  Apart-unselected (x ∷ xs) ids fs u a =
      (pile-unselected x ids fs u.0 a.0, Apart-unselected xs ids fs u.1 a.1)

  pub left-pile-Apart : (ids fs : List ℕ) → Apart ids fs → Apart (left ids) (pile ids fs)
  left-pile-Apart ids fs a =
      Apart-unselected (left ids) ids fs (left-unselected ids) (left-All (λ i. Fresh i fs) ids a)

pub left_all : (ids : List ℕ) → left (λ _. true) ids ≡ []
unfolding left
left_all [] = refl
left_all (i ∷ ids) = left_all ids
