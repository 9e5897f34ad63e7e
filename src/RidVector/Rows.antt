-- ===== src/RidVector/Rows.antt =====
-- `new`, `copy`, `clear`, `truncate`, `grow` and `contains`.
use store.Prelude.{
  ℕ, zero, suc, ◌+◌, ◌^◌, ◌≤◌, ◌<◌, ◌≡◌, refl, sym, ap, ◌∙◌, true, false, List, some, arith, slice,
  slice-ext, copied, take, take-slice, take-ge, length, length-slice, elem, ltb, leb, if◌then◌else◌,
  lt→ltb, Bool-cases, inl, inr,
}
use store.RidVector.{RidVector, new, copy, truncate, grow, contains_from, contains}
use store.RidVector.Append.{items, Holds, Holds-length}

-- `n` zeros.
abbrev pub zeros : ℕ → List ℕ
zeros n = slice (λ _. 0) 0 n

pub new-Holds : (n : ℕ) → n < 2 ^ 31 → Holds (new n) (zeros n)
unfolding new
new-Holds n h = record { sized = refl; fits = ground arith; small = ground arith; held = refl }

copied_at : (f : ℕ → ℕ) (n j : ℕ) → j < n → copied (λ _. 0) 0 f n (0 + j) ≡ f (0 + j)
copied_at f n j l =
    let low : ltb (0 + j) 0 ≡ false = ground arith in
    let high : ltb (0 + j) (0 + n) ≡ true = ground arith in rw (low, high) (ap f (omega arith))

pub copy-Holds :
    (v : RidVector) (xs : List ℕ)
    → Holds v xs
    → (v' : RidVector) × (copy v ≡ some v') × Holds v' xs × (v.size ≤ v'.size)
unfolding copy new
copy-Holds v xs h =
    let size = if ltb v.size 32 then 32 else v.size in
    let enough : v.size ≤ size = ground arith in
    let dest : leb (0 + v.size) size ≡ true = ground arith in
    let source : leb v.size v.cells.size ≡ true = ground (arith, h.sized) in
    (
      _,
      simp (dest, source),
      record {
        sized = refl;
        fits = omega (arith, enough, h.fits);
        small = ground (arith, h.small);
        held =
            slice-ext v.cells.cell (copied (λ _. 0) 0 v.cells.cell v.size) 0 0 v.length
              (λ j l. copied_at v.cells.cell v.size j (omega (arith, l, h.fits)))
            ∙ h.held;
      },
      enough,
    )

pub truncate-Holds :
    (v : RidVector) (n : ℕ) (xs : List ℕ) → Holds v xs → Holds (truncate v n) (take n xs)
unfolding truncate
truncate-Holds v n xs h = elim (Bool-cases (ltb v.length n)) [
  | inl e ↦ rw (e, take-ge n xs (ground (arith, Holds-length v xs h))) h
  | inr e ↦ rw e (record {
    sized = h.sized;
    fits = ground (arith, h.fits);
    small = h.small;
    held = sym (take-slice v.cells.cell 0 n v.length (ground arith)) ∙ ap (take n) h.held;
  })
]

-- The vector that `grow` leaves has the length asked for, and the items as far as both reach.
pub record Grown (v v' : RidVector) (n : ℕ) (xs : List ℕ) : Type 0 where
  pub sized : v'.cells.size ≡ v'.size
  pub fits : n ≤ v'.size
  pub held : take (length xs) (items v') ≡ take n xs
  pub length : v'.length ≡ n

grown_items : (f : ℕ → ℕ) (m n : ℕ) → take m (slice f 0 n) ≡ take n (slice f 0 m)
grown_items f m n = elim (Bool-cases (leb m n)) [
  | inl e ↦
      take-slice f 0 m n (ground arith)
      ∙ sym (take-ge n (slice f 0 m) (ground (arith, length-slice f 0 m)))
  | inr e ↦
      take-ge m (slice f 0 n) (ground (arith, length-slice f 0 n))
      ∙ sym (take-slice f 0 n m (ground arith))
]

-- grow gives a vector the length asked for, with as many cells at least, and the items stay as far
-- as the old and the new length reach.
pub grow-Grown : (v : RidVector) (n : ℕ) (xs : List ℕ) → Holds v xs → Grown v (grow v n) n xs
unfolding grow
grow-Grown v n xs h =
    let kept : take (length xs) (slice v.cells.cell 0 n) ≡ take n xs =
      ap (λ m. take m (slice v.cells.cell 0 n)) (sym (Holds-length v xs h))
      ∙ grown_items v.cells.cell v.length n
      ∙ ap (take n) h.held in
    elim (Bool-cases (ltb v.size n)) [
      | inl e ↦ rw e (record { length = refl; sized = refl; fits = omega arith; held = kept })
      | inr e ↦ rw e (record { length = refl; sized = h.sized; fits = ground arith; held = kept })
    ]

contains_from-elem :
    (k : ℕ) (v : RidVector) (r row : ℕ)
    → row + k ≤ v.cells.size
    → contains_from k v r row ≡ some (elem r (slice v.cells.cell row k))
unfolding contains_from
contains_from-elem zero v r row inside = refl
contains_from-elem (suc k) v r row inside =
    simp (lt→ltb row v.cells.size (omega arith), contains_from-elem k v r (suc row) (omega arith))
      (ground arith)

-- contains ends without a fault and says whether the identifier is among the items of the vector.
pub contains-elem :
    (v : RidVector) (r : ℕ) (xs : List ℕ) → Holds v xs → contains v r ≡ some (elem r xs)
unfolding contains
contains-elem v r xs h =
    contains_from-elem v.length v r 0 (omega (arith, h.sized, h.fits))
    ∙ ap (λ ys. some (elem r ys)) h.held
