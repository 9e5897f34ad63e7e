-- ===== src/RidVector/Uniq.antt =====
-- `uniq`, which squeezes a vector in place.
use store.Prelude.{
  ℕ, zero, suc, ◌+◌, ◌-◌, ◌^◌, ◌≤◌, ◌<◌, ◌≡◌, ◌≢◌, refl, sym, ap, ap₂, ◌∙◌, Bool, true, false, ◌&&◌,
  List, [], ◌∷◌, ◌++◌, append_assoc, append-nil, some, arith, All, All-imp, Fresh, Distinct, elem,
  update, slice, slice-snoc, slice-update_above, slice-update_below, ltb, ◌==◌, if◌then◌else◌,
  negate, lt→ltb, Bool-cases, inl, inr, length, length-slice, subst,
}
use store.Rid.{null}
use store.RidVector.{RidVector, int_rounds, keeps_row, uniq_rows, uniq}
use store.RidVector.Append.{items, Holds}

-- Whether the item `x` stays in front of the items behind it.
abbrev stays : Bool → ℕ → List ℕ → Bool
stays remove_null x [] = negate (remove_null && x == null)
stays remove_null x (y ∷ ys) = negate (remove_null && x == null) && negate (x == y)

-- The list without an item that stands in front of the same one, and without the nulls if wanted.
unfoldable pub squeeze : Bool → List ℕ → List ℕ
squeeze remove_null [] = []
squeeze remove_null (x ∷ xs) =
    let rest = squeeze remove_null xs in if stays remove_null x xs then x ∷ rest else rest

keeps_row-stays :
    (k : ℕ) (v : RidVector) (remove_null : Bool) (length row : ℕ)
    → row + suc k ≡ length
    → length ≤ v.cells.size
    → keeps_row v remove_null length row
      ≡ some (stays remove_null (v.cells.cell row) (slice v.cells.cell (suc row) k))
unfolding keeps_row
keeps_row-stays zero v remove_null length row e l =
    let last : ltb row (length - 1) ≡ false = ground arith in
    simp (lt→ltb row v.cells.size (omega arith), last) (ground arith)
keeps_row-stays (suc k) v remove_null length row e l =
    let inner : ltb row (length - 1) ≡ true = ground arith in
    let next : suc row ≡ row + 1 = omega arith in
    simp
      (
        lt→ltb row v.cells.size (omega arith),
        inner,
        next,
        lt→ltb (row + 1) v.cells.size (omega arith),
      )
      (ground arith)

-- The vector after the rows from `row` on have been moved down to `outrow`.
record Squeezed (k : ℕ) (remove_null : Bool) (length row outrow : ℕ) (v v' : RidVector)
    : Type 0 where
  run : uniq_rows k v remove_null length row outrow ≡ some v'
  held : items v' ≡ slice v.cells.cell 0 outrow ++ squeeze remove_null (slice v.cells.cell row k)
  fits : v'.length ≤ outrow + k
  cells : v'.cells.size ≡ v.cells.size
  size : v'.size ≡ v.size

uniq_rows-Squeezed :
    (k : ℕ) (remove_null : Bool) (length row outrow : ℕ) (v : RidVector)
    → row + k ≡ length
    → length ≤ v.cells.size
    → outrow ≤ row
    → (v' : RidVector) × Squeezed k remove_null length row outrow v v'
unfolding uniq_rows squeeze
uniq_rows-Squeezed zero rn length row outrow v e l o = (
  record v { length = outrow },
  record {
    run = refl;
    held = sym (append-nil (slice v.cells.cell 0 outrow));
    fits = omega arith;
    cells = refl;
    size = refl;
  },
)
uniq_rows-Squeezed (suc k) rn length row outrow v e l o =
    let f = v.cells.cell in
    let x = f row in
    let test = keeps_row-stays k v rn length row e l in
    let here = lt→ltb row v.cells.size (omega arith) in
    elim (Bool-cases (stays rn x (slice f (suc row) k))) [
      | inl p ↦
          let q = record v { cells = record (v.cells) { cell = update f outrow x } } in
          let (v', r) =
            uniq_rows-Squeezed k rn length (suc row) (suc outrow) q (omega arith) l (omega arith) in
          (
            v',
            record {
              run = simp (test, p, here, lt→ltb outrow v.cells.size (omega arith)) r.run;
              held =
                  r.held
                  ∙ ap₂ ◌++◌
                      (slice-snoc (update f outrow x) 0 outrow
                        ∙ ap₂ (λ (ys : List ℕ) (y : ℕ). ys ++ y ∷ [])
                            (slice-update_above f outrow 0 outrow x (omega arith)) (ground arith))
                      (ap (squeeze rn) (slice-update_below f outrow (suc row) k x (omega arith)))
                  ∙ append_assoc (slice f 0 outrow) (x ∷ []) (squeeze rn (slice f (suc row) k))
                  ∙ rw p refl;
              fits = omega (arith, r.fits);
              cells = r.cells;
              size = r.size;
            },
          )
      | inr p ↦
          let (v', r) =
            uniq_rows-Squeezed k rn length (suc row) outrow v (omega arith) l (omega arith) in
          (
            v',
            record {
              run = simp (test, p, here) r.run;
              held = r.held ∙ rw p refl;
              fits = omega (arith, r.fits);
              cells = r.cells;
              size = r.size;
            },
          )
    ]

uniq_rows-none :
    (v : RidVector) (remove_null : Bool)
    → uniq_rows 0 v remove_null 0 0 0 ≡ some (record v { length = 0 })
unfolding uniq_rows
uniq_rows-none v remove_null = refl

-- The items that `uniq` leaves: none where the number of items is negative as an `int`.
abbrev pub uniq_items : Bool → List ℕ → List ℕ
uniq_items remove_null xs = if ltb (length xs) (2 ^ 31) then squeeze remove_null xs else []

-- On any vector, uniq ends without a fault. Of fewer than 2^31 items it leaves those that do not
-- stand in front of an equal one, without the nulls if those are to be removed; of 2^31 items or
-- more, whose number is negative as an int, it leaves none.
pub uniq-Holds :
    (v : RidVector) (remove_null : Bool) (xs : List ℕ)
    → Holds v xs
    → (v' : RidVector) × (uniq v remove_null ≡ some v') × Holds v' (uniq_items remove_null xs)
unfolding uniq int_rounds
uniq-Holds v rn xs h =
    let counted : length xs ≡ v.length =
      ap length (sym h.held) ∙ length-slice v.cells.cell 0 v.length in
    elim (Bool-cases (ltb v.length (2 ^ 31))) [
      | inl e ↦
          let (v', r) =
            uniq_rows-Squeezed v.length rn v.length 0 0 v (omega arith)
              (omega (arith, h.fits, h.sized)) (omega arith) in
          let all : uniq_items rn xs ≡ squeeze rn xs = rw (counted, e) refl in
          (
            v',
            rw e r.run,
            record {
              sized = omega (arith, r.cells, r.size, h.sized);
              fits = omega (arith, r.fits, r.size, h.fits);
              small = omega (arith, r.size, h.small);
              held = r.held ∙ ap (squeeze rn) h.held ∙ sym all;
            },
          )
      | inr e ↦
          let none_left : uniq_items rn xs ≡ [] = rw (counted, e) refl in
          (
            record v { length = 0 },
            rw e (uniq_rows-none v rn),
            record { sized = h.sized; fits = omega arith; small = h.small; held = sym none_left },
          )
    ]

-- A 64-bit number read as a signed one, moved up by 2^63.
abbrev pub signed : ℕ → ℕ
signed x = if ltb x (2 ^ 63) then x + 2 ^ 63 else x - 2 ^ 63

-- 64-bit numbers in the order of `rid_compare`.
abbrev pub Sorted : List ℕ → Type 0
Sorted [] = Unit
Sorted (x ∷ xs) = (x < 2 ^ 64) × All (λ z. signed x ≤ signed z) xs × Sorted xs

squeeze-All :
    (P : ℕ → Type 0) (remove_null : Bool) (xs : List ℕ) → All P xs → All P (squeeze remove_null xs)
unfolding squeeze
squeeze-All P rn [] a = tt
squeeze-All P rn (x ∷ xs) a = elim (Bool-cases (stays rn x xs)) [
  | inl p ↦ rw p (a.0, squeeze-All P rn xs a.1)
  | inr p ↦ rw p (squeeze-All P rn xs a.1)
]

stays_known :
    (remove_null : Bool) (x : ℕ) (xs : List ℕ)
    → stays remove_null x xs ≡ true
    → (remove_null && x == null) ≡ false
stays_known rn x [] p = ground arith
stays_known rn x (y ∷ ys) p = ground arith

-- An item that is left out is a null, or stands in what follows.
left_out :
    (remove_null : Bool) (x w : ℕ) (xs : List ℕ)
    → stays remove_null x xs ≡ false
    → (if remove_null && w == null then false else if x == w then true else elem w xs)
      ≡ (if remove_null && w == null then false else elem w xs)
left_out rn x w [] p = ground arith
left_out rn x w (y ∷ ys) p = ground arith

elem-squeeze :
    (remove_null : Bool) (w : ℕ) (xs : List ℕ)
    → elem w (squeeze remove_null xs) ≡ (if remove_null && w == null then false else elem w xs)
unfolding squeeze
elem-squeeze rn w [] = ground arith
elem-squeeze rn w (x ∷ xs) =
    let ih = elem-squeeze rn w xs in
    elim (Bool-cases (stays rn x xs)) [
      | inl p ↦ rw (p, ih) (ground (arith, stays_known rn x xs p))
      | inr p ↦ rw (p, ih) (sym (left_out rn x w xs p))
    ]

signed_lt :
    (x y : ℕ) → x < 2 ^ 64 → y < 2 ^ 64 → x ≢ y → signed x ≤ signed y → suc (signed x) ≤ signed y
signed_lt x y h k n l = ground arith

-- Nothing behind an item that stays is the same.
stays-Fresh :
    (remove_null : Bool) (x : ℕ) (xs : List ℕ)
    → stays remove_null x xs ≡ true
    → Sorted (x ∷ xs)
    → Fresh x xs
stays-Fresh rn x [] p s = tt
stays-Fresh rn x (y ∷ ys) p s =
    let differs : x ≢ y = λ e. absurd (ground arith) in
    let above : suc (signed x) ≤ signed y = signed_lt x y s.0 s.2.0 differs s.1.0 in
    (
      (λ e. differs (sym e)),
      All-imp (λ z. signed y ≤ signed z) (λ z. z ≢ x)
          (λ z l e. absurd (omega (arith, above, l, ap signed e))) ys s.2.1,
    )

squeeze-Distinct :
    (remove_null : Bool) (xs : List ℕ) → Sorted xs → Distinct (squeeze remove_null xs)
unfolding squeeze
squeeze-Distinct rn [] s = tt
squeeze-Distinct rn (x ∷ xs) s = elim (Bool-cases (stays rn x xs)) [
  | inl p ↦
      rw p (squeeze-All (λ z. z ≢ x) rn xs (stays-Fresh rn x xs p s), squeeze-Distinct rn xs s.2)
  | inr p ↦ rw p (squeeze-Distinct rn xs s.2)
]

-- On a vector that holds fewer than 2^31 identifiers of 64 bits in the signed order of the sort,
-- uniq ends without a fault, and the vector then holds each of them once, in whichever case
-- without the null if nulls are to be removed, and nothing else.
pub uniq-Distinct :
    (v : RidVector) (remove_null : Bool) (xs : List ℕ)
    → Holds v xs
    → Sorted xs
    → length xs < 2 ^ 31
    → (v' : RidVector) × (ys : List ℕ) × (uniq v remove_null ≡ some v')
      × Holds v' ys
      × Distinct ys
      × ((w : ℕ) → elem w ys ≡ (if remove_null && w == null then false else elem w xs))
uniq-Distinct v rn xs h s l =
    let (v', run, y) = uniq-Holds v rn xs h in
    let all : uniq_items rn xs ≡ squeeze rn xs = rw (lt→ltb (length xs) (2 ^ 31) l) refl in
    (
      v',
      squeeze rn xs,
      run,
      subst (Holds v') all y,
      squeeze-Distinct rn xs s,
      (λ w. elem-squeeze rn w xs),
    )
