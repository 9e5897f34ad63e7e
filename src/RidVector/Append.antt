-- ===== src/RidVector/Append.antt =====
-- What the vectors hold: `append`, and the appending of vectors.
use store.Prelude.{
  ℕ, zero, suc, ◌+◌, ◌-◌, ◌*◌, ◌%◌, ◌^◌, ◌≤◌, ◌<◌, ◌≡◌, refl, sym, ap, ap₂, ◌∙◌, Bool, true, ◌&&◌,
  List, [], ◌∷◌, ◌++◌, append_assoc, append-nil, subst, some, arith, update, slice, slice-snoc,
  slice-update_above, slice-copied, length-slice, length-append, copied, length, keep, ltb, leb,
  ◌!=◌, if◌then◌else◌, negate, lt→ltb, Bool-cases, inl, inr,
}
use store.Rid.{null}
use store.RidVector.{
  RidVector, grow_if_full, append, append_each, free_cells, make_room, append_vector, is_literal,
  append_vector_no_nulls, append_vector_no_nulls_lit,
}

abbrev pub items : RidVector → List ℕ
items v = slice v.cells.cell 0 v.length

-- A vector that holds the items `xs`.
pub record Holds (v : RidVector) (xs : List ℕ) : Type 0 where
  pub sized : v.cells.size ≡ v.size
  pub fits : v.length ≤ v.size
  pub small : v.size < 2 ^ 32
  pub held : items v ≡ xs

pub Holds-length : (v : RidVector) (xs : List ℕ) → Holds v xs → v.length ≡ length xs
Holds-length v xs h = sym (length-slice v.cells.cell 0 v.length) ∙ ap length h.held

grow_if_full-Holds :
    (v : RidVector) (xs : List ℕ)
    → Holds v xs
    → length xs < 2 ^ 31 - 1
    → Holds (grow_if_full v) xs
      × (v.length < (grow_if_full v).size)
      × ((grow_if_full v).length ≡ v.length)
unfolding grow_if_full
grow_if_full-Holds v xs h room =
    let n = Holds-length v xs h in
    elim (Bool-cases (leb v.size v.length)) [
      | inl e ↦
          let full : v.size ≤ v.length = ground arith in
          rw e (elim (Bool-cases (v.size != 0)) [
            | inl z ↦
                let some_cell : 1 ≤ v.size = ground arith in
                let size : v.size * 2 % 2 ^ 32 ≡ v.size * 2 = omega (arith, full, h.fits, n) in
                rw (z, size)
                  (
                    record {
                      sized = refl;
                      fits = omega (arith, h.fits);
                      small = omega (arith, h.fits, n, full);
                      held = h.held;
                    },
                    omega (arith, h.fits, some_cell),
                    refl,
                  )
            | inr z ↦
                let empty : v.size ≡ 0 = ground arith in
                rw z (
                  record {
                    sized = refl;
                    fits = omega (arith, h.fits, empty);
                    small = omega arith;
                    held = h.held;
                  },
                  omega (arith, h.fits, empty),
                  refl,
                )
          ])
      | inr e ↦ rw e (h, ground arith, refl)
    ]

-- On a vector of fewer than 2^31 - 1 items, append ends without a fault, and the vector then holds
-- its items and the new one behind them.
pub append-Holds :
    (v : RidVector) (xs : List ℕ) (r : ℕ)
    → Holds v xs
    → length xs < 2 ^ 31 - 1
    → (v' : RidVector) × (append v r ≡ some v') × Holds v' (xs ++ r ∷ [])
unfolding append
append-Holds v xs r h room =
    let q = grow_if_full v in
    let (g, inside, same) = grow_if_full-Holds v xs h room in
    let n = Holds-length v xs h in
    let next : (q.length + 1) % 2 ^ 32 ≡ suc q.length = omega (arith, g.small, inside) in
    (
      record q {
        cells = record (q.cells) { cell = update q.cells.cell q.length r };
        length = suc q.length;
      },
      simp (lt→ltb q.length q.cells.size (omega (arith, inside, g.sized)), next),
      record {
        sized = g.sized;
        fits = omega (arith, inside);
        small = g.small;
        held =
            slice-snoc (update q.cells.cell q.length r) 0 q.length
            ∙ ap₂ (λ (ys : List ℕ) (y : ℕ). ys ++ y ∷ [])
                (slice-update_above q.cells.cell q.length 0 q.length r (omega arith) ∙ g.held)
                (ground arith);
      },
    )

pub append_each-Holds :
    (test : ℕ → Bool) (k j : ℕ) (v v2 : RidVector) (xs : List ℕ)
    → Holds v xs
    → j + k ≤ v2.cells.size
    → length xs + k < 2 ^ 31
    → (v' : RidVector) × (append_each test k v v2 j ≡ some v')
      × Holds v' (xs ++ keep test (slice v2.cells.cell j k))
unfolding append_each
append_each-Holds test zero j v v2 xs h inside room = (v, refl, rw (append-nil xs) h)
append_each-Holds test (suc k) j v v2 xs h inside room =
    let x = v2.cells.cell j in
    let here = lt→ltb j v2.cells.size (omega (arith, inside)) in
    elim (Bool-cases (test x)) [
      | inl e ↦
          let (q, run, g) = append-Holds v xs x h (omega (arith, room)) in
          let longer = length-append xs (x ∷ []) in
          let (w, runs, y) =
            append_each-Holds test k (suc j) q v2 (xs ++ x ∷ []) g (omega (arith, inside))
              (omega (arith, room, longer)) in
          (
            w,
            simp (here, e, run) runs,
            subst (Holds w)
                (append_assoc xs (x ∷ []) (keep test (slice v2.cells.cell (suc j) k)) ∙ rw e refl)
                y,
          )
      | inr e ↦
          let (w, runs, y) =
            append_each-Holds test k (suc j) v v2 xs h (omega (arith, inside))
              (omega (arith, room)) in
          (w, simp (here, e) runs, rw e y)
    ]

make_room-Holds :
    (v v2 : RidVector) (xs ys : List ℕ)
    → Holds v xs
    → Holds v2 ys
    → length xs + length ys < 2 ^ 31
    → v.size < 2 ^ 31
    → Holds (make_room v v2) xs × ((make_room v v2).length ≡ v.length)
unfolding make_room
make_room-Holds v v2 xs ys h g room low =
    let n = Holds-length v xs h in
    let m = Holds-length v2 ys g in
    let more = if ltb 32 v2.length then v2.length else 32 in
    let bound : more < 2 ^ 31 = ground (arith, room, m) in
    let size : (v.size + more) % 2 ^ 32 ≡ v.size + more = omega (arith, low, bound) in
    elim (Bool-cases (ltb 4 v2.length && ltb (free_cells v) v2.length)) [
      | inl e ↦
          rw (e, size)
            (
              record {
                sized = refl;
                fits = omega (arith, h.fits);
                small = omega (arith, low, bound);
                held = h.held;
              },
              refl,
            )
      | inr e ↦ rw e (h, refl)
    ]

copied-Holds :
    (v v2 : RidVector) (xs ys : List ℕ)
    → Holds v xs
    → Holds v2 ys
    → v.length + v2.length ≤ v.size
    → Holds
        (record v {
          cells = record (v.cells) { cell = copied v.cells.cell v.length v2.cells.cell v2.length };
          length = v.length + v2.length;
        })
        (xs ++ ys)
copied-Holds v v2 xs ys h g fits = record {
  sized = h.sized;
  fits = fits;
  small = h.small;
  held = slice-copied v.cells.cell v2.cells.cell v.length v2.length ∙ ap₂ ◌++◌ h.held g.held;
}

keep_all : (xs : List ℕ) → keep (λ _. true) xs ≡ xs
keep_all [] = refl
keep_all (x ∷ xs) = ap (λ ys. x ∷ ys) (keep_all xs)

-- For two vectors of fewer than 2^31 items in all, the first with fewer than 2^31 cells,
-- append_vector ends without a fault, and the first vector then holds its items and behind them
-- those of the second.
pub append_vector-Holds :
    (v v2 : RidVector) (xs ys : List ℕ)
    → Holds v xs
    → Holds v2 ys
    → length xs + length ys < 2 ^ 31
    → v.size < 2 ^ 31
    → (v' : RidVector) × (append_vector v v2 ≡ some v') × Holds v' (xs ++ ys)
unfolding append_vector
append_vector-Holds v v2 xs ys h g room low =
    let q = make_room v v2 in
    let (w, same) = make_room-Holds v v2 xs ys h g room low in
    let n = Holds-length q xs w in
    let m = Holds-length v2 ys g in
    let left : free_cells q ≡ q.size - q.length = omega (arith, w.fits, w.small) in
    elim (Bool-cases (leb v2.length (free_cells q))) [
      | inl e ↦
          let enough : q.length + v2.length ≤ q.size = ground (arith, left, w.fits) in
          let count : (q.length + v2.length) % 2 ^ 32 ≡ q.length + v2.length =
            omega (arith, enough, w.small) in
          let dest : leb (q.length + v2.length) q.cells.size ≡ true =
            ground (arith, enough, w.sized) in
          let source : leb v2.length v2.cells.size ≡ true = ground (arith, g.fits, g.sized) in
          (_, simp (e, dest, source, count), copied-Holds q v2 xs ys w g enough)
      | inr e ↦
          let (v', run, y) =
            append_each-Holds (λ _. true) v2.length 0 q v2 xs w (omega (arith, g.fits, g.sized))
              (omega (arith, room, m)) in
          (v', rw e run, subst (λ zs. Holds v' (xs ++ zs)) (keep_all (items v2) ∙ g.held) y)
    ]

-- The loops that leave items out.
each_of :
    (test : ℕ → Bool) (v v2 : RidVector) (xs ys : List ℕ)
    → Holds v xs
    → Holds v2 ys
    → length xs + length ys < 2 ^ 31
    → (v' : RidVector) × (append_each test v2.length v v2 0 ≡ some v')
      × Holds v' (xs ++ keep test ys)
each_of test v v2 xs ys h g room =
    let (v', run, y) =
      append_each-Holds test v2.length 0 v v2 xs h (omega (arith, g.fits, g.sized))
        (omega (arith, room, Holds-length v2 ys g)) in
    (v', run, subst (λ zs. Holds v' (xs ++ keep test zs)) g.held y)

-- For two vectors of fewer than 2^31 items in all, append_vector_no_nulls and
-- append_vector_no_nulls_lit end without a fault, and the first vector then holds its items and
-- behind them those of the second that are no nulls, and, for the latter, no literals.
pub append_vector_no_nulls-Holds :
    (v v2 : RidVector) (xs ys : List ℕ)
    → Holds v xs
    → Holds v2 ys
    → length xs + length ys < 2 ^ 31
    → ((v' : RidVector) × (append_vector_no_nulls v v2 ≡ some v')
        × Holds v' (xs ++ keep (λ r. r != null) ys))
      × ((v' : RidVector) × (append_vector_no_nulls_lit v v2 ≡ some v')
          × Holds v' (xs ++ keep (λ r. r != null && negate (is_literal r)) ys))
unfolding append_vector_no_nulls append_vector_no_nulls_lit
append_vector_no_nulls-Holds v v2 xs ys h g room = (
  each_of (λ r. r != null) v v2 xs ys h g room,
  each_of (λ r. r != null && negate (is_literal r)) v v2 xs ys h g room,
)
