-- ===== src/Ptable/Alloc.antt =====
-- Handing out rows: the growth of the table, and `new_row`.
use store.Prelude.{
  ℕ, ◌+◌, ◌^◌, ◌≤◌, ◌<◌, ◌≡◌, refl, ap, ◌∙◌, ne→==, eq→==, Linked-mono, Linked-Distinct, Apart-one,
  List, [], ◌∷◌, true, false, some, arith, Arr, update, ltb, ◌==◌, lt→ltb, Bool-cases, inl, inr,
  ◌⊎◌,
}
use store.Ptable.{
  Row, zero_row, Ptable, map_pt, unmap_pt, grown_size, grow, reuse_row, extend_row, skip_row_zero,
  new_row,
}
use store.Ptable.Invariant.{conts, IsTable, Frame, IsChain-Frame}

-- A table that `grow` has made room in.
record Grown (pt pt' : Ptable) : Type 0 where
  run : grow pt ≡ some pt'
  mapped : pt'.mapped ≡ true
  length : pt'.length ≡ pt.length
  free_list : pt'.free_list ≡ pt.free_list
  room : pt.length < pt'.rows.size
  same : (j : ℕ) → j < pt.length → pt'.rows.cell j ≡ pt.rows.cell j

grow-Grown :
    (pt : Ptable)
    → pt.mapped ≡ true
    → 0 < pt.rows.size
    → pt.length ≤ pt.rows.size
    → pt.rows.size < 2 ^ 30
    → (pt' : Ptable) × Grown pt pt'
unfolding grow map_pt unmap_pt grown_size
grow-Grown pt m z f s = elim (Bool-cases (ltb pt.length pt.rows.size)) [
  | inl p ↦ (
    pt,
    record {
      run = rw p refl;
      mapped = m;
      length = refl;
      free_list = refl;
      room = ground arith;
      same = λ j l. refl;
    },
  )
  | inr p ↦ (
    map_pt (unmap_pt pt) pt.length (grown_size pt.rows.size),
    record {
      run = ground arith;
      mapped = refl;
      length = refl;
      free_list = refl;
      room = ground arith;
      same = λ j l. ground arith;
    },
  )
]

-- A row `n` that a call has handed out: the free list is `frees'`, and no row in use has changed.
pub record FreshRow (pt : Ptable) (frees : List ℕ) (n : ℕ) (pt' : Ptable) (frees' : List ℕ)
    : Type 0 where
  pub run : new_row pt ≡ some (n, pt')
  pub valid : IsTable pt' frees'
  pub positive : 1 ≤ n
  pub inside : n < pt'.length
  pub frame : Frame (n ∷ []) pt pt'
  pub taken : (frees ≡ n ∷ frees') ⊎ ((frees ≡ []) × (frees' ≡ []) × (pt.length ≤ n))

-- The table with row 0 set aside.
skip_row_zero-IsTable :
    (pt : Ptable) (frees : List ℕ)
    → IsTable pt frees
    → IsTable (skip_row_zero pt) frees
      × (1 ≤ (skip_row_zero pt).length)
      × (pt.length ≤ (skip_row_zero pt).length)
      × ((skip_row_zero pt).rows ≡ pt.rows)
unfolding skip_row_zero
skip_row_zero-IsTable pt frees v = elim (Bool-cases (pt.length == 0)) [
  | inl p ↦ rw p (
    record {
      is_mapped = v.is_mapped;
      sized = v.sized;
      fits = omega (arith, v.sized);
      free = Linked-mono (conts pt) 1 pt.length 1 pt.free_list frees (ground arith) v.free;
    },
    omega arith,
    ground arith,
    refl,
  )
  | inr p ↦ rw p (v, ground arith, omega arith, refl)
]

reuse_row-FreshRow :
    (pt : Ptable) (n : ℕ) (frees : List ℕ)
    → IsTable pt (n ∷ frees)
    → (pt' : Ptable) × (reuse_row pt ≡ some (n, pt'))
      × IsTable pt' frees
      × Frame (n ∷ []) pt pt'
      × (pt'.length ≡ pt.length)
unfolding reuse_row
reuse_row-FreshRow pt n frees v =
    let pt' : Ptable = record pt {
      free_list = conts pt n;
      rows = record pt.rows { cell = update pt.rows.cell n zero_row };
    } in
    let frame : Frame (n ∷ []) pt pt' = record {
      longer = omega arith;
      same = λ j l f. ground arith;
    } in
    let once =
      Linked-Distinct (conts pt) 1 pt.length pt.free_list (n ∷ frees) (omega arith) v.free in
    (
      pt',
      rw (v.free.0, lt→ltb n pt.rows.size (omega (arith, v.free.2, v.fits))) refl,
      record {
        is_mapped = v.is_mapped;
        sized = v.sized;
        fits = v.fits;
        free = IsChain-Frame (n ∷ []) (conts pt n) frees frame (Apart-one n frees once.0) v.free.3;
      },
      frame,
      refl,
    )

extend_row-FreshRow :
    (pt : Ptable)
    → IsTable pt []
    → pt.rows.size < 2 ^ 30
    → (pt' : Ptable) × (extend_row pt ≡ some (pt.length, pt'))
      × IsTable pt' []
      × Frame (pt.length ∷ []) pt pt'
      × (pt'.length ≡ pt.length + 1)
unfolding extend_row
extend_row-FreshRow pt v room =
    let (g, w) = grow-Grown pt v.is_mapped v.sized v.fits room in
    (
      record g {
        length = g.length + 1;
        rows = record g.rows { cell = update g.rows.cell g.length zero_row };
      },
      rw (w.run, w.length, lt→ltb pt.length g.rows.size w.room) refl,
      record {
        is_mapped = w.mapped;
        sized = omega (arith, w.room);
        fits = omega (arith, w.room, w.length);
        free = w.free_list ∙ v.free;
      },
      record {
        longer = omega (arith, w.length);
        same = λ j l f. ground (arith, w.same j l, w.length);
      },
      ap (λ k. k + 1) w.length,
    )

new_row-reuse :
    (pt : Ptable)
    → pt.mapped ≡ true
    → ((skip_row_zero pt).free_list == 0) ≡ false
    → new_row pt ≡ reuse_row (skip_row_zero pt)
unfolding new_row
new_row-reuse pt m e = simp (m, e)

new_row-extend :
    (pt : Ptable)
    → pt.mapped ≡ true
    → ((skip_row_zero pt).free_list == 0) ≡ true
    → new_row pt ≡ extend_row (skip_row_zero pt)
unfolding new_row
new_row-extend pt m e = simp (m, e)

Frame-from :
    (touched : List ℕ) (pt q pt' : Ptable)
    → q.rows ≡ pt.rows
    → pt.length ≤ q.length
    → Frame touched q pt'
    → Frame touched pt pt'
Frame-from touched pt q pt' e l fr = record {
  longer = omega (arith, fr.longer);
  same = λ j i f. fr.same j (omega arith) f ∙ ap (λ (a : Arr Row). a.cell j) e;
}

-- In a valid table of fewer than 2^30 rows, new_row ends without a fault with a row other than 0
-- that was the head of the free list or behind the used rows, and the table stays valid with no
-- other used row changed.
pub new_row-FreshRow :
    (pt : Ptable) (frees : List ℕ)
    → IsTable pt frees
    → pt.rows.size < 2 ^ 30
    → (n : ℕ) × (pt' : Ptable) × (frees' : List ℕ) × FreshRow pt frees n pt' frees'
new_row-FreshRow pt [] v room =
    let q = skip_row_zero pt in
    let (v', one, more, rows) = skip_row_zero-IsTable pt [] v in
    let (pt', run, valid, frame, len) = extend_row-FreshRow q v' (rw rows room) in
    (
      q.length,
      pt',
      [],
      record {
        run = new_row-extend pt v.is_mapped (eq→== q.free_list 0 v'.free) ∙ run;
        valid = valid;
        positive = one;
        inside = omega (arith, len);
        frame = Frame-from (q.length ∷ []) pt q pt' rows more frame;
        taken = inr (refl, refl, more);
      },
    )
new_row-FreshRow pt (n ∷ frees) v room =
    let q = skip_row_zero pt in
    let (v', one, more, rows) = skip_row_zero-IsTable pt (n ∷ frees) v in
    let (pt', run, valid, frame, len) = reuse_row-FreshRow q n frees v' in
    (
      n,
      pt',
      frees,
      record {
        run =
            new_row-reuse pt v.is_mapped (ne→== q.free_list 0 (omega (arith, v'.free.0, v.free.1)))
            ∙ run;
        valid = valid;
        positive = v.free.1;
        inside = omega (arith, len, v'.free.2);
        frame = Frame-from (n ∷ []) pt q pt' rows more frame;
        taken = inl refl;
      },
    )
