-- ===== src/Tbchain/Alloc.antt =====
-- The growth of the file, and handing out blocks: `new_block`.
use store.Prelude.{
  ℕ, zero, suc, ◌+◌, ◌*◌, ◌^◌, ◌≤◌, ◌<◌, ◌≡◌, ◌≢◌, refl, sym, subst, ◌∙◌, List, [], ◌∷◌, true,
  false, some, arith, All, All-imp, Fresh, Apart, Apart-one, Linked-Distinct, Untouched-trans,
  update, ltb, leb, ◌==◌, lt→ltb, ne→==, eq→==, Bool-cases, inl, inr, ◌⊎◌,
}
use store.Tbchain.{
  Tbchain, zero_block, unmap_bc, map_bc, grow, reuse_block, recover_length, grow_if_full, new_block,
}
use store.Tbchain.Invariant.{conts, IsChain, zero_block-IsBlock, IsStore, Frame, IsChain-Frame}
use store.Tbchain.Free.{pile_range, pile_range-All, free_range-RangeFreed}

-- The file that a call of `grow` leaves.
record Grown (bc bc' : Tbchain) : Type 0 where
  run : grow bc ≡ some bc'
  valid : IsStore bc' (pile_range bc.size bc.size [])
  length : bc'.length ≡ bc.size * 2
  same : (j : ℕ) → j < bc.length → bc'.blocks.cell j ≡ bc.blocks.cell j

-- The enlarged file before its new blocks are freed.
abbrev enlarged : Tbchain → Tbchain
unfolding map_bc unmap_bc
enlarged bc = record (map_bc (unmap_bc bc) bc.length (bc.size * 2)) { length = bc.size * 2 }

enlarged-IsStore : (bc : Tbchain) → IsStore bc [] → IsStore (enlarged bc) []
unfolding map_bc unmap_bc
enlarged-IsStore bc v = record {
  is_mapped = refl;
  sized = omega (arith, v.sized);
  whole = refl;
  spare = refl;
  blocks_valid = λ i. elim (Bool-cases (ltb i bc.blocks.size)) [
    | inl e ↦ rw e (v.blocks_valid i)
    | inr e ↦ rw e zero_block-IsBlock
  ];
  free = v.free;
}

grow-Grown : (bc : Tbchain) → IsStore bc [] → bc.size < 2 ^ 30 → (bc' : Tbchain) × Grown bc bc'
unfolding grow map_bc unmap_bc
grow-Grown bc v room =
    let (bc', r) =
      free_range-RangeFreed bc.size bc.size (enlarged bc) [] (enlarged-IsStore bc v) v.sized
        (omega arith) tt in
    let small : leb (2 ^ 31) (bc.size * 2) ≡ false = ground arith in
    (
      bc',
      record {
        run = rw small r.run;
        valid = r.valid;
        length = r.length;
        same = λ j l.
            let inside : ltb j bc.blocks.size ≡ true =
              lt→ltb j bc.blocks.size (omega (arith, v.whole, v.spare)) in
            r.below j (omega (arith, v.whole)) ∙ rw inside refl;
      },
    )

-- A block that a call has handed out.
pub record FreshBlock (bc : Tbchain) (frees : List ℕ) (n : ℕ) (bc' : Tbchain) (frees' : List ℕ)
    : Type 0 where
  pub run : new_block bc ≡ some (n, bc')
  pub valid : IsStore bc' frees'
  pub positive : 2 ≤ n
  pub inside : n < bc'.length
  pub frame : Frame (n ∷ []) bc bc'
  pub cleared : bc'.blocks.cell n ≡ zero_block
  pub unused : Fresh n frees'
  pub taken :
      (frees ≡ n ∷ frees') ⊎ ((frees ≡ []) × (bc.length ≤ n) × All (λ j. bc.length ≤ j) frees')

abbrev reused : Tbchain → ℕ → Tbchain
reused bc n = record bc {
  free_list = conts bc n;
  blocks = record (bc.blocks) { cell = update bc.blocks.cell n zero_block };
}

reuse_block-reused :
    (bc : Tbchain) (n : ℕ) (fs : List ℕ)
    → IsStore bc (n ∷ fs)
    → reuse_block bc ≡ some (n, reused bc n)
unfolding reuse_block
reuse_block-reused bc n fs v = simp (
  v.free.0,
  ne→== n 0 (omega (arith, v.free.1)),
  lt→ltb n bc.blocks.size (omega (arith, v.free.2, v.whole, v.spare)),
)

reused-Frame : (bc : Tbchain) (n : ℕ) → Frame (n ∷ []) bc (reused bc n)
reused-Frame bc n = record { longer = omega arith; same = λ j l f. ground arith }

reused-IsStore :
    (bc : Tbchain) (n : ℕ) (fs : List ℕ) → IsStore bc (n ∷ fs) → IsStore (reused bc n) fs
reused-IsStore bc n fs v =
    let once = Linked-Distinct (conts bc) 2 bc.length bc.free_list (n ∷ fs) (omega arith) v.free in
    record {
      is_mapped = v.is_mapped;
      sized = v.sized;
      whole = v.whole;
      spare = v.spare;
      blocks_valid = λ j. elim (Bool-cases (j == n)) [
        | inl e ↦ rw e zero_block-IsBlock
        | inr e ↦ rw e (v.blocks_valid j)
      ];
      free =
          IsChain-Frame (n ∷ []) bc (reused bc n) (conts bc n) fs (reused-Frame bc n)
            (Apart-one n fs once.0) v.free.3;
    }

recover_length_lem : (bc : Tbchain) (fs : List ℕ) → IsStore bc fs → recover_length bc ≡ bc
unfolding recover_length
recover_length_lem bc fs v = simp (ne→== bc.length 0 (omega (arith, v.whole, v.sized)))

pile_range-cons-ne-nil : (k i x : ℕ) (fs : List ℕ) → pile_range k i (x ∷ fs) ≢ []
unfolding pile_range
pile_range-cons-ne-nil zero i x fs = λ e. cc
pile_range-cons-ne-nil (suc k) i x fs = pile_range-cons-ne-nil k (i + 1) i (x ∷ fs)

pile_range-ne-nil : (k i : ℕ) → 0 < k → pile_range k i [] ≢ []
unfolding pile_range
pile_range-ne-nil zero i p = absurd (omega arith)
pile_range-ne-nil (suc k) i p = pile_range-cons-ne-nil k (i + 1) i []

-- The first block of a free list that has just been made.
Grown-FreshBlock :
    (bc q : Tbchain) (fs : List ℕ)
    → IsStore bc []
    → Grown bc q
    → IsStore q fs
    → All (λ j. bc.length ≤ j) fs
    → fs ≢ []
    → (n : ℕ) × (bc' : Tbchain) × (frees' : List ℕ) × FreshBlock bc [] n bc' frees'
unfolding new_block grow_if_full
Grown-FreshBlock bc q [] v g w a ne = absurd (ne refl)
Grown-FreshBlock bc q (n ∷ fs) v g w a ne = (
  n,
  reused q n,
  fs,
  record {
    run = simp (
      v.is_mapped,
      recover_length_lem bc [] v,
      eq→== bc.free_list 0 v.free,
      g.run,
      reuse_block-reused q n fs w,
    );
    valid = reused-IsStore q n fs w;
    positive = w.free.1;
    inside = w.free.2;
    frame =
        Untouched-trans (n ∷ [])
          (record { longer = omega (arith, g.length, v.whole); same = λ j l u. g.same j l })
          (reused-Frame q n);
    cleared = ground arith;
    unused = (Linked-Distinct (conts q) 2 q.length q.free_list (n ∷ fs) (omega arith) w.free).0;
    taken = inr (refl, a.0, a.1);
  },
)

-- In a valid file of fewer than 2^30 blocks, new_block ends without a fault with a cleared block
-- that was the head of the free list or comes from doubling the file, it is on the free list no
-- more, and the file stays valid with no other block in use changed.
pub new_block-FreshBlock :
    (bc : Tbchain) (frees : List ℕ)
    → IsStore bc frees
    → bc.size < 2 ^ 30
    → (n : ℕ) × (bc' : Tbchain) × (frees' : List ℕ) × FreshBlock bc frees n bc' frees'
unfolding new_block grow_if_full
new_block-FreshBlock bc [] v room =
    let (q, g) = grow-Grown bc v room in
    Grown-FreshBlock bc q (pile_range bc.size bc.size []) v g g.valid
      (pile_range-All (λ j. bc.length ≤ j) bc.size bc.size [] (λ j l. omega (arith, v.whole)) tt)
      (pile_range-ne-nil bc.size bc.size (omega (arith, v.sized)))
new_block-FreshBlock bc (n ∷ fs) v room = (
  n,
  reused bc n,
  fs,
  record {
    run = simp (
      v.is_mapped,
      recover_length_lem bc (n ∷ fs) v,
      ne→== bc.free_list 0 (omega (arith, v.free.0, v.free.1)),
      reuse_block-reused bc n fs v,
    );
    valid = reused-IsStore bc n fs v;
    positive = v.free.1;
    inside = v.free.2;
    frame = reused-Frame bc n;
    cleared = ground arith;
    unused = (Linked-Distinct (conts bc) 2 bc.length bc.free_list (n ∷ fs) (omega arith) v.free).0;
    taken = inl refl;
  },
)

-- A block handed out stands in no chain in use.
pub FreshBlock-Fresh :
    {bc bc' : Tbchain} {frees frees' : List ℕ} {n : ℕ} (b : ℕ) (ids : List ℕ)
    → FreshBlock bc frees n bc' frees'
    → IsChain bc b ids
    → Apart ids frees
    → Fresh n ids × Apart ids frees'
FreshBlock-Fresh b [] w c a = (tt, tt)
FreshBlock-Fresh {bc} {frees' = frees'} {n = n} b (i ∷ ids) w c a =
    let (f, r) = FreshBlock-Fresh (conts bc i) ids w c.3 a.1 in
    elim w.taken [
      | inl e ↦ let here = subst (Fresh i) e a.0 in (((λ x. here.0 (sym x)), f), (here.1, r))
      | inr (e, l, o) ↦ (
        ((λ x. absurd (omega (arith, c.2, l))), f),
        (
          All-imp (λ j. bc.length ≤ j) (λ j. j ≢ i) (λ j h x. absurd (omega (arith, c.2))) frees' o,
          r,
        ),
      )
    ]
