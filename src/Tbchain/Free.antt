-- ===== src/Tbchain/Free.antt =====
-- Freeing blocks: `free_block`, a range of blocks, and the blocks of a new file.
use store.Prelude.{
  ℕ, zero, suc, ◌+◌, ◌-◌, ◌≤◌, ◌<◌, ◌≡◌, ◌≢◌, refl, sym, subst, ◌∙◌, List, [], ◌∷◌, some, arith,
  All, All-imp, Fresh, Apart-one, update, ◌==◌, Bool-cases, inl, inr,
}
use store.Tbchain.{Tbchain, free_block, free_range, init_free}
use store.Tbchain.Invariant.{conts, IsChain, IsBlock, IsStore, Frame, IsChain-Frame}

-- The file after the block `i` has been freed.
abbrev pub freed : Tbchain → ℕ → Tbchain
freed bc i = record bc {
  free_list = i;
  blocks = record (bc.blocks) {
    cell = update bc.blocks.cell i (record (bc.blocks.cell i) { cont = bc.free_list });
  };
}

pub free_block-freed :
    (bc : Tbchain) (i : ℕ)
    → 2 ≤ i
    → i < bc.length
    → i < bc.blocks.size
    → free_block bc i ≡ some (0, freed bc i)
unfolding free_block
free_block-freed bc i p l s = ground arith

pub freed-Frame : (bc : Tbchain) (i : ℕ) → Frame (i ∷ []) bc (freed bc i)
freed-Frame bc i = record { longer = omega arith; same = λ j l f. ground arith }

pub freed-IsBlock :
    (bc : Tbchain) (i : ℕ)
    → ((j : ℕ) → IsBlock (bc.blocks.cell j))
    → (j : ℕ) → IsBlock ((freed bc i).blocks.cell j)
freed-IsBlock bc i v j = elim (Bool-cases (j == i)) [
  | inl e ↦ rw e (record { short = (v i).short; wide = (v i).wide })
  | inr e ↦ rw e (v j)
]

pub freed-IsStore :
    (bc : Tbchain) (i : ℕ) (fs : List ℕ)
    → IsStore bc fs
    → 2 ≤ i
    → i < bc.length
    → Fresh i fs
    → IsStore (freed bc i) (i ∷ fs)
freed-IsStore bc i fs v p l f = record {
  is_mapped = v.is_mapped;
  sized = v.sized;
  whole = v.whole;
  spare = v.spare;
  blocks_valid = freed-IsBlock bc i v.blocks_valid;
  free =
      let self : conts (freed bc i) i ≡ bc.free_list = ground arith in
      (
        refl,
        p,
        l,
        subst (λ b. IsChain (freed bc i) b fs) (sym self)
            (IsChain-Frame (i ∷ []) bc (freed bc i) bc.free_list fs (freed-Frame bc i)
              (Apart-one i fs f) v.free),
      );
}

-- The free list after `k` blocks from `i` on have been freed, in order.
unfoldable pub pile_range : ℕ → ℕ → List ℕ → List ℕ
pile_range zero i fs = fs
pile_range (suc k) i fs = pile_range k (i + 1) (i ∷ fs)

pub pile_range-All :
    (P : ℕ → Type 0) (k i : ℕ) (fs : List ℕ)
    → ((j : ℕ) → i ≤ j → P j)
    → All P fs
    → All P (pile_range k i fs)
unfolding pile_range
pile_range-All P zero i fs h a = a
pile_range-All P (suc k) i fs h a =
    pile_range-All P k (i + 1) (i ∷ fs) (λ j l. h j (omega arith)) (h i (omega arith), a)

-- `bc'` is `bc` with the blocks from `i` on freed.
pub record RangeFreed (k i : ℕ) (fs : List ℕ) (bc bc' : Tbchain) : Type 0 where
  pub run : free_range k bc i ≡ some bc'
  pub valid : IsStore bc' (pile_range k i fs)
  pub length : bc'.length ≡ bc.length
  pub below : (j : ℕ) → j < i → bc'.blocks.cell j ≡ bc.blocks.cell j

pub free_range-RangeFreed :
    (k i : ℕ) (bc : Tbchain) (fs : List ℕ)
    → IsStore bc fs
    → 2 ≤ i
    → i + k ≤ bc.length
    → All (λ j. j < i) fs
    → (bc' : Tbchain) × RangeFreed k i fs bc bc'
unfolding free_range pile_range
free_range-RangeFreed zero i bc fs v p l b =
    (bc, record { run = refl; valid = v; length = refl; below = λ j h. refl })
free_range-RangeFreed (suc k) i bc fs v p l b =
    let fresh = All-imp (λ j. j < i) (λ j. j ≢ i) (λ j h. omega arith) fs b in
    let (bc', r) =
      free_range-RangeFreed k (i + 1) (freed bc i) (i ∷ fs)
        (freed-IsStore bc i fs v p (omega arith) fresh) (omega arith) (omega arith)
        (omega arith, All-imp (λ j. j < i) (λ j. j < i + 1) (λ j h. omega arith) fs b) in
    (
      bc',
      record {
        run = simp (free_block-freed bc i p (omega arith) (omega (arith, v.whole, v.spare))) r.run;
        valid = r.valid;
        length = r.length;
        below = λ j h. r.below j (omega arith) ∙ ground arith;
      },
    )

-- A valid file with an empty free list becomes, by the loop that opens a new file, a valid file
-- whose free list has every block but 0 and 1, the last one first.
pub init_free-IsStore :
    (bc : Tbchain)
    → IsStore bc []
    → (bc' : Tbchain) × (init_free bc ≡ some bc') × IsStore bc' (pile_range (bc.size - 2) 2 [])
unfolding init_free
init_free-IsStore bc v =
    let (bc', r) =
      free_range-RangeFreed (bc.size - 2) 2 bc [] v (omega arith) (omega (arith, v.whole, v.sized))
        tt in
    (bc', r.run, r.valid)
