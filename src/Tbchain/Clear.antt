-- ===== src/Tbchain/Clear.antt =====
-- `remove_chain` on triple block chains.
use store.Prelude.{
  ℕ, zero, suc, ◌<◌, ◌≡◌, refl, sym, subst, List, [], ◌∷◌, some, false, arith, Distinct, Apart,
  Apart-one, Apart-cons, Linked-Distinct, Untouched-trans, Untouched-sub, length, ltb, ne→==,
  lt→ltb, ltb_of_ge,
}
use store.Tbchain.{Tbchain, remove_from, remove_chain}
use store.Tbchain.Invariant.{conts, IsChain, IsStore, Frame, IsChain-Frame}
use store.Tbchain.Free.{freed, free_block-freed, freed-Frame, freed-IsStore}

-- The free list after the blocks of a chain have been freed, the first one first.
pub pile : List ℕ → List ℕ → List ℕ
pile [] fs = fs
pile (i ∷ ids) fs = pile ids (i ∷ fs)

-- The file after the blocks of a chain have been freed.
pub record Emptied (bc bc' : Tbchain) (ids fs : List ℕ) : Type 0 where
  pub valid : IsStore bc' (pile ids fs)
  pub frame : Frame ids bc bc'

Emptied-cons :
    (bc bc' : Tbchain) (i : ℕ) (ids fs : List ℕ)
    → Emptied (freed bc i) bc' ids (i ∷ fs)
    → Emptied bc bc' (i ∷ ids) fs
unfolding pile
Emptied-cons bc bc' i ids fs c = record {
  valid = c.valid;
  frame =
      Untouched-trans (i ∷ ids)
        (Untouched-sub (i ∷ []) (i ∷ ids) (λ j h. (h.0, tt)) (freed-Frame bc i))
        (Untouched-sub ids (i ∷ ids) (λ j h. h.1) c.frame);
}

remove_from-Emptied :
    (f : ℕ) (bc : Tbchain) (i : ℕ) (ids fs : List ℕ)
    → IsStore bc fs
    → IsChain bc i (i ∷ ids)
    → Distinct (i ∷ ids)
    → Apart (i ∷ ids) fs
    → length ids < f
    → (bc' : Tbchain) × (remove_from f bc i ≡ some (0, bc')) × Emptied bc bc' (i ∷ ids) fs
unfolding remove_from pile
remove_from-Emptied zero bc i ids fs v c once a l = absurd (omega arith)
remove_from-Emptied (suc f) bc i [] fs v c once a l =
    let small : ltb bc.size 0 ≡ false = ltb_of_ge bc.size 0 (omega arith) in
    (
      freed bc i,
      simp (
        lt→ltb i bc.blocks.size (omega (arith, c.2, v.whole, v.spare)),
        free_block-freed bc i c.1 c.2 (omega (arith, c.2, v.whole, v.spare)),
        c.3,
        small,
      ),
      Emptied-cons bc (freed bc i) i [] fs (record {
        valid = freed-IsStore bc i fs v c.1 c.2 a.0;
        frame = record { longer = omega arith; same = λ j l f. refl };
      }),
    )
remove_from-Emptied (suc f) bc i (j ∷ ids) fs v c once a l =
    let (bc', run, w) =
      remove_from-Emptied f (freed bc i) j ids (i ∷ fs) (freed-IsStore bc i fs v c.1 c.2 a.0)
        (subst (λ b. IsChain (freed bc i) b (j ∷ ids)) c.3.0
          (IsChain-Frame (i ∷ []) bc (freed bc i) (conts bc i) (j ∷ ids) (freed-Frame bc i)
            (Apart-one i (j ∷ ids) once.0) c.3))
        once.1 (Apart-cons i (j ∷ ids) fs once.0 a.1) (omega arith) in
    (
      bc',
      simp
          (
            lt→ltb i bc.blocks.size (omega (arith, c.2, v.whole, v.spare)),
            free_block-freed bc i c.1 c.2 (omega (arith, c.2, v.whole, v.spare)),
            ltb_of_ge bc.size (conts bc i) (omega (arith, c.3.0, c.3.2, v.whole)),
            ne→== (conts bc i) 0 (omega (arith, c.3.0, c.3.1)),
          )
          (subst (λ b. remove_from f (freed bc i) b ≡ some (0, bc')) (sym c.3.0) run),
      Emptied-cons bc bc' i (j ∷ ids) fs w,
    )

-- In a valid file, for a chain apart from the free list and with as much fuel as it has blocks,
-- remove_chain returns 0: its blocks are then on the free list of a valid file, and no other block
-- in use has changed.
pub remove_chain-Emptied :
    (fuel : ℕ) (bc : Tbchain) (b : ℕ) (ids fs : List ℕ)
    → IsStore bc fs
    → IsChain bc b (b ∷ ids)
    → Apart (b ∷ ids) fs
    → length ids < fuel
    → (bc' : Tbchain) × (remove_chain fuel bc b ≡ some (0, bc')) × Emptied bc bc' (b ∷ ids) fs
unfolding remove_chain
remove_chain-Emptied fuel bc b ids fs v c a l =
    let (bc', run, w) =
      remove_from-Emptied fuel bc b ids fs v c
        (Linked-Distinct (conts bc) 2 bc.length b (b ∷ ids) (omega arith) c) a l in
    (
      bc',
      simp
          (
            v.is_mapped,
            ltb_of_ge bc.size b (omega (arith, c.2, v.whole)),
            ne→== b 0 (omega (arith, c.1)),
            ne→== b 1 (omega (arith, c.1)),
          )
          run,
      w,
    )
