-- ===== src/Tbchain/Walk.antt =====
-- Reading a chain of blocks: `length`.
use store.Prelude.{
  ℕ, zero, suc, ◌+◌, ◌≤◌, ◌<◌, ◌≡◌, ap, ◌∙◌, List, [], ◌∷◌, some, false, arith, length,
  length-append, length-slice, lt→ltb, eq→==, ne→==, leb, ◌^◌,
}
use store.Tbchain.{Tbchain, refuses, length_from, chain_length}
use store.Tbchain.Invariant.{conts, IsChain, block_triples, contents, IsStore}

-- A block in use is not refused.
pub accepts : (bc : Tbchain) (b : ℕ) → 2 ≤ b → b < bc.length → refuses bc b ≡ false
unfolding refuses
accepts bc b p l = ground arith

length_from_lem :
    (f : ℕ) (bc : Tbchain) (i n : ℕ) (ids : List ℕ)
    → bc.length ≤ bc.blocks.size
    → i < bc.length
    → IsChain bc (conts bc i) ids
    → length ids < f
    → n + length (contents bc (i ∷ ids)) < 2 ^ 31
    → length_from f bc i n ≡ some (n + length (contents bc (i ∷ ids)))
unfolding length_from
length_from_lem zero bc i n ids s k c l w = absurd (omega arith)
length_from_lem (suc f) bc i n [] s k c l w =
    let size = length-append (block_triples (bc.blocks.cell i)) [] in
    let own = length-slice (bc.blocks.cell i).triples.cell 0 (bc.blocks.cell i).length in
    let in_int : leb (2 ^ 31) (n + (bc.blocks.cell i).length) ≡ false =
      ground (arith, size, own, w) in
    simp (in_int, lt→ltb i bc.blocks.size (omega arith), eq→== (conts bc i) 0 c)
      (ap some (omega (arith, size, own)))
length_from_lem (suc f) bc i n (j ∷ ids) s k c l w =
    let size = length-append (block_triples (bc.blocks.cell i)) (contents bc (j ∷ ids)) in
    let own = length-slice (bc.blocks.cell i).triples.cell 0 (bc.blocks.cell i).length in
    let in_int : leb (2 ^ 31) (n + (bc.blocks.cell i).length) ≡ false =
      ground (arith, size, own, w) in
    simp (in_int, lt→ltb i bc.blocks.size (omega arith), ne→== j 0 (omega (arith, c.1)), c.0)
      (length_from_lem f bc j (n + (bc.blocks.cell i).length) ids s c.2 c.3 (omega arith)
          (omega (arith, size, own, w))
        ∙ ap some (omega (arith, size, own)))

-- In a valid file, for a chain that starts at a block in use with as much fuel as it has blocks
-- and fewer than 2^31 triples, chain_length ends with the number of triples that the chain holds.
pub chain_length-contents :
    (fuel : ℕ) (bc : Tbchain) (b : ℕ) (frees ids : List ℕ)
    → IsStore bc frees
    → IsChain bc b (b ∷ ids)
    → length ids < fuel
    → length (contents bc (b ∷ ids)) < 2 ^ 31
    → chain_length fuel bc b ≡ some (length (contents bc (b ∷ ids)))
unfolding chain_length
chain_length-contents fuel bc b frees ids v c l w = rw (accepts bc b c.1 c.2) (
    length_from_lem fuel bc b 0 ids (omega (arith, v.whole, v.spare)) c.2 c.3 l (omega (arith, w))
    ∙ ap some (omega arith))
