-- ===== src/Tbchain/Tests.antt =====
-- Triple block chains at concrete values.
use store.Prelude.{
  ℕ, ◌≡◌, refl, true, false, Option, some, arith, List, [], ◌∷◌, if◌then◌else◌, ◌==◌, ◌>>=◌, ◌-◌,
  length, Bool-cases, inl, inr,
}
use store.Tbchain.{
  Triple, zero_block, Tbchain, unmap_bc, map_bc, free_block, free_range, init_free, grow,
  reuse_block, recover_length, grow_if_full, new_block, new_chain, remove_from, remove_chain,
  refuses, set_bit, clear_bit, get_bit, sparse, superset, link_block, append_triple, add_triple,
  length_from, chain_length,
}
use store.Tbchain.Invariant.{IsStore, IsChain, contents, zero_block-IsBlock}
use store.Tbchain.Alloc.{FreshBlock, new_block-FreshBlock}
use store.Tbchain.Free.{init_free-IsStore, pile_range}
use store.Tbchain.Add.{AddedTriple, add_triple-AddedTriple}
use store.Tbchain.Walk.{chain_length-contents}
use store.Tbchain.Bits.{Flagged, set_bit-Flagged, clear_bit-Flagged}
use store.Tbchain.Clear.{Emptied, remove_chain-Emptied}

program : Unit {0}
unfolding unmap_bc map_bc free_block free_range init_free grow reuse_block recover_length
    grow_if_full new_block new_chain remove_from remove_chain refuses set_bit clear_bit get_bit
    link_block append_triple add_triple length_from chain_length
program = tt

-- A new file with four blocks, and the blank one behind them.
abbrev blank : Tbchain
blank = record {
  mapped = true;
  size = 4;
  length = 4;
  free_list = 0;
  blocks = record { size = 5; cell = λ _. zero_block };
}

blank-IsStore : IsStore blank []
blank-IsStore = record {
  is_mapped = refl;
  sized = omega arith;
  whole = refl;
  spare = refl;
  blocks_valid = λ i. zero_block-IsBlock;
  free = refl;
}

abbrev triple : Triple
triple = record { subject = 7; predicate = 8; object = 9 }

-- The block 3 has one triple and is a chain; the block 2 is free.
abbrev pub sample : Tbchain
sample = record {
  mapped = true;
  size = 4;
  length = 4;
  free_list = 2;
  blocks = record {
    size = 5;
    cell = λ i.
        if i == 3
        then record {
          cont = 0;
          length = 1;
          flags = 2;
          triples = record { size = 5; cell = λ _. triple };
        }
        else zero_block;
  };
}

abbrev pub free_blocks : List ℕ
free_blocks = 2 ∷ []

pub sample-IsStore : IsStore sample free_blocks
sample-IsStore = record {
  is_mapped = refl;
  sized = omega arith;
  whole = refl;
  spare = refl;
  blocks_valid = λ i. elim (Bool-cases (i == 3)) [
    | inl e ↦ rw e (record { short = omega arith; wide = refl })
    | inr e ↦ rw e zero_block-IsBlock
  ];
  free = omega arith;
}

pub sample-IsChain : IsChain sample 3 (3 ∷ [])
sample-IsChain = omega arith

-- Six triples in a new file: the sixth goes to a second block, which keeps the flag.
abbrev adds_run : Option (ℕ × ℕ × ℕ × ℕ)
adds_run = do
  bc ← init_free blank
  (b, q) ← new_chain bc
  q1 ← set_bit q b superset
  (b1, q2) ← add_triple q1 b triple
  (b2, q3) ← add_triple q2 b1 triple
  (b3, q4) ← add_triple q3 b2 triple
  (b4, q5) ← add_triple q4 b3 triple
  (b5, q6) ← add_triple q5 b4 triple
  (b6, q7) ← add_triple q6 b5 triple
  n ← chain_length 2 q7 b6
  x ← get_bit q7 b6 superset
  some (b5, b6, n, x)

adds : adds_run ≡ some (3, 2, 6, 2)
unfolding program
adds = refl

init_free_example :
    (bc : Tbchain) × (init_free blank ≡ some bc) × IsStore bc (pile_range (blank.size - 2) 2 [])
init_free_example = init_free-IsStore blank blank-IsStore

new_block_example :
    (n : ℕ) × (bc : Tbchain) × (frees : List ℕ) × FreshBlock sample free_blocks n bc frees
new_block_example = new_block-FreshBlock sample free_blocks sample-IsStore (omega arith)

add_triple_example :
    (n : ℕ) × (bc : Tbchain) × (frees ids : List ℕ) × AddedTriple sample free_blocks 3
      (3 ∷ [])
      triple
      n
      bc
      frees
      ids
add_triple_example =
    add_triple-AddedTriple sample free_blocks 3 [] triple sample-IsStore sample-IsChain
      (omega arith) (omega arith)

block_length_example : chain_length 1 sample 3 ≡ some (length (contents sample (3 ∷ [])))
block_length_example =
    chain_length-contents 1 sample 3 free_blocks [] sample-IsStore sample-IsChain (omega arith)
      (omega arith)

empty_chain_example :
    (bc : Tbchain) × (remove_chain 1 sample 3 ≡ some (0, bc))
    × Emptied sample bc (3 ∷ []) free_blocks
empty_chain_example =
    remove_chain-Emptied 1 sample 3 [] free_blocks sample-IsStore sample-IsChain (omega arith)
      (omega arith)

set_bit_example :
    (bc : Tbchain) × (set_bit sample 3 sparse ≡ some bc) × Flagged sample bc 3 sparse true
set_bit_example = set_bit-Flagged sample 3 (omega arith) (omega arith) (omega arith) sparse

clear_bit_example :
    (bc : Tbchain) × (clear_bit sample 3 superset ≡ some bc) × Flagged sample bc 3 superset false
clear_bit_example = clear_bit-Flagged sample 3 (omega arith) (omega arith) (omega arith) superset
