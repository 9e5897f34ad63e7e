-- ===== src/Tbchain/Invariant.antt =====
-- A valid file of triple blocks, its chains, and the triples that a chain holds.
use store.Prelude.{
  ℕ, ◌+◌, ◌≤◌, ◌≡◌, refl, ap, ap₂, List, [], ◌∷◌, ◌++◌, true, Apart, Linked, Untouched,
  Linked-Untouched, slice, arith,
}
use store.Tbchain.{Tblock, Tbchain, Triple, tblock_len, zero_block}

-- `data[i].cont`
abbrev pub conts : Tbchain → ℕ → ℕ
conts bc i = (bc.blocks.cell i).cont

-- The blocks of the chain that starts at `b`.
abbrev pub IsChain : Tbchain → ℕ → List ℕ → Type 0
IsChain bc b ids = Linked (conts bc) 2 bc.length b ids

-- The triples of a block, and of a chain of blocks.
abbrev pub block_triples : Tblock → List Triple
block_triples k = slice k.triples.cell 0 k.length

abbrev pub contents : Tbchain → List ℕ → List Triple
contents bc [] = []
contents bc (i ∷ ids) = block_triples (bc.blocks.cell i) ++ contents bc ids

pub record IsBlock (k : Tblock) : Type 0 where
  pub short : k.length ≤ tblock_len
  pub wide : k.triples.size ≡ tblock_len

pub zero_block-IsBlock : IsBlock zero_block
zero_block-IsBlock = record { short = omega arith; wide = refl }

-- A mapped file whose free blocks are `frees`, in order.
pub record IsStore (bc : Tbchain) (frees : List ℕ) : Type 0 where
  pub is_mapped : bc.mapped ≡ true
  pub sized : 2 ≤ bc.size
  pub whole : bc.length ≡ bc.size
  pub spare : bc.blocks.size ≡ bc.size + 1
  pub blocks_valid : (i : ℕ) → IsBlock (bc.blocks.cell i)
  pub free : IsChain bc bc.free_list frees

-- The blocks of `bc` stand in `bc'`, unchanged but for those in `touched`.
abbrev pub Frame : List ℕ → Tbchain → Tbchain → Type 0
Frame touched bc bc' = Untouched touched bc.length bc'.length bc.blocks.cell bc'.blocks.cell

pub IsChain-Frame :
    (touched : List ℕ) (bc bc' : Tbchain) (b : ℕ) (ids : List ℕ)
    → Frame touched bc bc'
    → Apart ids touched
    → IsChain bc b ids
    → IsChain bc' b ids
IsChain-Frame touched bc bc' b ids fr a c =
    Linked-Untouched (λ (k : Tblock). k.cont) 2 b touched ids fr a c

pub contents-Frame :
    (touched : List ℕ) (bc bc' : Tbchain) (b : ℕ) (ids : List ℕ)
    → Frame touched bc bc'
    → Apart ids touched
    → IsChain bc b ids
    → contents bc' ids ≡ contents bc ids
contents-Frame touched bc bc' b [] fr a c = refl
contents-Frame touched bc bc' b (i ∷ ids) fr a c =
    ap₂ ◌++◌ (ap block_triples (fr.same i c.2 a.0))
      (contents-Frame touched bc bc' (conts bc i) ids fr a.1 c.3)
