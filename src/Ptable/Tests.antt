-- ===== src/Ptable/Tests.antt =====
-- Pair tables at concrete values.
use store.Prelude.{
  ℕ, ◌≡◌, refl, true, Option, some, arith, List, [], ◌∷◌, if◌then◌else◌, ◌==◌, ◌+◌, length, ◌>>=◌,
}
use Prim.Native.Nat.{min}
use store.Ptable.{
  zero_row, Ptable, unmap_pt, map_pt, grown_size, grow, reuse_row, extend_row, skip_row_zero,
  new_row, free_row, add_pair, get_row, get_next, exists_from, pair_exists, length_from,
  chain_length, free_length_from, free_length,
}
use store.Ptable.Invariant.{IsTable, IsChain, pairs}
use store.Ptable.Alloc.{FreshRow, new_row-FreshRow}
use store.Ptable.Add.{Added, add_pair-Added}
use store.Ptable.Walk.{
  has_pair, pair_exists-has_pair, chain_length-eq-length, free_length-eq-length,
  get_row-get_next-IsChain,
}

unfoldable pub program : Unit {0}
unfolding unmap_pt map_pt grown_size grow reuse_row extend_row skip_row_zero new_row free_row
    add_pair get_row get_next exists_from pair_exists length_from chain_length free_length_from
    free_length
program = tt

abbrev empty : Ptable
empty = record {
  mapped = true;
  length = 0;
  free_list = 0;
  rows = record { size = 2; cell = λ _. zero_row };
}

-- Two chains: 3, 1 and 4; row 2 is free.
abbrev pub sample : Ptable
sample = record {
  mapped = true;
  length = 5;
  free_list = 2;
  rows = record {
    size = 8;
    cell = λ i.
        if i == 1
        then record { cont = 0; first = 10; second = 20 }
        else if i == 3
        then record { cont = 1; first = 11; second = 20 }
        else if i == 4
        then record { cont = 0; first = 12; second = 21 }
        else zero_row;
  };
}

abbrev pub chain_rows : List ℕ
chain_rows = 3 ∷ 1 ∷ []

abbrev pub free_rows : List ℕ
free_rows = 2 ∷ []

pub sample-IsTable : IsTable sample free_rows
sample-IsTable = record {
  is_mapped = refl;
  sized = omega arith;
  fits = omega arith;
  free = omega arith;
}

pub sample-IsChain : IsChain sample 3 chain_rows
sample-IsChain = omega arith

-- The first row is 1, and the table doubles where it is full.
abbrev adds_run : Option (ℕ × ℕ × ℕ × ℕ)
adds_run = do
  (a, pt) ← add_pair empty 0 7 8
  (b, q) ← add_pair pt a 9 9
  c ← get_next q b
  some (a, b, c, q.rows.size)

adds : adds_run ≡ some (1, 2, 1, 4)
unfolding program
adds = refl

new_row_example :
    (n : ℕ) × (pt' : Ptable) × (frees : List ℕ) × FreshRow sample free_rows n pt' frees
new_row_example = new_row-FreshRow sample free_rows sample-IsTable (omega arith)

add_pair_example :
    (n : ℕ) × (pt' : Ptable) × (frees : List ℕ) × Added sample free_rows 3 7 8 n pt' frees
add_pair_example = add_pair-Added sample free_rows 3 7 8 sample-IsTable (omega arith) (omega arith)

pair_exists_example : pair_exists 3 sample 3 10 20 ≡ some (has_pair 10 20 (pairs sample chain_rows))
pair_exists_example =
    pair_exists-has_pair 3 sample 3 10 20 free_rows chain_rows sample-IsTable sample-IsChain
      (omega arith)

chain_length_example :
    chain_length 2 sample 3 1
    ≡ some (if 1 == 0 then length chain_rows else min (length chain_rows) (1 + 1))
chain_length_example =
    chain_length-eq-length 2 sample 3 1 free_rows chain_rows sample-IsTable sample-IsChain
      (omega arith)

free_length_example : free_length 2 sample ≡ some (length free_rows + 1)
free_length_example = free_length-eq-length 2 sample free_rows sample-IsTable (omega arith)

get_row_example :
    (get_row sample 3 ≡ some (0, some (11, 20)))
    × (next : ℕ) × (get_next sample 3 ≡ some next)
    × IsChain sample next (1 ∷ [])
get_row_example =
    get_row-get_next-IsChain sample 3 3 free_rows (1 ∷ []) sample-IsTable sample-IsChain
