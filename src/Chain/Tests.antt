-- ===== src/Chain/Tests.antt =====
-- Bucket chains at concrete values.
use store.Prelude.{
  ℕ, ◌≡◌, ◌+◌, ◌/◌, refl, true, List, [], ◌∷◌, Option, some, arith, ◌==◌, if◌then◌else◌, ◌>>=◌,
  Bool-cases, inl, inr,
}
use store.Rid.{null}
use store.Bucket.Contents.{IsPairs, has_fit}
use store.Chain.{
  Chain, unmap_bc, map_bc, put, free_bucket, reuse_bucket, extend_bucket, new_bucket, remove_from,
  remove, length_from, chain_length,
}
use store.Chain.{get_pair}
use store.Chain.Walk.{total, chain_length-total, chain_pairs, get_pair-has_pair}

program : Unit {0}
unfolding unmap_bc map_bc put free_bucket reuse_bucket extend_bucket new_bucket remove_from remove
    length_from chain_length
program = tt

-- The chain 2, 1; the bucket 2 has the pair 5 6, the bucket 1 two pairs.
abbrev sample : Chain
sample = record {
  mapped = true;
  size = 4;
  length = 3;
  free_list = 0;
  buckets = record {
    size = 5;
    cell = λ i.
        if i == 2
        then record { cont = 1; length = 2; cells = record { size = 63; cell = λ j. j + 5 } }
        else record { cont = 0; length = 4; cells = record { size = 63; cell = λ j. j + 7 } };
  };
}

abbrev tail : List ℕ
tail = 1 ∷ []

sample-IsPairs : (i : ℕ) → IsPairs (sample.buckets.cell i) ((sample.buckets.cell i).length / 2)
sample-IsPairs i = elim (Bool-cases (i == 2)) [
  | inl e ↦ rw e (record { even = omega arith; short = omega arith; wide = omega arith })
  | inr e ↦ rw e (record { even = omega arith; short = omega arith; wide = omega arith })
]

-- A removed chain is used again, the last bucket first; then the file is used to its end, and doubles.
abbrev new_run : Option (ℕ × ℕ × ℕ × ℕ × ℕ)
new_run = do
  (_, c0) ← remove 3 sample 2
  (a, c1) ← new_bucket c0
  (b, c2) ← new_bucket c1
  (c, c3) ← new_bucket c2
  (d, c4) ← new_bucket c3
  some (a, b, c, d, c4.size)

news : new_run ≡ some (1, 2, 3, 4, 8)
unfolding program
news = refl

total_example : chain_length 2 sample 2 ≡ some (total sample (2 ∷ tail))
total_example =
    chain_length-total 2 sample 2 tail (omega arith) (omega arith) (omega arith) (omega arith)

has_pair_example :
    get_pair 3 sample 2 null 8
    ≡ some (if has_fit null 8 (chain_pairs sample (2 ∷ tail)) then 0 else 1)
has_pair_example =
    get_pair-has_pair 3 sample 2 null 8 tail (omega arith) sample-IsPairs (omega arith)
      (omega arith)
