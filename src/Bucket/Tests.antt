-- ===== src/Bucket/Tests.antt =====
-- Buckets at concrete values.
use store.Prelude.{ℕ, ◌≡◌, ◌+◌, refl, [], ◌∷◌, ◌++◌, Option, some, arith, if◌then◌else◌, ◌>>=◌}
use store.Rid.{null}
use store.Bucket.{
  Bucket, fits_at, get_from, get_pair, erase_pair, remove_from, erase_from, remove_pair, add_single,
  add_pair, add_quad, add_i32,
}
use store.Bucket.Contents.{IsPairs, items, pairs_from, has_fit, get_pair-has_fit, add_pair-items}

program : Unit {0}
unfolding fits_at get_from get_pair erase_pair remove_from erase_from remove_pair add_single
    add_pair add_quad add_i32
program = tt

-- The pairs 5 6 and 7 8.
abbrev sample : Bucket
sample = record { cont = 0; length = 4; cells = record { size = 63; cell = λ i. i + 5 } }

sample-IsPairs : IsPairs sample 2
sample-IsPairs = record { even = omega arith; short = omega arith; wide = omega arith }

abbrev remove_run : Option (ℕ × ℕ)
remove_run = do (b, n) ← remove_pair sample 7 null 0; some (b.length, n)

removes : remove_run ≡ some (2, 1)
unfolding program
removes = refl

get_pair_example :
    get_pair sample null 8 ≡ some (if has_fit null 8 (pairs_from sample 0 2) then 0 else 1)
get_pair_example = get_pair-has_fit sample 2 null 8 sample-IsPairs

bucket_add_example :
    (b : Bucket) × (add_pair sample 1 2 ≡ some (0, b))
    × IsPairs b 3
    × (items b ≡ items sample ++ 1 ∷ 2 ∷ [])
    × (b.cont ≡ sample.cont)
bucket_add_example = add_pair-items sample 2 1 2 sample-IsPairs (omega arith)
