-- ===== src/DiskList/Sorting/Tests.antt =====
-- Merges of sorted chunks at concrete values.
use store.Prelude.{
  ℕ, ◌*◌, ◌+◌, ◌/◌, ◌≡◌, refl, ltb, ltb_of_ge, inr, arith, List, [], ◌∷◌, Option, some, none, ◌==◌,
  ◌>>=◌,
}
use store.DiskList.{FsList, MergeState}
use store.DiskList.Sorting.Merge.{IsOrder, IsMerge}
use store.DiskList.Sorting.Next.{IsSorted, Next}
use store.DiskList.Sorting.Unique.{next_sort_uniqed-Next}
use store.DiskList.Tests.{working, sample}
use store.DiskList.Sorting.{
  best_from, start_merge, rows_from, merge_from, merge_next, next_sort_uniqed,
}

program : Unit {0}
unfolding best_from start_merge rows_from merge_from merge_next next_sort_uniqed
program = tt

abbrev merge_run : Option (List (Option ℕ))
merge_run = do
  (_, x, l) ← next_sort_uniqed ◌==◌ 0 9 working sample
  (_, y, l1) ← next_sort_uniqed ◌==◌ 0 9 working l
  (_, z, l2) ← next_sort_uniqed ◌==◌ 0 9 working l1
  (_, w, l3) ← next_sort_uniqed ◌==◌ 0 9 working l2
  some (x ∷ y ∷ z ∷ w ∷ [])

merges : merge_run ≡ some (some 2 ∷ some 3 ∷ some 4 ∷ none ∷ [])
unfolding program
merges = refl

-- Two chunks of the rows 0 0 and 1 1, of which 0 was the last item.
abbrev under_way : MergeState ℕ
under_way = record {
  chunks = 2;
  chunk_pos = record { size = 2; cell = λ c. c * 2 };
  chunk_end = record { size = 2; cell = λ c. c * 2 + 2 };
  last = 0;
}

abbrev halves : FsList ℕ
halves = record sample { file = record { size = 4; cell = λ i. i / 2 }; merge = some under_way }

ltb-IsOrder : IsOrder ltb
ltb-IsOrder = record {
  irrefl = λ x. ground arith;
  trans = λ x y z h k. ground arith;
  cotrans = λ x y z h k. ground arith;
}

under_way-IsMerge : IsMerge halves under_way
under_way-IsMerge = record { starts = refl; ends = refl; inside = λ c h. omega arith }

under_way-IsSorted : IsSorted halves under_way
unfolding IsSorted
under_way-IsSorted c i j h k l = ltb_of_ge (j / 2) (i / 2) (omega arith)

next_sort_uniqed_example :
    (status : ℕ) × (out : Option ℕ) × (l : FsList ℕ) × (next_sort_uniqed ◌==◌ 0 9 working halves
      ≡ some (status, out, l))
    × Next ◌==◌ halves under_way out l
next_sort_uniqed_example =
    next_sort_uniqed-Next ◌==◌ 0 9 working halves under_way (inr refl) refl under_way-IsMerge
      under_way-IsSorted ltb-IsOrder (omega arith)
