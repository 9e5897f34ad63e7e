-- ===== src/RidVector/Tests.antt =====
-- Vectors of identifiers at concrete values.
use store.Prelude.{
  ℕ, ◌≡◌, refl, true, false, List, [], ◌∷◌, ◌++◌, Option, some, none, Bool-cases, inl, inr, ==→eq,
  arith, length, keep, take, elem, Distinct, ◌==◌, ◌!=◌, ◌&&◌, negate, if◌then◌else◌, ◌>>=◌, ◌≤◌,
  ◌>>=◌, ◌^◌,
}
use store.Rid.{null}
use store.RidSet.{RidSet}
use store.RidSet.Contents.{IsValid}
use store.RidSet.Scan.{members, bucket_values}
use store.RidVector.{
  RidVector, new, grow_if_full, append, append_each, make_room, append_vector,
  append_vector_no_nulls, append_vector_no_nulls_lit, append_cells, append_buckets, append_set,
  copy, clear, int_rounds, keeps_row, uniq_rows, uniq, truncate, grow, contains_from, contains,
  is_literal,
}
use store.RidVector.Append.{
  items, Holds, append-Holds, append_vector-Holds, append_vector_no_nulls-Holds,
}
use store.RidVector.Sets.{append_set-Holds}
use store.RidVector.Rows.{copy-Holds, truncate-Holds, Grown, grow-Grown, contains-elem}
use store.RidVector.Uniq.{uniq_items, uniq-Holds, uniq-Distinct}

program : Unit {0}
unfolding new grow_if_full append append_each make_room append_vector append_vector_no_nulls
    append_vector_no_nulls_lit append_cells append_buckets append_set copy clear int_rounds
    keeps_row uniq_rows uniq truncate grow contains_from contains
program = tt

-- A full vector of two cells.
abbrev sample : RidVector
sample = record {
  length = 2;
  size = 2;
  cells = record { size = 2; cell = λ i. if i == 0 then 5 else 7 };
}

abbrev sample_items : List ℕ
sample_items = 5 ∷ 7 ∷ []

sample-Holds : Holds sample sample_items
sample-Holds = record { sized = refl; fits = omega arith; small = omega arith; held = refl }

abbrev run : Option (List ℕ)
run = do v ← append sample 7; w ← append_vector v sample; u ← uniq w false; some (items u)

runs : run ≡ some (5 ∷ 7 ∷ 5 ∷ 7 ∷ [])
unfolding program
runs = refl

-- A length that is negative as an `int` leaves nothing.
uniq_negative : (uniq (record sample { length = 2 ^ 31 }) false >>= λ v. some v.length) ≡ some 0
unfolding program
uniq_negative = refl

-- A set of the identifiers 9 and 8.
abbrev set : RidSet
set = record {
  entry =
      λ h. if h == 0 then record { val = 9; next = 8 ∷ [] } else record { val = null; next = [] };
  scan_hash = 0;
  scan_entry = none;
}

set-IsValid : IsValid set
set-IsValid h = elim (Bool-cases (h == 0)) [
  | inl e ↦
      rw (e, ==→eq h 0 e)
        (record {
          empty = λ z. absurd (omega (arith, z));
          filled = (omega arith, tt);
          home = omega arith;
          distinct = omega arith;
        })
  | inr e ↦ rw e (record { empty = λ _. refl; filled = tt; home = tt; distinct = tt })
]

append_example : (v : RidVector) × (append sample 8 ≡ some v) × Holds v (sample_items ++ 8 ∷ [])
append_example = append-Holds sample sample_items 8 sample-Holds (omega arith)

append_vector_example :
    (v : RidVector) × (append_vector sample sample ≡ some v)
    × Holds v (sample_items ++ sample_items)
append_vector_example =
    append_vector-Holds sample sample sample_items sample_items sample-Holds sample-Holds
      (omega arith) (omega arith)

no_nulls_example :
    ((v : RidVector) × (append_vector_no_nulls sample sample ≡ some v)
      × Holds v (sample_items ++ keep (λ r. r != null) sample_items))
    × ((v : RidVector) × (append_vector_no_nulls_lit sample sample ≡ some v)
        × Holds v (sample_items ++ keep (λ r. r != null && negate (is_literal r)) sample_items))
no_nulls_example =
    append_vector_no_nulls-Holds sample sample sample_items sample_items sample-Holds sample-Holds
      (omega arith)

copy_example :
    (v : RidVector) × (copy sample ≡ some v) × Holds v sample_items × (sample.size ≤ v.size)
copy_example = copy-Holds sample sample_items sample-Holds

truncate_example : Holds (truncate sample 1) (take 1 sample_items)
truncate_example = truncate-Holds sample 1 sample_items sample-Holds

grow_example : Grown sample (grow sample 4) 4 sample_items
grow_example = grow-Grown sample 4 sample_items sample-Holds

contains_example : contains sample 7 ≡ some (elem 7 sample_items)
contains_example = contains-elem sample 7 sample_items sample-Holds

uniq_example :
    (v : RidVector) × (uniq sample true ≡ some v) × Holds v (uniq_items true sample_items)
uniq_example = uniq-Holds sample true sample_items sample-Holds

uniq_sorted_example :
    (v : RidVector) × (ys : List ℕ) × (uniq sample true ≡ some v)
    × Holds v ys
    × Distinct ys
    × ((w : ℕ) → elem w ys ≡ (if true && w == null then false else elem w sample_items))
uniq_sorted_example =
    uniq-Distinct sample true sample_items sample-Holds (omega arith) (omega arith)

members_of_set : length (members set) ≡ 2
unfolding bucket_values
members_of_set = refl

append_set_example :
    (v : RidVector) × (append_set sample set ≡ some v) × Holds v (sample_items ++ members set)
append_set_example =
    append_set-Holds sample set sample_items set-IsValid sample-Holds
      (omega (arith, members_of_set))
