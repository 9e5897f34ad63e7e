-- ===== src/RidSet/Tests.antt =====
-- Sets of identifiers at concrete values.
use store.Prelude.{◌≡◌, refl, true, false, arith, if◌then◌else◌, ◌==◌, elem, Distinct}
use store.Rid.{null}
use store.RidSet.{
  RidSet, new, add_walk, add_entry, add, contains_walk, contains_entry, contains, rewind_from,
  rewind, advance, current, step_cursor, next_from, next,
}
use store.RidSet.Contents.{IsValid, new-IsValid, add-IsValid, contains-add}
use store.RidSet.Scan.{remaining, members, head_or_null, rest, rewind-remaining, next-remaining}
use store.RidSet.Members.{elem-members, members-Distinct}

program : Unit {0}
unfolding new add_walk add_entry add contains_walk contains_entry contains rewind_from rewind
    advance current step_cursor next_from next
program = tt

-- 5 and 9 share a bucket, 8192 has another.
abbrev sample : RidSet
sample = add (add (add new 5) 8192) 9

sample-IsValid : IsValid sample
sample-IsValid =
    add-IsValid (add (add new 5) 8192) 9
      (add-IsValid (add new 5) 8192 (add-IsValid new 5 new-IsValid))

sample_holds :
    (contains sample 9 ≡ true) × (contains sample 7 ≡ false) × (contains sample null ≡ false)
unfolding program
sample_holds = (refl, refl, refl)

sample_scan :
    let (a, s) = next (rewind sample) in
    let (b, t) = next s in
    let (c, u) = next t in (a ≡ 5) × (b ≡ 9) × (c ≡ 8192) × ((next u).0 ≡ null)
unfolding program
sample_scan = (refl, refl, refl, refl)

contains-add_example :
    contains (add sample 4) 9
    ≡ (if 9 == null then false else if 9 == 4 then true else contains sample 9)
contains-add_example = contains-add sample 4 9 sample-IsValid

add-IsValid_example : IsValid (add sample 4)
add-IsValid_example = add-IsValid sample 4 sample-IsValid

rewind-remaining_example :
    (remaining (rewind sample) ≡ members sample) × ((rewind sample).entry ≡ sample.entry)
rewind-remaining_example = rewind-remaining sample

next-remaining_example :
    ((next sample).0 ≡ head_or_null (remaining sample))
    × (remaining (next sample).1 ≡ rest (remaining sample))
    × ((next sample).1.entry ≡ sample.entry)
next-remaining_example = next-remaining sample sample-IsValid

elem-members_example : elem 9 (members sample) ≡ contains sample 9
elem-members_example = elem-members sample 9 sample-IsValid (omega arith)

members-Distinct_example : Distinct (members sample)
members-Distinct_example = members-Distinct sample sample-IsValid
