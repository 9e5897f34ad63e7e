-- ===== src/Mhash/Tests.antt =====
-- Runs of the model hash, and the theorems of this directory at small tables.
use store.Prelude.{ℕ, ◌≡◌, ◌≢◌, refl, arith, none, some, ◌==◌, if◌then◌else◌}
use store.Prelude.Int.{pos}
use store.Mhash.{
  Mhash, blank, empty, find_from, find_slot, put, get, double_size, move_from, move_entry,
  write_entry,
}
use store.Mhash.Table.{IsTable, contents, empty-IsTable}
use store.Mhash.Stored.{grown, put-contents}
use store.Mhash.Get.{last_place, get-put, get-stored}

-- One entry, which the model 1024 has.
abbrev full : Mhash
full = record {
  size = 1;
  count = pos 1;
  search_dist = 0;
  slots = 1;
  entry = λ i. if i == 0 then record { rid = 1024; val = 7 } else blank;
}

full-IsTable : IsTable full
full-IsTable = record {
  not_empty = omega arith;
  unset = λ i. ground arith;
  inside = λ i. ground arith;
  above = λ i. ground arith;
  near = λ i. ground arith;
  single = λ i j. ground arith;
}

-- The table after it has grown: 1024 has moved to the entry 1.
abbrev doubled : Mhash
doubled = record {
  size = 2;
  count = pos 1;
  search_dist = 1;
  slots = 2;
  entry = λ j.
      if j == 1
      then record { rid = 1024; val = 7 }
      else if j == 0
      then blank
      else if j == 0
      then record { rid = 1024; val = 7 }
      else blank;
}

full_grows : find_slot full 2048 ≡ none
unfolding find_slot find_from
full_grows = refl

double_size-full : grown 1 full ≡ some doubled
unfolding double_size move_from move_entry write_entry
double_size-full = refl

slot_in-doubled : find_slot doubled 2048 ≡ some 0
unfolding find_slot find_from
slot_in-doubled = refl

put-contents_example :
    (mh' : Mhash) × (put 2 full 2048 9 ≡ some mh')
    × IsTable mh'
    × ((r' : ℕ) → r' ≢ 0 → contents mh' r' ≡ (if r' == 2048 then 9 else contents full r'))
put-contents_example =
    put-contents 1 full doubled 2048 9 0 full-IsTable (omega arith) double_size-full slot_in-doubled

slot_in-empty : find_slot empty 5000 ≡ some 4
unfolding find_slot find_from
slot_in-empty = refl

get-put_example :
    (mh' : Mhash) × (put 1 empty 5000 7 ≡ some mh')
    × ((r' : ℕ)
        → r' ≢ 0
        → get mh' r'
          ≡ (if r' == 5000 then (if 4 == last_place empty 5000 then 0 else 7) else get empty r'))
get-put_example = get-put empty 5000 7 4 empty-IsTable (omega arith) slot_in-empty

get-stored_example :
    get full 1024
    ≡ (if (full.entry (last_place full 1024)).rid == 1024 then 0 else contents full 1024)
get-stored_example = get-stored full 1024 full-IsTable (omega arith)
