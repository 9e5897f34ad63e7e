-- ===== src/DiskList/Tests.antt =====
-- Disk lists at concrete values.
use store.Prelude.{
  ℕ, ◌≡◌, refl, true, [], ◌∷◌, ◌++◌, some, none, arith, length, get_elem?, ltb, ◌==◌, if◌then◌else◌,
}
use store.DiskList.{FsList, Io, chunk_sorted, flushed, add, get, rewind, next_value, truncate}
use store.DiskList.Contents.{contents, IsList, add-contents, get-contents}
use store.DiskList.Scan.{
  unread, first, others, status_of, next_value-unread, rewind-unread, truncate-contents,
}

abbrev pub working : Io
working = record { seeks = true; writes = true; reads = true; truncates = true; maps = true }

-- Two sorted chunks, 2 4 and 2 3, and the item 9 in the buffer.
abbrev pub sample : FsList ℕ
sample = record {
  file = record { size = 4; cell = λ i. if i == 1 then 4 else if i == 3 then 3 else 2 };
  position = 0;
  named = true;
  offset = 4;
  buffer_pos = 1;
  buffer = record { size = 256; cell = λ _. 9 };
  chunk_rows = 2;
  sort = chunk_sorted;
  sort_func = ltb;
  count = 0;
  merge = none;
}

sample-IsList : IsList sample
sample-IsList = record { open_list = refl; stored = refl; room = refl; fits = omega arith }

add_example :
    (l : FsList ℕ) × (add working sample 8 ≡ some (length (contents sample), l))
    × IsList l
    × (contents l ≡ contents sample ++ 8 ∷ [])
add_example = add-contents working sample 8 sample-IsList refl refl (omega arith)

get_example :
    (l : FsList ℕ) × (get working sample 4
      ≡ some (if ltb 4 (length (contents sample)) then 0 else 1, get_elem? (contents sample) 4, l))
    × IsList l
    × (contents l ≡ contents sample)
get_example = get-contents working sample 4 sample-IsList refl refl

next_value_example :
    (l : FsList ℕ) × (next_value working sample
      ≡ (status_of (first (unread sample)), first (unread sample), l))
    × (unread l ≡ others (unread sample))
    × (contents l ≡ contents sample)
next_value_example = next_value-unread working sample refl

rewind_example : unread (rewind (flushed sample)) ≡ contents sample
rewind_example = rewind-unread sample sample-IsList

truncated : (l : FsList ℕ) × (truncate working sample ≡ (0, l)) × IsList l × (contents l ≡ [])
truncated = truncate-contents working sample sample-IsList refl
