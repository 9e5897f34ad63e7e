-- ===== src/Chain.antt =====
-- The bucket chains of src/backend/chain.c: buckets in a mapped file that name the next one of a
-- chain, and a free list. The buckets of a file are all of one kind.
pub mod Walk
mod Tests
use store.Prelude.{
  ℕ, zero, suc, ◌+◌, ◌*◌, ◌/◌, ◌%◌, ◌^◌, Bool, true, false, ◌&&◌, ◌||◌, Option, none, some, Arr,
  load, save, ltb, leb, ◌==◌, ◌!=◌, if◌then◌else◌, ◌>>=◌, negate,
}
use store.Bucket
use store.Bucket.{Bucket, rid_data_len, i32_data_len}

-- `fs_chain` and its header: the mapping has one bucket more than `size`.
pub record Chain : Type 0 where
  pub mapped : Bool
  pub size : ℕ
  pub length : ℕ
  pub free_list : ℕ
  pub buckets : Arr Bucket

-- A bucket that the file gains when it is made longer.
abbrev pub blank : Bucket
blank = record { cont = 0; length = 0; cells = record { size = i32_data_len; cell = λ _. 0 } }

unmap_bc : Chain → Chain
unmap_bc bc = record bc { mapped = false }

map_bc : Chain → ℕ → ℕ → Chain
map_bc bc length size = record bc {
  mapped = true;
  size = size;
  length = length;
  buckets = record {
    size = size + 1;
    cell = λ j. if ltb j bc.buckets.size then bc.buckets.cell j else blank;
  };
}

-- Writes a bucket back.
put : Chain → ℕ → Bucket → Option Chain
put bc b k = save bc.buckets b k >>= λ buckets. some (record bc { buckets = buckets })

pub free_bucket : Chain → ℕ → Option (ℕ × Chain)
free_bucket bc b =
    if b == 0
    then some (1, bc)
    else load bc.buckets b >>= λ k. put bc b (record k { cont = bc.free_list }) >>= λ bc'.
        some (0, record bc' { free_list = b })

-- The first bucket of the free list, cleared.
reuse_bucket : Chain → Option (ℕ × Chain)
reuse_bucket bc =
    let newb = bc.free_list in
    load bc.buckets newb >>= λ k. put bc newb (record k { cont = 0; length = 0 }) >>= λ bc'.
    some (newb, record bc' { free_list = k.cont })

-- A bucket at the end of the file, which doubles where it is full. `size * 2` is an `int`.
extend_bucket : Chain → Option (ℕ × Chain)
extend_bucket bc =
    (if leb bc.size bc.length
      then (if leb (2 ^ 31) (bc.size * 2)
          then none
          else some (map_bc (unmap_bc bc) bc.length (bc.size * 2)))
      else some bc)
    >>= λ bc'. load bc'.buckets bc'.length >>= λ k.
        put bc' bc'.length (record k { cont = 0; length = 0 }) >>= λ q.
        some (bc'.length, record q { length = bc'.length + 1 })

pub new_bucket : Chain → Option (ℕ × Chain)
new_bucket bc =
    if negate bc.mapped
    then some (0, bc)
    else let bc' = if bc.length == 0 then record bc { length = 1 } else bc in
      if bc'.free_list != 0 then reuse_bucket bc' else extend_bucket bc'

-- The `do` loop of `remove`; the fuel bounds the buckets visited.
remove_from : ℕ → Chain → ℕ → Option (ℕ × Chain)
remove_from zero bc b = none
remove_from (suc f) bc b = do
  k ← load bc.buckets b
  (_, bc') ← free_bucket bc b
  let rest = remove_from f bc' k.cont
  if ltb bc'.size k.cont then some (1, bc') else if k.cont != 0 then rest else some (0, bc')

pub remove : ℕ → Chain → ℕ → Option (ℕ × Chain)
remove fuel bc b =
    if negate bc.mapped
    then some (1, bc)
    else if ltb bc.size b
    then some (1, bc)
    else if b == 0
    then some (1, bc)
    else remove_from fuel bc b

-- The walk of `add_quad` to a bucket with room: the bucket found, or 0, and the one before it;
-- `none` inside for a bucket that fails the sanity check.
find_room : ℕ → Chain → ℕ → ℕ → Option (Option (ℕ × ℕ))
find_room zero bc b oldb = none
find_room (suc f) bc b oldb = load bc.buckets b >>= λ k.
    let rest = find_room f bc k.cont b in
    if ltb rid_data_len (k.length + 4) && b != 0
    then (if ltb rid_data_len k.length then some none else rest)
    else some (some (b, oldb))

-- Adds to the bucket `b`: the result is `b`, or 0 where it has no room.
fill_quad : Chain → ℕ → ℕ → ℕ → ℕ → ℕ → Option (ℕ × Chain)
fill_quad bc b q0 q1 q2 q3 = load bc.buckets b >>= λ k.
    Bucket.add_quad k q0 q1 q2 q3 >>= λ (ret, k').
    put bc b k' >>= λ bc'. some (if ret != 0 then 0 else b, bc')

pub add_quad : ℕ → Chain → ℕ → ℕ → ℕ → ℕ → ℕ → Option (ℕ × Chain)
add_quad fuel bc b q0 q1 q2 q3 =
    if b == 0 || ltb bc.length b
    then some (0, bc)
    else find_room fuel bc b 0 >>= λ found. elim found [
      | none ↦ some (0, bc)
      | some (c, oldb) ↦
          if c == 0
          then (new_bucket bc >>= λ (n, bc'). load bc'.buckets oldb >>= λ k.
              put bc' oldb (record k { cont = n }) >>= λ q.
              if n == 0 then some (0, q) else fill_quad q n q0 q1 q2 q3)
          else fill_quad bc c q0 q1 q2 q3
    ]

fill_pair : Chain → ℕ → ℕ → ℕ → Option (ℕ × Chain)
fill_pair bc b p0 p1 = load bc.buckets b >>= λ k. Bucket.add_pair k p0 p1 >>= λ (ret, k').
    put bc b k' >>= λ bc'. some (if ret != 0 then 0 else b, bc')

-- A full head bucket gets a new one before it.
pub add_pair : Chain → ℕ → ℕ → ℕ → Option (ℕ × Chain)
add_pair bc b p0 p1 =
    if b == 0 || ltb bc.length b
    then some (0, bc)
    else load bc.buckets b >>= λ k.
        if ltb rid_data_len (k.length + 2)
        then (new_bucket bc >>= λ (n, bc'). load bc'.buckets n >>= λ m.
            put bc' n (record m { cont = b }) >>= λ q.
            if n == 0 then some (0, q) else fill_pair q n p0 p1)
        else fill_pair bc b p0 p1

-- The loop of `get_pair`; the fuel bounds the buckets visited.
get_from : ℕ → Chain → ℕ → ℕ → ℕ → Option ℕ
get_from zero bc b p0 p1 = none
get_from (suc f) bc b p0 p1 =
    let rest = load bc.buckets b >>= λ k.
    let on = Bucket.get_pair k p0 p1 >>= λ ret.
    let next = get_from f bc k.cont p0 p1 in if ret == 0 then some 0 else next in
    if ltb rid_data_len k.length then some 1 else on in
    if b != 0 then rest else some 1

pub get_pair : ℕ → Chain → ℕ → ℕ → ℕ → Option ℕ
get_pair fuel bc b p0 p1 = if b == 0 || ltb bc.length b then some 1 else get_from fuel bc b p0 p1

-- The loop of `remove_pair`.
remove_pair_from : ℕ → Chain → ℕ → ℕ → ℕ → ℕ → Option (ℕ × Chain × ℕ)
remove_pair_from zero bc b p0 p1 removed = none
remove_pair_from (suc f) bc b p0 p1 removed =
    let rest = load bc.buckets b >>= λ k.
    let on = Bucket.remove_pair k p0 p1 removed >>= λ (k', n).
    put bc b k' >>= λ bc'. remove_pair_from f bc' k'.cont p0 p1 n in
    if ltb rid_data_len k.length then some (1, bc, removed) else on in
    if b != 0 then rest else some (1, bc, removed)

-- The status, the chain and the count of the pairs removed.
pub remove_pair : ℕ → Chain → ℕ → ℕ → ℕ → ℕ → Option (ℕ × Chain × ℕ)
remove_pair fuel bc b p0 p1 removed =
    if b == 0 || ltb bc.length b
    then some (1, bc, removed)
    else remove_pair_from fuel bc b p0 p1 removed

-- The loop of `length`, with the items counted so far in an `int`: `none` where it overflows.
length_from : ℕ → Chain → ℕ → ℕ → Option ℕ
length_from zero bc b n = none
length_from (suc f) bc b n = load bc.buckets b >>= λ k.
    let rest = length_from f bc k.cont (n + k.length) in
    if leb (2 ^ 31) (n + k.length) then none else if k.cont != 0 then rest else some (n + k.length)

pub chain_length : ℕ → Chain → ℕ → Option ℕ
chain_length fuel bc b = if b == 0 || ltb bc.length b then some 0 else length_from fuel bc b 0

-- The walk of `add_i32`: the first bucket with room, or 0; `none` inside for a bad length.
find_i32 : ℕ → Chain → ℕ → Option (Option ℕ)
find_i32 zero bc b = none
find_i32 (suc f) bc b =
    let rest = load bc.buckets b >>= λ k.
    let on = find_i32 f bc k.cont in
    if leb i32_data_len k.length
    then (if ltb i32_data_len k.length then some none else on)
    else some (some b) in
    if b != 0 then rest else some (some 0)

fill_i32 : Chain → ℕ → ℕ → Option (ℕ × Chain)
fill_i32 bc b x = load bc.buckets b >>= λ k.
    Bucket.add_i32 k x >>= λ (ret, k'). put bc b k' >>= λ bc'. some (if ret != 0 then 0 else b, bc')

-- The bucket, `*newlength` where the call sets it, and the chain.
pub add_i32 : ℕ → Chain → ℕ → ℕ → Option (ℕ × Option ℕ × Chain)
add_i32 fuel bc bin x =
    if bin == 0 || ltb bc.length bin
    then some (0, none, bc)
    else find_i32 fuel bc bin >>= λ found. elim found [
      | none ↦ some (0, none, bc)
      | some b ↦
          if b == 0
          then (chain_length fuel bc bin >>= λ n. new_bucket bc >>= λ (newb, bc').
              load bc'.buckets newb >>= λ k. put bc' newb (record k { cont = bin }) >>= λ q.
              if newb == 0
              then some (0, some n, q)
              else (fill_i32 q newb x >>= λ (ret, r). some (ret, some n, r)))
          else (fill_i32 bc b x >>= λ (ret, q). some (ret, none, q))
    ]

-- The bucket that is at an index, unless it is a tree node's or a wrong one.
pub get_bucket : Chain → ℕ → Option (Option Bucket)
get_bucket bc b =
    if b / 2 ^ 31 % 2 == 1
    then some none
    else if ltb bc.length b
    then some none
    else if b == 0
    then some none
    else load bc.buckets b >>= λ k. some (some k)
