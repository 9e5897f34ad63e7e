-- ===== src/Bucket.antt =====
-- The buckets of src/backend/bucket.c. A bucket is read as up to 63 identifiers, two for a pair and
-- four for a quad, or as up to 126 numbers of 32 bits.
pub mod Contents
mod Tests
use store.Prelude.{
  ℕ, zero, suc, ◌+◌, ◌/◌, Bool, false, ◌&&◌, Option, some, Arr, load, save, ltb, leb, ◌==◌, ◌!=◌,
  if◌then◌else◌, ◌>>=◌,
}
use store.Rid.{null, gone}

-- FS_RID_BUCKET_DATA_LEN and FS_I32_BUCKET_DATA_LEN
abbrev pub rid_data_len : ℕ
rid_data_len = 63

abbrev pub i32_data_len : ℕ
i32_data_len = 126

-- `fs_rid_bucket` or `fs_i32_bucket`
pub record Bucket : Type 0 where
  pub cont : ℕ
  pub length : ℕ
  pub cells : Arr ℕ

-- Whether the pair at `i` fits a pattern that is not all wildcards. The second identifier is read
-- only where the first does not decide.
fits_at : Bucket → ℕ → ℕ → ℕ → Option Bool
fits_at b p0 p1 i =
    if p0 != null && p1 != null
    then (load b.cells i >>= λ x.
        if x == p0 then (load b.cells (i + 1) >>= λ y. some (y == p1)) else some false)
    else if p0 != null
    then (load b.cells i >>= λ x. some (x == p0))
    else (load b.cells (i + 1) >>= λ y. some (y == p1))

-- The loops of `get_pair`, with the rounds that are left.
get_from : ℕ → Bucket → ℕ → ℕ → ℕ → Option ℕ
get_from zero b p0 p1 i = some 1
get_from (suc k) b p0 p1 i =
    let rest = fits_at b p0 p1 i >>= λ fit.
    let on = get_from k b p0 p1 (i + 2) in if fit then some 0 else on in
    if ltb i b.length then rest else some 1

-- 0 for a pair that is found. A round for each item is more than enough.
pub get_pair : Bucket → ℕ → ℕ → Option ℕ
get_pair b p0 p1 =
    if p0 == null && p1 == null
    then some (if ltb 0 b.length then 0 else 1)
    else get_from b.length b p0 p1 0

-- The pair at `i` is marked as gone.
erase_pair : Bucket → ℕ → Option Bucket
erase_pair b i = do
  first ← save b.cells i gone
  cells ← save first (i + 1) gone
  some (record b { cells = cells })

-- The loops of `remove_pair` at a pattern: the bucket, the `highest` index kept, and the count.
remove_from : ℕ → Bucket → ℕ → ℕ → ℕ → ℕ → ℕ → Option (Bucket × ℕ × ℕ)
remove_from zero b p0 p1 i highest removed = some (b, highest, removed)
remove_from (suc k) b p0 p1 i highest removed =
    let rest = fits_at b p0 p1 i >>= λ fit. (if fit then erase_pair b i else some b) >>= λ b'.
    remove_from k b' p0 p1 (i + 2) (if fit then highest else i)
      (if fit then removed + 1 else removed) in
    if ltb i b.length then rest else some (b, highest, removed)

-- The loop of `remove_pair` at two wildcards.
erase_from : ℕ → Bucket → ℕ → Option Bucket
erase_from zero b i = some b
erase_from (suc k) b i =
    let rest = erase_pair b i >>= λ b'. erase_from k b' (i + 2) in
    if ltb i b.length then rest else some b

-- The bucket and the count of the pairs removed; the status is always 0.
pub remove_pair : Bucket → ℕ → ℕ → ℕ → Option (Bucket × ℕ)
remove_pair b p0 p1 removed =
    if p0 == null && p1 == null
    then (erase_from b.length b 0 >>= λ b'. some (record b' { length = 0 }, removed + b.length / 2))
    else (remove_from b.length b p0 p1 0 0 removed >>= λ (b', highest, n).
        some (record b' { length = highest + 2 }, n))

-- The status is 1 where there is no room.
pub add_single : Bucket → ℕ → Option (ℕ × Bucket)
add_single b val =
    if ltb rid_data_len (b.length + 1)
    then some (1, b)
    else save b.cells (b.length + 1) val >>= λ cells.
        some (0, record b { length = b.length + 1; cells = cells })

pub add_pair : Bucket → ℕ → ℕ → Option (ℕ × Bucket)
add_pair b p0 p1 = if ltb rid_data_len (b.length + 2) then some (1, b) else do
  c0 ← save b.cells b.length p0
  c1 ← save c0 (b.length + 1) p1
  some (0, record b { cells = c1; length = b.length + 2 })

pub add_quad : Bucket → ℕ → ℕ → ℕ → ℕ → Option (ℕ × Bucket)
add_quad b q0 q1 q2 q3 = if ltb rid_data_len (b.length + 4) then some (1, b) else do
  c0 ← save b.cells b.length q0
  c1 ← save c0 (b.length + 1) q1
  c2 ← save c1 (b.length + 2) q2
  c3 ← save c2 (b.length + 3) q3
  some (0, record b { cells = c3; length = b.length + 4 })

pub add_i32 : Bucket → ℕ → Option (ℕ × Bucket)
add_i32 b x =
    if leb i32_data_len b.length
    then some (1, b)
    else save b.cells b.length x >>= λ cells.
        some (0, record b { cells = cells; length = b.length + 1 })
