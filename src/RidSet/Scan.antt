-- ===== src/RidSet/Scan.antt =====
-- A scan of a set: `rewind`, then `next` until it returns the null.
use store.Prelude.{
  ℕ, zero, suc, ◌+◌, ◌-◌, ◌≡◌, ◌≢◌, refl, ap, ◌∙◌, List, [], ◌∷◌, ◌++◌, false, arith, if◌then◌else◌,
  ◌==◌, Bool-cases, inl, inr, ◌⊎◌, length, get_elem?, Option, none, some, ltb, lt→ltb, drop,
  drop-ge, drop_cases, All-get_elem?, ==→ne, ==→eq, ne→==, sym,
}
use store.Rid.{null}
use store.RidSet.{
  RidEntry, RidSet, entries, rewind_from, rewind, next_from, next, advance, current, step_cursor,
}
use store.RidSet.Contents.{values, IsEntry, IsValid}

-- The values of the `n` buckets from `h` on.
unfoldable pub bucket_values : (ℕ → RidEntry) → ℕ → ℕ → List ℕ
bucket_values f h zero = []
bucket_values f h (suc n) = values (f h) ++ bucket_values f (h + 1) n

-- All that a set holds, in the order of a scan.
abbrev pub members : RidSet → List ℕ
members s = bucket_values s.entry 0 entries

-- What stands from the cursor on in its bucket.
abbrev pub rest_of_bucket : RidEntry → Option ℕ → List ℕ
rest_of_bucket e none = []
rest_of_bucket e (some p) = drop p (values e)

-- What a scan has still to return.
abbrev pub remaining : RidSet → List ℕ
remaining s =
    if ltb s.scan_hash entries
    then rest_of_bucket (s.entry s.scan_hash) s.scan_entry
      ++ bucket_values s.entry (s.scan_hash + 1) (entries - s.scan_hash - 1)
    else []

-- The first of a list, or the null.
abbrev pub head_or_null : List ℕ → ℕ
head_or_null [] = null
head_or_null (x ∷ xs) = x

abbrev pub rest : List ℕ → List ℕ
rest [] = []
rest (x ∷ xs) = xs

-- The buckets from `h` on, of which `n` are left, as a cursor at the first cell sees them.
from_bucket :
    (f : ℕ → RidEntry) (h n : ℕ)
    → h + n ≡ entries
    → (if ltb h entries then values (f h) ++ bucket_values f (h + 1) (entries - h - 1) else [])
      ≡ bucket_values f h n
unfolding bucket_values
from_bucket f h zero e = ground arith
from_bucket f h (suc n) e =
    let k : 1024 - h - 1 ≡ n = omega arith in rw (lt→ltb h 1024 (omega arith), k) refl

rewind_from-remaining :
    (k i : ℕ) (s : RidSet)
    → i + k ≡ entries
    → (remaining (rewind_from k i s) ≡ bucket_values s.entry i k)
      × ((rewind_from k i s).entry ≡ s.entry)
unfolding rewind_from bucket_values
rewind_from-remaining zero i s e = (refl, refl)
rewind_from-remaining (suc k) i s e =
    let ih = rewind_from-remaining k (i + 1) s (omega arith) in
    elim (Bool-cases ((s.entry i).val == null)) [
      | inl p ↦ rw p ih
      | inr p ↦
          let e' : 1024 - i - 1 ≡ k = omega arith in
          rw (p, lt→ltb i 1024 (omega arith), e', p) (refl, refl)
    ]

-- After rewind all members of the set remain of the scan, and the table is unchanged.
pub rewind-remaining :
    (s : RidSet) → (remaining (rewind s) ≡ members s) × ((rewind s).entry ≡ s.entry)
unfolding rewind
rewind-remaining s = rewind_from-remaining 1024 0 s refl

null_bucket :
    (e : RidEntry) (p : ℕ)
    → e.val ≡ null
    → e.next ≡ []
    → (get_elem? (e.val ∷ e.next) p ≡ some null) ⊎ (get_elem? (e.val ∷ e.next) p ≡ none)
null_bucket e zero q n = inl (rw q refl)
null_bucket e (suc p) q n = inr (rw n refl)

-- The cursor moves on by one value.
advance_lem :
    (e : RidEntry) (p : ℕ)
    → (e.val == null) ≡ false
    → rest_of_bucket e (advance e p) ≡ drop (suc p) (values e)
unfolding advance
advance_lem e p q = elim (Bool-cases (ltb p (length e.next))) [
  | inl r ↦ let one : p + 1 ≡ suc p = omega arith in rw (r, one) refl
  | inr r ↦ rw (r, q) (sym (drop-ge p e.next (ground arith)))
]

cell-ne-null :
    (h : ℕ) (e : RidEntry) (p v : ℕ)
    → IsEntry h e
    → (e.val == null) ≡ false
    → get_elem? (e.val ∷ e.next) p ≡ some v
    → (v == null) ≡ false
cell-ne-null h e p v i q g =
    ne→== v null
      (All-get_elem? (λ w. w ≢ null) (e.val ∷ e.next) p v (==→ne e.val null q, i.filled) g)

-- The cursor has left its bucket, or stands on the first value that remains there.
current_cases :
    (s : RidSet)
    → IsEntry s.scan_hash (s.entry s.scan_hash)
    → ((current s ≡ none) × (rest_of_bucket (s.entry s.scan_hash) s.scan_entry ≡ []))
      ⊎ ((v : ℕ) × (current s ≡ some v)
          × (rest_of_bucket (s.entry s.scan_hash) s.scan_entry
              ≡ v ∷ rest_of_bucket (s.entry s.scan_hash) (step_cursor s).scan_entry))
unfolding current step_cursor advance
current_cases s i = cursor_cases s.scan_entry
  where
    cursor_cases :
        (o : Option ℕ)
        → ((current (record s { scan_entry = o }) ≡ none)
            × (rest_of_bucket (s.entry s.scan_hash) o ≡ []))
          ⊎ ((v : ℕ) × (current (record s { scan_entry = o }) ≡ some v)
              × (rest_of_bucket (s.entry s.scan_hash) o
                  ≡ v
                    ∷ rest_of_bucket
                        (s.entry s.scan_hash)
                        (step_cursor (record s { scan_entry = o })).scan_entry))
    cursor_cases none = inl (refl, refl)
    cursor_cases (some p) = elim (Bool-cases ((s.entry s.scan_hash).val == null)) [
      | inl q ↦ inl (
        elim (null_bucket (s.entry s.scan_hash) p (==→eq _ _ q) (i.empty (==→eq _ _ q))) [
          | inl g ↦ rw (g, current) refl
          | inr g ↦ rw (g, current) refl
        ],
        rw q (drop-ge p [] (omega arith)),
      )
      | inr q ↦ elim (drop_cases p ((s.entry s.scan_hash).val ∷ (s.entry s.scan_hash).next)) [
        | inl (g, d) ↦ inl (rw (g, current) refl, rw q d)
        | inr (v, g, d) ↦ inr (
          v,
          rw (g, current) (rw (cell-ne-null s.scan_hash (s.entry s.scan_hash) p v i q g) refl),
          rw (q, advance_lem (s.entry s.scan_hash) p q, q) d,
        )
      ]
    ]

step_cursor-keeps :
    (s : RidSet) → ((step_cursor s).scan_hash ≡ s.scan_hash) × ((step_cursor s).entry ≡ s.entry)
unfolding step_cursor
step_cursor-keeps s = ground arith

-- What remains, with the bucket under the cursor set apart.
remaining_lem :
    (k : ℕ) (s : RidSet)
    → s.scan_hash + suc k ≡ entries
    → remaining s
      ≡ rest_of_bucket (s.entry s.scan_hash) s.scan_entry
        ++ bucket_values s.entry (s.scan_hash + 1) k
remaining_lem k s e =
    let n : 1024 - s.scan_hash - 1 ≡ k = omega arith in
    rw (lt→ltb s.scan_hash 1024 (omega arith), n) refl

module _ (k : ℕ) (s : RidSet) (e : s.scan_hash + suc k ≡ entries) where
  -- An exhausted bucket leaves what the buckets behind it hold.
  skips :
      rest_of_bucket (s.entry s.scan_hash) s.scan_entry ≡ []
      → remaining s ≡ remaining (record s { scan_hash = s.scan_hash + 1; scan_entry = some 0 })
  skips r =
      rw (remaining_lem k s e, r) (sym (from_bucket s.entry (s.scan_hash + 1) k (omega arith)))

  returns :
      (x : ℕ)
      → rest_of_bucket (s.entry s.scan_hash) s.scan_entry
        ≡ x ∷ rest_of_bucket (s.entry s.scan_hash) (step_cursor s).scan_entry
      → remaining s ≡ x ∷ remaining (step_cursor s)
  returns x r =
      rw
        (
          remaining_lem k s e,
          r,
          remaining_lem k (step_cursor s) (ap (λ h. h + suc k) (step_cursor-keeps s).0 ∙ e),
          (step_cursor-keeps s).0,
          (step_cursor-keeps s).1,
        )
        refl

next_from-none :
    (k : ℕ) (s : RidSet)
    → current s ≡ none
    → next_from (suc k) s
      ≡ next_from k (record s { scan_hash = s.scan_hash + 1; scan_entry = some 0 })
unfolding next_from
next_from-none k s c = ground arith

next_from-some :
    (k : ℕ) (s : RidSet) {x : ℕ} → current s ≡ some x → next_from (suc k) s ≡ (x, step_cursor s)
unfolding next_from
next_from-some k s c = ground arith

next_from-remaining :
    (k : ℕ) (s : RidSet)
    → IsValid s
    → s.scan_hash + k ≡ entries
    → ((next_from k s).0 ≡ head_or_null (remaining s))
      × (remaining (next_from k s).1 ≡ rest (remaining s))
      × ((next_from k s).1.entry ≡ s.entry)
unfolding next_from
next_from-remaining zero s v e =
    let n : ltb s.scan_hash 1024 ≡ false = ground arith in rw n (refl, refl, refl)
next_from-remaining (suc k) s v e =
    let ih =
      next_from-remaining k (record s { scan_hash = s.scan_hash + 1; scan_entry = some 0 }) v
        (omega arith) in
    elim (current_cases s (v s.scan_hash)) [
      | inl (c, r) ↦ rw (next_from-none k s c, skips k s e r) ih
      | inr (x, c, r) ↦
          rw (next_from-some k s c, returns k s e x r) (refl, refl, (step_cursor-keeps s).1)
    ]

-- In a valid set, next returns the first identifier that remains of the scan, or the null where
-- none remains, leaves the rest as what remains, and does not change the table.
pub next-remaining :
    (s : RidSet)
    → IsValid s
    → ((next s).0 ≡ head_or_null (remaining s))
      × (remaining (next s).1 ≡ rest (remaining s))
      × ((next s).1.entry ≡ s.entry)
unfolding next
next-remaining s v = elim (Bool-cases (ltb s.scan_hash 1024)) [
  | inl n ↦ next_from-remaining (1024 - s.scan_hash) s v (ground arith)
  | inr n ↦ let z : 1024 - s.scan_hash ≡ 0 = ground arith in rw (z, n) (refl, refl, refl)
]
