-- ===== src/Bucket/Contents.antt =====
-- What a bucket of pairs holds: `add_pair`, `get_pair`.
use store.Prelude.{
  ℕ, zero, suc, ◌+◌, ◌*◌, ◌≤◌, ◌<◌, ◌≡◌, refl, ap, ap₂, ◌∙◌, Bool, true, false, ◌&&◌, ◌||◌, List,
  [], ◌∷◌, ◌++◌, append_assoc, some, arith, update, slice, slice-snoc, slice-update_above, ltb,
  ◌==◌, if◌then◌else◌, lt→ltb, Bool-cases, inl, inr,
}
use store.Rid.{null}
use store.Bucket.{Bucket, rid_data_len, fits_at, get_from, get_pair, add_pair}

-- The identifiers of a bucket, and its pairs from the index `i` on, `n` of them.
abbrev pub items : Bucket → List ℕ
items b = slice b.cells.cell 0 b.length

abbrev pub pairs_from : Bucket → ℕ → ℕ → List (ℕ × ℕ)
pairs_from b i zero = []
pairs_from b i (suc n) = (b.cells.cell i, b.cells.cell (i + 1)) ∷ pairs_from b (i + 2) n

-- Whether a list of pairs has one that fits a pattern, in which the null is a wildcard.
abbrev pub has_fit : ℕ → ℕ → List (ℕ × ℕ) → Bool
has_fit p0 p1 [] = false
has_fit p0 p1 (q ∷ qs) =
    if (p0 == null || q.0 == p0) && (p1 == null || q.1 == p1) then true else has_fit p0 p1 qs

-- A bucket of `n` pairs.
pub record IsPairs (b : Bucket) (n : ℕ) : Type 0 where
  pub even : b.length ≡ 2 * n
  pub short : b.length ≤ rid_data_len
  pub wide : rid_data_len ≤ b.cells.size

fits_at_lem :
    (b : Bucket) (p0 p1 i : ℕ)
    → i + 1 < b.cells.size
    → (p0 == null && p1 == null) ≡ false
    → fits_at b p0 p1 i
      ≡ some ((p0 == null || b.cells.cell i == p0) && (p1 == null || b.cells.cell (i + 1) == p1))
unfolding fits_at
fits_at_lem b p0 p1 i l n =
    simp (lt→ltb i b.cells.size (omega arith), lt→ltb (i + 1) b.cells.size l) (ground arith)

get_from-has_fit :
    (k n : ℕ) (b : Bucket) (p0 p1 i : ℕ)
    → i + 2 * n ≡ b.length
    → b.length ≤ b.cells.size
    → n ≤ k
    → (p0 == null && p1 == null) ≡ false
    → get_from k b p0 p1 i ≡ some (if has_fit p0 p1 (pairs_from b i n) then 0 else 1)
unfolding get_from
get_from-has_fit zero zero b p0 p1 i e l m w = refl
get_from-has_fit zero (suc n) b p0 p1 i e l m w = absurd (omega arith)
get_from-has_fit (suc k) zero b p0 p1 i e l m w =
    let end : ltb i b.length ≡ false = ground arith in rw end refl
get_from-has_fit (suc k) (suc n) b p0 p1 i e l m w =
    let more : ltb i b.length ≡ true = ground arith in
    let ih = get_from-has_fit k n b p0 p1 (i + 2) (omega arith) l (omega arith) w in
    simp (more, fits_at_lem b p0 p1 i (omega arith) w, ih) (ground arith)

-- At two wildcards any pair fits.
any_pair :
    (b : Bucket) (n p0 p1 : ℕ)
    → (p0 == null && p1 == null) ≡ true
    → b.length ≡ 2 * n
    → ltb 0 b.length ≡ has_fit p0 p1 (pairs_from b 0 n)
any_pair b zero p0 p1 w e = ground arith
any_pair b (suc n) p0 p1 w e = ground arith

-- On a bucket of n pairs, get_pair ends without a fault with 0 where one of its pairs fits the
-- pattern, in which the null is a wildcard, and with 1 otherwise.
pub get_pair-has_fit :
    (b : Bucket) (n p0 p1 : ℕ)
    → IsPairs b n
    → get_pair b p0 p1 ≡ some (if has_fit p0 p1 (pairs_from b 0 n) then 0 else 1)
unfolding get_pair
get_pair-has_fit b n p0 p1 v = elim (Bool-cases (p0 == null && p1 == null)) [
  | inl e ↦ rw (e, any_pair b n p0 p1 e v.even) refl
  | inr e ↦ rw e (
      get_from-has_fit b.length n b p0 p1 0 (omega (arith, v.even)) (omega (arith, v.short, v.wide))
        (omega (arith, v.even)) e)
]

snoc : List ℕ → ℕ → List ℕ
snoc xs x = xs ++ x ∷ []

-- On a bucket of fewer than 31 pairs, add_pair returns 0, and the bucket is then one of a pair
-- more, whose items are the old ones and the new pair behind them, with the same link.
pub add_pair-items :
    (b : Bucket) (n p0 p1 : ℕ)
    → IsPairs b n
    → n < 31
    → (b' : Bucket) × (add_pair b p0 p1 ≡ some (0, b'))
      × IsPairs b' (n + 1)
      × (items b' ≡ items b ++ p0 ∷ p1 ∷ [])
      × (b'.cont ≡ b.cont)
unfolding add_pair snoc
add_pair-items b n p0 p1 v room =
    let f = b.cells.cell in
    let g = update f b.length p0 in
    let fits : ltb rid_data_len (b.length + 2) ≡ false = ground (arith, v.even) in
    (
      record b {
        cells = record (b.cells) { cell = update g (b.length + 1) p1 };
        length = b.length + 2;
      },
      simp (
        fits,
        lt→ltb b.length b.cells.size (omega (arith, v.even, v.wide)),
        lt→ltb (b.length + 1) b.cells.size (omega (arith, v.even, v.wide)),
      ),
      record { even = omega (arith, v.even); short = omega (arith, v.even); wide = v.wide },
      ap (slice (update g (b.length + 1) p1) 0) {x = b.length + 2} {y = suc (suc b.length)}
            (omega arith)
          ∙ slice-snoc (update g (b.length + 1) p1) 0 (suc b.length)
          ∙ ap₂ snoc
              (slice-update_above g (b.length + 1) 0 (suc b.length) p1 (omega arith)
                ∙ slice-snoc g 0 b.length
                ∙ ap₂ snoc (slice-update_above f b.length 0 b.length p0 (omega arith))
                    (ground arith))
              (ground arith)
          ∙ append_assoc (items b) (p0 ∷ []) (p1 ∷ []),
      refl,
    )
