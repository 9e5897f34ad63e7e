-- ===== src/Chain/Walk.antt =====
-- Reading a chain of buckets: `length`, `get_pair`.
use store.Prelude.{
  ℕ, zero, suc, ◌+◌, ◌/◌, ◌≤◌, ◌<◌, ◌≡◌, refl, ap, ◌∙◌, true, List, [], ◌∷◌, ◌++◌, some, arith,
  Linked, length, if◌then◌else◌, lt→ltb, ltb_of_ge, eq→==, ne→==, Bool-cases, inl, inr, leb, ◌^◌,
  false,
}
use store.Bucket.{rid_data_len}
use store.Bucket.Contents.{IsPairs, pairs_from, has_fit, get_pair-has_fit}
use store.Chain.{Chain, length_from, chain_length, get_from, get_pair}

abbrev pub conts : Chain → ℕ → ℕ
conts bc i = (bc.buckets.cell i).cont

-- The buckets of the chain that starts at `b`.
abbrev pub IsChain : Chain → ℕ → List ℕ → Type 0
IsChain bc b ids = Linked (conts bc) 1 bc.length b ids

-- The numbers of the items of the buckets, in all.
abbrev pub total : Chain → List ℕ → ℕ
total bc [] = 0
total bc (i ∷ ids) = (bc.buckets.cell i).length + total bc ids

length_from-total :
    (f : ℕ) (bc : Chain) (i n : ℕ) (ids : List ℕ)
    → bc.length ≤ bc.buckets.size
    → i < bc.length
    → IsChain bc (conts bc i) ids
    → length ids < f
    → n + total bc (i ∷ ids) < 2 ^ 31
    → length_from f bc i n ≡ some (n + total bc (i ∷ ids))
unfolding length_from
length_from-total zero bc i n ids s k c l w = absurd (omega arith)
length_from-total (suc f) bc i n [] s k c l w =
    let in_int : leb (2 ^ 31) (n + (bc.buckets.cell i).length) ≡ false = ground arith in
    simp (in_int, lt→ltb i bc.buckets.size (omega arith), eq→== (conts bc i) 0 c)
      (ap some (omega arith))
length_from-total (suc f) bc i n (j ∷ ids) s k c l w =
    let in_int : leb (2 ^ 31) (n + (bc.buckets.cell i).length) ≡ false = ground arith in
    simp (in_int, lt→ltb i bc.buckets.size (omega arith), ne→== j 0 (omega (arith, c.1)), c.0)
      (length_from-total f bc j (n + (bc.buckets.cell i).length) ids s c.2 c.3 (omega arith)
          (omega arith)
        ∙ ap some (omega arith))

-- In a file whose buckets in use lie in the mapping, for a chain that starts at a bucket in use
-- and with as much fuel as it has buckets, chain_length ends with the sum of the lengths of its
-- buckets, if that is below 2^31.
pub chain_length-total :
    (fuel : ℕ) (bc : Chain) (b : ℕ) (ids : List ℕ)
    → bc.length ≤ bc.buckets.size
    → IsChain bc b (b ∷ ids)
    → length ids < fuel
    → total bc (b ∷ ids) < 2 ^ 31
    → chain_length fuel bc b ≡ some (total bc (b ∷ ids))
unfolding chain_length
chain_length-total fuel bc b ids s c l w =
    simp (ne→== b 0 (omega (arith, c.1)), ltb_of_ge bc.length b (omega (arith, c.2)))
      (length_from-total fuel bc b 0 ids s c.2 c.3 l (omega arith) ∙ ap some (omega arith))

-- The pairs of a chain of buckets of pairs.
abbrev pub chain_pairs : Chain → List ℕ → List (ℕ × ℕ)
chain_pairs bc [] = []
chain_pairs bc (i ∷ ids) =
    pairs_from (bc.buckets.cell i) 0 ((bc.buckets.cell i).length / 2) ++ chain_pairs bc ids

has_fit-append :
    (p0 p1 : ℕ) (xs ys : List (ℕ × ℕ))
    → has_fit p0 p1 (xs ++ ys) ≡ (if has_fit p0 p1 xs then true else has_fit p0 p1 ys)
has_fit-append p0 p1 [] ys = refl
has_fit-append p0 p1 (x ∷ xs) ys = ground (arith, has_fit-append p0 p1 xs ys)

get_from-has_fit :
    (f : ℕ) (bc : Chain) (b p0 p1 : ℕ) (ids : List ℕ)
    → bc.length ≤ bc.buckets.size
    → ((i : ℕ) → IsPairs (bc.buckets.cell i) ((bc.buckets.cell i).length / 2))
    → IsChain bc b ids
    → length ids < f
    → get_from f bc b p0 p1 ≡ some (if has_fit p0 p1 (chain_pairs bc ids) then 0 else 1)
unfolding get_from
get_from-has_fit zero bc b p0 p1 ids s v c l = absurd (omega arith)
get_from-has_fit (suc f) bc b p0 p1 [] s v c l = rw (eq→== b 0 c) refl
get_from-has_fit (suc f) bc b p0 p1 (i ∷ ids) s v c l =
    let k = bc.buckets.cell i in
    let ih = get_from-has_fit f bc (conts bc i) p0 p1 ids s v c.3 (omega arith) in
    let found = get_pair-has_fit k (k.length / 2) p0 p1 (v i) in
    let sane = ltb_of_ge rid_data_len k.length (omega (arith, (v i).short)) in
    simp
      (
        c.0,
        ne→== i 0 (omega (arith, c.1)),
        lt→ltb i bc.buckets.size (omega (arith, c.2)),
        sane,
        found,
        ih,
        has_fit-append p0 p1 (pairs_from k 0 (k.length / 2)) (chain_pairs bc ids),
      )
      (elim (Bool-cases (has_fit p0 p1 (pairs_from k 0 (k.length / 2)))) [
        | inl e ↦ rw e refl
        | inr e ↦ rw e refl
      ])

-- In a file of buckets of pairs that lie in the mapping, for a chain that starts at a bucket in
-- use and with more fuel than it has buckets, get_pair ends with 0 where a pair of the chain fits
-- the pattern, and with 1 otherwise.
pub get_pair-has_pair :
    (fuel : ℕ) (bc : Chain) (b p0 p1 : ℕ) (ids : List ℕ)
    → bc.length ≤ bc.buckets.size
    → ((i : ℕ) → IsPairs (bc.buckets.cell i) ((bc.buckets.cell i).length / 2))
    → IsChain bc b (b ∷ ids)
    → suc (length ids) < fuel
    → get_pair fuel bc b p0 p1 ≡ some (if has_fit p0 p1 (chain_pairs bc (b ∷ ids)) then 0 else 1)
unfolding get_pair
get_pair-has_pair fuel bc b p0 p1 ids s v c l =
    simp (ne→== b 0 (omega (arith, c.1)), ltb_of_ge bc.length b (omega (arith, c.2)))
      (get_from-has_fit fuel bc b p0 p1 (b ∷ ids) s v c l)
