-- ===== src/Ptable/Walk.antt =====
-- Reading a chain: `get_row`, `get_next`, `pair_exists`, `chain_length`, `free_length`.
use store.Prelude.{
  ℕ, zero, suc, ◌+◌, ◌≤◌, ◌<◌, ◌≡◌, refl, ap, ◌!=◌, ◌∙◌, List, [], ◌∷◌, Bool, true, false, ◌&&◌,
  some, arith, length, ltb, ◌==◌, if◌then◌else◌, lt→ltb, ltb_of_ge, eq→==, ne→==, Bool-cases, inl,
  inr, ◌⊎◌,
}
use Prim.Native.Nat.{min}
use store.Ptable.{
  Ptable, get_row, get_next, exists_from, pair_exists, length_from, chain_length, free_length_from,
  free_length,
}
use store.Ptable.Invariant.{conts, IsChain, pairs, IsTable}

-- Whether a list of pairs has a pair.
abbrev pub has_pair : ℕ → ℕ → List (ℕ × ℕ) → Bool
has_pair p0 p1 [] = false
has_pair p0 p1 (q ∷ qs) = if q.0 == p0 && q.1 == p1 then true else has_pair p0 p1 qs

exists_from_lem :
    (f : ℕ) (pt : Ptable) (b p0 p1 : ℕ) (ids : List ℕ)
    → pt.length ≤ pt.rows.size
    → IsChain pt b ids
    → length ids < f
    → exists_from f pt b p0 p1 ≡ some (has_pair p0 p1 (pairs pt ids))
unfolding exists_from
exists_from_lem zero pt b p0 p1 ids s c l = absurd (omega arith)
exists_from_lem (suc f) pt b p0 p1 [] s c l = rw (eq→== b 0 c) refl
exists_from_lem (suc f) pt b p0 p1 (i ∷ ids) s c l =
    let ih = exists_from_lem f pt (conts pt i) p0 p1 ids s c.3 (omega arith) in
    simp (c.0, ne→== i 0 (omega (arith, c.1)), lt→ltb i pt.rows.size (omega (arith, c.2)), ih)
      (ground arith)

-- In a valid table and with more fuel than the chain has rows, pair_exists ends and says whether
-- the pair is among the pairs of the chain.
pub pair_exists-has_pair :
    (fuel : ℕ) (pt : Ptable) (b p0 p1 : ℕ) (frees ids : List ℕ)
    → IsTable pt frees
    → IsChain pt b ids
    → length ids < fuel
    → pair_exists fuel pt b p0 p1 ≡ some (has_pair p0 p1 (pairs pt ids))
unfolding pair_exists
pair_exists-has_pair fuel pt b p0 p1 frees [] v c l = rw (eq→== b 0 c) refl
pair_exists-has_pair fuel pt b p0 p1 frees (i ∷ ids) v c l =
    rw (ne→== b 0 (omega (arith, c.0, c.1)), ltb_of_ge pt.length b (omega (arith, c.0, c.2)))
      (exists_from_lem fuel pt b p0 p1 (i ∷ ids) v.fits c l)

length_from_lem :
    (f : ℕ) (pt : Ptable) (i max n : ℕ) (ids : List ℕ)
    → pt.length ≤ pt.rows.size
    → i < pt.length
    → IsChain pt (conts pt i) ids
    → length ids < f
    → (max ≡ 0) ⊎ (n ≤ max)
    → length_from f pt i max n
      ≡ some (if max == 0 then n + length ids else min (n + length ids) (max + 1))
unfolding length_from
length_from_lem zero pt i max n ids s k c l m = absurd (omega arith)
length_from_lem (suc f) pt i max n [] s k c l m =
    simp (lt→ltb i pt.rows.size (omega arith), eq→== (conts pt i) 0 c) (ground arith)
length_from_lem (suc f) pt i max n (j ∷ ids) s k c l m =
    simp (lt→ltb i pt.rows.size (omega arith), ne→== (conts pt i) 0 (omega (arith, c.0, c.1)))
      (elim (Bool-cases (max != 0 && ltb max (n + 1))) [
        | inl p ↦ rw p (ground arith)
        | inr p ↦
            rw (p, c.0)
              (length_from_lem f pt j max (n + 1) ids s c.2 c.3 (omega arith) (ground arith)
                ∙ ground arith)
      ])

-- In a valid table and with as much fuel as the chain has rows, chain_length ends with the number
-- of its rows, cut off at one more than the limit unless the limit is 0.
pub chain_length-eq-length :
    (fuel : ℕ) (pt : Ptable) (b max : ℕ) (frees ids : List ℕ)
    → IsTable pt frees
    → IsChain pt b ids
    → length ids ≤ fuel
    → chain_length fuel pt b max
      ≡ some (if max == 0 then length ids else min (length ids) (max + 1))
unfolding chain_length
chain_length-eq-length fuel pt b max frees [] v c l = rw (eq→== b 0 c) (ground arith)
chain_length-eq-length fuel pt b max frees (i ∷ ids) v c l =
    rw (ne→== b 0 (omega (arith, c.0, c.1)), ltb_of_ge pt.length b (omega (arith, c.0, c.2)), c.0)
      (length_from_lem fuel pt i max 1 ids v.fits c.2 c.3 (omega arith) (omega arith)
        ∙ ground arith)

free_length_from_lem :
    (f : ℕ) (pt : Ptable) (b n : ℕ) (ids : List ℕ)
    → pt.length ≤ pt.rows.size
    → IsChain pt b ids
    → length ids < f
    → free_length_from f pt b n ≡ some (n + length ids + 1)
unfolding free_length_from
free_length_from_lem zero pt b n ids s c l = absurd (omega arith)
free_length_from_lem (suc f) pt b n [] s c l = rw (eq→== b 0 c) (ground arith)
free_length_from_lem (suc f) pt b n (i ∷ ids) s c l =
    simp (c.0, ne→== i 0 (omega (arith, c.1)), lt→ltb i pt.rows.size (omega (arith, c.2)))
      (free_length_from_lem f pt (conts pt i) (n + 1) ids s c.3 (omega arith)
        ∙ ap some (omega arith))

-- In a valid table and with more fuel than there are free rows, free_length ends with one more
-- than the number of rows on the free list.
pub free_length-eq-length :
    (fuel : ℕ) (pt : Ptable) (frees : List ℕ)
    → IsTable pt frees
    → length frees < fuel
    → free_length fuel pt ≡ some (length frees + 1)
unfolding free_length
free_length-eq-length fuel pt frees v l =
    free_length_from_lem fuel pt pt.free_list 0 frees v.fits v.free l ∙ ap some (omega arith)

-- At the head of a chain of a valid table, get_row gives the pair of the row and get_next a row
-- from which the rest of the chain starts.
pub get_row-get_next-IsChain :
    (pt : Ptable) (b i : ℕ) (frees ids : List ℕ)
    → IsTable pt frees
    → IsChain pt b (i ∷ ids)
    → (get_row pt b ≡ some (0, some ((pt.rows.cell i).first, (pt.rows.cell i).second)))
      × (next : ℕ) × (get_next pt b ≡ some next)
      × IsChain pt next ids
unfolding get_row get_next
get_row-get_next-IsChain pt b i frees ids v c =
    let some_row = ne→== i 0 (omega (arith, c.1)) in
    let below = ltb_of_ge pt.length i (omega (arith, c.2)) in
    let inside = lt→ltb i pt.rows.size (omega (arith, c.2, v.fits)) in
    (simp (c.0, some_row, below, inside), conts pt i, simp (c.0, below, inside), c.3)
