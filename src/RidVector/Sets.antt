-- ===== src/RidVector/Sets.antt =====
-- `append_set`: the members of a set, in the order of a scan.
use store.Prelude.{
  ℕ, zero, suc, ◌+◌, ◌^◌, ◌<◌, ◌≡◌, ◌≢◌, refl, ap, ◌∙◌, subst, List, [], ◌∷◌, ◌++◌, append_assoc,
  append-nil, some, arith, All, length, length-append, keep, ◌==◌, ◌!=◌, Bool-cases, inl, inr,
  ne→==, ==→eq,
}
use store.Rid.{null}
use store.RidSet.{RidEntry, RidSet}
use store.RidSet.Contents.{values, IsEntry, IsValid}
use store.RidSet.Scan.{bucket_values, members}
use store.RidVector.{RidVector, append_cells, append_buckets, append_set}
use store.RidVector.Append.{Holds, append-Holds}

-- The items that are no nulls.
abbrev known : List ℕ → List ℕ
known = keep (λ x. x != null)

append_cells-Holds :
    (v : RidVector) (xs cs : List ℕ)
    → Holds v xs
    → length xs + length (known cs) < 2 ^ 31
    → (v' : RidVector) × (append_cells v cs ≡ some v') × Holds v' (xs ++ known cs)
unfolding append_cells
append_cells-Holds v xs [] h room = (v, refl, rw (append-nil xs) h)
append_cells-Holds v xs (c ∷ cs) h room = elim (Bool-cases (c != null)) [
  | inl e ↦
      let longer = length-append xs (c ∷ []) in
      let one : length (known (c ∷ cs)) ≡ suc (length (known cs)) = rw e refl in
      let (q, run, g) = append-Holds v xs c h (omega (arith, room, one)) in
      let (w, runs, y) =
        append_cells-Holds q (xs ++ c ∷ []) cs g (omega (arith, room, one, longer)) in
      (w, simp (e, run) runs, subst (Holds w) (append_assoc xs (c ∷ []) (known cs) ∙ rw e refl) y)
  | inr e ↦
      let (w, runs, y) = append_cells-Holds v xs cs h (rw e at room) in (w, simp e runs, rw e y)
]

keep_known : (xs : List ℕ) → All (λ v. v ≢ null) xs → known xs ≡ xs
keep_known [] a = refl
keep_known (x ∷ xs) a = rw (ne→== x null a.0) (ap (λ ys. x ∷ ys) (keep_known xs a.1))

known-values : (h : ℕ) (e : RidEntry) → IsEntry h e → known (e.val ∷ e.next) ≡ values e
known-values h e i = elim (Bool-cases (e.val == null)) [
  | inl p ↦ rw (p, i.empty (==→eq e.val null p)) refl
  | inr p ↦ rw p (ap (λ ys. e.val ∷ ys) (keep_known e.next i.filled))
]

append_buckets-Holds :
    (k : ℕ) (v : RidVector) (s : RidSet) (hash : ℕ) (xs : List ℕ)
    → IsValid s
    → Holds v xs
    → length xs + length (bucket_values s.entry hash k) < 2 ^ 31
    → (v' : RidVector) × (append_buckets k v s hash ≡ some v')
      × Holds v' (xs ++ bucket_values s.entry hash k)
unfolding append_buckets bucket_values
append_buckets-Holds zero v s hash xs valid h room = (v, refl, rw (append-nil xs) h)
append_buckets-Holds (suc k) v s hash xs valid h room =
    let e = s.entry hash in
    let same = known-values hash e (valid hash) in
    let size = ap length same in
    let both = length-append (values e) (bucket_values s.entry (hash + 1) k) in
    let (q, run, g) =
      append_cells-Holds v xs (e.val ∷ e.next) h (omega (arith, room, size, both)) in
    let g' : Holds q (xs ++ values e) = subst (λ ys. Holds q (xs ++ ys)) same g in
    let longer = length-append xs (values e) in
    let (w, runs, y) =
      append_buckets-Holds k q s (hash + 1) (xs ++ values e) valid g'
        (omega (arith, room, longer, both)) in
    (
      w,
      simp run runs,
      subst (Holds w) (append_assoc xs (values e) (bucket_values s.entry (hash + 1) k)) y,
    )

-- For a valid set and a vector, of fewer than 2^31 items in all, append_set ends without a fault,
-- and the vector then holds its items and behind them the members of the set in the order of a
-- scan.
pub append_set-Holds :
    (v : RidVector) (s : RidSet) (xs : List ℕ)
    → IsValid s
    → Holds v xs
    → length xs + length (members s) < 2 ^ 31
    → (v' : RidVector) × (append_set v s ≡ some v') × Holds v' (xs ++ members s)
unfolding append_set
append_set-Holds v s xs valid h room = append_buckets-Holds 1024 v s 0 xs valid h room
