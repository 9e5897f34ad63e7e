-- ===== src/RidSet/Members.antt =====
-- What a scan of a set returns against what `contains` finds.
use store.Prelude.{
  ℕ, zero, suc, ◌+◌, ◌<◌, ◌≡◌, ◌≢◌, ap, List, [], ◌∷◌, false, arith, All, All-imp, Fresh-elem,
  Fresh-of_elem, Distinct, Distinct-append, Apart, elem, elem-append, if◌then◌else◌, ◌==◌, ==→eq,
  Bool-cases, inl, inr, ltb, leb, ◌&&◌,
}
use store.Rid.{null}
use store.RidSet.{RidEntry, RidSet, entry_hash, contains}
use store.RidSet.Contents.{values, IsEntry, IsValid, contains-elem}
use store.RidSet.Scan.{bucket_values, members}

-- No bucket but its own holds an identifier.
elem-values_elsewhere :
    (w h : ℕ) (e : RidEntry) → IsEntry h e → entry_hash w ≢ h → elem w (values e) ≡ false
elem-values_elsewhere w h e i n =
    Fresh-elem w (values e)
      (All-imp (λ v. entry_hash v ≡ h) (λ v. v ≢ w) (λ v p q. n (rw (← q) p)) (values e) i.home)

elem-bucket_values :
    (f : ℕ → RidEntry) (w h n : ℕ)
    → ((j : ℕ) → IsEntry j (f j))
    → elem w (bucket_values f h n) ≡ (
        if leb h (entry_hash w) && ltb (entry_hash w) (h + n)
        then elem w (values (f (entry_hash w)))
        else false)
unfolding bucket_values
elem-bucket_values f w h zero v = ground arith
elem-bucket_values f w h (suc n) v =
    rw
      (elem-append w (values (f h)) (bucket_values f (h + 1) n), elem-bucket_values f w (h + 1) n v)
      (elim (Bool-cases (entry_hash w == h)) [
        | inl p ↦ ground (arith, ap (λ j. elem w (values (f j))) (==→eq (entry_hash w) h p))
        | inr p ↦ ground (arith, elem-values_elsewhere w h (f h) (v h))
      ])

-- A scan of a valid set lists an identifier other than the null just where contains finds it.
pub elem-members : (s : RidSet) (w : ℕ) → IsValid s → w ≢ null → elem w (members s) ≡ contains s w
elem-members s w v n =
    rw (elem-bucket_values s.entry w 0 1024 v, contains-elem s w v) (ground arith)

-- The buckets from `m` on hash elsewhere.
values-Apart :
    (f : ℕ → RidEntry) (xs : List ℕ) (h m n : ℕ)
    → ((j : ℕ) → IsEntry j (f j))
    → h < m
    → All (λ v. entry_hash v ≡ h) xs
    → Apart xs (bucket_values f m n)
values-Apart f [] h m n v l a = tt
values-Apart f (x ∷ xs) h m n v l a = (
  Fresh-of_elem x (bucket_values f m n) (rw (elem-bucket_values f x m n v) (ground arith)),
  values-Apart f xs h m n v l a.1,
)

bucket_values-Distinct :
    (f : ℕ → RidEntry) (h n : ℕ) → ((j : ℕ) → IsEntry j (f j)) → Distinct (bucket_values f h n)
unfolding bucket_values
bucket_values-Distinct f h zero v = tt
bucket_values-Distinct f h (suc n) v =
    Distinct-append (values (f h)) (bucket_values f (h + 1) n) (v h).distinct
      (bucket_values-Distinct f (h + 1) n v)
      (values-Apart f (values (f h)) h (h + 1) n v (omega arith) (v h).home)

-- A scan of a valid set lists no identifier twice.
pub members-Distinct : (s : RidSet) → IsValid s → Distinct (members s)
members-Distinct s v = bucket_values-Distinct s.entry 0 1024 v
