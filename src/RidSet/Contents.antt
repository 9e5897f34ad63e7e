-- ===== src/RidSet/Contents.antt =====
-- What a set of identifiers holds: a valid table, and `contains` after `add`.
use store.Prelude.{
  ℕ, ◌≡◌, ◌≢◌, refl, List, [], ◌∷◌, ◌++◌, true, false, arith, All, All-append, Distinct,
  Distinct-snoc, elem, elem-append, Fresh-of_elem, if◌then◌else◌, ◌==◌, Bool-cases, inl, inr, ==→ne,
  ==→eq, ne→==,
}
use store.Rid.{null}
use store.RidSet.{
  RidEntry, RidSet, entry_hash, new, add_walk, add_entry, add, contains_walk, contains_entry,
  contains,
}

-- The identifiers of a bucket, in the order of its cells.
abbrev pub values : RidEntry → List ℕ
values e = if e.val == null then [] else e.val ∷ e.next

-- A bucket of `h`: its values are no nulls, hash to `h`, and differ.
pub record IsEntry (h : ℕ) (e : RidEntry) : Type 0 where
  pub empty : e.val ≡ null → e.next ≡ []
  pub filled : All (λ v. v ≢ null) e.next
  pub home : All (λ v. entry_hash v ≡ h) (values e)
  pub distinct : Distinct (values e)

abbrev pub IsValid : RidSet → Type 0
IsValid s = (h : ℕ) → IsEntry h (s.entry h)

pub new-IsValid : IsValid new
unfolding new
new-IsValid h = record { empty = λ _. refl; filled = tt; home = tt; distinct = tt }

add_walk_lem :
    (val v : ℕ) (ws : List ℕ)
    → v ≢ null
    → All (λ w. w ≢ null) ws
    → add_walk val v ws ≡ (if elem val (v ∷ ws) then ws else ws ++ val ∷ [])
unfolding add_walk
add_walk_lem val v [] n a = ground arith
add_walk_lem val v (w ∷ ws) n a = ground (arith, add_walk_lem val w ws a.0 a.1)

contains_walk_lem :
    (val v : ℕ) (ws : List ℕ)
    → v ≢ null
    → All (λ w. w ≢ null) ws
    → contains_walk val v ws ≡ elem val (v ∷ ws)
unfolding contains_walk
contains_walk_lem val v [] n a = ground arith
contains_walk_lem val v (w ∷ ws) n a = ground (arith, contains_walk_lem val w ws a.0 a.1)

values-add_entry :
    (h val : ℕ) (e : RidEntry)
    → IsEntry h e
    → val ≢ null
    → values (add_entry val e) ≡ (if elem val (values e) then values e else values e ++ val ∷ [])
unfolding add_entry
values-add_entry h val e i n = ground (arith, i.empty, add_walk_lem val e.val e.next)

contains_entry-values :
    (h val : ℕ) (e : RidEntry)
    → IsEntry h e
    → val ≢ null
    → contains_entry val e ≡ elem val (values e)
unfolding contains_entry
contains_entry-values h val e i n = ground (arith, contains_walk_lem val e.val e.next)

-- The cells behind the first stay non-null.
add_entry-filled :
    (h val : ℕ) (e : RidEntry)
    → IsEntry h e
    → val ≢ null
    → ((add_entry val e).val ≢ null) × All (λ v. v ≢ null) (add_entry val e).next
unfolding add_entry
add_entry-filled h val e i n =
    let grown = All-append (λ v. v ≢ null) e.next (val ∷ []) i.filled (n, tt) in
    elim (Bool-cases (e.val == val)) [
      | inl p ↦ rw p (ground arith, i.filled)
      | inr p ↦ elim (Bool-cases (e.val == null)) [
        | inl q ↦ rw (p, q) (n, i.filled)
        | inr q ↦
            rw (p, q, add_walk_lem val e.val e.next (ground arith) i.filled)
              (
                ground arith,
                elim (Bool-cases (elem val (e.val ∷ e.next))) [
                  | inl r ↦ rw r i.filled
                  | inr r ↦ rw r grown
                ],
              )
      ]
    ]

-- A list that grows at its end by an item that it lacks.
snoc-All :
    (P : ℕ → Type 0) (val : ℕ) (xs : List ℕ)
    → P val
    → All P xs
    → All P (if elem val xs then xs else xs ++ val ∷ [])
snoc-All P val xs p a = elim (Bool-cases (elem val xs)) [
  | inl r ↦ rw r a
  | inr r ↦ rw r (All-append P xs (val ∷ []) a (p, tt))
]

snoc-Distinct :
    (val : ℕ) (xs : List ℕ) → Distinct xs → Distinct (if elem val xs then xs else xs ++ val ∷ [])
snoc-Distinct val xs d = elim (Bool-cases (elem val xs)) [
  | inl r ↦ rw r d
  | inr r ↦ rw r (Distinct-snoc val xs (Fresh-of_elem val xs r) d)
]

add_entry-IsEntry :
    (val : ℕ) (e : RidEntry)
    → IsEntry (entry_hash val) e
    → val ≢ null
    → IsEntry (entry_hash val) (add_entry val e)
add_entry-IsEntry val e i n =
    let full = add_entry-filled (entry_hash val) val e i n in
    let grown = values-add_entry (entry_hash val) val e i n in
    record {
      empty = λ z. absurd (full.0 z);
      filled = full.1;
      home = rw grown (snoc-All (λ v. entry_hash v ≡ entry_hash val) val (values e) refl i.home);
      distinct = rw grown (snoc-Distinct val (values e) i.distinct);
    }

-- add keeps a set valid: every identifier stands once, in the bucket of its hash, and no list
-- follows an empty head.
pub add-IsValid : (s : RidSet) (val : ℕ) → IsValid s → IsValid (add s val)
unfolding add
add-IsValid s val v h = elim (Bool-cases (val == null)) [
  | inl p ↦ rw p (v h)
  | inr p ↦ rw p (elim (Bool-cases (h == entry_hash val)) [
    | inl q ↦ rw q (
        let e : h ≡ entry_hash val = ground arith in
        rw e (add_entry-IsEntry val (s.entry (entry_hash val)) (v (entry_hash val)) (ground arith)))
    | inr q ↦ rw q (v h)
  ])
]

elem-snoc :
    (w val : ℕ) (xs : List ℕ)
    → elem w (if elem val xs then xs else xs ++ val ∷ []) ≡ (if w == val then true else elem w xs)
elem-snoc w val xs = elim (Bool-cases (elem val xs)) [
  | inl r ↦ rw r (ground arith)
  | inr r ↦ rw (r, elem-append w xs (val ∷ [])) (ground arith)
]

add-null : (s : RidSet) (val : ℕ) → (val == null) ≡ true → add s val ≡ s
unfolding add
add-null s val p = rw p refl

-- `contains` looks through the one bucket that the identifier hashes to.
pub contains-elem :
    (s : RidSet) (w : ℕ)
    → IsValid s
    → contains s w ≡ (if w == null then false else elem w (values (s.entry (entry_hash w))))
unfolding contains
contains-elem s w v =
    ground
      (arith, contains_entry-values (entry_hash w) w (s.entry (entry_hash w)) (v (entry_hash w)))

bucket-add :
    (s : RidSet) (val w : ℕ)
    → IsValid s
    → val ≢ null
    → w ≢ null
    → elem w (values ((add s val).entry (entry_hash w)))
      ≡ (if w == val then true else elem w (values (s.entry (entry_hash w))))
unfolding add
bucket-add s val w v n m =
    rw (ne→== val null n) (elim (Bool-cases (entry_hash w == entry_hash val)) [
      | inl q ↦
          rw
            (
              q,
              values-add_entry (entry_hash val) val (s.entry (entry_hash val)) (v _) n,
              ==→eq (entry_hash w) (entry_hash val) q,
            )
            (elem-snoc w val (values (s.entry (entry_hash val))))
      | inr q ↦ rw q (ground arith)
    ])

-- After add, a valid set contains what it contained and the identifier added; the null is never
-- contained, nor added.
pub contains-add :
    (s : RidSet) (val w : ℕ)
    → IsValid s
    → contains (add s val) w
      ≡ (if w == null then false else if w == val then true else contains s w)
contains-add s val w v = elim (Bool-cases (val == null)) [
  | inl p ↦ rw (add-null s val p, contains-elem s w v) (ground arith)
  | inr p ↦
      rw (contains-elem (add s val) w (add-IsValid s val v), contains-elem s w v)
        (elim (Bool-cases (w == null)) [
          | inl q ↦ rw q refl
          | inr q ↦ rw (q, bucket-add s val w v (==→ne val null p) (==→ne w null q)) refl
        ])
]
