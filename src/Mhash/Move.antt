-- ===== src/Mhash/Move.antt =====
-- The loop of `double_size`, entry by entry.
use mathlib.Core.Option.{some-injective}
use store.Prelude.{
  ℕ, zero, suc, ◌+◌, ◌≤◌, ◌<◌, ◌≡◌, ◌≢◌, refl, ◌∙◌, true, false, arith, some, ◌==◌, ltb, leb,
  if◌then◌else◌, Bool-cases, inl, inr, if-some, ==→eq, ==→ne, ne→==,
}
use store.Mhash.{Mhash, MhashEntry, blank, mhash_entry, write_entry, move_entry, move_from}

-- What is left at an entry, and what is then at its place in the new half.
abbrev pub left : ℕ → ℕ → MhashEntry → MhashEntry
left size o e = if e.rid == 0 then e else if leb o (mhash_entry size e.rid) then blank else e

abbrev pub moved : ℕ → ℕ → MhashEntry → MhashEntry → MhashEntry
moved size o e old = if e.rid == 0 then old else if leb o (mhash_entry size e.rid) then e else old

pub record Step (o : ℕ) (mh mh' : Mhash) (i : ℕ) : Type 0 where
  pub size : mh'.size ≡ mh.size
  pub dist : mh'.search_dist ≡ mh.search_dist
  pub here : mh'.entry i ≡ left mh.size o (mh.entry i)
  pub there : mh'.entry (o + i) ≡ moved mh.size o (mh.entry i) (mh.entry (o + i))
  pub other : (j : ℕ) → j ≢ i → j ≢ o + i → mh'.entry j ≡ mh.entry j

move_entry-Step : (o : ℕ) (mh : Mhash) (i : ℕ) → i < o → Step o mh (move_entry o mh i) i
unfolding move_entry write_entry
move_entry-Step o mh i l =
    let apart : (i == o + i) ≡ false = ground arith in
    let self : (i == i) ≡ true = ground arith in
    let selves : (o + i == o + i) ≡ true = ground arith in
    elim (Bool-cases ((mh.entry i).rid == 0)) [
      | inl e ↦ rw e (record {
        size = refl;
        dist = refl;
        here = rw e refl;
        there = rw e refl;
        other = λ j n m. refl;
      })
      | inr e ↦ elim (Bool-cases (leb o (mhash_entry mh.size (mh.entry i).rid))) [
        | inl q ↦
            rw (e, q)
              (record {
                size = refl;
                dist = refl;
                here = rw (e, q, apart, self) refl;
                there = rw (e, q, selves) refl;
                other = λ j n m. rw (ne→== j (o + i) m, ne→== j i n) refl;
              })
        | inr q ↦
            rw (e, q)
              (record {
                size = refl;
                dist = refl;
                here = rw (e, q) refl;
                there = rw (e, q) refl;
                other = λ j n m. refl;
              })
      ]
    ]

-- The loop from the entry `i` on.
pub record Moved (o i : ℕ) (mh mh' : Mhash) : Type 0 where
  pub size : mh'.size ≡ mh.size
  pub dist : mh'.search_dist ≡ mh.search_dist
  pub before : (j : ℕ) → j < i → mh'.entry j ≡ mh.entry j
  pub low : (j : ℕ) → i ≤ j → j < o → mh'.entry j ≡ left mh.size o (mh.entry j)
  pub between : (j : ℕ) → o ≤ j → j < o + i → mh'.entry j ≡ mh.entry j
  pub high :
      (j : ℕ) → i ≤ j → j < o → mh'.entry (o + j) ≡ moved mh.size o (mh.entry j) (mh.entry (o + j))
  pub beyond : (j : ℕ) → o + o ≤ j → mh'.entry j ≡ mh.entry j

pub move_from-Moved :
    (k o : ℕ) (mh mh' : Mhash) (i : ℕ)
    → i + k ≡ o
    → move_from k o mh i ≡ some mh'
    → Moved o i mh mh'
unfolding move_from
move_from-Moved zero o mh mh' i e run =
    let same : mh ≡ mh' = some-injective mh mh' run in
    rw (← same) (record {
      size = refl;
      dist = refl;
      before = λ j l. refl;
      low = λ j l m. absurd (omega arith);
      between = λ j l m. refl;
      high = λ j l m. absurd (omega arith);
      beyond = λ j l. refl;
    })
move_from-Moved (suc k) o mh mh' i e run =
    let next = move_entry o mh i in
    let (_, run') = if-some (ltb i mh.slots) (move_from k o next (suc i)) mh' run in
    let s = move_entry-Step o mh i (omega arith) in
    let ih = move_from-Moved k o next mh' (suc i) (omega arith) run' in
    record {
      size = ih.size ∙ s.size;
      dist = ih.dist ∙ s.dist;
      before = λ j l. ih.before j (omega arith) ∙ s.other j (omega arith) (omega arith);
      low = λ j l m. elim (Bool-cases (j == i)) [
        | inl h ↦ let same = ==→eq j i h in rw same (ih.before i (omega arith) ∙ s.here)
        | inr h ↦
            let apart = ==→ne j i h in
            ih.low j (omega (arith, l, apart)) m ∙ rw (s.size, s.other j apart (omega arith)) refl
      ];
      between = λ j l m. ih.between j l (omega arith) ∙ s.other j (omega arith) (omega arith);
      high = λ j l m. elim (Bool-cases (j == i)) [
        | inl h ↦
            let same = ==→eq j i h in
            rw same (ih.between (o + i) (omega arith) (omega arith) ∙ s.there)
        | inr h ↦
            let apart = ==→ne j i h in
            ih.high j (omega (arith, l, apart)) m
            ∙ rw
                (
                  s.size,
                  s.other j apart (omega arith),
                  s.other (o + j) (omega arith) (omega (arith, apart)),
                )
                refl
      ];
      beyond = λ j l. ih.beyond j l ∙ s.other j (omega arith) (omega arith);
    }
