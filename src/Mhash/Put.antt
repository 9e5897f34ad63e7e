-- ===== src/Mhash/Put.antt =====
-- `fs_mhash_put`: the entry that the search finds, and the table after the write.
use mathlib.Core.Option.{some-injective}
use native.Mathlib.Nat.{mod-lt}
use store.Prelude.{
  ℕ, zero, suc, ◌+◌, ◌-◌, ◌/◌, ◌≤◌, ◌<◌, ◌≡◌, ◌≢◌, refl, sym, ap, ap₂, ◌∙◌, true, false, arith,
  Option, none, some, ◌==◌, if◌then◌else◌, Bool-cases, inl, inr, ◌⊎◌, ==→eq, ==→ne, eq→==, ne→==,
  if_either,
}
use store.Mhash.{Mhash, mhash_entry, write_entry, note_candidate, find_from, find_slot, put_at}

-- An entry that may take the model `r`: it has it, or is not set and the `k` entries from `entry` on
-- do not have it.
pub record Slot (mh : Mhash) (r lo hi entry k j : ℕ) : Type 0 where
  pub low : lo ≤ j
  pub high : j ≤ hi
  pub inside : j < mh.size
  pub state :
      ((mh.entry j).rid ≡ r)
      ⊎ (((mh.entry j).rid ≡ 0)
          × ((i : ℕ) → entry ≤ i → i ≤ entry + k → i < mh.size → (mh.entry i).rid ≢ r))

record Candidate (mh : Mhash) (lo hi c : ℕ) : Type 0 where
  low : lo ≤ c
  high : c ≤ hi
  inside : c < mh.size
  unset : (mh.entry c).rid ≡ 0

note_candidate-Candidate :
    (mh : Mhash) (lo hi entry : ℕ) (cand : Option ℕ)
    → lo ≤ entry
    → entry ≤ hi
    → entry < mh.size
    → ((c : ℕ) → cand ≡ some c → Candidate mh lo hi c)
    → (c : ℕ) → note_candidate cand (mh.entry entry).rid entry ≡ some c
    → Candidate mh lo hi c
note_candidate-Candidate mh lo hi entry (some d) l h b old c e = old c e
note_candidate-Candidate mh lo hi entry none l h b old c e =
    elim (if_either ((mh.entry entry).rid == 0) (some entry) none (some c) e) [
      | inl (q, e') ↦
          rw (← some-injective entry c e')
            (record { low = l; high = h; inside = b; unset = ==→eq (mh.entry entry).rid 0 q })
      | inr (q, e') ↦ cc
    ]

here-Slot :
    (mh : Mhash) (r lo hi entry k j : ℕ)
    → lo ≤ entry
    → entry ≤ hi
    → entry < mh.size
    → ((mh.entry entry).rid == r) ≡ true
    → some entry ≡ some j
    → Slot mh r lo hi entry k j
here-Slot mh r lo hi entry k j l h b q e =
    let same = some-injective entry j e in
    record {
      low = omega (arith, same, l);
      high = omega (arith, same, h);
      inside = omega (arith, same, b);
      state = inl (ap (λ (x : ℕ). (mh.entry x).rid) (sym same) ∙ ==→eq (mh.entry entry).rid r q);
    }

Candidate-Slot :
    (mh : Mhash) (r lo hi entry k j : ℕ)
    → Candidate mh lo hi j
    → ((i : ℕ) → entry ≤ i → i ≤ entry + k → i < mh.size → (mh.entry i).rid ≢ r)
    → Slot mh r lo hi entry k j
Candidate-Slot mh r lo hi entry k j c absent = record {
  low = c.low;
  high = c.high;
  inside = c.inside;
  state = inr (c.unset, absent);
}

-- The entries from the next one on, and this one, do not have `r`.
absent_next :
    (mh : Mhash) (r entry i : ℕ)
    → ((mh.entry entry).rid == r) ≡ false
    → entry ≤ i
    → (suc entry ≤ i → (mh.entry i).rid ≢ r)
    → (mh.entry i).rid ≢ r
absent_next mh r entry i q l rest = elim (Bool-cases (i == entry)) [
  | inl w ↦
      let same = ==→eq i entry w in
      λ e. ==→ne (mh.entry entry).rid r q (ap (λ (x : ℕ). (mh.entry x).rid) (sym same) ∙ e)
  | inr w ↦ let apart = ==→ne i entry w in rest (omega (arith, l, apart))
]

find_from-Slot :
    (k : ℕ) (mh : Mhash) (r lo hi entry : ℕ) (cand : Option ℕ) (j : ℕ)
    → lo ≤ entry
    → entry + k ≤ hi
    → entry < mh.size
    → ((c : ℕ) → cand ≡ some c → Candidate mh lo hi c)
    → find_from k mh r entry cand ≡ some j
    → Slot mh r lo hi entry k j
unfolding find_from
find_from-Slot zero mh r lo hi entry cand j l h b old run =
    let next = note_candidate-Candidate mh lo hi entry cand l (omega (arith, h)) b old in
    elim (if_either ((mh.entry entry).rid == r) (some entry)
      (note_candidate cand (mh.entry entry).rid entry) (some j) run) [
        | inl (q, e) ↦ here-Slot mh r lo hi entry zero j l (omega (arith, h)) b q e
        | inr (q, e) ↦
            Candidate-Slot mh r lo hi entry zero j (next j e)
              (λ i m n o. absent_next mh r entry i q m (λ m'. absurd (omega (arith, m', n))))
      ]
find_from-Slot (suc k) mh r lo hi entry cand j l h b old run =
    let cand' = note_candidate cand (mh.entry entry).rid entry in
    let rest = find_from k mh r (suc entry) cand' in
    let next = note_candidate-Candidate mh lo hi entry cand l (omega (arith, h)) b old in
    elim (if_either ((mh.entry entry).rid == r) (some entry)
      (if entry == mh.size - 1 then cand' else rest) (some j) run) [
        | inl (q, e) ↦ here-Slot mh r lo hi entry (suc k) j l (omega (arith, h)) b q e
        | inr (q, e) ↦ elim (if_either (entry == mh.size - 1) cand' rest (some j) e) [
          | inl (w, e') ↦
              let last = ==→eq entry (mh.size - 1) w in
              Candidate-Slot mh r lo hi entry (suc k) j (next j e') (λ i m n o.
                absent_next mh r entry i q m (λ m'. absurd (omega (arith, m', o, last))))
          | inr (w, e') ↦
              let more = ==→ne entry (mh.size - 1) w in
              let s =
                find_from-Slot k mh r lo hi (suc entry) cand' j (omega (arith, l))
                  (omega (arith, h)) (omega (arith, b, more)) next e' in
              record {
                low = s.low;
                high = s.high;
                inside = s.inside;
                state = elim s.state [
                  | inl found ↦ inl found
                  | inr (unset, absent) ↦ inr (
                    unset,
                    λ i m n o.
                        absent_next mh r entry i q m (λ m'. absent i m' (omega (arith, n)) o),
                  )
                ];
              }
        ]
      ]

-- An entry that the search finds for the model `r`.
abbrev pub Found : Mhash → ℕ → ℕ → Type 0
Found mh r j =
    let hash = mhash_entry mh.size r in Slot mh r hash (hash + mh.search_dist) hash mh.search_dist j

pub find_slot-Found : (mh : Mhash) (r j : ℕ) → 0 < mh.size → find_slot mh r ≡ some j → Found mh r j
unfolding find_slot
find_slot-Found mh r j l run =
    let hash = mhash_entry mh.size r in
    find_from-Slot mh.search_dist mh r hash (hash + mh.search_dist) hash none j (omega arith)
      (omega arith) (mod-lt (r / 1024) l) (λ c e. cc) run

-- What `put_at` makes of the entries.
pub record Written (mh mh' : Mhash) (j r v : ℕ) : Type 0 where
  pub size : mh'.size ≡ mh.size
  pub dist : mh'.search_dist ≡ mh.search_dist
  pub here : mh'.entry j ≡ record { rid = r; val = v }
  pub other : (i : ℕ) → i ≢ j → mh'.entry i ≡ mh.entry i

pub put_at-Written : (mh : Mhash) (j r v : ℕ) → Written mh (put_at mh j r v) j r v
unfolding put_at write_entry
put_at-Written mh j r v =
    let self : (j == j) ≡ true = eq→== j j refl in
    elim (Bool-cases ((mh.entry j).rid == r)) [
      | inr q ↦ rw q (record {
        size = refl;
        dist = refl;
        here = rw self refl;
        other = λ i n. rw (ne→== i j n) refl;
      })
      | inl q ↦ elim (Bool-cases ((mh.entry j).val == v)) [
        | inr w ↦
            rw (q, w)
              (record {
                size = refl;
                dist = refl;
                here = rw self refl;
                other = λ i n. rw (ne→== i j n) refl;
              })
        | inl w ↦
            rw (q, w)
              (record {
                size = refl;
                dist = refl;
                here =
                    ap₂ (λ (x y : ℕ). record { rid = x; val = y }) (==→eq (mh.entry j).rid r q)
                      (==→eq (mh.entry j).val v w);
                other = λ i n. refl;
              })
      ]
    ]
