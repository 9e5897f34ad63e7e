-- ===== src/Ptree/Search/Next.antt =====
-- `it_next` gives the pairs of a chain that match, in order.
use store.Prelude.{
  ℕ, zero, suc, ◌+◌, ◌≤◌, ◌<◌, ◌≡◌, refl, sym, ap, false, Option, none, some, List, [], ◌∷◌, length,
  keep, arith, ◌⊎◌, inl, inr, ◌==◌, ◌>>=◌, Bool-cases, eq→==, ne→==,
}
use store.Ptable.{Ptable}
use store.Ptable.Invariant.{IsChain, pairs, IsTable}
use store.Ptable.Walk.{get_row-get_next-IsChain}
use store.Ptree.Search.{Iter, matches, next_match, it_next}

length-zero : (xs : List (ℕ × ℕ)) → length xs ≤ 0 → xs ≡ []
length-zero [] h = refl
length-zero (x ∷ xs) h = absurd (omega arith)

-- What an iterator on a chain has left.
abbrev pub left : Ptable → Iter → List ℕ → List (ℕ × ℕ)
left table it ids = keep (matches it.first it.second) (pairs table ids)

-- The next pair of an iterator, and what is left behind it.
pub record Next (table : Ptable) (it : Iter) (ids : List ℕ) (r : Option (Option (ℕ × ℕ) × Iter))
    : Type 0 where
  pub answer : Option (ℕ × ℕ)
  pub it' : Iter
  pub ids' : List ℕ
  pub run : r ≡ some (answer, it')
  pub chain : IsChain table it'.block ids'
  pub shorter : length ids' ≤ length ids
  pub parts : (it'.first ≡ it.first) × (it'.second ≡ it.second)
  pub order :
      ((answer ≡ none) × (left table it ids ≡ []))
      ⊎ ((q : ℕ × ℕ) × (answer ≡ some q) × (left table it ids ≡ q ∷ left table it' ids'))

next_match-Next :
    (f : ℕ) (table : Ptable) (it : Iter) (frees ids : List ℕ)
    → IsTable table frees
    → IsChain table it.block ids
    → length ids < f
    → Next table it ids (next_match f table it)
unfolding next_match
next_match-Next zero table it frees ids s c l = absurd (omega arith)
next_match-Next (suc f) table it frees [] s c l = record {
  answer = none;
  it' = it;
  ids' = [];
  run = rw (eq→== it.block 0 c) refl;
  chain = c;
  shorter = omega arith;
  parts = (refl, refl);
  order = inl (refl, refl);
}
next_match-Next (suc f) table it frees (i ∷ ids) s c l =
    let b = it.block in
    let b0 : (b == 0) ≡ false = ne→== b 0 (omega (arith, c.0, c.1)) in
    let q : ℕ × ℕ = ((table.rows.cell i).first, (table.rows.cell i).second) in
    let (row, next, nxt, c') = get_row-get_next-IsChain table b i frees ids s c in
    elim (Bool-cases (matches it.first it.second q)) [
      | inl m ↦ record {
        answer = some q;
        it' = record it { block = next };
        ids' = ids;
        run = simp (b0, row, nxt, m);
        chain = c';
        shorter = omega arith;
        parts = (refl, refl);
        order = inr (q, refl, rw m refl);
      }
      | inr m ↦
          let w =
            next_match-Next f table (record it { block = next }) frees ids s c' (omega arith) in
          record {
            answer = w.answer;
            it' = w.it';
            ids' = w.ids';
            run = simp (b0, row, nxt, m) w.run;
            chain = w.chain;
            shorter = omega (arith, w.shorter);
            parts = w.parts;
            order = rw m w.order;
          }
    ]

-- In a valid table and with more fuel than the chain of an iterator has rows, it_next ends without
-- a fault: it gives the first of the pairs left that match and an iterator that has the others
-- left, in order, or says that there is none.
pub it_next-Next :
    (fuel : ℕ) (table : Ptable) (it : Iter) (frees ids : List ℕ)
    → IsTable table frees
    → IsChain table it.block ids
    → length ids < fuel
    → Next table it ids (it_next fuel table it)
unfolding it_next
it_next-Next fuel table it frees ids v c l =
    let w = next_match-Next fuel table (record it { step = it.step + 1 }) frees ids v c l in
    record {
      answer = w.answer;
      it' = w.it';
      ids' = w.ids';
      run = w.run;
      chain = w.chain;
      shorter = w.shorter;
      parts = w.parts;
      order = w.order;
    }

-- The pairs that `rounds` calls of `it_next` give.
unfoldable pub collect : ℕ → ℕ → Ptable → Iter → Option (List (ℕ × ℕ))
collect zero fuel table it = some []
collect (suc n) fuel table it = it_next fuel table it >>= λ (answer, it'). elim answer [
  | none ↦ some []
  | some q ↦ collect n fuel table it' >>= λ qs. some (q ∷ qs)
]

-- Calls until there is none give all the pairs of the chain that match, in order.
pub collect-left :
    (n fuel : ℕ) (table : Ptable) (it : Iter) (frees ids : List ℕ)
    → IsTable table frees
    → IsChain table it.block ids
    → length ids < fuel
    → length (left table it ids) ≤ n
    → collect n fuel table it ≡ some (left table it ids)
unfolding collect
collect-left zero fuel table it frees ids v c l m =
    ap some (sym (length-zero (left table it ids) m))
collect-left (suc n) fuel table it frees ids v c l m =
    let w = it_next-Next fuel table it frees ids v c l in
    elim (w.order) [
      | inl (e, h) ↦ simp (w.run, e, h)
      | inr (q, e, h) ↦
          let k = ap length h in
          let ih =
            collect-left n fuel table w.it' frees w.ids' v w.chain (omega (arith, w.shorter))
              (omega (arith, k)) in
          simp (w.run, e, ih, h)
    ]
