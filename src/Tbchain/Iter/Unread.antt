-- ===== src/Tbchain/Iter/Unread.antt =====
-- What the iterator still has to return, for a chain that is no superset.
use store.Prelude.{
  ℕ, zero, suc, ◌+◌, ◌-◌, ◌≤◌, ◌<◌, ◌≡◌, refl, sym, ap, subst, ◌∙◌, Bool, true, false, arith,
  Option, none, some, List, [], ◌∷◌, ◌++◌, length, leb, ◌==◌, if◌then◌else◌, Bool-cases, inl, inr,
  ◌⊎◌, slice, lt→ltb, ltb_of_ge, eq→==, ne→==,
}
use store.Rid.{gone}
use store.Tbchain.{Triple, null_triple, Tblock, Tbchain, superset, mask, and_bit, get_bit}
use store.Tbchain.Walk.{accepts}
use store.Tbchain.Invariant.{conts, IsChain, contents, IsStore}
use store.Tbchain.Iter.{
  TbchainIt, new_iterator, returned, again, at_end, passes, at_triple, it_step, it_next,
}

-- The triples that are not marked.
abbrev pub live : List Triple → List Triple
live [] = []
live (t ∷ ts) = let rest = live ts in if t.subject == gone then rest else t ∷ rest

-- What is left of the blocks `ids`, of which the first one is read up to `pos`.
abbrev pub unread : Tbchain → ℕ → List ℕ → List Triple
unread bc pos [] = []
unread bc pos (i ∷ ids) =
    let k = bc.blocks.cell i in slice k.triples.cell pos (k.length - pos) ++ contents bc ids

-- An iterator of a valid file in a chain that is no superset, with the blocks `ids` left.
pub record IsReading (it : TbchainIt) (frees ids : List ℕ) : Type 0 where
  pub store : IsStore it.tbc frees
  pub left : IsChain it.tbc it.node ids
  pub plain : it.is_superset ≡ false

unread_next :
    (bc : Tbchain) (i pos : ℕ) (ids : List ℕ)
    → pos < (bc.blocks.cell i).length
    → unread bc pos (i ∷ ids) ≡ (bc.blocks.cell i).triples.cell pos ∷ unread bc (suc pos) (i ∷ ids)
unread_next bc i pos ids l =
    let k = bc.blocks.cell i in
    let step : k.length - pos ≡ suc (k.length - suc pos) = omega (arith, l) in rw step refl

unread_done :
    (bc : Tbchain) (i pos : ℕ) (ids : List ℕ)
    → (bc.blocks.cell i).length ≤ pos
    → unread bc pos (i ∷ ids) ≡ contents bc ids
unread_done bc i pos ids l =
    let k = bc.blocks.cell i in let step : k.length - pos ≡ 0 = omega (arith, l) in rw step refl

unread_start : (bc : Tbchain) (ids : List ℕ) → unread bc 0 ids ≡ contents bc ids
unread_start bc [] = refl
unread_start bc (i ∷ ids) =
    let k = bc.blocks.cell i in let step : k.length - 0 ≡ k.length = omega arith in rw step refl

passes_plain :
    (be : Option (Triple → Bool)) (it : TbchainIt) (t : Triple)
    → it.is_superset ≡ false
    → passes be it t ≡ true
unfolding passes
passes_plain none it t e = refl
passes_plain (some has) it t e = rw e refl

step_at-end :
    (be : Option (Triple → Bool)) (it : TbchainIt)
    → it.node ≡ 0
    → it.is_superset ≡ false
    → it_step be it ≡ some (returned 0 null_triple it)
unfolding it_step at_end
step_at-end be it e p = simp (eq→== it.node 0 e, p) refl

-- The tests before the block is read.
step_in-block :
    (be : Option (Triple → Bool)) (it : TbchainIt)
    → 2 ≤ it.node
    → it.node < it.tbc.blocks.size
    → it_step be it ≡ (
        let k = it.tbc.blocks.cell it.node in
        if leb k.length it.pos
        then some (again (record it { node = k.cont; pos = 0 }))
        else at_triple be it k)
unfolding it_step
step_in-block be it l m =
    let not_0 = ne→== it.node 0 (omega (arith, l)) in
    let not_1 = ne→== it.node 1 (omega (arith, l)) in
    let inside = lt→ltb it.node it.tbc.blocks.size m in simp (not_0, not_1, inside) refl

step_at-triple :
    (be : Option (Triple → Bool)) (it : TbchainIt) (k : Tblock)
    → it.is_superset ≡ false
    → it.pos < k.triples.size
    → at_triple be it k ≡ (
        if (k.triples.cell it.pos).subject == gone
        then some (again (record it { pos = suc it.pos }))
        else some (returned 1 (k.triples.cell it.pos) (record it { pos = suc it.pos })))
unfolding at_triple
step_at-triple be it k p l =
    let inside = lt→ltb it.pos k.triples.size l in
    let passed = passes_plain be it (k.triples.cell it.pos) p in simp (inside, passed) refl

it_next_again :
    (f : ℕ) (be : Option (Triple → Bool)) (it it' : TbchainIt)
    → it_step be it ≡ some (again it')
    → it_next (suc f) be it ≡ it_next f be it'
unfolding it_next
it_next_again f be it it' e = simp e refl

it_next_returned :
    (f : ℕ) (be : Option (Triple → Bool)) (it it' : TbchainIt) (status : ℕ) (t : Triple)
    → it_step be it ≡ some (returned status t it')
    → it_next (suc f) be it ≡ some (status, t, it')
unfolding it_next
it_next_returned f be it it' status t e = simp e refl

-- The end of the chain, or the next triple and what is left behind it.
abbrev pub Next : Option (ℕ × Triple × TbchainIt) → TbchainIt → List ℕ → List Triple → Type 0
Next r it frees ts =
    ((live ts ≡ []) × (it' : TbchainIt) × (r ≡ some (0, null_triple, it')) × (it'.tbc ≡ it.tbc))
    ⊎ ((t : Triple) × (it' : TbchainIt) × (ids' : List ℕ) × (r ≡ some (1, t, it'))
        × IsReading it' frees ids'
        × (it'.tbc ≡ it.tbc)
        × (live ts ≡ t ∷ live (unread it'.tbc it'.pos ids')))

Next-live :
    (r : Option (ℕ × Triple × TbchainIt)) (it : TbchainIt) (frees : List ℕ) (ts ts' : List Triple)
    → live ts ≡ live ts'
    → Next r it frees ts'
    → Next r it frees ts
Next-live r it frees ts ts' e (inl (h, it', run, same)) = inl (e ∙ h, it', run, same)
Next-live r it frees ts ts' e (inr (t, it', ids', run, reading, same, h)) =
    inr (t, it', ids', run, reading, same, e ∙ h)

live-gone : (t : Triple) (ts : List Triple) → (t.subject == gone) ≡ true → live (t ∷ ts) ≡ live ts
live-gone t ts e = ap (λ c. if c then live ts else t ∷ live ts) e

live_kept :
    (t : Triple) (ts : List Triple) → (t.subject == gone) ≡ false → live (t ∷ ts) ≡ t ∷ live ts
live_kept t ts e = ap (λ c. if c then live ts else t ∷ live ts) e

-- For an iterator of a valid file in a chain that is no superset, and more fuel than triples and
-- blocks left: it_next ends without a fault and leaves the file as it is. If no triple that is not
-- marked as gone is left, it returns 0 with the null triple; otherwise it returns 1 with the first
-- such triple, and the iterator then has left those behind it.
pub it_next-unread :
    (f : ℕ) (be : Option (Triple → Bool)) (it : TbchainIt) (frees ids : List ℕ)
    → IsReading it frees ids
    → length (unread it.tbc it.pos ids) + length ids < f
    → Next (it_next f be it) it frees (unread it.tbc it.pos ids)
it_next-unread zero be it frees ids r l = absurd (omega arith)
it_next-unread (suc f) be it frees [] r l =
    inl
      (refl, it, it_next_returned f be it it 0 null_triple (step_at-end be it r.left r.plain), refl)
it_next-unread (suc f) be it frees (i ∷ ids) r l =
    let e = r.left.0 in
    let k = it.tbc.blocks.cell it.node in
    let ki = it.tbc.blocks.cell i in
    let same : k ≡ ki = ap it.tbc.blocks.cell e in
    let start =
      step_in-block be it (omega (arith, e, r.left.1))
        (omega (arith, e, r.left.2, r.store.whole, r.store.spare)) in
    let next_block = record it { node = k.cont; pos = 0 } in
    let next_triple = record it { pos = suc it.pos } in
    let t = k.triples.cell it.pos in
    elim (Bool-cases (leb k.length it.pos)) [
      | inl q ↦
          let run = start ∙ ap (λ c. if c then some (again next_block) else at_triple be it k) q in
          let past : ki.length ≤ it.pos =
            let below : k.length ≤ it.pos = ground arith in
            omega (arith, below, ap Tblock.length same) in
          let rest = unread_done it.tbc i it.pos ids past ∙ sym (unread_start it.tbc ids) in
          let reading : IsReading next_block frees ids = record {
            store = r.store;
            left = subst (λ x. IsChain it.tbc (conts it.tbc x) ids) (sym e) r.left.3;
            plain = r.plain;
          } in
          rw (it_next_again f be it next_block run, rest)
            (it_next-unread f be next_block frees ids reading (omega (arith, l, ap length rest)))
      | inr q ↦
          let before : it.pos < ki.length =
            let above : it.pos < k.length = ground arith in
            omega (arith, above, ap Tblock.length same) in
          let valid = r.store.blocks_valid it.node in
          let run =
            start
            ∙ ap (λ c. if c then some (again next_block) else at_triple be it k) q
            ∙ step_at-triple be it k r.plain
                (omega (arith, before, ap Tblock.length same, valid.short, valid.wide)) in
          let split =
            unread_next it.tbc i it.pos ids before
            ∙ ap (λ (x : Tblock). x.triples.cell it.pos ∷ unread it.tbc (suc it.pos) (i ∷ ids))
                (sym same) in
          let reading : IsReading next_triple frees (i ∷ ids) = record {
            store = r.store;
            left = r.left;
            plain = r.plain;
          } in
          elim (Bool-cases (t.subject == gone)) [
            | inl w ↦
                let run' =
                  run
                  ∙ ap
                      (λ c. if c then some (again next_triple) else some (returned 1 t next_triple))
                      w in
                let shorter =
                  ap live split ∙ live-gone t (unread it.tbc (suc it.pos) (i ∷ ids)) w in
                rw (it_next_again f be it next_triple run') (
                  Next-live _ it frees (unread it.tbc it.pos (i ∷ ids))
                    (unread it.tbc (suc it.pos) (i ∷ ids)) shorter
                    (it_next-unread f be next_triple frees (i ∷ ids) reading
                      (omega (arith, l, ap length split))))
            | inr w ↦
                let run' =
                  run
                  ∙ ap
                      (λ c. if c then some (again next_triple) else some (returned 1 t next_triple))
                      w in
                inr (
                  t,
                  next_triple,
                  i ∷ ids,
                  it_next_returned f be it next_triple 1 t run',
                  reading,
                  refl,
                  ap live split ∙ live_kept t (unread it.tbc (suc it.pos) (i ∷ ids)) w,
                )
          ]
    ]

-- A new iterator, on a chain without the bit `superset`, has the whole chain to return.
pub new_iterator-IsReading :
    (bc : Tbchain) (b : ℕ) (frees ids : List ℕ)
    → IsStore bc frees
    → IsChain bc b (b ∷ ids)
    → and_bit (bc.blocks.cell b).flags (mask superset) ≡ 0
    → (it : TbchainIt) × (new_iterator bc b ≡ some (some it))
      × IsReading it frees (b ∷ ids)
      × (it.tbc ≡ bc)
      × (unread it.tbc it.pos (b ∷ ids) ≡ contents bc (b ∷ ids))
unfolding new_iterator get_bit
new_iterator-IsReading bc b frees ids v c plain =
    let not_0 = ne→== b 0 (omega (arith, c.1)) in
    let not_1 = ne→== b 1 (omega (arith, c.1)) in
    let inside = ltb_of_ge bc.size b (omega (arith, c.2, v.whole)) in
    let mapped = lt→ltb b bc.blocks.size (omega (arith, c.2, v.whole, v.spare)) in
    let it : TbchainIt = record { tbc = bc; chain = b; node = b; pos = 0; is_superset = false } in
    (
      it,
      simp (not_0, not_1, inside, accepts bc b c.1 c.2, mapped, plain) refl,
      record { store = v; left = c; plain = refl },
      refl,
      unread_start bc (b ∷ ids),
    )
