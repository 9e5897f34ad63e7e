-- ===== src/Ptree/Create.antt =====
-- `get_or_create_leaf` on a valid tree.
use store.Prelude.{
  ℕ, zero, suc, ◌+◌, ◌-◌, ◌*◌, ◌/◌, ◌^◌, ◌≤◌, ◌<◌, ◌≡◌, refl, sym, ap, ◌∙◌, List, arith, inl, inr,
  none, some, ltb, ◌==◌, if◌then◌else◌, true, Bool-cases, ==→eq, ==→ne, eq→==, ne→==,
}
use store.Ptree.{
  Ptree, null_node, is_leaf, pk_branch, node_ref, load_node, found, again, below, hang_node,
  hang_leaf, split_leaf, round, enter, create_from, get_or_create_leaf,
}
use store.Ptree.Invariant.{Spot, inner, outer, IsOuter, IsPtree, IsPtree-IsForm}
use store.Ptree.Find.{node_ref_lem, load_node_lem, load_leaf_lem}
use store.Ptree.Reached.{Reached, Reached-below, null-missing}
use store.Ptree.Hang.{SameLeaves}
use store.Ptree.HangLeaf.{Created, hang_leaf-Created}
use store.Ptree.HangNode.{hang_node-Hung}
use store.Ptree.SplitLeaf.{split_leaf-Hung}

enter_lem :
    (pt : Ptree) (pk i at o : ℕ)
    → i ≤ 31
    → node_ref pt at ≡ some o
    → enter pt pk i at ≡ round pt pk i at o
enter_lem pt pk i at o l e =
    rw (ne→== i 32 (omega arith))
      (ap (λ m. elim m [ none ↦ some (found 0 pt) | some o' ↦ round pt pk i at o' ]) e)

create_found :
    (f : ℕ) (pt : Ptree) (pk i at o n : ℕ) (q : Ptree)
    → i ≤ 31
    → node_ref pt at ≡ some o
    → round pt pk i at o ≡ some (found n q)
    → create_from (suc f) pt pk i at ≡ some (n, q)
unfolding create_from
create_found f pt pk i at o n q l e r = simp (enter_lem pt pk i at o l e ∙ r)

create_again :
    (f : ℕ) (pt : Ptree) (pk i at o : ℕ) (q : Ptree)
    → i ≤ 31
    → node_ref pt at ≡ some o
    → round pt pk i at o ≡ some (again q)
    → create_from (suc f) pt pk i at ≡ create_from f q pk i at
unfolding create_from
create_again f pt pk i at o q l e r = simp (enter_lem pt pk i at o l e ∙ r)

create_below :
    (f : ℕ) (pt : Ptree) (pk i at o to : ℕ) (q : Ptree)
    → i ≤ 31
    → node_ref pt at ≡ some o
    → round pt pk i at o ≡ some (below to q)
    → create_from (suc f) pt pk i at ≡ create_from f q pk (suc i) to
unfolding create_from
create_below f pt pk i at o to q l e r = simp (enter_lem pt pk i at o l e ∙ r)

-- A round, by what stands at the branch.
module _ (pt : Ptree) (pk i at o : ℕ) (br : ℕ → ℕ) (load : load_node pt o ≡ some br) where
  round_null :
      br (pk_branch pk i) ≡ null_node
      → round pt pk i at o ≡ (if ltb 1 i then hang_leaf pt pk i at else hang_node pt pk i at)
  unfolding round
  round_null z = simp (load, eq→== (br (pk_branch pk i)) null_node z)

  round_node :
      (q : ℕ)
      → 0 < q
      → br (pk_branch pk i) ≡ q + 0x80000000
      → round pt pk i at o ≡ some (below (q + 0x80000000) pt)
  unfolding round
  round_node q l z = simp (load, z, ne→== (q + 0x80000000) null_node (omega arith)) (ground arith)

  round_leaf :
      (n pk' : ℕ)
      → pt.cells.size ≤ 2 ^ 31
      → IsOuter pt n pk'
      → br (pk_branch pk i) ≡ n
      → round pt pk i at o ≡ (if pk == pk' then some (found n pt) else split_leaf pt pk i at n pk')
  unfolding round
  round_leaf n pk' s w z =
      let l : is_leaf n ≡ true = ground (arith, w.inside) in
      simp (
        load,
        z,
        ne→== n null_node (omega (arith, w.inside)),
        l,
        load_leaf_lem pt n pk' w.block w.length w.inside w.here,
      )

Created-after :
    {pt q pt' : Ptree} {spot t spot' : ℕ → Spot} {pk n : ℕ} {nfree lfree : List ℕ}
    → SameLeaves pt spot q t
    → Created q t pk n pt' spot' nfree lfree
    → Created pt spot pk n pt' spot' nfree lfree
Created-after {pk = pk} {n} s c = record {
  valid = c.valid;
  there = c.there;
  keep =
      λ m pk' e. let (e1, k1) = s.keep m pk' e in let (e2, k2) = c.keep m pk' e1 in (e2, k2 ∙ k1);
  back = λ m pk' d e. s.back m pk' (c.back m pk' d e);
  origin = elim (c.origin) [
    | inl e ↦ inl (s.back n pk e)
    | inr (e, h) ↦ inr (e, λ m k. h m (s.keep m pk k).0)
  ];
  same_count = c.same_count ∙ s.same_count;
}

-- A run of the loop that ends with the leaf of the key.
abbrev Creates : ℕ → Ptree → (ℕ → Spot) → ℕ → ℕ → ℕ → Type 0
Creates f pt spot pk i a =
    (n : ℕ) × (pt' : Ptree) × (spot' : ℕ → Spot) × (nfree : List ℕ) × (lfree : List ℕ)
    × (create_from f pt pk i (a + 0x80000000) ≡ some (n, pt'))
    × Created pt spot pk n pt' spot' nfree lfree

-- The leaf that is there already.
found-Created :
    (pt : Ptree) (spot : ℕ → Spot) (nfree lfree : List ℕ) (pk n : ℕ)
    → IsPtree pt spot nfree lfree
    → spot n ≡ outer pk
    → Created pt spot pk n pt spot nfree lfree
found-Created pt spot nfree lfree pk n v s = record {
  valid = v;
  there = s;
  keep = λ m pk' e. (e, refl);
  back = λ m pk' d e. e;
  origin = inl s;
  same_count = refl;
}

create_from-Created :
    (f : ℕ) (pt : Ptree) (spot : ℕ → Spot) (nfree lfree : List ℕ) (pk i a : ℕ)
    → IsPtree pt spot nfree lfree
    → pt.cells.size + f * 32768 ≤ 2 ^ 31
    → pk < 2 ^ 64
    → Reached pt spot pk i a
    → 64 ≤ f + 2 * i
    → Creates f pt spot pk i a
create_from-Created zero pt spot nfree lfree pk i a v room word h e =
    absurd (omega (arith, (v.live.inner_at a i _ h.at).level))
create_from-Created (suc zero) pt spot nfree lfree pk i a v room word h e =
    absurd (omega (arith, (v.live.inner_at a i _ h.at).level))
create_from-Created (suc (suc f)) pt spot nfree lfree pk i a v room word h e =
    let w = v.live.inner_at a i _ h.at in
    let at = a + 0x80000000 in
    let b = pk_branch pk i in
    let ref = node_ref_lem pt a w.positive w.based (omega (arith, w.inside, v.spare.small)) in
    let load = load_node_lem pt a w.br w.inside w.here in
    elim (w.children b (omega arith)) [
      | inl z ↦ elim (Bool-cases (ltb 1 i)) [
        | inl deep ↦
            let (n, pt', spot', lfree', run, c) =
              hang_leaf-Created pt spot nfree lfree pk i a w.br v (omega arith) word h
                (null-missing v h w.br w.here z) w.here z in
            (
              n,
              pt',
              spot',
              nfree,
              lfree',
              create_found (suc f) pt pk i at a n pt' w.level ref
                  (round_null pt pk i at a w.br load z ∙ rw deep run),
              c,
            )
        | inr high ↦
            let (o, q, t, nfree', run, hung, h') =
              hang_node-Hung pt spot nfree lfree pk i a w.br v (omega arith) h (ground arith) w.here
                z in
            let (n, pt', spot', nfree2, lfree2, rest, c) =
              create_from-Created (suc f) q t nfree' lfree pk (suc i) o hung.valid
                (omega (arith, hung.grown)) word h' (omega arith) in
            (
              n,
              pt',
              spot',
              nfree2,
              lfree2,
              create_below (suc f) pt pk i at a (o + 0x80000000) q w.level ref
                    (round_null pt pk i at a w.br load z ∙ rw high run)
                  ∙ rest,
              Created-after hung.leaves c,
            )
      ]
      | inr (inl (q, z, sq)) ↦
          let pos = (v.live.inner_at q (suc i) _ sq).positive in
          let (n, pt', spot', nfree2, lfree2, rest, c) =
            create_from-Created (suc f) pt spot nfree lfree pk (suc i) q v (omega arith) word
              (Reached-below (IsPtree-IsForm v) h q w.br w.here z pos) (omega arith) in
          (
            n,
            pt',
            spot',
            nfree2,
            lfree2,
            create_below (suc f) pt pk i at a (q + 0x80000000) pt w.level ref
                  (round_node pt pk i at a w.br load q pos z)
                ∙ rest,
            c,
          )
      | inr (inr (pk', sn, prefix)) ↦
          let n = w.br b in
          let turn =
            round_leaf pt pk i at a w.br load n pk' v.spare.small (v.live.outer_at n pk' sn) refl in
          elim (Bool-cases (pk == pk')) [
            | inl same ↦ (
              n,
              pt,
              spot,
              nfree,
              lfree,
              create_found (suc f) pt pk i at a n pt w.level ref (turn ∙ rw same refl),
              found-Created pt spot nfree lfree pk n v (sn ∙ ap outer (sym (==→eq pk pk' same))),
            )
            | inr other ↦
                let (s, q, t, nfree', run, hung, h', pos, (br', ca', z')) =
                  split_leaf-Hung pt spot nfree lfree pk i a n pk' w.br v (omega arith) h w.here
                    refl sn prefix (==→ne pk pk' other) in
                let w' = hung.valid.live.inner_at a i _ h'.at in
                let ref' =
                  node_ref_lem q a w'.positive w'.based
                    (omega (arith, w'.inside, hung.valid.spare.small)) in
                let load' = load_node_lem q a br' w'.inside ca' in
                let (n', pt', spot', nfree2, lfree2, rest, c) =
                  create_from-Created f q t nfree' lfree pk (suc i) s hung.valid
                    (omega (arith, hung.grown)) word
                    (Reached-below (IsPtree-IsForm hung.valid) h' s br' ca' z' pos) (omega arith) in
                (
                  n',
                  pt',
                  spot',
                  nfree2,
                  lfree2,
                  create_again (suc f) pt pk i at a q w.level ref (turn ∙ rw other run)
                      ∙ create_below f q pk i at a (s + 0x80000000) q w.level ref'
                          (round_node q pk i at a br' load' s pos z')
                      ∙ rest,
                  Created-after hung.leaves c,
                )
          ]
    ]

-- In a valid tree with room for 64 growths and for a 64-bit key: get_or_create_leaf ends without a
-- fault within 64 rounds, with a leaf of the key, and the tree stays valid. Each other leaf keeps
-- its key, block and length, no other key gains a leaf, and the leaf is the one that was there, or
-- there was none and it is new, with no block and no length.
pub get_or_create_leaf-Created :
    (pt : Ptree) (spot : ℕ → Spot) (nfree lfree : List ℕ) (pk : ℕ)
    → IsPtree pt spot nfree lfree
    → pt.cells.size + 64 * 32768 ≤ 2 ^ 31
    → pk < 2 ^ 64
    → (n : ℕ) × (pt' : Ptree) × (spot' : ℕ → Spot) × (nfree' : List ℕ) × (lfree' : List ℕ)
      × (get_or_create_leaf pt pk ≡ some (n, pt'))
      × Created pt spot pk n pt' spot' nfree' lfree'
unfolding get_or_create_leaf
get_or_create_leaf-Created pt spot nfree lfree pk v room word =
    let zero_prefix : pk / 4 ^ (32 - 0) ≡ 0 = omega arith in
    create_from-Created 64 pt spot nfree lfree pk 0 1 v room word
      (record { at = v.live.root ∙ ap (inner 0) (sym zero_prefix); way = inl (refl, refl) })
      (omega arith)
