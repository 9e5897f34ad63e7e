-- ===== src/Tbchain/Add.antt =====
-- `add_triple` on a chain in use.
use store.Prelude.{
  ℕ, ◌+◌, ◌^◌, ◌≤◌, ◌<◌, ◌≡◌, refl, ap, ap₂, sym, subst, ◌∙◌, List, [], ◌∷◌, ◌++◌, false, some,
  arith, Fresh, Apart, Apart-one, Linked-Distinct, Untouched-trans, ltb, lt→ltb, ltb_of_ge, ne→==,
  Bool-cases, inl, inr,
}
use mathlib.Core.List.{Perm}
use store.Tbchain.{Triple, Tblock, Tbchain, tblock_len, refuses, add_triple}
use store.Tbchain.Invariant.{
  conts, IsChain, block_triples, contents, IsStore, Frame, IsChain-Frame, contents-Frame,
}
use store.Tbchain.Alloc.{new_block-FreshBlock, FreshBlock-Fresh}
use store.Tbchain.Append.{
  appended, append_triple-appended, appended-Frame, appended-IsStore, appended_self,
  appended-contents, linked, link_block-linked, linked-Frame, linked-IsStore,
}

-- A triple that a call has added to the chain of the block `b`: its head is the block `n` now,
-- whose flags are those of the old head.
pub record AddedTriple (bc : Tbchain) (frees : List ℕ) (b : ℕ) (ids : List ℕ) (t : Triple) (n : ℕ)
    (bc' : Tbchain) (frees' ids' : List ℕ) : Type 0 where
  pub run : add_triple bc b t ≡ some (n, bc')
  pub valid : IsStore bc' frees'
  pub chain : IsChain bc' n ids'
  pub gains : Perm (contents bc' ids') (t ∷ contents bc ids)
  pub apart : Apart ids' frees'
  pub flags : (bc'.blocks.cell n).flags ≡ (bc.blocks.cell b).flags
  pub keeps :
      (c : ℕ) (cs : List ℕ)
      → IsChain bc c cs
      → Apart cs frees
      → Fresh b cs
      → IsChain bc' c cs × (contents bc' cs ≡ contents bc cs) × Apart cs frees' × Fresh n cs

module _ (bc : Tbchain) (frees : List ℕ) (b : ℕ) (ids : List ℕ) (t : Triple) (v : IsStore bc frees)
    (c : IsChain bc b (b ∷ ids)) (a : Apart (b ∷ ids) frees) (once : Fresh b ids) where
  accepts : refuses bc b ≡ false
  unfolding refuses
  accepts = ground (arith, c.1, c.2)

  -- The head block has room.
  in_place :
      (bc.blocks.cell b).length < tblock_len
      → AddedTriple bc frees b (b ∷ ids) t b (appended bc b t) frees (b ∷ ids)
  unfolding add_triple
  in_place s =
      let (chain, gains) = appended-contents bc b t ids c once in
      let inside : b < bc.blocks.size = omega (arith, c.2, v.whole, v.spare) in
      record {
        run = simp (
          accepts,
          lt→ltb b bc.blocks.size inside,
          ltb_of_ge tblock_len ((bc.blocks.cell b).length + 1) (omega (arith, s)),
          append_triple-appended bc b t inside (v.blocks_valid b) s,
        );
        valid = appended-IsStore bc b t frees v s a.0;
        chain = chain;
        gains = gains;
        apart = a;
        flags = ground arith;
        keeps = λ d ds h u f. (
          IsChain-Frame (b ∷ []) bc (appended bc b t) d ds (appended-Frame bc b t)
              (Apart-one b ds f) h,
          contents-Frame (b ∷ []) bc (appended bc b t) d ds (appended-Frame bc b t)
              (Apart-one b ds f) h,
          u,
          f,
        );
      }

  -- The head block is full.
  in_front :
      tblock_len ≤ (bc.blocks.cell b).length
      → bc.size < 2 ^ 30
      → (n : ℕ) × (bc' : Tbchain) × (frees' : List ℕ) × AddedTriple bc frees b
          (b ∷ ids)
          t
          n
          bc'
          frees'
          (n ∷ b ∷ ids)
  unfolding add_triple
  in_front full room =
      let (n, m, frees', w) = new_block-FreshBlock bc frees v room in
      let q = linked m b n in
      let bc' = appended q n t in
      let (fresh, rest_apart) = FreshBlock-Fresh b (b ∷ ids) w c a in
      let self : q.blocks.cell n
          ≡ record (m.blocks.cell n) { cont = b; length = 0; flags = (m.blocks.cell b).flags } =
        ground arith in
      let head : m.blocks.cell b ≡ bc.blocks.cell b =
        w.frame.same b c.2 ((λ e. fresh.0 (sym e)), tt) in
      let to_q : Frame (n ∷ []) bc q = Untouched-trans (n ∷ []) w.frame (linked-Frame m b n) in
      let all : Frame (n ∷ []) bc bc' = Untouched-trans (n ∷ []) to_q (appended-Frame q n t) in
      let chain_q : IsChain q n (n ∷ b ∷ ids) = (
        refl,
        w.positive,
        w.inside,
        subst (λ x. IsChain q x (b ∷ ids)) (sym (ap (λ (k : Tblock). k.cont) self))
            (IsChain-Frame (n ∷ []) bc q b (b ∷ ids) to_q (Apart-one n (b ∷ ids) fresh) c),
      ) in
      let (chain, gains) = appended-contents q n t (b ∷ ids) chain_q fresh in
      let held : contents q (n ∷ b ∷ ids) ≡ contents bc (b ∷ ids) =
        ap₂ ◌++◌ (ap block_triples self)
          (contents-Frame (n ∷ []) bc q b (b ∷ ids) to_q (Apart-one n (b ∷ ids) fresh) c) in
      let room_n : (q.blocks.cell n).length < tblock_len =
        subst (λ (k : Tblock). k.length < tblock_len) (sym self) (omega arith) in
      let valid_q = linked-IsStore m b n frees' w.valid w.unused in
      let inside_m : b < m.blocks.size =
        omega (arith, c.2, w.frame.longer, w.valid.whole, w.valid.spare) in
      let inside_n : n < m.blocks.size = omega (arith, w.inside, w.valid.whole, w.valid.spare) in
      (
        n,
        bc',
        frees',
        record {
          run = simp (
            accepts,
            lt→ltb b bc.blocks.size (omega (arith, c.2, v.whole, v.spare)),
            lt→ltb tblock_len ((bc.blocks.cell b).length + 1) (omega (arith, full)),
            w.run,
            ne→== n 0 (omega (arith, w.positive)),
            link_block-linked m b n inside_m inside_n,
            append_triple-appended q n t inside_n (valid_q.blocks_valid n) room_n,
          );
          valid = appended-IsStore q n t frees' valid_q room_n w.unused;
          chain = chain;
          gains = subst (λ xs. Perm (contents bc' (n ∷ b ∷ ids)) (t ∷ xs)) held gains;
          apart = (w.unused, rest_apart);
          flags =
              ap (λ (k : Tblock). k.flags) (appended_self q n t)
              ∙ ap (λ (k : Tblock). k.flags) self
              ∙ ap (λ (k : Tblock). k.flags) head;
          keeps = λ d ds h u f.
              let (g, r) = FreshBlock-Fresh d ds w h u in
              (
                IsChain-Frame (n ∷ []) bc bc' d ds all (Apart-one n ds g) h,
                contents-Frame (n ∷ []) bc bc' d ds all (Apart-one n ds g) h,
                r,
                g,
              );
        },
      )

-- In a valid file of fewer than 2^30 blocks, for a chain in use apart from the free list,
-- add_triple ends without a fault: the file stays valid, the chain from the returned block holds
-- what the chain held and the triple as a permutation, the new head block has the flags of the old
-- one, and every other chain in use keeps its blocks and triples.
pub add_triple-AddedTriple :
    (bc : Tbchain) (frees : List ℕ) (b : ℕ) (ids : List ℕ) (t : Triple)
    → IsStore bc frees
    → IsChain bc b (b ∷ ids)
    → Apart (b ∷ ids) frees
    → bc.size < 2 ^ 30
    → (n : ℕ) × (bc' : Tbchain) × (frees' ids' : List ℕ) × AddedTriple bc frees b
        (b ∷ ids)
        t
        n
        bc'
        frees'
        ids'
add_triple-AddedTriple bc frees b ids t v c a room =
    let once = (Linked-Distinct (conts bc) 2 bc.length b (b ∷ ids) (omega arith) c).0 in
    elim (Bool-cases (ltb (bc.blocks.cell b).length tblock_len)) [
      | inl s ↦
          (b, appended bc b t, frees, b ∷ ids, in_place bc frees b ids t v c a once (ground arith))
      | inr s ↦
          let (n, bc', frees', w) = in_front bc frees b ids t v c a once (ground arith) room in
          (n, bc', frees', n ∷ b ∷ ids, w)
    ]
