-- ===== src/Tbchain/Append.antt =====
-- A triple appended to a block, and a block linked in front of a chain.
use store.Prelude.{
  ℕ, suc, ◌+◌, ◌%◌, ◌^◌, ◌<◌, ◌≡◌, refl, ap, ap₂, sym, subst, ◌∙◌, List, [], ◌∷◌, ◌++◌,
  append_assoc, some, arith, Fresh, Apart-one, update, slice, slice-snoc, slice-update_above, ◌==◌,
  lt→ltb, Bool-cases, inl, inr,
}
use mathlib.Core.List.{Perm, perm_middle}
use store.Tbchain.{Triple, Tblock, Tbchain, tblock_len, link_block, append_triple}
use store.Tbchain.Invariant.{
  conts, IsChain, IsBlock, block_triples, contents, IsStore, Frame, IsChain-Frame, contents-Frame,
}

-- The block with one more triple.
abbrev pub longer_block : Tblock → Triple → Tblock
longer_block k t = record k {
  triples = record (k.triples) { cell = update k.triples.cell k.length t };
  length = k.length + 1;
}

abbrev pub appended : Tbchain → ℕ → Triple → Tbchain
appended bc b t = record bc {
  blocks = record (bc.blocks) {
    cell = update bc.blocks.cell b (longer_block (bc.blocks.cell b) t);
  };
}

pub append_triple-appended :
    (bc : Tbchain) (b : ℕ) (t : Triple)
    → b < bc.blocks.size
    → IsBlock (bc.blocks.cell b)
    → (bc.blocks.cell b).length < tblock_len
    → append_triple bc b t ≡ some (b, appended bc b t)
unfolding append_triple
append_triple-appended bc b t l v s =
    let byte : ((bc.blocks.cell b).length + 1) % 2 ^ 8 ≡ (bc.blocks.cell b).length + 1 =
      omega arith in
    simp (
      lt→ltb b bc.blocks.size l,
      lt→ltb (bc.blocks.cell b).length (bc.blocks.cell b).triples.size (omega (arith, v.wide)),
      byte,
    )

pub longer_block-triples :
    (k : Tblock) (t : Triple) → block_triples (longer_block k t) ≡ block_triples k ++ t ∷ []
longer_block-triples k t =
    ap (slice (update k.triples.cell k.length t) 0) {y = suc k.length} (omega arith)
    ∙ slice-snoc (update k.triples.cell k.length t) 0 k.length
    ∙ ap₂ (λ (xs : List Triple) (x : Triple). xs ++ x ∷ [])
        (slice-update_above k.triples.cell k.length 0 k.length t (omega arith)) (ground arith)

pub appended-Frame : (bc : Tbchain) (b : ℕ) (t : Triple) → Frame (b ∷ []) bc (appended bc b t)
appended-Frame bc b t = record { longer = omega arith; same = λ j l f. ground arith }

pub appended-IsStore :
    (bc : Tbchain) (b : ℕ) (t : Triple) (fs : List ℕ)
    → IsStore bc fs
    → (bc.blocks.cell b).length < tblock_len
    → Fresh b fs
    → IsStore (appended bc b t) fs
appended-IsStore bc b t fs v s f = record {
  is_mapped = v.is_mapped;
  sized = v.sized;
  whole = v.whole;
  spare = v.spare;
  blocks_valid = λ j. elim (Bool-cases (j == b)) [
    | inl e ↦ rw e (record { short = omega (arith, s); wide = (v.blocks_valid b).wide })
    | inr e ↦ rw e (v.blocks_valid j)
  ];
  free =
      IsChain-Frame (b ∷ []) bc (appended bc b t) bc.free_list fs (appended-Frame bc b t)
        (Apart-one b fs f) v.free;
}

pub appended_self :
    (bc : Tbchain) (b : ℕ) (t : Triple)
    → (appended bc b t).blocks.cell b ≡ longer_block (bc.blocks.cell b) t
appended_self bc b t = ground arith

-- The chain that starts at the block holds the triple as well.
pub appended-contents :
    (bc : Tbchain) (b : ℕ) (t : Triple) (ids : List ℕ)
    → IsChain bc b (b ∷ ids)
    → Fresh b ids
    → IsChain (appended bc b t) b (b ∷ ids)
      × Perm (contents (appended bc b t) (b ∷ ids)) (t ∷ contents bc (b ∷ ids))
appended-contents bc b t ids c f =
    let k = bc.blocks.cell b in
    let bc' = appended bc b t in
    let self : bc'.blocks.cell b ≡ longer_block k t = ground arith in
    let rest =
      contents-Frame (b ∷ []) bc bc' (conts bc b) ids (appended-Frame bc b t) (Apart-one b ids f)
        c.3 in
    let shape : contents bc' (b ∷ ids) ≡ block_triples k ++ t ∷ contents bc ids =
      ap₂ ◌++◌ (ap block_triples self ∙ longer_block-triples k t) rest
      ∙ append_assoc (block_triples k) (t ∷ []) (contents bc ids) in
    (
      (
        refl,
        c.1,
        c.2,
        subst (λ x. IsChain bc' x ids) (sym (ap (λ (m : Tblock). m.cont) self))
            (IsChain-Frame (b ∷ []) bc bc' (conts bc b) ids (appended-Frame bc b t)
              (Apart-one b ids f) c.3),
      ),
      subst (λ xs. Perm xs (t ∷ contents bc (b ∷ ids))) (sym shape)
          (perm_middle (block_triples k) (contents bc ids)),
    )

-- The new block in front of the chain.
abbrev pub linked : Tbchain → ℕ → ℕ → Tbchain
linked bc b n = record bc {
  blocks = record (bc.blocks) {
    cell =
        update bc.blocks.cell n
          (record (bc.blocks.cell n) { cont = b; length = 0; flags = (bc.blocks.cell b).flags });
  };
}

pub link_block-linked :
    (bc : Tbchain) (b n : ℕ)
    → b < bc.blocks.size
    → n < bc.blocks.size
    → link_block bc b n ≡ some (linked bc b n)
unfolding link_block
link_block-linked bc b n h k = simp (lt→ltb b bc.blocks.size h, lt→ltb n bc.blocks.size k)

pub linked-Frame : (bc : Tbchain) (b n : ℕ) → Frame (n ∷ []) bc (linked bc b n)
linked-Frame bc b n = record { longer = omega arith; same = λ j l f. ground arith }

pub linked-IsStore :
    (bc : Tbchain) (b n : ℕ) (fs : List ℕ) → IsStore bc fs → Fresh n fs → IsStore (linked bc b n) fs
linked-IsStore bc b n fs v f = record {
  is_mapped = v.is_mapped;
  sized = v.sized;
  whole = v.whole;
  spare = v.spare;
  blocks_valid = λ j. elim (Bool-cases (j == n)) [
    | inl e ↦ rw e (record { short = omega arith; wide = (v.blocks_valid n).wide })
    | inr e ↦ rw e (v.blocks_valid j)
  ];
  free =
      IsChain-Frame (n ∷ []) bc (linked bc b n) bc.free_list fs (linked-Frame bc b n)
        (Apart-one n fs f) v.free;
}
