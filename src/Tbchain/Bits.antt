-- ===== src/Tbchain/Bits.antt =====
-- The bits of a block: `set_bit`, `clear_bit`, `get_bit`.
use store.Prelude.{
  ℕ, ◌≤◌, ◌<◌, ◌≡◌, refl, ap, ap₂, List, [], ◌∷◌, ◌++◌, Bool, true, false, some, arith, update,
  ◌==◌, ◌&&◌, if◌then◌else◌, lt→ltb, Bool-cases, inl, inr, ==→eq,
}
use store.Tbchain.{
  Tbchain, TbchainBit, sparse, superset, mask, and_bit, or_bit, and_not_bit, set_bit, clear_bit,
  get_bit,
}
use store.Tbchain.Invariant.{conts, contents}
use store.Tbchain.Walk.{accepts}

abbrev pub same_bit : TbchainBit → TbchainBit → Bool
same_bit sparse sparse = true
same_bit superset superset = true
same_bit sparse superset = false
same_bit superset sparse = false

-- `bc'` is `bc` but for the bit `bit` of the block `b`, which is set or not.
pub record Flagged (bc bc' : Tbchain) (b : ℕ) (bit : TbchainBit) (on : Bool) : Type 0 where
  pub bits :
      (d : ℕ) (bit' : TbchainBit)
      → 2 ≤ d
      → d < bc.length
      → get_bit bc' d bit' ≡ (
          if d == b && same_bit bit' bit
          then some (if on then mask bit else 0)
          else get_bit bc d bit')
  pub cont : (i : ℕ) → conts bc' i ≡ conts bc i
  pub held : (ids : List ℕ) → contents bc' ids ≡ contents bc ids
  pub length : bc'.length ≡ bc.length
  pub free_list : bc'.free_list ≡ bc.free_list

-- The file with other flags in the block `b`.
abbrev reflagged : Tbchain → ℕ → ℕ → Tbchain
reflagged bc b x = record bc {
  blocks = record (bc.blocks) {
    cell = update bc.blocks.cell b (record (bc.blocks.cell b) { flags = x });
  };
}

get_bit_lem :
    (bc : Tbchain) (d : ℕ) (bit : TbchainBit)
    → bc.length ≤ bc.blocks.size
    → 2 ≤ d
    → d < bc.length
    → get_bit bc d bit ≡ some (and_bit (bc.blocks.cell d).flags (mask bit))
unfolding get_bit
get_bit_lem bc d bit s p l = rw (accepts bc d p l) (simp (lt→ltb d bc.blocks.size (omega arith)))

reflagged-conts : (bc : Tbchain) (b x i : ℕ) → conts (reflagged bc b x) i ≡ conts bc i
reflagged-conts bc b x i = ground (arith, ap (conts bc))

or_bit_bits :
    (x : ℕ) (bit bit' : TbchainBit)
    → and_bit (or_bit x (mask bit)) (mask bit')
      ≡ (if same_bit bit' bit then mask bit else and_bit x (mask bit'))
or_bit_bits x sparse sparse = ground arith
or_bit_bits x sparse superset = ground arith
or_bit_bits x superset sparse = ground arith
or_bit_bits x superset superset = ground arith

and_not_bit_bits :
    (x : ℕ) (bit bit' : TbchainBit)
    → and_bit (and_not_bit x (mask bit)) (mask bit')
      ≡ (if same_bit bit' bit then 0 else and_bit x (mask bit'))
and_not_bit_bits x sparse sparse = ground arith
and_not_bit_bits x sparse superset = ground arith
and_not_bit_bits x superset sparse = ground arith
and_not_bit_bits x superset superset = ground arith

same_bit_bits :
    (x : ℕ) (bit bit' : TbchainBit) (on : Bool)
    → and_bit x (mask bit) ≡ (if on then mask bit else 0)
    → some (and_bit x (mask bit')) ≡ (
        if true && same_bit bit' bit
        then some (if on then mask bit else 0)
        else some (and_bit x (mask bit')))
same_bit_bits x sparse sparse on h = ap some h
same_bit_bits x sparse superset on h = refl
same_bit_bits x superset sparse on h = refl
same_bit_bits x superset superset on h = ap some h

and_bit_set :
    (x : ℕ) (bit : TbchainBit)
    → (and_bit x (mask bit) == 0) ≡ false
    → and_bit x (mask bit) ≡ mask bit
and_bit_set x sparse h = ground arith
and_bit_set x superset h = ground arith

module _ (bc : Tbchain) (b : ℕ) (v : bc.length ≤ bc.blocks.size) (p : 2 ≤ b)
    (l : b < bc.length) where
  contents-reflagged : (x : ℕ) (ids : List ℕ) → contents (reflagged bc b x) ids ≡ contents bc ids
  contents-reflagged x [] = refl
  contents-reflagged x (i ∷ ids) =
      ap₂ ◌++◌ (elim (Bool-cases (i == b)) [ inl e ↦ rw (e, ==→eq i b e) refl | inr e ↦ rw e refl ])
        (contents-reflagged x ids)

  -- What the changed flags decide.
  reflagged-Flagged :
      (x : ℕ) (bit : TbchainBit) (on : Bool)
      → ((bit' : TbchainBit)
          → and_bit x (mask bit') ≡ (
              if same_bit bit' bit
              then (if on then mask bit else 0)
              else and_bit (bc.blocks.cell b).flags (mask bit')))
      → Flagged bc (reflagged bc b x) b bit on
  reflagged-Flagged x bit on h = record {
    bits = λ d bit' q m.
        rw (get_bit_lem (reflagged bc b x) d bit' v q m, get_bit_lem bc d bit' v q m)
          (elim (Bool-cases (d == b)) [
            | inl e ↦ rw (e, ==→eq d b e, h bit') (ground arith)
            | inr e ↦ rw e refl
          ]);
    cont = λ i. ground arith;
    held = contents-reflagged x;
    length = refl;
    free_list = refl;
  }

  -- The bit has the value already.
  kept-Flagged :
      (bit : TbchainBit) (on : Bool)
      → and_bit (bc.blocks.cell b).flags (mask bit) ≡ (if on then mask bit else 0)
      → Flagged bc bc b bit on
  kept-Flagged bit on h = record {
    bits = λ d bit' q m. rw (get_bit_lem bc d bit' v q m) (elim (Bool-cases (d == b)) [
      | inl e ↦ rw (e, ==→eq d b e) (same_bit_bits (bc.blocks.cell b).flags bit bit' on h)
      | inr e ↦ rw e refl
    ]);
    cont = λ i. refl;
    held = λ ids. refl;
    length = refl;
    free_list = refl;
  }

  -- set_bit on a block in use ends without a fault; get_bit then gives the mask of the bit for
  -- that block and bit, and what it gave before for every other block in use and bit; links,
  -- triples, length and free list are unchanged.
  pub set_bit-Flagged :
      (bit : TbchainBit)
      → (bc' : Tbchain) × (set_bit bc b bit ≡ some bc') × Flagged bc bc' b bit true
  unfolding set_bit
  set_bit-Flagged bit =
      let x = (bc.blocks.cell b).flags in
      let inside = lt→ltb b bc.blocks.size (omega (arith, v, l)) in
      elim (Bool-cases (and_bit x (mask bit) == 0)) [
        | inl e ↦ (
          reflagged bc b (or_bit x (mask bit)),
          simp (accepts bc b p l, inside, e),
          reflagged-Flagged (or_bit x (mask bit)) bit true (or_bit_bits x bit),
        )
        | inr e ↦
            (bc, simp (accepts bc b p l, inside, e), kept-Flagged bit true (and_bit_set x bit e))
      ]

  -- clear_bit on a block in use ends without a fault; get_bit then gives 0 for that block and bit,
  -- and what it gave before for every other block in use and bit; links, triples, length and free
  -- list are unchanged.
  pub clear_bit-Flagged :
      (bit : TbchainBit)
      → (bc' : Tbchain) × (clear_bit bc b bit ≡ some bc') × Flagged bc bc' b bit false
  unfolding clear_bit
  clear_bit-Flagged bit =
      let x = (bc.blocks.cell b).flags in
      let inside = lt→ltb b bc.blocks.size (omega (arith, v, l)) in
      elim (Bool-cases (and_bit x (mask bit) == 0)) [
        | inl e ↦ (
          bc,
          simp (accepts bc b p l, inside, e),
          kept-Flagged bit false (==→eq (and_bit x (mask bit)) 0 e),
        )
        | inr e ↦ (
          reflagged bc b (and_not_bit x (mask bit)),
          simp (accepts bc b p l, inside, e),
          reflagged-Flagged (and_not_bit x (mask bit)) bit false (and_not_bit_bits x bit),
        )
      ]
