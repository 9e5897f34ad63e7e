-- ===== src/BitArray/Bits.antt =====
-- `bit_array_set` and `bit_array_get` against a function from places to bits.
use Prim.Native.Nat.{bit_and}
use store.Prelude.{
  ℕ, ◌*◌, ◌/◌, ◌%◌, ◌^◌, ◌≤◌, ◌<◌, ◌≡◌, refl, sym, ap, ap₂, ◌∙◌, Bool, true, false, ◌&&◌, arith,
  ◌==◌, ◌!=◌, ltb, if◌then◌else◌, Arr, update, Option, some, Bool-cases, inl, inr, ==→eq, ==→ne,
  eq→==, ne→==, lt→ltb, below_all, below_all_lem, ltb→lt, and_parts,
}
use store.BitArray.{bit_mask_set, bit_mask_get, new_bit_array, bit_array_set, bit_array_get}

-- The bit of a byte that `get` reads.
abbrev bit : ℕ → ℕ → ℕ
bit x n = if bit_and x (bit_mask_get n) != 0 then 1 else 0

-- An array of bytes with room for `n` bits.
pub record IsBits (p : Arr ℕ) (n : ℕ) : Type 0 where
  pub room : n ≤ p.size * 8
  pub bytes : (b : ℕ) → p.cell b < 256

-- What the place `n` of a byte is after the place `m` has been cleared, for all bytes and places.
cleared : ℕ → ℕ → ℕ → Bool
cleared m n x =
    bit (bit_and x (bit_mask_set m 0)) n == (if n == m then 0 else bit x n)
    && ltb (bit_and x (bit_mask_set m 0)) 256

cleared_checked : below_all 8 (λ m. below_all 8 (λ n. below_all 256 (cleared m n))) ≡ true
unfolding below_all cleared bit_mask_set bit_mask_get
cleared_checked = refl

kept_checked : below_all 256 (λ x. bit_and x 0xFF == x) ≡ true
unfolding below_all
kept_checked = refl

cleared_lem :
    (m n x : ℕ)
    → m < 8
    → n < 8
    → x < 256
    → (bit (bit_and x (bit_mask_set m 0)) n ≡ (if n == m then 0 else bit x n))
      × (bit_and x (bit_mask_set m 0) < 256)
unfolding cleared
cleared_lem m n x l l' l'' =
    let all = below_all_lem 8 _ m cleared_checked l in
    let all' = below_all_lem 8 _ n all l' in
    let here = below_all_lem 256 _ x all' l'' in
    let (same, small) = and_parts _ _ here in (==→eq _ _ same, ltb→lt _ _ small)

-- What the array says of the place `j`.
abbrev pub bit_at : Arr ℕ → ℕ → ℕ
bit_at p j = bit (p.cell (j / 8)) (j % 8)

-- A read in the array ends without a fault.
pub bit_array_get-bit_at :
    (p : Arr ℕ) (n j : ℕ) → IsBits p n → j < n → bit_array_get p j ≡ some (bit_at p j)
unfolding bit_array_get
bit_array_get-bit_at p n j v l =
    let inside = lt→ltb (j / 8) p.size (omega (arith, v.room, l)) in simp inside refl

mask_of_value : (m v : ℕ) → (v == 0) ≡ false → bit_mask_set m v ≡ 0xFF
unfolding bit_mask_set
mask_of_value m v e = rw e refl

-- The byte after a write.
set_byte :
    (x m n v : ℕ)
    → m < 8
    → n < 8
    → x < 256
    → (bit (bit_and x (bit_mask_set m v)) n
        ≡ (if v == 0 then (if n == m then 0 else bit x n) else bit x n))
      × (bit_and x (bit_mask_set m v) < 256)
set_byte x m n v l l' l'' = elim (Bool-cases (v == 0)) [
  | inl q ↦ let z = ==→eq v 0 q in rw (q, z) (cleared_lem m n x l l' l'')
  | inr q ↦
      let same : bit_and x 0xFF ≡ x = ==→eq _ _ (below_all_lem 256 _ x kept_checked l'') in
      rw (q, mask_of_value m v q, same) (refl, l'')
]

abbrev after_set : Arr ℕ → ℕ → ℕ → Arr ℕ
after_set p i v = record p {
  cell = update p.cell (i / 8) (bit_and (p.cell (i / 8)) (bit_mask_set (i % 8) v));
}

after_set_bytes : (p : Arr ℕ) (n i v : ℕ) → IsBits p n → IsBits (after_set p i v) n
after_set_bytes p n i v bits =
    let (_, small) =
      set_byte (p.cell (i / 8)) (i % 8) 0 v (omega arith) (omega arith) (bits.bytes (i / 8)) in
    record {
      room = bits.room;
      bytes =
          λ b. elim (Bool-cases (b == i / 8)) [ inl q ↦ rw q small | inr q ↦ rw q (bits.bytes b) ];
    }

both_tests :
    (a b : Bool) (x : ℕ) → (if b then (if a then 0 else x) else x) ≡ (if a && b then 0 else x)
both_tests true true x = refl
both_tests true false x = refl
both_tests false true x = refl
both_tests false false x = refl

-- In one byte, two places are the same where their bits are.
same_place : (i j : ℕ) → j / 8 ≡ i / 8 → (j % 8 == i % 8) ≡ (j == i)
same_place i j e = elim (Bool-cases (j == i)) [
  | inl w ↦ eq→== (j % 8) (i % 8) (let s = ==→eq j i w in omega (arith, s)) ∙ sym w
  | inr w ↦ ne→== (j % 8) (i % 8) (let d = ==→ne j i w in omega (arith, e, d)) ∙ sym w
]

bit_at-after_set :
    (p : Arr ℕ) (n i v j : ℕ)
    → IsBits p n
    → bit_at (after_set p i v) j ≡ (if j == i && v == 0 then 0 else bit_at p j)
bit_at-after_set p n i v j bits =
    let byte = bit_and (p.cell (i / 8)) (bit_mask_set (i % 8) v) in
    elim (Bool-cases (j / 8 == i / 8)) [
      | inl q ↦
          let same = ==→eq (j / 8) (i / 8) q in
          let (read, _) =
            set_byte (p.cell (i / 8)) (i % 8) (j % 8) v (omega arith) (omega arith)
              (bits.bytes (i / 8)) in
          ap (λ c. bit (if c then byte else p.cell (j / 8)) (j % 8)) q
          ∙ read
          ∙ both_tests (j % 8 == i % 8) (v == 0) (bit (p.cell (i / 8)) (j % 8))
          ∙ ap₂ (λ (c : Bool) (x : ℕ). if c && v == 0 then 0 else bit (p.cell x) (j % 8))
              (same_place i j same) (sym same)
      | inr q ↦
          let apart : (j == i) ≡ false =
            ne→== j i (let e = ==→ne (j / 8) (i / 8) q in omega (arith, e)) in
          rw (q, apart) refl
    ]

some_if : (c : Bool) (x y : ℕ) → some (if c then x else y) ≡ (if c then some x else some y)
some_if true x y = refl
some_if false x y = refl

-- On an array of bytes with room for n bits and a place below n, bit_array_set ends without an
-- access outside the array and leaves one with room for n bits. A read of any place below n is
-- then 0 at that place if the value is 0 as a 16-bit number, and what it was before in all other
-- cases.
pub bit_array_set-bit_at :
    (p : Arr ℕ) (n i value : ℕ)
    → IsBits p n
    → i < n
    → (p' : Arr ℕ) × (bit_array_set p i value ≡ some p')
      × IsBits p' n
      × ((j : ℕ)
          → j < n
          → bit_array_get p' j
            ≡ (if j == i && value % 2 ^ 16 == 0 then some 0 else bit_array_get p j))
unfolding bit_array_set
bit_array_set-bit_at p n i value v l =
    let b = i / 8 in
    let byte = bit_and (p.cell b) (bit_mask_set (i % 8) (value % 2 ^ 16)) in
    let p' = record p { cell = update p.cell b byte } in
    let inside = lt→ltb b p.size (omega (arith, v.room, l)) in
    (
      p',
      simp inside refl,
      after_set_bytes p n i (value % 2 ^ 16) v,
      λ j m.
          let after = bit_array_get-bit_at p' n j (after_set_bytes p n i (value % 2 ^ 16) v) m in
          let before = bit_array_get-bit_at p n j v m in
          let test = j == i && value % 2 ^ 16 == 0 in
          after
          ∙ ap some (bit_at-after_set p n i (value % 2 ^ 16) j v)
          ∙ some_if test 0 (bit_at p j)
          ∙ ap (λ (o : Option ℕ). if test then some 0 else o) (sym before),
    )

new_bit_array-IsBits : (n : ℕ) → IsBits (new_bit_array n) n
unfolding new_bit_array
new_bit_array-IsBits n = record { room = ground arith; bytes = λ b. omega arith }

ones_checked : below_all 8 (λ n. bit 0xFF n == 1) ≡ true
unfolding below_all bit_mask_get
ones_checked = refl

new_bits : (n j : ℕ) → bit_at (new_bit_array n) j ≡ 1
unfolding new_bit_array
new_bits n j = ==→eq _ _ (below_all_lem 8 _ (j % 8) ones_checked (omega arith))

-- All bits of a new array are 1.
pub bit_array_get-new_bit_array :
    (n j : ℕ) → j < n → IsBits (new_bit_array n) n × (bit_array_get (new_bit_array n) j ≡ some 1)
bit_array_get-new_bit_array n j l = (
  new_bit_array-IsBits n,
  bit_array_get-bit_at (new_bit_array n) n j (new_bit_array-IsBits n) l ∙ ap some (new_bits n j),
)
