-- ===== src/Rhash/Packed.antt =====
-- `compress_bcd` and `compress_bcdate`: their codes, and the halves of a byte that they write.
use Prim.Native.Nat.{bit_or}
use store.Prelude.{
  ℕ, suc, ◌+◌, ◌*◌, ◌/◌, ◌%◌, ◌^◌, ◌≤◌, ◌<◌, ◌≡◌, ◌≢◌, refl, sym, ap, ◌∙◌, arith, Option, some,
  ◌==◌, if◌then◌else◌, update, Bool-cases, inl, inr, ◌⊎◌, ==→eq, ==→ne, eq→==, ne→==, bit_or-halves,
  zero-bit_or,
}
use store.Rhash.{bcd, bcdate, bcd_map, bcdate_map, write_bcd, half_byte}

-- A code of 4 bits that is not 0 and that the map takes back.
abbrev pub IsCode : (ℕ → Option ℕ) → (ℕ → ℕ) → Type 0
IsCode code map = (c v : ℕ) → code c ≡ some v → (map v ≡ c) × (1 ≤ v) × (v ≤ 15)

pub bcd-IsCode : IsCode bcd bcd_map
bcd-IsCode c v e = ground arith

pub bcdate-IsCode : IsCode bcdate bcdate_map
bcdate-IsCode c v e = ground arith

-- Nothing is written from the place `pos` on.
pub record Clean (out : ℕ → ℕ) (pos : ℕ) : Type 0 where
  pub byte : (b : ℕ) → out b < 256
  pub zeros : (q : ℕ) → pos ≤ q → half_byte out q ≡ 0

parity : (n : ℕ) → ((n % 2 ≡ 0) × (n ≡ n / 2 * 2)) ⊎ ((n % 2 ≡ 1) × (n ≡ n / 2 * 2 + 1))
parity n = elim (Bool-cases (n % 2 == 0)) [
  | inl q ↦ let e = ==→eq (n % 2) 0 q in inl (e, omega (arith, e))
  | inr q ↦ let e = ==→ne (n % 2) 0 q in inr (omega (arith, e), omega (arith, e))
]

half_even : (out : ℕ → ℕ) (q : ℕ) → q % 2 ≡ 0 → half_byte out q ≡ out (q / 2) % 16
half_even out q e = rw e refl

half_odd : (out : ℕ → ℕ) (q : ℕ) → q % 2 ≡ 1 → half_byte out q ≡ out (q / 2) / 16
half_odd out q e = rw e refl

-- The byte that a half is written to, for an even and an odd place.
written_even :
    (out : ℕ → ℕ) (pos v : ℕ)
    → Clean out pos
    → v < 16
    → pos % 2 ≡ 0
    → bit_or (out (pos / 2)) (v * 2 ^ (pos % 2 * 4)) ≡ v
written_even out pos v c l e =
    let b = pos / 2 in
    let low = sym (half_even out pos e) ∙ c.zeros pos (omega arith) in
    let same : suc pos / 2 ≡ b = omega (arith, e) in
    let high =
      ap (λ (x : ℕ). out x / 16) (sym same)
      ∙ sym (half_odd out (suc pos) (omega (arith, e)))
      ∙ c.zeros (suc pos) (omega arith) in
    let none_yet : out b ≡ 0 = omega (arith, low, high) in
    let shift : v * 2 ^ (0 * 4) ≡ v = omega arith in rw (e, none_yet, shift) (zero-bit_or v l)

written_odd :
    (out : ℕ → ℕ) (pos v : ℕ)
    → Clean out pos
    → v < 16
    → pos % 2 ≡ 1
    → (bit_or (out (pos / 2)) (v * 2 ^ (pos % 2 * 4)) ≡ out (pos / 2) + v * 16)
      × (out (pos / 2) < 16)
written_odd out pos v c l e =
    let high = sym (half_odd out pos e) ∙ c.zeros pos (omega arith) in
    let low : out (pos / 2) < 16 = omega (arith, high) in
    let shift : v * 2 ^ (1 * 4) ≡ v * 16 = omega arith in
    (rw (e, shift) (bit_or-halves (out (pos / 2)) v low l), low)

-- The halves and the bytes after a write.
pub record HalfWritten (out r : ℕ → ℕ) (pos v : ℕ) : Type 0 where
  pub here : half_byte r pos ≡ v
  pub other : (q : ℕ) → q ≢ pos → half_byte r q ≡ half_byte out q
  pub byte : (b : ℕ) → r b < 256

half_ext : (f g : ℕ → ℕ) (q : ℕ) → f (q / 2) ≡ g (q / 2) → half_byte f q ≡ half_byte g q
half_ext f g q e = ap (λ (x : ℕ). if q % 2 == 0 then x % 16 else x / 16) e

abbrev new_byte : (ℕ → ℕ) → ℕ → ℕ → ℕ
new_byte out pos v = bit_or (out (pos / 2)) (v * 2 ^ (pos % 2 * 4))

written_here : (out : ℕ → ℕ) (b x : ℕ) → update out b x b ≡ x
written_here out b x = rw (eq→== b b refl) refl

written_byte :
    (out : ℕ → ℕ) (b x : ℕ)
    → ((b' : ℕ) → out b' < 256)
    → x < 256
    → (b' : ℕ) → update out b x b' < 256
written_byte out b x small l b' = elim (Bool-cases (b' == b)) [
  | inl q ↦ rw q l
  | inr q ↦ rw q (small b')
]

elsewhere : (out : ℕ → ℕ) (b x q : ℕ) → q / 2 ≢ b → half_byte (update out b x) q ≡ half_byte out q
elsewhere out b x q n = half_ext (update out b x) out q (rw (ne→== (q / 2) b n) refl)

even-HalfWritten :
    (out : ℕ → ℕ) (pos v : ℕ)
    → Clean out pos
    → v < 16
    → pos % 2 ≡ 0
    → HalfWritten out (update out (pos / 2) v) pos v
even-HalfWritten out pos v c l e =
    let b = pos / 2 in
    let r = update out b v in
    let at = written_here out b v in
    record {
      here = half_even r pos e ∙ let low : r b % 16 ≡ v = omega (arith, at, l) in low;
      other = λ q n. elim (Bool-cases (q / 2 == b)) [
        | inr w ↦ elsewhere out b v q (==→ne (q / 2) b w)
        | inl w ↦
            let same = ==→eq (q / 2) b w in
            let odd : q % 2 ≡ 1 = omega (arith, same, e, n) in
            let top : r (q / 2) / 16 ≡ 0 = rw same (omega (arith, at, l)) in
            half_odd r q odd ∙ top ∙ sym (c.zeros q (omega (arith, same, odd, e)))
      ];
      byte = written_byte out b v c.byte (omega (arith, l));
    }

odd-HalfWritten :
    (out : ℕ → ℕ) (pos v : ℕ)
    → Clean out pos
    → v < 16
    → pos % 2 ≡ 1
    → out (pos / 2) < 16
    → HalfWritten out (update out (pos / 2) (out (pos / 2) + v * 16)) pos v
odd-HalfWritten out pos v c l e low =
    let b = pos / 2 in
    let x = out b + v * 16 in
    let r = update out b x in
    let at = written_here out b x in
    record {
      here = half_odd r pos e ∙ let high : r b / 16 ≡ v = omega (arith, at, low) in high;
      other = λ q n. elim (Bool-cases (q / 2 == b)) [
        | inr w ↦ elsewhere out b x q (==→ne (q / 2) b w)
        | inl w ↦
            let same = ==→eq (q / 2) b w in
            let even : q % 2 ≡ 0 = omega (arith, same, e, n) in
            let kept : r (q / 2) % 16 ≡ out (q / 2) % 16 = rw same (omega (arith, at, low)) in
            half_even r q even ∙ kept ∙ sym (half_even out q even)
      ];
      byte = written_byte out b x c.byte (omega (arith, l, low));
    }

pub write_bcd-HalfWritten :
    (out : ℕ → ℕ) (pos v : ℕ) → Clean out pos → v < 16 → HalfWritten out (write_bcd out pos v) pos v
unfolding write_bcd
write_bcd-HalfWritten out pos v c l = elim (parity pos) [
  | inl (e, _) ↦ rw (written_even out pos v c l e) (even-HalfWritten out pos v c l e)
  | inr (e, _) ↦
      let (byte, low) = written_odd out pos v c l e in rw byte (odd-HalfWritten out pos v c l e low)
]

pub written-Clean :
    (out r : ℕ → ℕ) (pos v : ℕ) → Clean out pos → HalfWritten out r pos v → Clean r (suc pos)
written-Clean out r pos v c w = record {
  byte = w.byte;
  zeros = λ q l. w.other q (omega arith) ∙ c.zeros q (omega arith);
}

pub nothing-Clean : Clean (λ _. 0) 0
nothing-Clean = record { byte = λ b. omega arith; zeros = λ q l. ground arith }
