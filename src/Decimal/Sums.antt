-- ===== src/Decimal/Sums.antt =====
-- The addition of digits with carries: `add_simple` and the loop of `add`.
use native.Mathlib.Nat.{pow-succ'}
use store.Prelude.{
  ℕ, zero, suc, ◌+◌, ◌-◌, ◌*◌, ◌^◌, ◌≤◌, ◌<◌, ◌≡◌, refl, ◌∙◌, true, false, arith, ltb, ◌==◌,
  Bool-cases, inl, inr,
}
use store.Decimal.{Decimal, digits, unit_val, add_digit, add_from, add_simple, radix_complement}
use store.Decimal.Value.{value, zero_top, zero_top_lem}

-- `r` holds in the places below `n` the sum of `f` and `g`, and of the carry `c` into the place `n - 1`.
pub record Added (f g t r : ℕ → ℕ) (i : ℕ) : Type 0 where
  pub sum : value r (suc i) ≡ value (zero_top f) (suc i) + value (zero_top g) (suc i) + t i
  pub below : (j : ℕ) → 1 ≤ j → j ≤ i → r j ≤ 9
  pub above : (j : ℕ) → i < j → r j ≡ t j

add_digit_parts :
    (f g : ℕ → ℕ) (i : ℕ) (t : ℕ → ℕ)
    → t i ≡ 0
    → (add_digit f g i t i * 10 + add_digit f g i t (suc i) ≡ t (suc i) + (f (suc i) + g (suc i)))
      × (add_digit f g i t (suc i) ≤ 9)
unfolding add_digit
add_digit_parts f g i t z =
    let s = t (suc i) + (f (suc i) + g (suc i)) in
    let apart : (i == suc i) ≡ false = ground arith in
    let self : (suc i == suc i) ≡ true = ground arith in
    let here : (i == i) ≡ true = ground arith in
    elim (Bool-cases (ltb 9 s)) [
      | inl e ↦ rw (e, apart, self, here) (omega (arith, z), omega arith)
      | inr e ↦ let low : s ≤ 9 = ground arith in rw (e, apart, self) (omega (arith, z), low)
    ]

add_digit_others :
    (f g : ℕ → ℕ) (i : ℕ) (t : ℕ → ℕ) (j : ℕ)
    → (j == i) ≡ false
    → (j == suc i) ≡ false
    → add_digit f g i t j ≡ t j
unfolding add_digit
add_digit_others f g i t j n m =
    let s = t (suc i) + (f (suc i) + g (suc i)) in
    elim (Bool-cases (ltb 9 s)) [ inl e ↦ rw (e, n, m) refl | inr e ↦ rw (e, m) refl ]

pub add_from-Added :
    (i : ℕ) (f g t : ℕ → ℕ) → ((j : ℕ) → j < i → t j ≡ 0) → Added f g t (add_from i f g t) i
unfolding add_from value
add_from-Added zero f g t z = record {
  sum = omega arith;
  below = λ j l m. absurd (omega arith);
  above = λ j l. refl;
}
add_from-Added (suc i) f g t z =
    let t' = add_digit f g i t in
    let (parts, low) = add_digit_parts f g i t (z i (omega arith)) in
    let ih =
      add_from-Added i f g t'
        (λ j l. add_digit_others f g i t j (ground arith) (ground arith) ∙ z j (omega arith)) in
    let last = ih.above (suc i) (omega arith) in
    record {
      sum = omega (arith, ih.sum, last, parts, zero_top_lem f i, zero_top_lem g i);
      below = λ j l m. elim (Bool-cases (j == suc i)) [
        | inl e ↦ let e' : j ≡ suc i = ground arith in rw e' (omega (arith, last, low))
        | inr e ↦ ih.below j l (ground arith)
      ];
      above = λ j l.
          ih.above j (omega arith) ∙ add_digit_others f g i t j (ground arith) (ground arith);
    }

-- What `add_from` leaves of two numbers of 42 digits.
pub sum_units :
    (f g : ℕ → ℕ)
    → value (add_from 41 f g (λ _. 0)) digits
      ≡ value (zero_top f) digits + value (zero_top g) digits
sum_units f g = omega (arith, (add_from-Added 41 f g (λ _. 0) (λ j l. refl)).sum)

pub sum_digits : (f g : ℕ → ℕ) (j : ℕ) → 1 ≤ j → j ≤ 41 → add_from 41 f g (λ _. 0) j ≤ 9
sum_digits f g = (add_from-Added 41 f g (λ _. 0) (λ j l. refl)).below

nines :
    (f : ℕ → ℕ) (n : ℕ)
    → ((i : ℕ) → 1 ≤ i → i ≤ n → f i ≤ 9)
    → value (zero_top (λ i. 9 - f i)) (suc n) + value (zero_top f) (suc n) + 1 ≡ 10 ^ n
unfolding value
nines f zero b = omega arith
nines f (suc n) b = omega (
  arith,
  nines f n (λ i l m. b i l (omega arith)),
  zero_top_lem f n,
  zero_top_lem (λ i. 9 - f i) n,
  b (suc n) (omega arith) (omega arith),
  pow-succ' 10 n,
)

-- The complement stands for 10^41 less the number.
pub complement_units :
    (a : Decimal)
    → ((i : ℕ) → 1 ≤ i → i ≤ 41 → a.digit i ≤ 9)
    → value (radix_complement a).digit digits + value (zero_top a.digit) digits ≡ 10 ^ 41
unfolding radix_complement add_simple value
complement_units a b =
    let one : value (zero_top unit_val.digit) digits ≡ 1 = refl in
    omega (arith, sum_units (λ i. 9 - a.digit i) unit_val.digit, nines a.digit 41 b, one)
