-- ===== src/Decimal/Add.antt =====
-- The steps of `fs_decimal_add`: its operands, the sum modulo 10^41, and the last step.
use store.Prelude.{
  ℕ, zero, suc, ◌+◌, ◌-◌, ◌*◌, ◌^◌, ◌≤◌, ◌<◌, ◌≡◌, refl, sym, ap₂, ◌∙◌, Bool, true, false, arith,
  update, leb, ◌==◌, if◌then◌else◌, Bool-cases, inl, inr,
}
use store.Prelude.Int.{ℤ, pos, pos_part, neg_part, sub_ℕ, ◌+ℤ◌}
use store.Decimal.{Decimal, digits, plain, unit_val, minus, add_simple, radix_complement}
use store.Decimal.Value.{
  value, units, IsDecimal, zero_top, value-zero_top, value_top, value-zero_top-lt, second_digit,
  IsDecimal-lt,
}
use store.Decimal.Sums.{sum_digits, complement_units}

-- The integer that a decimal stands for, in units of the last place.
abbrev pub signed : Decimal → ℤ
signed d = if d.negative then minus (units d) else pos (units d)

-- What an operand with the sign `s` adds to the two sides of the sum.
abbrev pub positive : Bool → Decimal → ℕ
positive s d = if s then 0 else units d

abbrev pub below_zero : Bool → Decimal → ℕ
below_zero s d = if s then units d else 0

all_digits :
    (f : ℕ → ℕ) → f 0 ≡ 0 → ((j : ℕ) → 1 ≤ j → j ≤ 41 → f j ≤ 9) → (i : ℕ) → i < digits → f i ≤ 9
all_digits f z b i m = elim (Bool-cases (i == 0)) [
  | inl e ↦ let e' : i ≡ 0 = ground arith in rw e' (omega (arith, z))
  | inr e ↦ b i (ground arith) (omega arith)
]

-- Digits that stand for less than 10^40 have two zeros in front.
pub small_IsDecimal :
    (d : Decimal)
    → d.overflow ≡ false
    → d.syntax_error ≡ false
    → ((j : ℕ) → 1 ≤ j → j ≤ 41 → d.digit j ≤ 9)
    → units d < 10 ^ 40
    → IsDecimal d
small_IsDecimal d o e b l =
    let z : d.digit 0 ≡ 0 = omega (arith, value_top d.digit 41, l) in
    let all = all_digits d.digit z b in
    let (r, split, _) = second_digit d.digit z all in
    record {
      no_overflow = o;
      no_error = e;
      first = z;
      second = omega (arith, split, l);
      below = all;
    }

abbrev pub operand : Bool → Decimal → Decimal
operand s a = if s then radix_complement a else a

radix_complement_digits : (a : Decimal) (j : ℕ) → 1 ≤ j → j ≤ 41 → (radix_complement a).digit j ≤ 9
unfolding radix_complement add_simple
radix_complement_digits a j l m = sum_digits (λ i. 9 - a.digit i) unit_val.digit j l m

-- A negative operand enters the sum as its complement, which is 0 for the number 0.
pub operand_lem :
    (s : Bool) (a : Decimal)
    → IsDecimal a
    → (k : ℕ) × (value (zero_top (operand s a).digit) digits + below_zero s a
        ≡ positive s a + k * 10 ^ 41)
      × (k ≤ 1)
      × (value (zero_top (operand s a).digit) digits < 10 ^ 41)
operand_lem false a v =
    let same = value-zero_top a.digit digits v.first in
    (0, omega (arith, same), omega arith, omega (arith, same, IsDecimal-lt a v))
operand_lem true a v =
    let c = radix_complement a in
    let total = complement_units a (λ i l m. v.below i (omega arith)) in
    let top = value_top c.digit 41 in
    let low = value-zero_top-lt c.digit 41 (λ i l m. radix_complement_digits a i l m) in
    let same = value-zero_top a.digit digits v.first in
    (1 - c.digit 0, omega (arith, total, top, low, same, IsDecimal-lt a v), omega arith, low)

-- What is left of a sum below 2 * 10^41 without its first digit, when that sum is `p - n` modulo 10^41.
pub residue :
    (p n t m k c : ℕ)
    → t ≡ c * 10 ^ 41 + m
    → t + n ≡ p + k * 10 ^ 41
    → k ≤ 2
    → m < 10 ^ 41
    → p < n + 10 ^ 40
    → n < p + 10 ^ 40
    → (n ≤ p → m + n ≡ p) × (p < n → m + n ≡ p + 10 ^ 41)
residue p n t m k c split total few low up down = (λ le. omega arith, λ lt. omega arith)

sub_ℕ-pos : (p n m : ℕ) → m + n ≡ p → pos m ≡ sub_ℕ p n
sub_ℕ-pos p n m e =
    let le : leb n p ≡ true = ground arith in
    let same : m ≡ p - n = omega arith in rw (le, same) refl

sub_ℕ-minus : (p n m : ℕ) → p < n → m + p ≡ n → minus m ≡ sub_ℕ p n
sub_ℕ-minus p n zero l e = absurd (omega arith)
sub_ℕ-minus p n (suc m) l e =
    let le : leb n p ≡ false = ground arith in
    let same : m ≡ n - p - 1 = omega arith in rw (le, same) refl

-- The sum without its first digit, which is 1 at most.
abbrev pub cleared : (ℕ → ℕ) → ℕ → ℕ
cleared t = if t 0 == 1 then update t 0 0 else t

pub cleared_lem :
    (t : ℕ → ℕ)
    → t 0 ≤ 1
    → (value (cleared t) digits ≡ value (zero_top t) digits)
      × (cleared t 0 ≡ 0)
      × ((j : ℕ) → 1 ≤ j → cleared t j ≡ t j)
cleared_lem t l = elim (Bool-cases (t 0 == 1)) [
  | inl e ↦ rw e (refl, refl, λ j m. ground arith)
  | inr e ↦ let z : t 0 ≡ 0 = ground arith in rw e (sym (value-zero_top t digits z), z, λ j m. refl)
]

-- The last step of `add`, where `s` is the test of the second digit.
abbrev pub finished : Bool → (ℕ → ℕ) → Decimal
finished s f = if s then record (radix_complement (plain f)) { negative = true } else plain f

-- The digits `f` stand for the sum `p - n` modulo 10^41.
pub finished_lem :
    (s : Bool) (f : ℕ → ℕ) (p n : ℕ)
    → s ≡ (f 1 == 9)
    → f 0 ≡ 0
    → ((j : ℕ) → 1 ≤ j → j ≤ 41 → f j ≤ 9)
    → (n ≤ p → value f digits + n ≡ p) × (p < n → value f digits + n ≡ p + 10 ^ 41)
    → p < n + 10 ^ 40
    → n < p + 10 ^ 40
    → (signed (finished s f) ≡ sub_ℕ p n) × IsDecimal (finished s f)
unfolding radix_complement add_simple
finished_lem s f p n e z b (le, lt) up down =
    let all = all_digits f z b in
    let (r, split, low) = second_digit f z all in
    elim (Bool-cases (leb n p)) [
      | inl q ↦
          let total = le (ground arith) in
          let test : s ≡ false = e ∙ (let small : f 1 < 9 = omega arith in ground arith) in
          rw test (
            sub_ℕ-pos p n (value f digits) total,
            small_IsDecimal (plain f) refl refl b (omega arith),
          )
      | inr q ↦
          let less : p < n = ground arith in
          let total = lt less in
          let test : s ≡ true =
            e ∙ (let nine : f 1 ≡ 9 = omega (arith, all 1 (omega arith)) in rw nine refl) in
          let c = radix_complement (plain f) in
          let sum = complement_units (plain f) b in
          let same = value-zero_top f digits z in
          let small : value c.digit digits + p ≡ n = omega (arith, sum, same) in
          rw test (
            sub_ℕ-minus p n (value c.digit digits) less small,
            small_IsDecimal (record c { negative = true }) refl refl
                (λ j l m. radix_complement_digits (plain f) j l m) (omega (arith, sum, same)),
          )
    ]

pos_part-minus : (n : ℕ) → pos_part (minus n) ≡ 0
pos_part-minus zero = refl
pos_part-minus (suc n) = refl

neg_part-minus : (n : ℕ) → neg_part (minus n) ≡ n
neg_part-minus zero = refl
neg_part-minus (suc n) = refl

abbrev pub with_sign : Bool → ℕ → ℤ
with_sign s n = if s then minus n else pos n

pub pos_part_sign : (s : Bool) (d : Decimal) → pos_part (with_sign s (units d)) ≡ positive s d
pos_part_sign false d = refl
pos_part_sign true d = pos_part-minus (units d)

pub neg_part_sign : (s : Bool) (d : Decimal) → neg_part (with_sign s (units d)) ≡ below_zero s d
neg_part_sign false d = refl
neg_part_sign true d = neg_part-minus (units d)

pub signed_sum :
    (a b : Decimal)
    → signed a +ℤ signed b
      ≡ sub_ℕ
          (positive a.negative a + positive b.negative b)
          (below_zero a.negative a + below_zero b.negative b)
signed_sum a b =
    ap₂ sub_ℕ (ap₂ (λ x y. x + y) (pos_part_sign a.negative a) (pos_part_sign b.negative b))
      (ap₂ (λ x y. x + y) (neg_part_sign a.negative a) (neg_part_sign b.negative b))
