-- ===== src/Decimal/Sum.antt =====
-- The theorems on `fs_decimal_add` and `fs_decimal_subtract`.
use store.Prelude.{
  ℕ, zero, suc, ◌+◌, ◌-◌, ◌^◌, ◌≤◌, ◌<◌, ◌≡◌, refl, sym, ap₂, subst, ◌∙◌, Bool, true, false, arith,
  leb, ◌==◌, ◌||◌, if◌then◌else◌, Bool-cases, inl, inr, negate,
}
use store.Prelude.Int.{pos, negsuc, sub_ℕ, ◌+ℤ◌, ◌-ℤ◌}
use store.Decimal.{Decimal, digits, abs, add_from, negated, add, subtract}
use store.Decimal.Value.{value, units, IsDecimal, value_top, value-zero_top-lt}
use store.Decimal.Sums.{sum_units, sum_digits}
use store.Decimal.Add.{
  signed, positive, below_zero, operand, operand_lem, residue, cleared, cleared_lem, finished,
  finished_lem, with_sign, signed_sum,
}

abs-sub_ℕ : (p n k : ℕ) → abs (sub_ℕ p n) < k → (p < n + k) × (n < p + k)
abs-sub_ℕ p n k l =
    let read : ((q : Bool)
        → leb n p ≡ q
        → abs (if q then pos (p - n) else negsuc (n - p - 1)) < k) =
      λ q e. subst (λ (x : Bool). abs (if x then pos (p - n) else negsuc (n - p - 1)) < k) e l in
    elim (Bool-cases (leb n p)) [
      | inl e ↦
          let le : n ≤ p = ground arith in
          let l' : p - n < k = read true e in (omega arith, omega arith)
      | inr e ↦
          let lt : p < n = ground arith in
          let l' : suc (n - p - 1) < k = read false e in (omega arith, omega arith)
    ]

abbrev sum_of : Decimal → Decimal → ℕ → ℕ
sum_of a b = add_from 41 (operand a.negative a).digit (operand b.negative b).digit (λ _. 0)

add-finished :
    (a b : Decimal)
    → (a.overflow || b.overflow) ≡ false
    → add a b ≡ (0, finished (sum_of a b 1 == 9) (cleared (sum_of a b)))
unfolding add
add-finished a b e = rw e refl

-- For two decimals in range, which have no error flag, digits below 10 and two zeros in front, and
-- whose sum in units of the last place is below 10^40 in size: add returns 0, its result is in
-- range again, and the integer that it stands for is the sum of the two.
pub add-signed :
    (a b : Decimal)
    → IsDecimal a
    → IsDecimal b
    → abs (signed a +ℤ signed b) < 10 ^ 40
    → ((add a b).0 ≡ 0) × (signed (add a b).1 ≡ signed a +ℤ signed b) × IsDecimal (add a b).1
add-signed a b va vb small =
    let t = sum_of a b in
    let (k, ea, fa, la) = operand_lem a.negative a va in
    let (m, eb, fb, lb) = operand_lem b.negative b vb in
    let p = positive a.negative a + positive b.negative b in
    let n = below_zero a.negative a + below_zero b.negative b in
    let small' : abs (sub_ℕ p n) < 10 ^ 40 = rw (← signed_sum a b) small in
    let (up, down) = abs-sub_ℕ p n (10 ^ 40) small' in
    let total = sum_units (operand a.negative a).digit (operand b.negative b).digit in
    let top = value_top t 41 in
    let below =
      value-zero_top-lt t 41
        (λ j l h. sum_digits (operand a.negative a).digit (operand b.negative b).digit j l h) in
    let (same, first, rest) = cleared_lem t (omega (arith, total, top, la, lb)) in
    let done =
      finished_lem (t 1 == 9) (cleared t) p n (rw (rest 1 (omega arith)) refl) first
        (λ j l h.
          rw (rest j l)
            (sum_digits (operand a.negative a).digit (operand b.negative b).digit j l h))
        (residue p n (value t digits) (value (cleared t) digits) (k + m) (t 0)
          (omega (arith, top, same)) (omega (arith, total, ea, eb)) (omega arith)
          (omega (arith, below, same)) up down)
        up down in
    let clean : (a.overflow || b.overflow) ≡ false =
      ap₂ (λ x y. x || y) va.no_overflow vb.no_overflow in
    rw (add-finished a b clean, signed_sum a b) (refl, done.0, done.1)

negated-IsDecimal : (b : Decimal) → IsDecimal b → IsDecimal (negated b)
unfolding negated
negated-IsDecimal b v = record {
  no_overflow = v.no_overflow;
  no_error = v.no_error;
  first = v.first;
  second = v.second;
  below = v.below;
}

sign_difference :
    (s t : Bool) (a b : ℕ)
    → with_sign s a -ℤ with_sign t b ≡ with_sign s a +ℤ with_sign (negate t) b
sign_difference s false a zero = refl
sign_difference s false a (suc b) = refl
sign_difference s true a zero = refl
sign_difference s true a (suc b) = refl

-- For two decimals in range whose difference in units of the last place is below 10^40 in size,
-- subtract returns 0, its result is in range, and the integer that it stands for is the
-- difference.
pub subtract-signed :
    (a b : Decimal)
    → IsDecimal a
    → IsDecimal b
    → abs (signed a -ℤ signed b) < 10 ^ 40
    → ((subtract a b).0 ≡ 0)
      × (signed (subtract a b).1 ≡ signed a -ℤ signed b)
      × IsDecimal (subtract a b).1
unfolding subtract negated
subtract-signed a b va vb small =
    let e = sign_difference a.negative b.negative (units a) (units b) in
    let (status, sum, v) = add-signed a (negated b) va (negated-IsDecimal b vb) (rw (← e) small) in
    (status, sum ∙ sym e, v)
