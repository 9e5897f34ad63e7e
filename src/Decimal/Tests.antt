-- ===== src/Decimal/Tests.antt =====
-- Runs of the decimals, and the theorems of this directory at concrete numbers.
use store.Prelude.{
  ◌-◌, ◌*◌, ◌^◌, ◌≤◌, ◌<◌, ◌≡◌, refl, true, false, arith, ◌==◌, ◌&&◌, if◌then◌else◌, inr, negate,
  none, some, ap, ◌>>=◌, ℕ,
}
use store.Prelude.Int.{negsuc, ◌+ℤ◌, ◌-ℤ◌, ltb_ℤ, pos, neg_part}
use store.Decimal.{
  Decimal, plain, zero_val, is_zero, zero_from, decimal_less_than, multiply_from, digit_of_round,
  mul_internal, add_from, add_digit, same_from, d1_val, d2_val, init_from_int64_offset,
  init_from_int64, int64_from, to_int64, uint64_from, place_behind, from_uint64, llabs, int64_min,
  add, subtract, multiply, divide, equal, less_than, less_than_equal, greater_than,
  greater_than_equal,
}
use store.Decimal.Value.{value, IsDecimal}
use store.Decimal.Add.{signed, with_sign}
use store.Decimal.Sum.{add-signed, subtract-signed}
use store.Decimal.Order.{comparisons_signed}
use store.Decimal.Equal.{equal-signed}
use store.Decimal.Ints.{init_from_int64_offset_lem}
use store.Decimal.ToInt.{to_int64-init_from_int64}

program : Unit {0}
unfolding uint64_from place_behind from_uint64 llabs init_from_int64_offset init_from_int64
program = tt

abbrev minus_one : Decimal
minus_one = record d1_val { negative = true }

d2_val-IsDecimal : IsDecimal d2_val
d2_val-IsDecimal = record {
  no_overflow = refl;
  no_error = refl;
  first = refl;
  second = refl;
  below = λ i l. ground arith;
}

minus_one-IsDecimal : IsDecimal minus_one
minus_one-IsDecimal = record {
  no_overflow = refl;
  no_error = refl;
  first = refl;
  second = refl;
  below = λ i l. ground arith;
}

-- 2 - 1
add-signed_example :
    ((add d2_val minus_one).0 ≡ 0)
    × (signed (add d2_val minus_one).1 ≡ signed d2_val +ℤ signed minus_one)
    × IsDecimal (add d2_val minus_one).1
unfolding value
add-signed_example = add-signed d2_val minus_one d2_val-IsDecimal minus_one-IsDecimal (omega arith)

-- 2 - (-1)
subtract-signed_example :
    ((subtract d2_val minus_one).0 ≡ 0)
    × (signed (subtract d2_val minus_one).1 ≡ signed d2_val -ℤ signed minus_one)
    × IsDecimal (subtract d2_val minus_one).1
unfolding value
subtract-signed_example =
    subtract-signed d2_val minus_one d2_val-IsDecimal minus_one-IsDecimal (omega arith)

comparisons_signed_example :
    (less_than minus_one d2_val ≡ ltb_ℤ (signed minus_one) (signed d2_val))
    × (greater_than minus_one d2_val ≡ ltb_ℤ (signed d2_val) (signed minus_one))
    × (less_than_equal minus_one d2_val ≡ negate (ltb_ℤ (signed d2_val) (signed minus_one)))
    × (greater_than_equal minus_one d2_val ≡ negate (ltb_ℤ (signed minus_one) (signed d2_val)))
unfolding value
comparisons_signed_example =
    comparisons_signed minus_one d2_val minus_one-IsDecimal d2_val-IsDecimal (inr (omega arith))

equal-signed_example :
    equal minus_one d2_val
    ≡ negate (ltb_ℤ (signed minus_one) (signed d2_val))
      && negate (ltb_ℤ (signed d2_val) (signed minus_one))
equal-signed_example = equal-signed minus_one d2_val minus_one-IsDecimal d2_val-IsDecimal

-- -1234, 2 is -12.34
init_from_int64_offset_lem_example :
    (r : ℕ × Decimal) × (init_from_int64_offset (negsuc 1233) (pos 2) ≡ some r)
    × (2 ≤ 20 → (r.0 ≡ 0) × (signed r.1 ≡ with_sign true (1234 * 10 ^ (20 - 2))) × IsDecimal r.1)
    × (20 < 2 → 0 < 1234 → (r.0 ≡ 1) × (r.1.overflow ≡ true))
init_from_int64_offset_lem_example =
    init_from_int64_offset_lem (negsuc 1233) 2 (omega arith)
      (λ e. let n : 1234 ≡ 2 ^ 63 = ap neg_part e in absurd (omega arith)) (omega arith)

to_int64-init_from_int64_example :
    (d : Decimal) × (init_from_int64 (negsuc 1233) ≡ some (0, d))
    × (d.negative ≡ true)
    × (int64_from 18 d 0 1 0 ≡ some 1234)
    × (to_int64 d ≡ none)
to_int64-init_from_int64_example = to_int64-init_from_int64 (negsuc 1233) (omega arith)

-- 1 with the offset -1 is 10, and 10^19 does not fit behind the offset -3.
negative_offsets : (init_from_int64_offset (pos 1) (negsuc 0) >>= λ r. some (r.1.digit 20)) ≡ some 1
unfolding program
negative_offsets = refl

no_room : (init_from_int64_offset (pos 10) (negsuc 20) >>= λ r. some r.1.overflow) ≡ some true
unfolding program
no_room = refl

-- `llabs(INT64_MIN)`
lowest : init_from_int64 int64_min ≡ none
unfolding program
lowest = refl

divide_by_zero : divide 0 d2_val zero_val ≡ (1, none)
unfolding divide is_zero zero_from
divide_by_zero = refl

-- -0 comes before 0.
less_than-minus_zero : less_than (record zero_val { negative = true }) zero_val ≡ true
unfolding less_than decimal_less_than
less_than-minus_zero = refl

-- 10^19 times itself is 0, with no error.
abbrev ten_19 : Decimal
ten_19 = plain (λ i. if i == 2 then 1 else 0)

multiply_lost :
    ((multiply 0 ten_19 ten_19).0 ≡ 0)
    × ((multiply 0 ten_19 ten_19).1.overflow ≡ false)
    × (equal (multiply 0 ten_19 ten_19).1 zero_val ≡ true)
unfolding multiply multiply_from digit_of_round mul_internal add add_from add_digit equal same_from
multiply_lost = (refl, refl, refl)

-- 10^19 + 10^19 + ... fills the digits for overflow with no error.
add_overflow :
    ((add (plain (λ i. if i == 2 then 9 else 0)) ten_19).0 ≡ 0)
    × ((add (plain (λ i. if i == 2 then 9 else 0)) ten_19).1.overflow ≡ false)
    × ((add (plain (λ i. if i == 2 then 9 else 0)) ten_19).1.digit 1 ≡ 1)
unfolding add add_from add_digit
add_overflow = (refl, refl, refl)
