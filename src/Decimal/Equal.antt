-- ===== src/Decimal/Equal.antt =====
-- `fs_decimal_equal` against the equality of the integers.
use store.Prelude.{
  ℕ, zero, suc, ◌+◌, ◌*◌, ◌<◌, ◌≡◌, ◌≢◌, refl, ap₂, ◌∙◌, Bool, true, false, arith, ltb, ◌==◌, ◌!=◌,
  ◌&&◌, if◌then◌else◌, Bool-cases, inl, inr, negate, Option, none, some,
}
use store.Prelude.Int.{ltb_ℤ}
use store.Decimal.{Decimal, digits, same, same_from, equal}
use store.Decimal.Value.{value, units, AreDigits, IsDecimal, value_mono}
use store.Decimal.Add.{signed, pos_part_sign, neg_part_sign}
use store.Decimal.Order.{part, debt, no_digits, empty_zero}

-- The loop of `equal`: `none` where the numbers differ, else whether they are 0.
same_from_values :
    (k : ℕ) (f g : ℕ → ℕ) (i m : ℕ) (z : Bool)
    → i + k ≡ m
    → AreDigits f m
    → AreDigits g m
    → value f i ≡ value g i
    → z ≡ (value f i == 0)
    → same_from k f g i z ≡ (if value f m == value g m then some (value f m == 0) else none)
unfolding same_from value
same_from_values zero f g i m z e bf bg v h =
    let e' : i ≡ m = omega arith in
    let v' : value f m ≡ value g m = rw (← e') v in
    let test : (value g m == value g m) ≡ true = ground arith in
    let zero_test : z ≡ (value g m == 0) = h ∙ rw (e', v') refl in rw (v', test, zero_test) refl
same_from_values (suc k) f g i m z e bf bg v h = elim (Bool-cases (f i != g i)) [
  | inl d ↦
      let apart : value f m ≢ value g m = elim (Bool-cases (ltb (f i) (g i))) [
        | inl l ↦
            let s =
              value_mono f g (suc i) k m (omega arith) bf
                (let l' : f i < g i = ground arith in omega (arith, v, l')) in
            omega (arith, s)
        | inr l ↦
            let s =
              value_mono g f (suc i) k m (omega arith) bg
                (let l' : g i < f i = ground arith in omega (arith, v, l')) in
            omega (arith, s)
      ] in
      let test : (value f m == value g m) ≡ false = ground arith in rw (d, test) refl
  | inr d ↦
      let level : f i ≡ g i = ground arith in
      let next : (if f i != 0 then false else z) ≡ (value f i * 10 + f i == 0) =
        rw h (ground arith) in
      rw d (
        same_from_values k f g (suc i) m (if f i != 0 then false else z) (omega arith) bf bg
          (omega (arith, v, level)) next)
]

-- What `equal` makes of the result of its loop.
abbrev verdict : Bool → Bool → Option Bool → Bool
verdict s t r = elim r [
  | none ↦ false
  | some is_zero ↦ if is_zero then true else if negate (same s t) then false else true
]

verdict_lem :
    (s t : Bool) (m n : ℕ)
    → verdict s t (if m == n then some (m == 0) else none)
      ≡ negate (ltb (part s m + debt t n) (part t n + debt s m))
        && negate (ltb (part t n + debt s m) (part s m + debt t n))
verdict_lem false false m n = ground arith
verdict_lem false true m n = ground arith
verdict_lem true false m n = ground arith
verdict_lem true true m n = ground arith

-- For two decimals in range, equal answers whether neither of the integers that they stand for is
-- below the other, whatever the sign flag of a 0.
pub equal-signed :
    (a b : Decimal)
    → IsDecimal a
    → IsDecimal b
    → equal a b ≡ negate (ltb_ℤ (signed a) (signed b)) && negate (ltb_ℤ (signed b) (signed a))
unfolding equal
equal-signed a b va vb =
    let over : same a.overflow b.overflow ≡ true = ap₂ same va.no_overflow vb.no_overflow in
    let error : same a.syntax_error b.syntax_error ≡ true = ap₂ same va.no_error vb.no_error in
    let flags : (same a.overflow b.overflow && same a.syntax_error b.syntax_error) ≡ true =
      ap₂ (λ x y. x && y) over error in
    let loop =
      same_from_values digits a.digit b.digit 0 digits true refl va.below vb.below
        (no_digits a.digit b.digit) (empty_zero a.digit) in
    rw flags (
      rw loop (
        rw
          (
            pos_part_sign a.negative a,
            neg_part_sign a.negative a,
            pos_part_sign b.negative b,
            neg_part_sign b.negative b,
          )
          (verdict_lem a.negative b.negative (units a) (units b))))
