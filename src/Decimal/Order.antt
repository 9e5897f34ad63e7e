-- ===== src/Decimal/Order.antt =====
-- The comparisons of decimals against the order of the integers.
use store.Prelude.{
  ℕ, zero, suc, ◌+◌, ◌<◌, ◌≡◌, refl, ◌∙◌, Bool, true, false, arith, ltb, ◌==◌, ◌&&◌, if◌then◌else◌,
  Bool-cases, inl, inr, ◌⊎◌, negate,
}
use store.Prelude.Int.{pos_part, neg_part, ltb_ℤ}
use store.Decimal.{
  Decimal, digits, same, compare_from, decimal_less_than, decimal_greater_than, less_than,
  less_than_equal, greater_than, greater_than_equal,
}
use store.Decimal.Value.{value, units, AreDigits, IsDecimal, value_mono}
use store.Decimal.Add.{signed, pos_part_sign, neg_part_sign}

abbrev three_way : ℕ → ℕ → Bool → Bool → Bool → Bool
three_way m n low high def = if ltb m n then low else if ltb n m then high else def

-- The first digit that differs decides which number is lower.
compare_from_values :
    (k : ℕ) (f g : ℕ → ℕ) (i m : ℕ) (low high def : Bool)
    → i + k ≡ m
    → AreDigits f m
    → AreDigits g m
    → value f i ≡ value g i
    → compare_from k f g i low high def ≡ three_way (value f m) (value g m) low high def
unfolding compare_from value
compare_from_values zero f g i m low high def e bf bg v =
    let e' : i ≡ m = omega arith in
    let same : value f m ≡ value g m = rw (← e') v in
    let no : ltb (value g m) (value g m) ≡ false = ground arith in rw (same, no) refl
compare_from_values (suc k) f g i m low high def e bf bg v = elim (Bool-cases (ltb (f i) (g i))) [
  | inl l ↦
      let less : f i < g i = ground arith in
      let higher = value_mono f g (suc i) k m (omega arith) bf (omega (arith, v, less)) in
      let test : ltb (value f m) (value g m) ≡ true = ground arith in rw (l, test) refl
  | inr l ↦ elim (Bool-cases (ltb (g i) (f i))) [
    | inl h ↦
        let less : g i < f i = ground arith in
        let higher = value_mono g f (suc i) k m (omega arith) bg (omega (arith, v, less)) in
        let test : ltb (value g m) (value f m) ≡ true = ground arith in
        let other : ltb (value f m) (value g m) ≡ false = ground arith in
        rw (l, h, test, other) refl
    | inr h ↦
        let level : f i ≡ g i = ground arith in
        rw (l, h)
          (compare_from_values k f g (suc i) m low high def (omega arith) bf bg
            (omega (arith, v, level)))
  ]
]

three_way_swap :
    (m n : ℕ) (low high def : Bool) → three_way m n low high def ≡ three_way n m high low def
three_way_swap m n low high def = elim (Bool-cases (ltb m n)) [
  | inl l ↦ let no : ltb n m ≡ false = ground arith in rw (l, no) refl
  | inr l ↦ rw l refl
]

-- Both comparisons, with the signs `s` and `t`: `u` is the answer where the first number is lower.
abbrev decided : Bool → Bool → Bool → (ℕ → ℕ) → (ℕ → ℕ) → Bool → Bool
decided u s t f g def =
    if negate (same s t)
    then (if s then u else negate u)
    else if s && t
    then compare_from digits f g 0 (negate u) u def
    else compare_from digits f g 0 u (negate u) def

abbrev pub part : Bool → ℕ → ℕ
part s n = if s then 0 else n

abbrev pub debt : Bool → ℕ → ℕ
debt s n = if s then n else 0

pub no_digits : (f g : ℕ → ℕ) → value f 0 ≡ value g 0
unfolding value
no_digits f g = refl

pub empty_zero : (f : ℕ → ℕ) → true ≡ (value f 0 == 0)
unfolding value
empty_zero f = refl

decided_lem :
    (u s t : Bool) (f g : ℕ → ℕ) (def : Bool)
    → AreDigits f digits
    → AreDigits g digits
    → (s ≡ t) ⊎ (0 < value f digits + value g digits)
    → decided u s t f g def
      ≡ three_way
          (part s (value f digits) + debt t (value g digits))
          (part t (value g digits) + debt s (value f digits))
          u
          (negate u)
          def
decided_lem u false false f g def bf bg h =
    let left : value f digits + 0 ≡ value f digits = omega arith in
    let right : value g digits + 0 ≡ value g digits = omega arith in
    rw (left, right)
      (compare_from_values digits f g 0 digits u (negate u) def refl bf bg (no_digits f g))
decided_lem u true true f g def bf bg h =
    let left : 0 + value f digits ≡ value f digits = omega arith in
    let right : 0 + value g digits ≡ value g digits = omega arith in
    rw (left, right)
      (compare_from_values digits f g 0 digits (negate u) u def refl bf bg (no_digits f g)
        ∙ three_way_swap (value f digits) (value g digits) (negate u) u def)
decided_lem u true false f g def bf bg h =
    let some_value : 0 < value f digits + value g digits = elim h [
      | inl e ↦ grind arith
      | inr l ↦ l
    ] in
    let test : ltb 0 (value g digits + value f digits) ≡ true = ground arith in rw test refl
decided_lem u false true f g def bf bg h =
    let some_value : 0 < value f digits + value g digits = elim h [
      | inl e ↦ grind arith
      | inr l ↦ l
    ] in
    let test : ltb 0 (value f digits + value g digits) ≡ true = ground arith in
    let other : ltb (value f digits + value g digits) 0 ≡ false = ground arith in
    rw (other, test) refl

-- Two decimals that are not +0 and -0.
abbrev pub AreApart : Decimal → Decimal → Type 0
AreApart a b = (a.negative ≡ b.negative) ⊎ (0 < units a + units b)

decided-signed :
    (u : Bool) (a b : Decimal) (def : Bool)
    → IsDecimal a
    → IsDecimal b
    → AreApart a b
    → decided u a.negative b.negative a.digit b.digit def ≡ (
        if ltb_ℤ (signed a) (signed b)
        then u
        else if ltb_ℤ (signed b) (signed a)
        then negate u
        else def)
decided-signed u a b def va vb h =
    rw
      (
        pos_part_sign a.negative a,
        neg_part_sign a.negative a,
        pos_part_sign b.negative b,
        neg_part_sign b.negative b,
      )
      (decided_lem u a.negative b.negative a.digit b.digit def va.below vb.below h)

three_way-ltb : (m n : ℕ) → three_way m n true false false ≡ ltb m n
three_way-ltb m n = ground arith

three_way_other : (m n : ℕ) → three_way m n false true false ≡ ltb n m
three_way_other m n = ground arith

three_way_most : (m n : ℕ) → three_way m n true false true ≡ negate (ltb n m)
three_way_most m n = ground arith

three_way_least : (m n : ℕ) → three_way m n false true true ≡ negate (ltb m n)
three_way_least m n = ground arith

-- `signed a` is below `signed b` where `lesser a b` is below `lesser b a`.
abbrev lesser : Decimal → Decimal → ℕ
lesser a b = pos_part (signed a) + neg_part (signed b)

-- For two decimals in range that have the same sign flag or are not both 0, each of the four
-- comparisons answers as the order of the integers that they stand for.
pub comparisons_signed :
    (a b : Decimal)
    → IsDecimal a
    → IsDecimal b
    → AreApart a b
    → (less_than a b ≡ ltb_ℤ (signed a) (signed b))
      × (greater_than a b ≡ ltb_ℤ (signed b) (signed a))
      × (less_than_equal a b ≡ negate (ltb_ℤ (signed b) (signed a)))
      × (greater_than_equal a b ≡ negate (ltb_ℤ (signed a) (signed b)))
unfolding less_than less_than_equal greater_than greater_than_equal decimal_less_than
    decimal_greater_than
comparisons_signed a b va vb h =
    let l = decided-signed true a b false va vb h in
    let g = decided-signed false a b false va vb h in
    let le = decided-signed true a b true va vb h in
    let ge = decided-signed false a b true va vb h in
    (
      l ∙ three_way-ltb (lesser a b) (lesser b a),
      g ∙ three_way_other (lesser a b) (lesser b a),
      le ∙ three_way_most (lesser a b) (lesser b a),
      ge ∙ three_way_least (lesser a b) (lesser b a),
    )
