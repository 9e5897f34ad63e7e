-- ===== src/Decimal/Ints.antt =====
-- The conversion of integers into decimals.
use native.Mathlib.Nat.{pow-suc, mul-le-mul, pow-le-pow_right}
use store.Prelude.{
  ℕ, zero, suc, ◌+◌, ◌-◌, ◌*◌, ◌/◌, ◌%◌, ◌^◌, ◌≤◌, ◌<◌, ◌≡◌, refl, sym, ap, ap₂, ◌∙◌, Bool, true,
  false, arith, update, ltb, ◌==◌, ◌||◌, Bool-cases, inl, inr, leb, ◌≢◌, ==→eq, some, if◌then◌else◌,
}
use store.Prelude.Int.{ℤ, pos, negsuc}
use store.Decimal.{
  Decimal, point, digits, zero_val, uint64_from, place_behind, from_uint64, abs, is_negative, llabs,
  int64_min, init_from_int64_offset,
}
use store.Decimal.Value.{value, units, IsDecimal}
use store.Decimal.Add.{signed, with_sign, small_IsDecimal}

-- The digits of `i` stand before the place `end` of a decimal that was `d`.
pub record Written (i : ℕ) (d r : Decimal) (end : ℕ) : Type 0 where
  pub low : value r.digit end ≡ i
  pub rest : (j : ℕ) → end ≤ j → r.digit j ≡ d.digit j
  pub below : ((j : ℕ) → d.digit j ≤ 9) → (j : ℕ) → r.digit j ≤ 9
  pub same_sign : r.negative ≡ d.negative
  pub same_overflow : r.overflow ≡ d.overflow
  pub same_error : r.syntax_error ≡ d.syntax_error

zeros : (f : ℕ → ℕ) (n : ℕ) → ((j : ℕ) → j < n → f j ≡ 0) → value f n ≡ 0
unfolding value
zeros f zero z = refl
zeros f (suc n) z = omega (arith, zeros f n (λ j l. z j (omega arith)), z n (omega arith))

zero-Written :
    (d : Decimal) (i end : ℕ) → i ≡ 0 → ((j : ℕ) → j < end → d.digit j ≡ 0) → Written i d d end
zero-Written d i end e z = record {
  low = zeros d.digit end z ∙ sym e;
  rest = λ j l. refl;
  below = λ b. b;
  same_sign = refl;
  same_overflow = refl;
  same_error = refl;
}

-- One more digit in front of those of `i / 10`.
digit-Written :
    (d r : Decimal) (i end : ℕ)
    → Written (i / 10) (record d { digit = update d.digit end (i % 10) }) r end
    → Written i d r (suc end)
unfolding value
digit-Written d r i end w =
    let here : r.digit end ≡ i % 10 = w.rest end (omega arith) ∙ ground arith in
    record {
      low = omega (arith, w.low, here);
      rest = λ j l. w.rest j (omega arith) ∙ ground arith;
      below = λ b. w.below (λ j. let bj = b j in ground arith);
      same_sign = w.same_sign;
      same_overflow = w.same_overflow;
      same_error = w.same_error;
    }

uint64_from-none :
    (k : ℕ) (d : Decimal) (i end : ℕ) → i ≡ 0 → uint64_from (suc k) d i end ≡ (true, d)
unfolding uint64_from
uint64_from-none k d i end e = rw e refl

uint64_from_more :
    (k : ℕ) (d : Decimal) (i end : ℕ)
    → 1 ≤ i
    → suc end ≤ digits
    → uint64_from (suc k) d i (suc end)
      ≡ uint64_from k (record d { digit = update d.digit end (i % 10) }) (i / 10) end
unfolding uint64_from
uint64_from_more k d i end m le =
    let some_left : (i == 0) ≡ false = ground arith in
    let inside : (suc end == 0 || ltb digits (suc end)) ≡ false = ground arith in
    let pred : suc end - 1 ≡ end = omega arith in rw (some_left, inside, pred) refl

uint64_from-Written :
    (k : ℕ) (d : Decimal) (i end : ℕ)
    → i < 10 ^ k
    → i < 10 ^ end
    → end ≤ digits
    → ((j : ℕ) → j < end → d.digit j ≡ 0)
    → ((uint64_from (suc k) d i end).0 ≡ true) × Written i d (uint64_from (suc k) d i end).1 end
uint64_from-Written zero d i end few room le z =
    let e : i ≡ 0 = omega arith in
    rw (uint64_from-none zero d i end e) (refl, zero-Written d i end e z)
uint64_from-Written (suc k) d i zero few room le z =
    let e : i ≡ 0 = omega arith in
    rw (uint64_from-none (suc k) d i zero e) (refl, zero-Written d i zero e z)
uint64_from-Written (suc k) d i (suc end) few room le z = elim (Bool-cases (i == 0)) [
  | inl test ↦
      let e : i ≡ 0 = ground arith in
      rw (uint64_from-none (suc k) d i (suc end) e) (refl, zero-Written d i (suc end) e z)
  | inr test ↦
      let (fits, w) =
        uint64_from-Written k (record d { digit = update d.digit end (i % 10) }) (i / 10) end
          (omega (arith, pow-suc 10 k)) (omega (arith, pow-suc 10 end)) (omega arith)
          (λ j l. let zj = z j (omega arith) in ground arith) in
      rw (uint64_from_more (suc k) d i end (ground arith) le) (
        fits,
        digit-Written d
            (uint64_from (suc k) (record d { digit = update d.digit end (i % 10) }) (i / 10) end).1
            i end w,
      )
]

uint64_from_outside :
    (k : ℕ) (d : Decimal) (i end : ℕ)
    → 0 < i
    → digits < end
    → uint64_from (suc k) d i end ≡ (false, record d { overflow = true })
unfolding uint64_from
uint64_from_outside k d i end some_digit far =
    let left : (i == 0) ≡ false = ground arith in
    let outside : (end == 0 || ltb digits end) ≡ true = ground arith in rw (left, outside) refl

-- Zeros behind the digits.
pub value_zeros :
    (f : ℕ → ℕ) (n k m : ℕ)
    → n + k ≡ m
    → ((j : ℕ) → n ≤ j → f j ≡ 0)
    → value f m ≡ value f n * 10 ^ k
unfolding value
value_zeros f n zero m e z = let e' : m ≡ n = omega arith in rw e' (omega arith)
value_zeros f n (suc k) zero e z = absurd (omega arith)
value_zeros f n (suc k) (suc m) e z =
    let ih = value_zeros f n k m (omega arith) z in
    let last = z m (omega arith) in rw (pow-suc 10 k, last, ih) (grind arith)

-- What `from_uint64` makes of a new decimal with the sign `s`.
pub record IsFrom (i offset : ℕ) (s : Bool) (r : ℕ × Decimal) : Type 0 where
  pub run : from_uint64 (record zero_val { negative = s }) i (pos offset) ≡ some r
  pub status : r.0 ≡ 0
  pub amount : value r.1.digit (point + offset) ≡ i
  pub total : units r.1 ≡ i * 10 ^ (20 - offset)
  pub sign : r.1.negative ≡ s
  pub valid : IsDecimal r.1

pub small_IsFrom :
    (s : Bool) (i offset : ℕ) → i < 2 ^ 64 → offset ≤ 20 → (r : ℕ × Decimal) × IsFrom i offset s r
unfolding from_uint64 place_behind
small_IsFrom s i offset small le =
    let d = record zero_val { negative = s } in
    let (fits, w) =
      uint64_from-Written 63 d i (point + offset) (omega arith)
        (let grown : 10 ^ 22 ≤ 10 ^ (22 + offset) =
            pow-le-pow_right (omega arith) {i = 22} {j = 22 + offset} (omega arith) in
          omega (arith, grown))
        (omega arith) (λ j l. refl) in
    let bound : 10 ^ (20 - offset) ≤ 10 ^ 20 =
      pow-le-pow_right (omega arith) {i = 20 - offset} {j = 20} (omega arith) in
    let le64 : i ≤ 2 ^ 64 = omega arith in
    let product : i * 10 ^ (20 - offset) ≤ 2 ^ 64 * 10 ^ 20 = mul-le-mul le64 bound in
    let all = w.below (λ j. omega arith) in
    let total =
      value_zeros (uint64_from 64 d i (point + offset)).1.digit (point + offset) (20 - offset)
        digits (omega arith) w.rest in
    let whole : units (uint64_from 64 d i (point + offset)).1 ≡ i * 10 ^ (20 - offset) =
      total ∙ ap (λ (x : ℕ). x * 10 ^ (20 - offset)) w.low in
    let in_int : leb (2 ^ 31) (point + offset) ≡ false = ground arith in
    (
      (0, (uint64_from 64 d i (point + offset)).1),
      record {
        run = rw (in_int, fits) refl;
        status = refl;
        amount = w.low;
        total = whole;
        sign = w.same_sign;
        valid =
            small_IsDecimal (uint64_from 64 d i (point + offset)).1 w.same_overflow w.same_error
              (λ j l m. all j) (omega (arith, whole, product));
      },
    )

pub llabs_lem : (i : ℤ) → i ≢ int64_min → llabs i ≡ some (abs i)
unfolding llabs
llabs_lem (pos n) h = refl
llabs_lem (negsuc n) h = elim (Bool-cases (n == 2 ^ 63 - 1)) [
  | inl e ↦ absurd (h (ap negsuc (==→eq n (2 ^ 63 - 1) e)))
  | inr e ↦ rw e refl
]

-- For an integer below 2^64 in size that is not the lowest of 64 bits, and an offset that is not
-- negative and below 2^31 - 22, init_from_int64_offset ends without a fault: up to an offset of 20
-- places behind the point it returns 0 and a decimal in range that stands for the integer shifted
-- by the offset; beyond it, an integer that is not 0 gives 1 and the overflow flag.
pub init_from_int64_offset_lem :
    (i : ℤ) (offset : ℕ)
    → abs i < 2 ^ 64
    → i ≢ int64_min
    → offset < 2 ^ 31 - point
    → (r : ℕ × Decimal) × (init_from_int64_offset i (pos offset) ≡ some r)
      × (offset ≤ 20
          → (r.0 ≡ 0)
            × (signed r.1 ≡ with_sign (is_negative i) (abs i * 10 ^ (20 - offset)))
            × IsDecimal r.1)
      × (20 < offset → 0 < abs i → (r.0 ≡ 1) × (r.1.overflow ≡ true))
unfolding init_from_int64_offset from_uint64 place_behind
init_from_int64_offset_lem i offset small other inside =
    let in_int : leb (2 ^ 31) (point + offset) ≡ false = ground arith in
    let val = llabs_lem i other in
    let d = record zero_val { negative = is_negative i } in
    elim (Bool-cases (leb offset 20)) [
      | inl e ↦
          let le : offset ≤ 20 = ground arith in
          let (r, w) = small_IsFrom (is_negative i) (abs i) offset small le in
          (
            r,
            simp val w.run,
            (λ _. (w.status, ap₂ with_sign w.sign w.total, w.valid)),
            (λ far. absurd (omega arith)),
          )
      | inr e ↦
          let far : 20 < offset = ground arith in
          let (fits, d') = uint64_from 64 d (abs i) (point + offset) in
          (
            (if fits then 0 else 1, d'),
            simp (val, in_int) refl,
            (λ le. absurd (omega arith)),
            (λ _ some_digit.
                let gone =
                  uint64_from_outside 63 d (abs i) (point + offset) some_digit (omega arith) in
                rw gone (refl, refl)),
          )
    ]
